-- ===== src/Lib.antt =====
-- DRB node: a leader and regular nodes that make random numbers by commit and reveal. In a round
-- each activated operator sends the leader a CVS, then a COS with Keccak256(COS) = CVS, then, when
-- it is its turn in the reveal order, a secret value with Keccak256(secret) = COS. When all CVS are
-- there the leader sends their Merkle root to the contract; when all COS are there it makes the
-- reveal order and asks the operators for their secrets one by one.
--
-- The parts, and where each is modelled. Names are the source's in snake_case.
--   Base          tests, lists measured by native numbers, byte strings, Go maps (association lists
--                 in insertion order, a write replaces the entry of its key)
--   Crypto        Keccak-256, addresses and signatures: third-party packages, so parameters with
--                 the laws that they document
--   Go            what the source uses of Go's library: hexadecimal text, numbers as text and bytes,
--                 JSON files with their faults, sort.Slice (a parameter with its laws), split texts,
--                 functions that return an error or end the process (Attempt)
--   Utils         utils/utils.go (Signature, Requests), utils/leaderNodeData.go (LeaderNodeData),
--                 utils/commit.go (Commit), utils/peer_id_storage.go with CreateHost of
--                 libp2putils/libp2putils.go (PeerId), utils/node_info.go and utils/ip_retriever.go
--                 (NodeInfo), utils/streamHandler.go with ConnectToPeer of
--                 libp2putils/libp2putils.go (Network), utils/clients.go (Clients)
--   CommitReveal  commit-reveal2/commit.go (Commit), merkleTree.go (Merkle), reveal_order.go
--                 (RevealOrder)
--   Eth           eth/eth.go: CallSmartContract, ExecuteTransaction, the wait for a receipt
--   Leader        nodes/leaderNode.go and nodes/leaderNode_helper: the memory and its helpers
--                 (State), the handlers of the streams (Handlers), the Merkle root and its
--                 transaction (MerkleRoot), the requests for secrets (Requests), the handler of
--                 secrets (Secrets), the rounds of the subgraph (Rounds), the file of registered
--                 nodes (Nodes), RegisterNode and ActivateOnChain (Registration), the monitor that
--                 makes the random numbers (Monitor), RunLeaderNode (Run), what the memory
--                 satisfies (Memory) and the form of what the leader sends (Outputs)
--   Regular       nodes/regularNode.go and nodes/regularNode_helper: what a regular node keeps and
--                 asks of others (State), the signature over a CVS (CvsSignature), the requests to the
--                 leader (Sends), the deposit (Deposit), the rounds of the subgraph (Rounds), the
--                 handler of requests for secrets (Secrets), RunRegularNode with that handler (Node)
--   Protocol      what a regular node sends, at the leader: an honest node's commits (Honest), and a
--                 secret value from the node's file to the leader's (Reveal)
--   Examples      concrete packages for the parameters, and runs
--
-- A handler is a function from a node's state to the next: memory, files, and the outputs so far.
-- What the outside answers (subgraph, chain, other nodes) is a parameter of each handler, and each
-- file carries the faults that its next uses meet. Handlers run in goroutines; commitMu makes each
-- part between Lock and Unlock one step (Memory.Steps), so that an interleaving is a sequence of
-- such steps. log.Fatal sets a flag, and what follows it does not run. In a run of either node
-- (Leader.Run, Regular.Node) each event ends before the next: a request to a regular node is handled
-- between two turns of its loop, or, where it comes during the start, before what is left of that.
--
-- Bounds: hash_loop counts its rounds down from the number of leaves less one as in the source,
-- and so does reduce, the queue it is compared with. wait_for_transaction_success, which the
-- source repeats until a reply settles the transaction, runs on fuel of one unit for each reply;
-- with more units than there are replies "not found" before the first other one it returns, and
-- RunRegularNode and RunLeaderNode run for a given list of events. A [32]byte is a byte
-- list of 32, numbers of math/big have no bound, and strconv's ranges are written out.
--
-- Not modelled: the contract binding (generated), logging, the texts of the GraphQL queries, the
-- choice of cmd/main.go between the two nodes, and the pauses. What libp2p, go-multiaddr and HTTP
-- answer is a parameter. The success of a transaction is a parameter of the code that asks for one,
-- and eth.ExecuteTransaction is modelled on its own. Whether a request to the leader arrives is a
-- parameter of each request; a regular node's host is made by CreateHost from the files that the node
-- finds, and the leader's, whose identity its code does not use, may start or not.
pub mod Base
pub mod Crypto
pub mod Go
pub mod Utils
pub mod CommitReveal
pub mod Eth
pub mod Leader
pub mod Regular
pub mod Protocol
pub mod Examples
