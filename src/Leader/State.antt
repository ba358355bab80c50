-- ===== src/Leader/State.antt =====
-- nodes/leaderNode.go: the leader's state in memory and its files, and the helpers that are called
-- with commitMu locked.
use drb_node.Base.{
  ℕ, Bytes, bytes_eq, Bool, true, false, not, Option, none, some, List, [], ◌∷◌, ◌==◌, ◌||◌, ◌&&◌,
  if◌then◌else◌, zero32,
}
use drb_node.Base.Maps.{Map, get, put}
use drb_node.Crypto.{Ethereum}
use drb_node.Go.File.{JsonFile}
use drb_node.Go.Number.{ℤ}
use drb_node.Utils.Clients.{AbiPackages}
use drb_node.Utils.Requests.{SecretValueRequest}
use drb_node.Utils.Network.{Network}
use drb_node.Utils.LeaderNodeData.{LeaderCommitData, new_commit_data}
use drb_node.CommitReveal.RevealOrder.{RevealData}

-- registration_helper.go
pub record NodeInfo : Type 0 where
  pub ip : Bytes
  pub port : Bytes
  pub peer_id : Bytes

-- What the leader asks of others: a transaction of eth.ExecuteTransaction, or a request that
-- reached a regular node.
pub data Output : Type 0 where
  submits_merkle_root : ℤ → Bytes → Output
  generates_random_number : ℤ → List Bytes → List ℕ → List Bytes → List Bytes → Output
  requests_secret : Bytes → NodeInfo → SecretValueRequest → Output
  activates : Bytes → Output

pub record Leader : Type 0 where
  pub committed_nodes : Map Bytes (Map Bytes LeaderCommitData)
  pub activated_operators : Map Bytes (Map Bytes Bool)
  pub leader_commits : JsonFile LeaderCommitData
  pub reveal_orders : JsonFile RevealData
  pub registered_nodes : JsonFile NodeInfo
  pub reveal_request_status : Map Bytes (List Bytes)
  pub outputs : List Output
  -- log.Fatal has ended the process.
  pub exited : Bool

-- What the leader finds at a start: environment variables, and whether the Ethereum endpoint and
-- the contract's ABI can be had.
pub record Setup : Type 0 where
  pub subgraph_url : Bytes
  pub eth_rpc_url : Bytes
  pub contract_address : Bytes
  pub leader_private_key : Bytes
  pub dials : Bytes → Bool
  pub abi : AbiPackages
  pub hex_to_ecdsa : Bytes → Option Bytes

-- What the outside answers during one handler: the subgraph to the two queries for the activated
-- operators of a round (`none` is an error; each entry lists operators), the chain to the
-- transactions, and the network to the streams.
pub record Replies : Type 0 where
  pub activation : ℤ → Option (List (List Bytes))
  pub operators : ℤ → Option (List (List Bytes))
  pub root_accepted : ℤ → Bool
  pub random_number_accepted : ℤ → Bool
  pub network : Network

abbrev pub fatal : Leader → Leader
fatal s = record s { exited = true }

-- What follows a call that may have ended the process.
abbrev pub if_running : (Leader → Leader) → Leader → Leader
if_running next s = if s.exited then s else next s

unfoldable pub any_submitted : Map Bytes LeaderCommitData → Bool
any_submitted [] = false
any_submitted ((addr, d) ∷ rest) = d.submit_merkle_root_done || any_submitted rest

unfoldable pub submitted_in : Option (Map Bytes LeaderCommitData) → Bool
unfolding any_submitted
submitted_in none = false
submitted_in (some round_map) = any_submitted round_map

-- isMerkleRootSubmitted
unfoldable pub is_merkle_root_submitted : Bytes → Leader → Bool
unfolding submitted_in
is_merkle_root_submitted round s = submitted_in (get round s.committed_nodes)

unfoldable pub has_cvs : Option LeaderCommitData → Bool
has_cvs none = false
has_cvs (some d) = not (d.cvs == zero32)

unfoldable pub all_have_cvs : Map Bytes Bool → Map Bytes LeaderCommitData → Bool
unfolding has_cvs
all_have_cvs [] commits = true
all_have_cvs ((op, _) ∷ ops) commits = has_cvs (get op commits) && all_have_cvs ops commits

unfoldable pub received_in : Option (Map Bytes Bool) → Option (Map Bytes LeaderCommitData) → Bool
unfolding all_have_cvs
received_in none commits = false
received_in (some []) commits = false
received_in (some (op ∷ ops)) none = false
received_in (some (op ∷ ops)) (some []) = false
received_in (some (op ∷ ops)) (some (c ∷ cs)) = all_have_cvs (op ∷ ops) (c ∷ cs)

-- allCommitsReceivedUnlocked
unfoldable pub all_commits_received : Bytes → Leader → Bool
unfolding received_in
all_commits_received round s =
    received_in (get round s.activated_operators) (get round s.committed_nodes)

unfoldable pub or_nil : Option (Map Bytes LeaderCommitData) → Map Bytes LeaderCommitData
or_nil none = []
or_nil (some m) = m

-- committedNodes[round], which is nil where the round is missing
abbrev pub round_map : Bytes → Leader → Map Bytes LeaderCommitData
round_map round s = or_nil (get round s.committed_nodes)

-- updateInMemoryData
unfoldable pub update_in_memory : Bytes → Bytes → LeaderCommitData → Leader → Leader
unfolding or_nil
update_in_memory round addr d s = record s {
  committed_nodes = put round (put addr d (round_map round s)) s.committed_nodes;
}

module _ (eth : Ethereum) where
  -- The entry that was found, or a new one.
  unfoldable pub created :
      Bytes → Bytes → Option LeaderCommitData → Leader → Leader × LeaderCommitData
  created round addr (some d) s = (s, d)
  created round addr none s =
      let d = new_commit_data round (eth.address_hex addr) in (update_in_memory round addr d s, d)

  -- getOrCreateLeaderCommitData: a new entry is put into the map.
  unfoldable pub get_or_create : Bytes → Bytes → Leader → Leader × LeaderCommitData
  unfolding created update_in_memory or_nil
  get_or_create round addr s = created round addr (get addr (round_map round s)) s
