-- ===== src/Leader/MerkleRoot.antt =====
-- nodes/leaderNode.go: the Merkle root of a round, from the commits in memory to the transaction.
pub mod Reached
pub mod Sent
pub mod Once
pub mod Sends
use drb_node.Base.{
  ℕ, zero, suc, Bytes, bytes_eq, Bool, true, false, not, Option, none, some, List, [], ◌∷◌, ◌++◌,
  codes, ◌==◌, if◌then◌else◌, zero32, copy_into, ◌>>=◌,
}
use drb_node.Base.Maps.{Map, get, put}
use drb_node.Utils.Clients.{abi_loads}
use drb_node.Crypto.{Ethereum}
use drb_node.Go.File.{JsonFile}
use drb_node.Go.Number.{ℤ, pos, ParsedInt, int_value, syntax_error, range_error, parse_int}
use drb_node.Utils.LeaderNodeData.{LeaderCommitData, save_leader_commit_data}
use drb_node.CommitReveal.Merkle.{MerkleResult, merkle_root, create_merkle_tree}
use drb_node.Leader.State.{
  submits_merkle_root, Leader, Setup, Replies, fatal, is_merkle_root_submitted, round_map, or_nil,
}

abbrev pub zero_operator : Bytes
zero_operator = codes "0x0000000000000000000000000000000000000000"

-- filterOperators, and the same loop in generateMerkleRoot
unfoldable pub filter_operators : List Bytes → List Bytes
filter_operators [] = []
filter_operators (op ∷ ops) =
    let rest = filter_operators ops in if op == zero_operator then rest else op ∷ rest

-- roundToInt: the value that comes beside an error is used.
unfoldable pub round_to_int : Bytes → ℤ
round_to_int round = elim (parse_int round) [
  | int_value z ↦ z
  | syntax_error ↦ pos 0
  | range_error z ↦ z
]

first_reply : Option (List (List Bytes)) → Option (List Bytes)
first_reply none = none
first_reply (some []) = none
first_reply (some (ops ∷ _)) = some ops

-- FetchActivatedOperators after its test of SUBGRAPH_URL, which those that call it make here.
unfoldable pub fetch_activated_operators : Replies → Bytes → Option (List Bytes)
unfolding first_reply
fetch_activated_operators replies round = first_reply (replies.operators (round_to_int round))

-- The loop of updateCommitDataAfterSubmit over the entries of the round.
unfoldable pub mark_submitted :
    Map Bytes LeaderCommitData
    → JsonFile LeaderCommitData
    → Map Bytes LeaderCommitData × JsonFile LeaderCommitData
mark_submitted [] file = ([], file)
mark_submitted ((addr, d) ∷ rest) file =
    let d' = record d { submit_merkle_root_done = true } in
    let (e, file') = save_leader_commit_data d' file in
    let (rest', file'') = mark_submitted rest file' in
    ((addr, elim e [ none ↦ d' | some _ ↦ d ]) ∷ rest', file'')

-- The round's map in memory after the loop, where it has one.
unfoldable pub marked_in : Bytes → Option (Map Bytes LeaderCommitData) → Leader → Leader
unfolding mark_submitted
marked_in round none s = s
marked_in round (some m) s =
    let (m', file) = mark_submitted m s.leader_commits in
    record s { committed_nodes = put round m' s.committed_nodes; leader_commits = file }

unfoldable pub update_commit_data_after_submit : Bytes → Leader → Leader
unfolding marked_in
update_commit_data_after_submit round s = marked_in round (get round s.committed_nodes) s

-- The leaves, in the order of the operators; `none` where a CVS is missing.
unfoldable pub collect_leaves :
    (Bytes → Bytes) → List Bytes → Map Bytes LeaderCommitData → Option (List Bytes)
collect_leaves to_address [] commits = some []
collect_leaves to_address (op ∷ ops) commits = do
  d ← get (to_address op) commits
  rest ← collect_leaves to_address ops commits
  if d.cvs == zero32 then none else some (d.cvs ∷ rest)

module _ (eth : Ethereum) (setup : Setup) (replies : Replies) where
  transact : Bytes → ℤ → Bytes → Leader → Leader
  unfolding update_commit_data_after_submit
  transact round round_int root s =
      let s1 = record s {
        outputs = s.outputs ++ submits_merkle_root round_int (copy_into zero32 root) ∷ [];
      } in
      if replies.root_accepted round_int then update_commit_data_after_submit round s1 else s1

  with_round : Bytes → ParsedInt → Bytes → Leader → Leader
  unfolding transact
  with_round round (int_value z) root s =
      if setup.leader_private_key == []
      then fatal s
      else elim (setup.hex_to_ecdsa setup.leader_private_key) [
        | none ↦ s
        | some key ↦ transact round z root s
      ]
  with_round round syntax_error root s = s
  with_round round (range_error _) root s = s

  -- submitMerkleRoot
  unfoldable pub submit_merkle_root : Bytes → Bytes → Leader → Leader
  unfolding with_round
  submit_merkle_root round root s =
      if setup.eth_rpc_url == []
      then fatal s
      else if not (setup.dials setup.eth_rpc_url)
      then s
      else if setup.contract_address == []
      then fatal s
      else if not (abi_loads setup.abi)
      then s
      else with_round round (parse_int round) root s

  with_tree : Bytes → MerkleResult → Leader → Leader
  unfolding submit_merkle_root
  with_tree round (merkle_root root) s = submit_merkle_root round root s
  with_tree round _ s = s

  with_leaves : Bytes → Option (List Bytes) → Leader → Leader
  unfolding with_tree
  with_leaves round none s = s
  with_leaves round (some []) s = s
  with_leaves round (some (leaf ∷ leaves)) s =
      with_tree round (create_merkle_tree eth.hasher (leaf ∷ leaves)) s

  with_commits : Bytes → List Bytes → Map Bytes LeaderCommitData → Leader → Leader
  unfolding with_leaves collect_leaves
  with_commits round operators [] s = s
  with_commits round operators (c ∷ cs) s =
      with_leaves round (collect_leaves eth.hex_to_address operators (c ∷ cs)) s

  with_operators : Bytes → List Bytes → Leader → Leader
  unfolding with_commits or_nil
  with_operators round [] s = s
  with_operators round (op ∷ ops) s = with_commits round (op ∷ ops) (round_map round s) s

  with_fetched : Bytes → Option (List Bytes) → Leader → Leader
  unfolding with_operators filter_operators
  with_fetched round none s = s
  with_fetched round (some fetched) s = with_operators round (filter_operators fetched) s

  -- generateMerkleRoot after its test, which has a critical section of its own.
  unfoldable pub root_after_test : Bytes → Leader → Leader
  unfolding with_fetched
  root_after_test round s =
      if setup.subgraph_url == []
      then fatal s
      else with_fetched round (fetch_activated_operators replies round) s

  -- generateMerkleRoot
  unfoldable pub generate_merkle_root : Bytes → Leader → Leader
  unfolding root_after_test
  generate_merkle_root round s =
      if is_merkle_root_submitted round s then s else root_after_test round s
