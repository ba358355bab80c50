-- ===== src/Examples/Roots.antt =====
-- nodes/leaderNode.go: the Merkle root of a round with two operators.
use drb_node.Base.{
  Bytes, [], ap, arith, bytes_eq, codes, copy_into, false, get_or, length, list_equals, refl,
  replicate, some, zero32, ℕ, ◌++◌, ◌<◌, ◌∷◌, ◌≡◌, ◌≢◌,
}
use drb_node.Base.Maps.{get}
use drb_node.Go.Number.{pos, int_value, parse_int}
use drb_node.Utils.Clients.{abi_loads}
use drb_node.Utils.LeaderNodeData.{LeaderCommitData, new_commit_data}
use drb_node.CommitReveal.Merkle.{
  merkle_root, create_merkle_tree, efficient_keccak256, hash_loop, merkle_of, take_node, pad_leaf,
}
use drb_node.Leader.State.{
  submits_merkle_root, Leader, Replies, is_merkle_root_submitted, or_nil, round_map,
}
use drb_node.Leader.MerkleRoot.{
  root_after_test, zero_operator, filter_operators, collect_leaves, fetch_activated_operators,
  round_to_int, update_commit_data_after_submit, submit_merkle_root, generate_merkle_root,
}
use drb_node.Leader.MerkleRoot.Sent.{
  Outcome, LeavesOf, no_operator, one_more, generate_merkle_root-Outcome,
}
use drb_node.Leader.MerkleRoot.Once.{IsWritable, generate_merkle_root-once}
use drb_node.Leader.MerkleRoot.Sends.{
  IsReady, Sends, generate_merkle_root-Sends, root_after_test-twice,
}
use drb_node.Examples.Toy.{toy_ethereum, toy_hasher, toy_address, toy_digest, checksum}
use drb_node.Examples.Files.{key1}
use drb_node.Examples.Memory.{empty_leader, setup1, replies1}

abbrev key2 : Bytes
key2 = replicate 20 4

abbrev entry : ℕ → Bytes → LeaderCommitData
entry byte eoa = record (new_commit_data (codes "7") eoa) { cvs = replicate 32 byte }

abbrev two_commits : Leader
two_commits = record empty_leader {
  committed_nodes = (codes "7", (key1, entry 5 key1) ∷ (key2, entry 6 key2) ∷ []) ∷ [];
}

-- The subgraph names the zero address too.
abbrev replies2 : Replies
replies2 = record replies1 { operators = λ _. some ((key2 ∷ zero_operator ∷ key1 ∷ []) ∷ []) }

two_commits-Outcome :
    Outcome toy_ethereum setup1 replies2
      (codes "7")
      two_commits
      (generate_merkle_root toy_ethereum setup1 replies2 (codes "7") two_commits)
two_commits-Outcome =
    generate_merkle_root-Outcome toy_ethereum setup1 replies2 (codes "7") two_commits

root_sent :
    (generate_merkle_root toy_ethereum setup1 replies2 (codes "7") two_commits).outputs
    ≡ submits_merkle_root (pos 7) (efficient_keccak256 toy_hasher (replicate 32 6) (replicate 32 5))
      ∷ []
unfolding generate_merkle_root fetch_activated_operators round_to_int parse_int filter_operators
    collect_leaves create_merkle_tree hash_loop merkle_of take_node pad_leaf efficient_keccak256
    submit_merkle_root update_commit_data_after_submit is_merkle_root_submitted or_nil abi_loads
    new_commit_data toy_address toy_digest checksum list_equals get
root_sent = refl

two_commits-IsWritable : IsWritable two_commits.leader_commits
two_commits-IsWritable = record { no_fault_next = refl; readable = λ e. cc }

outputs_changed :
    (generate_merkle_root toy_ethereum setup1 replies2 (codes "7") two_commits).outputs ≢ []
outputs_changed e = omega (arith, ap length root_sent, ap length e)

two_commits-once :
    let t = generate_merkle_root toy_ethereum setup1 replies2 (codes "7") two_commits in
    generate_merkle_root toy_ethereum setup1 replies1 (codes "7") t ≡ t
two_commits-once =
    generate_merkle_root-once toy_ethereum setup1 replies2 (codes "7") replies1 two_commits
      (λ z. refl) two_commits-IsWritable outputs_changed

setup1-IsReady : IsReady setup1
unfolding abi_loads
setup1-IsReady = record {
  subgraph_set = λ e. cc;
  rpc_set = λ e. cc;
  dialled = refl;
  contract_set = λ e. cc;
  abi_loaded = refl;
  key_set = λ e. cc;
  key = codes "0a";
  key_decoded = refl;
}

parsed7 : parse_int (codes "7") ≡ int_value (pos 7)
unfolding parse_int
parsed7 = refl

fetched2 : fetch_activated_operators replies2 (codes "7") ≡ some (key2 ∷ zero_operator ∷ key1 ∷ [])
unfolding fetch_activated_operators
fetched2 = refl

shows : (byte : ℕ) → 0 < byte → replicate 32 byte ≢ zero32
shows byte some_bit e = omega (arith, ap (λ (l : Bytes). get_or l 0 0) e)

two_leaves :
    LeavesOf toy_ethereum.hex_to_address
      (round_map (codes "7") two_commits)
      (filter_operators (key2 ∷ zero_operator ∷ key1 ∷ []))
      (replicate 32 6 ∷ replicate 32 5 ∷ [])
unfolding toy_address or_nil get list_equals filter_operators new_commit_data
two_leaves =
    one_more key2 (entry 6 key2) (key1 ∷ []) (replicate 32 5 ∷ []) refl (shows 6 (omega arith))
      (one_more key1 (entry 5 key1) [] [] refl (shows 5 (omega arith)) no_operator)

not_submitted : is_merkle_root_submitted (codes "7") two_commits ≡ false
unfolding is_merkle_root_submitted new_commit_data get list_equals
not_submitted = refl

two_commits-Sends :
    (root : Bytes) × (create_merkle_tree toy_hasher (replicate 32 6 ∷ replicate 32 5 ∷ [])
      ≡ merkle_root root)
    × Sends toy_ethereum setup1 replies2
        (codes "7")
        setup1-IsReady
        (pos 7)
        parsed7
        root
        two_commits
        (generate_merkle_root toy_ethereum setup1 replies2 (codes "7") two_commits)
two_commits-Sends =
    generate_merkle_root-Sends toy_ethereum setup1 replies2 (codes "7") setup1-IsReady (pos 7)
      parsed7 (key2 ∷ zero_operator ∷ key1 ∷ []) (replicate 32 6 ∷ replicate 32 5 ∷ []) two_commits
      not_submitted fetched2 two_leaves (omega arith)

sent_twice :
    let t = generate_merkle_root toy_ethereum setup1 replies2 (codes "7") two_commits in
    let u = root_after_test toy_ethereum setup1 replies2 (codes "7") t in
    (root : Bytes) × (t.outputs ≡ submits_merkle_root (pos 7) (copy_into zero32 root) ∷ [])
    × (u.outputs ≡ t.outputs ++ submits_merkle_root (pos 7) (copy_into zero32 root) ∷ [])
sent_twice =
    root_after_test-twice toy_ethereum setup1 replies2 (codes "7") replies2 setup1-IsReady (pos 7)
      parsed7 (key2 ∷ zero_operator ∷ key1 ∷ []) (replicate 32 6 ∷ replicate 32 5 ∷ []) two_commits
      not_submitted fetched2 fetched2 two_leaves (omega arith)
