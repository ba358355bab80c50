-- ===== src/Leader/MerkleRoot/Reached.antt =====
-- nodes/leaderNode.go: generateMerkleRoot as steps on the leader's memory.
use drb_node.Base.{
  refl, inl, inr, Bytes, Bool, true, false, not, Option, none, some, List, [], ◌∷◌, ◌==◌, bytes_eq,
  if◌then◌else◌, Option-cases,
}
use drb_node.Base.Maps.{Map}
use drb_node.Utils.Clients.{abi_loads}
use drb_node.Crypto.{Ethereum}
use drb_node.Go.Number.{ℤ, ParsedInt, int_value, syntax_error, range_error, parse_int}
use drb_node.Utils.LeaderNodeData.{LeaderCommitData}
use drb_node.CommitReveal.Merkle.{
  MerkleResult, merkle_root, not_enough_leaves, index_out_of_range, create_merkle_tree,
}
use drb_node.Leader.State.{Leader, Setup, Replies, fatal, is_merkle_root_submitted, round_map}
use drb_node.Leader.MerkleRoot.{
  transact, with_round, submit_merkle_root, with_tree, with_leaves, with_commits, with_operators,
  with_fetched, root_after_test, generate_merkle_root, collect_leaves, filter_operators,
  fetch_activated_operators,
}
use drb_node.Leader.Memory.Steps.{marks, Reach, here, next, one-elsewhere}

module _ (eth : Ethereum) (setup : Setup) (replies : Replies) where
  fatal-Reach : (s : Leader) → Reach eth s (fatal s)
  fatal-Reach s = one-elsewhere eth s (fatal s) refl

  pub if-Reach :
      (b : Bool) (s t u : Leader) → Reach eth s t → Reach eth s u → Reach eth s (if b then t else u)
  if-Reach true s t u p q = p
  if-Reach false s t u p q = q

  transact-Reach :
      (round : Bytes) (z : ℤ) (root : Bytes) (s : Leader)
      → Reach eth s (transact eth setup replies round z root s)
  unfolding transact
  transact-Reach round z root s =
      let sent = one-elsewhere eth s _ refl in
      if-Reach (replies.root_accepted z) s _ _ (next sent (marks round _)) sent

  with_round-Reach :
      (round : Bytes) (p : ParsedInt) (root : Bytes) (s : Leader)
      → Reach eth s (with_round eth setup replies round p root s)
  unfolding with_round
  with_round-Reach round (int_value z) root s =
      if-Reach (setup.leader_private_key == []) s _ _ (fatal-Reach s)
        (elim (Option-cases (setup.hex_to_ecdsa setup.leader_private_key)) [
          | inl bad ↦ rw bad here
          | inr (key, good) ↦ rw good (transact-Reach round z root s)
        ])
  with_round-Reach round syntax_error root s = here
  with_round-Reach round (range_error _) root s = here

  submit-Reach :
      (round root : Bytes) (s : Leader)
      → Reach eth s (submit_merkle_root eth setup replies round root s)
  unfolding submit_merkle_root
  submit-Reach round root s = if-Reach (setup.eth_rpc_url == []) s _ _ (fatal-Reach s) (
      if-Reach (not (setup.dials setup.eth_rpc_url)) s _ _ here (
        if-Reach (setup.contract_address == []) s _ _ (fatal-Reach s) (
          if-Reach (not (abi_loads setup.abi)) s _ _ here
            (with_round-Reach round (parse_int round) root s))))

  with_tree-Reach :
      (round : Bytes) (t : MerkleResult) (s : Leader)
      → Reach eth s (with_tree eth setup replies round t s)
  unfolding with_tree
  with_tree-Reach round (merkle_root root) s = submit-Reach round root s
  with_tree-Reach round not_enough_leaves s = here
  with_tree-Reach round index_out_of_range s = here

  with_leaves-Reach :
      (round : Bytes) (leaves : Option (List Bytes)) (s : Leader)
      → Reach eth s (with_leaves eth setup replies round leaves s)
  unfolding with_leaves
  with_leaves-Reach round none s = here
  with_leaves-Reach round (some []) s = here
  with_leaves-Reach round (some (l ∷ ls)) s =
      with_tree-Reach round (create_merkle_tree eth.hasher (l ∷ ls)) s

  with_commits-Reach :
      (round : Bytes) (ops : List Bytes) (m : Map Bytes LeaderCommitData) (s : Leader)
      → Reach eth s (with_commits eth setup replies round ops m s)
  unfolding with_commits
  with_commits-Reach round ops [] s = here
  with_commits-Reach round ops (c ∷ cs) s =
      with_leaves-Reach round (collect_leaves eth.hex_to_address ops (c ∷ cs)) s

  with_operators-Reach :
      (round : Bytes) (ops : List Bytes) (s : Leader)
      → Reach eth s (with_operators eth setup replies round ops s)
  unfolding with_operators
  with_operators-Reach round [] s = here
  with_operators-Reach round (op ∷ ops) s =
      with_commits-Reach round (op ∷ ops) (round_map round s) s

  with_fetched-Reach :
      (round : Bytes) (fetched : Option (List Bytes)) (s : Leader)
      → Reach eth s (with_fetched eth setup replies round fetched s)
  unfolding with_fetched
  with_fetched-Reach round none s = here
  with_fetched-Reach round (some fetched) s =
      with_operators-Reach round (filter_operators fetched) s

  pub root_after_test-Reach :
      (round : Bytes) (s : Leader) → Reach eth s (root_after_test eth setup replies round s)
  unfolding root_after_test
  root_after_test-Reach round s =
      if-Reach (setup.subgraph_url == []) s _ _ (fatal-Reach s)
        (with_fetched-Reach round (fetch_activated_operators replies round) s)

  pub generate_merkle_root-Reach :
      (round : Bytes) (s : Leader) → Reach eth s (generate_merkle_root eth setup replies round s)
  unfolding generate_merkle_root
  generate_merkle_root-Reach round s =
      if-Reach (is_merkle_root_submitted round s) s _ _ here (root_after_test-Reach round s)
