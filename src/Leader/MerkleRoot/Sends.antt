-- ===== src/Leader/MerkleRoot/Sends.antt =====
-- nodes/leaderNode.go: when generateMerkleRoot sends, and that two handlers can both send.
use drb_node.Base.{
  ◌≤◌, ◌≡◌, ◌≢◌, inl, inr, refl, sym, subst, ◌∙◌, ap, Bytes, bytes_eq, true, false, some, List, [],
  ◌∷◌, ◌++◌, ==_false, length, zero32, copy_into, arith,
}
use drb_node.Base.Maps.{Map}
use drb_node.Crypto.{Ethereum}
use drb_node.Go.Number.{ℤ, int_value, parse_int}
use drb_node.Utils.Clients.{abi_loads}
use drb_node.Utils.LeaderNodeData.{LeaderCommitData}
use drb_node.CommitReveal.Merkle.{merkle_root, create_merkle_tree}
use drb_node.CommitReveal.Merkle.Queue.{create_merkle_tree-reduce}
use drb_node.Leader.State.{
  submits_merkle_root, Leader, Setup, Replies, is_merkle_root_submitted, round_map,
}
use drb_node.Leader.MerkleRoot.{
  collect_leaves, filter_operators, fetch_activated_operators, transact, with_round,
  submit_merkle_root, with_tree, with_leaves, with_commits, with_operators, with_fetched,
  root_after_test, generate_merkle_root,
}
use drb_node.Leader.MerkleRoot.Sent.{LeavesOf, no_operator, one_more, if-outputs}
use drb_node.Leader.MerkleRoot.Once.{LeavesOf-entry}
use drb_node.Leader.MerkleRoot.Reached.{generate_merkle_root-Reach}
use drb_node.Leader.Memory.Growth.{Grows}
use drb_node.Leader.Memory.WriteOnce.{Reach-Grows}

-- The environment lets a root be submitted.
pub record IsReady (setup : Setup) : Type 0 where
  pub subgraph_set : setup.subgraph_url ≢ []
  pub rpc_set : setup.eth_rpc_url ≢ []
  pub dialled : setup.dials setup.eth_rpc_url ≡ true
  pub contract_set : setup.contract_address ≢ []
  pub abi_loaded : abi_loads setup.abi ≡ true
  pub key_set : setup.leader_private_key ≢ []
  pub key : Bytes
  pub key_decoded : setup.hex_to_ecdsa setup.leader_private_key ≡ some key

LeavesOf-collect_leaves :
    {to_address : Bytes → Bytes} {m : Map Bytes LeaderCommitData} {operators leaves : List Bytes}
    → LeavesOf to_address m operators leaves
    → collect_leaves to_address operators m ≡ some leaves
unfolding collect_leaves
LeavesOf-collect_leaves no_operator = refl
LeavesOf-collect_leaves (one_more op d ops leaves found shows rest) =
    rw (found, LeavesOf-collect_leaves rest, ==_false d.cvs zero32 shows) refl

LeavesOf-operator :
    {to_address : Bytes → Bytes} {m : Map Bytes LeaderCommitData} {operators leaves : List Bytes}
    → LeavesOf to_address m operators leaves
    → leaves ≢ []
    → operators ≢ []
LeavesOf-operator no_operator some_leaves e = some_leaves refl
LeavesOf-operator (one_more op d ops leaves found shows rest) some_leaves e = cc

-- A CVS that shows stays in memory.
module _ (to_address : Bytes → Bytes) (round : Bytes) (s t : Leader) (grows : Grows s t) where
  LeavesOf-Grows :
      {operators leaves : List Bytes}
      → LeavesOf to_address (round_map round s) operators leaves
      → LeavesOf to_address (round_map round t) operators leaves
  LeavesOf-Grows no_operator = no_operator
  LeavesOf-Grows (one_more op d ops leaves found shows rest) =
      let (d', found', ext) = grows round (to_address op) d found in
      let later = LeavesOf-Grows rest in
      elim ext.keeps_cvs [
        | inl hidden ↦ absurd (shows hidden)
        | inr (same, _) ↦
            subst (λ cvs. LeavesOf to_address (round_map round t) (op ∷ ops) (cvs ∷ leaves)) same
              (one_more op d' ops leaves found' (λ e. shows (sym same ∙ e)) later)
      ]

module _ (eth : Ethereum) (setup : Setup) (replies : Replies) (round : Bytes)
    (ready : IsReady setup) (z : ℤ) (parsed : parse_int round ≡ int_value z) where
  -- The outputs after the transaction.
  abbrev pub Sends : Bytes → Leader → Leader → Type 0
  Sends root s t = t.outputs ≡ s.outputs ++ submits_merkle_root z (copy_into zero32 root) ∷ []

  submit-Sends :
      (root : Bytes) (s : Leader) → Sends root s (submit_merkle_root eth setup replies round root s)
  unfolding submit_merkle_root with_round transact
  submit-Sends root s =
      rw
        (
          ==_false setup.eth_rpc_url [] ready.rpc_set,
          ready.dialled,
          ==_false setup.contract_address [] ready.contract_set,
          ready.abi_loaded,
          parsed,
          ==_false setup.leader_private_key [] ready.key_set,
          ready.key_decoded,
        )
        (if-outputs round (replies.root_accepted z) _)

  with_leaves-Sends :
      (leaves : List Bytes) (root : Bytes) (s : Leader)
      → leaves ≢ []
      → create_merkle_tree eth.hasher leaves ≡ merkle_root root
      → Sends root s (with_leaves eth setup replies round (some leaves) s)
  unfolding with_leaves with_tree
  with_leaves-Sends [] root s some_leaves made = absurd (some_leaves refl)
  with_leaves-Sends (leaf ∷ leaves) root s some_leaves made = rw made (submit-Sends root s)

  with_commits-Sends :
      (m : Map Bytes LeaderCommitData) (operators leaves : List Bytes) (root : Bytes) (s : Leader)
      → LeavesOf eth.hex_to_address m operators leaves
      → leaves ≢ []
      → create_merkle_tree eth.hasher leaves ≡ merkle_root root
      → Sends root s (with_commits eth setup replies round operators m s)
  unfolding with_commits
  with_commits-Sends [] operators leaves root s of some_leaves made =
      absurd (LeavesOf-entry of some_leaves refl)
  with_commits-Sends (c ∷ cs) operators leaves root s of some_leaves made =
      rw (LeavesOf-collect_leaves of) (with_leaves-Sends leaves root s some_leaves made)

  with_operators-Sends :
      (operators leaves : List Bytes) (root : Bytes) (s : Leader)
      → LeavesOf eth.hex_to_address (round_map round s) operators leaves
      → leaves ≢ []
      → create_merkle_tree eth.hasher leaves ≡ merkle_root root
      → Sends root s (with_operators eth setup replies round operators s)
  unfolding with_operators
  with_operators-Sends [] leaves root s of some_leaves made =
      absurd (LeavesOf-operator of some_leaves refl)
  with_operators-Sends (op ∷ ops) leaves root s of some_leaves made =
      with_commits-Sends (round_map round s) (op ∷ ops) leaves root s of some_leaves made

  module _ (fetched : List Bytes)
      (replied : fetch_activated_operators replies round ≡ some fetched) where
    root_after_test-Sends :
        (leaves : List Bytes) (root : Bytes) (s : Leader)
        → LeavesOf eth.hex_to_address (round_map round s) (filter_operators fetched) leaves
        → leaves ≢ []
        → create_merkle_tree eth.hasher leaves ≡ merkle_root root
        → Sends root s (root_after_test eth setup replies round s)
    unfolding root_after_test with_fetched
    root_after_test-Sends leaves root s of some_leaves made =
        rw (==_false setup.subgraph_url [] ready.subgraph_set, replied)
          (with_operators-Sends (filter_operators fetched) leaves root s of some_leaves made)

some_of_two : (leaves : List Bytes) → 2 ≤ length leaves → leaves ≢ []
some_of_two leaves two e = omega (arith, ap length e)

module _ (eth : Ethereum) (setup : Setup) (replies : Replies) (round : Bytes) where
  -- Once the CVS are there, a Merkle root is sent. Where the round is a number of 64 bits and was not
  -- marked as submitted, the environment lets a root be submitted, and each operator that the subgraph
  -- reports, without the zero address, has a CVS in memory that is not zero, with two operators at
  -- least, generateMerkleRoot sends the root of CreateMerkleTree over these CVS.
  pub generate_merkle_root-Sends :
      (ready : IsReady setup) (z : ℤ) (parsed : parse_int round ≡ int_value z)
      (fetched leaves : List Bytes) (s : Leader)
      → is_merkle_root_submitted round s ≡ false
      → fetch_activated_operators replies round ≡ some fetched
      → LeavesOf eth.hex_to_address (round_map round s) (filter_operators fetched) leaves
      → 2 ≤ length leaves
      → (root : Bytes) × (create_merkle_tree eth.hasher leaves ≡ merkle_root root)
        × Sends eth setup replies round ready z parsed root s
            (generate_merkle_root eth setup replies round s)
  unfolding generate_merkle_root
  generate_merkle_root-Sends ready z parsed fetched leaves s new replied of two =
      let (root, made, _) = create_merkle_tree-reduce eth.hasher leaves two in
      (
        root,
        made,
        rw new (
            root_after_test-Sends eth setup replies round ready z parsed fetched replied leaves root
              s of (some_of_two leaves two) made),
      )

  -- Two handlers can both send the Merkle root of a round. Under the same conditions, let one handler
  -- run generateMerkleRoot while another has passed the test of generateMerkleRoot before: when that
  -- one goes on, after the first has ended, it sends the same transaction again.
  pub root_after_test-twice :
      (later : Replies) (ready : IsReady setup) (z : ℤ) (parsed : parse_int round ≡ int_value z)
      (fetched leaves : List Bytes) (s : Leader)
      → is_merkle_root_submitted round s ≡ false
      → fetch_activated_operators replies round ≡ some fetched
      → fetch_activated_operators later round ≡ some fetched
      → LeavesOf eth.hex_to_address (round_map round s) (filter_operators fetched) leaves
      → 2 ≤ length leaves
      → let t = generate_merkle_root eth setup replies round s in
        let u = root_after_test eth setup later round t in
        (root : Bytes) × (t.outputs
          ≡ s.outputs ++ submits_merkle_root z (copy_into zero32 root) ∷ [])
        × (u.outputs ≡ t.outputs ++ submits_merkle_root z (copy_into zero32 root) ∷ [])
  root_after_test-twice later ready z parsed fetched leaves s new replied again of two =
      let t = generate_merkle_root eth setup replies round s in
      let (root, made, sent) =
        generate_merkle_root-Sends ready z parsed fetched leaves s new replied of two in
      let grows : Grows s t =
        Reach-Grows eth (generate_merkle_root-Reach eth setup replies round s) in
      (
        root,
        sent,
        root_after_test-Sends eth setup later round ready z parsed fetched again leaves root t
            (LeavesOf-Grows eth.hex_to_address round s t grows of) (some_of_two leaves two) made,
      )
