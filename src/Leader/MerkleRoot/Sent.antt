-- ===== src/Leader/MerkleRoot/Sent.antt =====
-- nodes/leaderNode.go: the transaction that generateMerkleRoot sends, and the memory after it.
use drb_node.Base.{
  ◌≡◌, ◌≢◌, ◌⊎◌, inl, inr, refl, sym, Bytes, bytes_eq, Bool, true, false, not, Option, none, some,
  List, [], ◌∷◌, ◌++◌, ◌==◌, if◌then◌else◌, zero32, copy_into, arith, >>=-eq-some, some-inj, subst,
}
use drb_node.Base.Maps.{Map, get}
use drb_node.Utils.Clients.{abi_loads}
use drb_node.Crypto.{Ethereum}
use drb_node.Go.Number.{ℤ, ParsedInt, int_value, syntax_error, range_error, parse_int}
use drb_node.Utils.LeaderNodeData.{LeaderCommitData}
use drb_node.CommitReveal.Merkle.{
  MerkleResult, merkle_root, not_enough_leaves, index_out_of_range, create_merkle_tree,
}
use drb_node.Leader.State.{
  Output, submits_merkle_root, Leader, Setup, Replies, fatal, is_merkle_root_submitted, round_map,
}
use drb_node.Leader.MerkleRoot.{
  transact, with_round, submit_merkle_root, with_tree, with_leaves, with_commits, with_operators,
  with_fetched, generate_merkle_root, root_after_test, collect_leaves, filter_operators,
  fetch_activated_operators, update_commit_data_after_submit, marked_in,
}

-- The leaves are the CVS of the operators' entries, none of them zero, in the operators' order.
pub data LeavesOf (to_address : Bytes → Bytes) (m : Map Bytes LeaderCommitData)
    : List Bytes → List Bytes → Type 0 where
  no_operator : LeavesOf to_address m [] []
  one_more :
      (operator : Bytes) (d : LeaderCommitData) (operators leaves : List Bytes)
      → get (to_address operator) m ≡ some d
      → d.cvs ≢ zero32
      → LeavesOf to_address m operators leaves
      → LeavesOf to_address m (operator ∷ operators) (d.cvs ∷ leaves)

if-eq-some :
    (b : Bool) (x y : List Bytes) → (if b then none else some x) ≡ some y → (b ≡ false) × (x ≡ y)
if-eq-some true x y h = cc
if-eq-some false x y h = (refl, some-inj x y h)

collect_leaves-LeavesOf :
    (to_address : Bytes → Bytes) (operators : List Bytes) (m : Map Bytes LeaderCommitData)
    (leaves : List Bytes)
    → collect_leaves to_address operators m ≡ some leaves
    → LeavesOf to_address m operators leaves
unfolding collect_leaves
collect_leaves-LeavesOf to_address [] m leaves h =
    subst (LeavesOf to_address m []) (some-inj [] leaves h) no_operator
collect_leaves-LeavesOf to_address (op ∷ ops) m leaves h =
    let (d, found, h1) = >>=-eq-some (get (to_address op) m) _ h in
    let (rest, collected, h2) =
      >>=-eq-some (collect_leaves to_address ops m)
        (λ rest. if d.cvs == zero32 then none else some (d.cvs ∷ rest)) h1 in
    let (shows, same) = if-eq-some (d.cvs == zero32) (d.cvs ∷ rest) leaves h2 in
    subst (LeavesOf to_address m (op ∷ ops)) same (
      one_more op d ops rest found (λ e. ground (arith, bytes_eq.equals_iff d.cvs zero32))
        (collect_leaves-LeavesOf to_address ops m rest collected))

marked_in-outputs :
    (round : Bytes) (o : Option (Map Bytes LeaderCommitData)) (s : Leader)
    → (marked_in round o s).outputs ≡ s.outputs
unfolding marked_in
marked_in-outputs round none s = refl
marked_in-outputs round (some m) s = refl

marked_in-memory :
    (round : Bytes) (o : Option (Map Bytes LeaderCommitData)) (s : Leader) (outputs : List Output)
    → (marked_in round o (record s { outputs = outputs })).committed_nodes
      ≡ (marked_in round o s).committed_nodes
unfolding marked_in
marked_in-memory round none s outputs = refl
marked_in-memory round (some m) s outputs = refl

update-outputs :
    (round : Bytes) (s : Leader) → (update_commit_data_after_submit round s).outputs ≡ s.outputs
unfolding update_commit_data_after_submit
update-outputs round s = marked_in-outputs round (get round s.committed_nodes) s

update-memory :
    (round : Bytes) (s : Leader) (outputs : List Output)
    → (update_commit_data_after_submit round (record s { outputs = outputs })).committed_nodes
      ≡ (update_commit_data_after_submit round s).committed_nodes
unfolding update_commit_data_after_submit
update-memory round s outputs = marked_in-memory round (get round s.committed_nodes) s outputs

pub if-outputs :
    (round : Bytes) (b : Bool) (s : Leader)
    → (if b then update_commit_data_after_submit round s else s).outputs ≡ s.outputs
if-outputs round true s = update-outputs round s
if-outputs round false s = refl

if-memory :
    (round : Bytes) (b : Bool) (s : Leader) (outputs : List Output)
    → (if b
        then update_commit_data_after_submit round (record s { outputs = outputs })
        else record s { outputs = outputs }).committed_nodes
      ≡ (if b then (update_commit_data_after_submit round s).committed_nodes else s.committed_nodes)
if-memory round true s outputs = update-memory round s outputs
if-memory round false s outputs = refl

module _ (eth : Ethereum) (setup : Setup) (replies : Replies) (round : Bytes) where
  -- A transaction that `s` is followed by, and the memory `t` after it.
  pub record IsSent (s t : Leader) : Type 0 where
    pub new : is_merkle_root_submitted round s ≡ false
    pub fetched : List Bytes
    pub replied : fetch_activated_operators replies round ≡ some fetched
    pub leaves : List Bytes
    pub cvs_of : LeavesOf eth.hex_to_address (round_map round s) (filter_operators fetched) leaves
    pub some_leaves : leaves ≢ []
    pub root : Bytes
    pub root_of : create_merkle_tree eth.hasher leaves ≡ merkle_root root
    pub number : ℤ
    pub parsed : parse_int round ≡ int_value number
    pub sent : t.outputs ≡ s.outputs ++ submits_merkle_root number (copy_into zero32 root) ∷ []
    pub memory : t.committed_nodes ≡ (
        if replies.root_accepted number
        then (update_commit_data_after_submit round s).committed_nodes
        else s.committed_nodes)

  -- Nothing is sent and nothing is stored, or the transaction is sent.
  abbrev pub Outcome : Leader → Leader → Type 0
  Outcome s t = ((t.outputs ≡ s.outputs) × (t.committed_nodes ≡ s.committed_nodes)) ⊎ IsSent s t

  if-Outcome :
      (b : Bool) (s t u : Leader)
      → Outcome s t
      → (b ≡ false → Outcome s u)
      → Outcome s (if b then t else u)
  if-Outcome true s t u p q = p
  if-Outcome false s t u p q = q refl

  module _ (s : Leader) (new : is_merkle_root_submitted round s ≡ false) (fetched : List Bytes)
      (replied : fetch_activated_operators replies round ≡ some fetched) where
    module _ (leaves : List Bytes)
        (cvs_of : LeavesOf eth.hex_to_address (round_map round s) (filter_operators fetched) leaves)
        (some_leaves : leaves ≢ []) where
      module _ (root : Bytes)
          (root_of : create_merkle_tree eth.hasher leaves ≡ merkle_root root) where
        transact-Outcome :
            (z : ℤ)
            → parse_int round ≡ int_value z
            → Outcome s (transact eth setup replies round z root s)
        unfolding transact
        transact-Outcome z parsed =
            let s1 = record s {
              outputs = s.outputs ++ submits_merkle_root z (copy_into zero32 root) ∷ [];
            } in
            inr (record {
              new = new;
              fetched = fetched;
              replied = replied;
              leaves = leaves;
              cvs_of = cvs_of;
              some_leaves = some_leaves;
              root = root;
              root_of = root_of;
              number = z;
              parsed = parsed;
              sent = if-outputs round (replies.root_accepted z) s1;
              memory = if-memory round (replies.root_accepted z) s s1.outputs;
            })

        with_key :
            (z : ℤ)
            → parse_int round ≡ int_value z
            → (o : Option Bytes)
            → Outcome s (elim o [ none ↦ s | some key ↦ transact eth setup replies round z root s ])
        with_key z parsed none = inl (refl, refl)
        with_key z parsed (some key) = transact-Outcome z parsed

        with_round-Outcome :
            (p : ParsedInt)
            → parse_int round ≡ p
            → Outcome s (with_round eth setup replies round p root s)
        unfolding with_round
        with_round-Outcome (int_value z) parsed =
            if-Outcome (setup.leader_private_key == []) s (fatal s) _ (inl (refl, refl))
              (λ _. with_key z parsed (setup.hex_to_ecdsa setup.leader_private_key))
        with_round-Outcome syntax_error parsed = inl (refl, refl)
        with_round-Outcome (range_error z) parsed = inl (refl, refl)

        submit-Outcome : Outcome s (submit_merkle_root eth setup replies round root s)
        unfolding submit_merkle_root
        submit-Outcome = if-Outcome (setup.eth_rpc_url == []) s (fatal s) _ (inl (refl, refl)) (λ _.
            if-Outcome (not (setup.dials setup.eth_rpc_url)) s s _ (inl (refl, refl)) (λ _.
              if-Outcome (setup.contract_address == []) s (fatal s) _ (inl (refl, refl)) (λ _.
                if-Outcome (not (abi_loads setup.abi)) s s _ (inl (refl, refl))
                  (λ _. with_round-Outcome (parse_int round) refl))))

      with_tree-Outcome :
          (r : MerkleResult)
          → create_merkle_tree eth.hasher leaves ≡ r
          → Outcome s (with_tree eth setup replies round r s)
      unfolding with_tree
      with_tree-Outcome (merkle_root root) e = submit-Outcome root e
      with_tree-Outcome not_enough_leaves e = inl (refl, refl)
      with_tree-Outcome index_out_of_range e = inl (refl, refl)

    with_leaves-Outcome :
        (o : Option (List Bytes))
        → ((leaves : List Bytes)
            → o ≡ some leaves
            → LeavesOf eth.hex_to_address (round_map round s) (filter_operators fetched) leaves)
        → Outcome s (with_leaves eth setup replies round o s)
    unfolding with_leaves
    with_leaves-Outcome none of = inl (refl, refl)
    with_leaves-Outcome (some []) of = inl (refl, refl)
    with_leaves-Outcome (some (leaf ∷ leaves)) of =
        with_tree-Outcome (leaf ∷ leaves) (of (leaf ∷ leaves) refl) (λ e. cc)
          (create_merkle_tree eth.hasher (leaf ∷ leaves)) refl

    with_commits-Outcome :
        (m : Map Bytes LeaderCommitData)
        → round_map round s ≡ m
        → Outcome s (with_commits eth setup replies round (filter_operators fetched) m s)
    unfolding with_commits
    with_commits-Outcome [] e = inl (refl, refl)
    with_commits-Outcome (c ∷ cs) e =
        with_leaves-Outcome (collect_leaves eth.hex_to_address (filter_operators fetched) (c ∷ cs))
          (λ leaves h.
            subst (λ m. LeavesOf eth.hex_to_address m (filter_operators fetched) leaves) (sym e)
              (collect_leaves-LeavesOf eth.hex_to_address (filter_operators fetched) (c ∷ cs) leaves
                h))

    with_operators-Outcome :
        (operators : List Bytes)
        → filter_operators fetched ≡ operators
        → Outcome s (with_operators eth setup replies round operators s)
    unfolding with_operators
    with_operators-Outcome [] e = inl (refl, refl)
    with_operators-Outcome (op ∷ ops) e =
        subst
          (λ operators.
            Outcome s (with_commits eth setup replies round operators (round_map round s) s))
          e (with_commits-Outcome (round_map round s) refl)

  with_fetched-Outcome :
      (o : Option (List Bytes)) (s : Leader)
      → is_merkle_root_submitted round s ≡ false
      → fetch_activated_operators replies round ≡ o
      → Outcome s (with_fetched eth setup replies round o s)
  unfolding with_fetched
  with_fetched-Outcome none s new e = inl (refl, refl)
  with_fetched-Outcome (some fetched) s new e =
      with_operators-Outcome s new fetched e (filter_operators fetched) refl

  -- generateMerkleRoot sends nothing and leaves the commits in memory, or it sends one transaction.
  -- Then the round was not marked as submitted, and the root is that of CreateMerkleTree over the CVS
  -- in memory of the operators that the subgraph reports, without the zero address and in their
  -- order. None of these CVS is missing or zero, and there is one at least. The round is a number of
  -- 64 bits. The entries in memory are marked where the transaction is accepted, and stay otherwise.
  pub generate_merkle_root-Outcome :
      (s : Leader) → Outcome s (generate_merkle_root eth setup replies round s)
  unfolding generate_merkle_root root_after_test
  generate_merkle_root-Outcome s =
      if-Outcome (is_merkle_root_submitted round s) s s _ (inl (refl, refl)) (λ new.
        if-Outcome (setup.subgraph_url == []) s (fatal s) _ (inl (refl, refl))
          (λ _. with_fetched-Outcome (fetch_activated_operators replies round) s new refl))
