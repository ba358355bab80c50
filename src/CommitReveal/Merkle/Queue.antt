-- ===== src/CommitReveal/Merkle/Queue.antt =====
-- commit-reveal2/merkleTree.go: the array of hashes with two positions, and a queue.
use drb_node.Base.{
  ℕ, zero, suc, ◌+◌, ◌-◌, ◌≤◌, ◌<◌, ◌≡◌, refl, false, subst, ap, ◌∙◌, Bytes, Option, some, List, [],
  ◌∷◌, ◌++◌, map, ltb, length, length-append, length-replicate, Bool-cases, inl, inr, drop_head,
  drop_lt, drop_past, get_elem?-take, take-suc-set, get_elem?-set_self, length-set, drop-append,
  length-take_le, get_elem?, set, take, drop, replicate, arith,
}
use native.Mathlib.Numerals.{add-one}
use mathlib.Core.List.{append_assoc, append-nil}
use drb_node.Crypto.{Hasher}
use drb_node.CommitReveal.Merkle.{
  merkle_root, efficient_keccak256, take_node, hash_loop, merkle_of, create_merkle_tree, pad_leaf,
}

-- The queue machine: the first two nodes are hashed, and the hash goes to the end.
module _ (h : Hasher) where
  unfoldable pub reduce : ℕ → List Bytes → List Bytes
  reduce (suc n) (a ∷ b ∷ rest) = reduce n (rest ++ efficient_keccak256 h a b ∷ [])
  reduce _ nodes = nodes

-- What the two positions leave to be read: the other leaves, then the hashes made so far.
abbrev pending : List Bytes → List Bytes → ℕ → ℕ → ℕ → List Bytes
pending leaves hashes leaf_pos hash_pos i = drop leaf_pos leaves ++ drop hash_pos (take i hashes)

-- One choice takes the head of the queue.
take_node_head :
    (leaves hashes : List Bytes) (lp hp i : ℕ) (a : Bytes) (q : List Bytes)
    → pending leaves hashes lp hp i ≡ a ∷ q
    → i ≤ length hashes
    → hp ≤ i
    → (lp' hp' : ℕ) × (take_node leaves hashes lp hp ≡ some (a, lp', hp'))
      × (pending leaves hashes lp' hp' i ≡ q)
      × (hp' ≤ i)
unfolding take_node
take_node_head leaves hashes lp hp i a q e le hle = elim (Bool-cases (ltb lp (length leaves))) [
  | inl more ↦
      let (x, rest, split) = drop_lt lp leaves (ground arith) in
      let (at, after, _) = drop_head lp leaves x rest split in
      let same : x ∷ (rest ++ drop hp (take i hashes)) ≡ a ∷ q = rw split at e in
      (lp + 1, hp, ground arith, rw (add-one, after) (ground arith), hle)
  | inr over ↦
      let none_left : drop lp leaves ≡ [] = drop_past lp leaves (ground arith) in
      let same : drop hp (take i hashes) ≡ a ∷ q = rw none_left at e in
      let (at, after, lt) = drop_head hp (take i hashes) a q same in
      let found = get_elem?-take hp i hashes a at in
      (
        lp,
        hp + 1,
        ground arith,
        rw (none_left, add-one, after),
        omega (arith, length-take_le i hashes le),
      )
]

module _ (h : Hasher) where
  -- One round writes the hash of the first two nodes at `i`, the end of the queue.
  pending-set :
      (leaves hashes : List Bytes) (lp hp i : ℕ) (v : Bytes)
      → hp ≤ i
      → i < length hashes
      → pending leaves (set hashes i v) lp hp (i + 1) ≡ pending leaves hashes lp hp i ++ v ∷ []
  pending-set leaves hashes lp hp i v hle lt = rw (
    add-one,
    take-suc-set i hashes v lt,
    drop-append hp (take i hashes) (v ∷ []) (omega (arith, length-take_le i hashes (omega arith))),
    append_assoc,
  )

  -- One round of the loop is one step of the queue.
  round :
      (n : ℕ) (leaves hashes : List Bytes) (lp hp i : ℕ) (a b : Bytes) (q : List Bytes)
      → pending leaves hashes lp hp i ≡ a ∷ b ∷ q
      → hp ≤ i
      → i < length hashes
      → let hashes' = set hashes i (efficient_keccak256 h a b) in
        (lp' hp' : ℕ) × (hash_loop h (suc n) leaves hashes lp hp i
          ≡ hash_loop h n leaves hashes' lp' hp' (i + 1))
        × (pending leaves hashes' lp' hp' (i + 1) ≡ q ++ efficient_keccak256 h a b ∷ [])
        × (hp' ≤ i + 1)
  unfolding hash_loop
  round n leaves hashes lp hp i a b q e hle room =
      let (lp', hp', take_a, e', hle') =
        take_node_head leaves hashes lp hp i a (b ∷ q) e (omega arith) hle in
      let (lp'', hp'', take_b, e'', hle'') =
        take_node_head leaves hashes lp' hp' i b q e' (omega arith) hle' in
      (
        lp'',
        hp'',
        rw (take_a, take_b),
        pending-set leaves hashes lp'' hp'' i (efficient_keccak256 h a b) hle'' room
            ∙ ap (λ (nodes : List Bytes). nodes ++ efficient_keccak256 h a b ∷ []) e'',
        omega arith,
      )

  abbrev LoopResult : ℕ → ℕ → List Bytes → List Bytes → ℕ → ℕ → ℕ → List Bytes → Type 0
  LoopResult last rounds leaves hashes lp hp i q =
      (hs : List Bytes) × (root : Bytes) × (hash_loop h rounds leaves hashes lp hp i ≡ some hs)
      × (get_elem? hs last ≡ some root)
      × (reduce h rounds q ≡ root ∷ [])

  hash_loop_end :
      (leaves hashes : List Bytes) (lp hp i : ℕ) → hash_loop h 0 leaves hashes lp hp i ≡ some hashes
  unfolding hash_loop
  hash_loop_end leaves hashes lp hp i = refl

  -- From a queue of `n + 2` nodes the loop makes its `n + 1` rounds with no index out of range,
  -- and the last entry of the array is the node that is left.
  hash_loop_lem :
      (n last : ℕ) (leaves hashes : List Bytes) (lp hp i : ℕ) (nodes : List Bytes)
      → pending leaves hashes lp hp i ≡ nodes
      → length nodes ≡ suc (suc n)
      → hp ≤ i
      → length hashes ≡ suc last
      → last ≡ i + n
      → LoopResult last (suc n) leaves hashes lp hp i nodes
  unfolding reduce
  hash_loop_lem n last leaves hashes lp hp i [] e len hle room at = absurd (omega arith)
  hash_loop_lem n last leaves hashes lp hp i (a ∷ []) e len hle room at = absurd (omega arith)
  hash_loop_lem zero last leaves hashes lp hp i (a ∷ b ∷ c ∷ q) e len hle room at =
      absurd (omega arith)
  hash_loop_lem zero last leaves hashes lp hp i (a ∷ b ∷ []) e len hle room at =
      let v = efficient_keccak256 h a b in
      let (lp', hp', runs, _, _) = round 0 leaves hashes lp hp i a b [] e hle (omega arith) in
      let last_at : last ≡ i = omega arith in
      (
        set hashes i v,
        v,
        runs ∙ hash_loop_end leaves (set hashes i v) lp' hp' (i + 1),
        rw last_at (get_elem?-set_self i hashes v (omega arith)),
        refl,
      )
  hash_loop_lem (suc n) last leaves hashes lp hp i (a ∷ b ∷ q) e len hle room at =
      let v = efficient_keccak256 h a b in
      let same_length = length-set i hashes v in
      let (lp', hp', runs, e', hle') =
        round (suc n) leaves hashes lp hp i a b q e hle (omega arith) in
      let (hs, root, rest_runs, found, reduced) =
        hash_loop_lem n last leaves (set hashes i v) lp' hp' (i + 1) (q ++ v ∷ []) e'
          (omega (arith, length-append q (v ∷ []))) hle' (same_length ∙ room) (omega arith) in
      (hs, root, runs ∙ rest_runs, found, reduced)

  merkle_of_lem :
      (made : Option (List Bytes)) (hs : List Bytes) (last : ℕ) (root : Bytes)
      → made ≡ some hs
      → get_elem? hs last ≡ some root
      → merkle_of made last ≡ merkle_root root
  unfolding merkle_of
  merkle_of_lem made hs last root e f = rw e (rw (f, merkle_of))

  length-pad : (leaves : List Bytes) → length (map pad_leaf leaves) ≡ length leaves
  length-pad [] = refl
  length-pad (x ∷ xs) = ap suc (length-pad xs)

  create_merkle_tree_enough :
      (leaves : List Bytes)
      → ltb (length leaves) 2 ≡ false
      → create_merkle_tree h leaves ≡ (
          let count = length leaves - 1 in
          merkle_of
            (hash_loop h count (map pad_leaf leaves) (replicate count []) 0 0 0)
            (count - 1))
  unfolding create_merkle_tree
  create_merkle_tree_enough leaves enough = rw enough

  -- For two leaves or more the function ends with no index out of range and returns the one node
  -- that the queue of the padded leaves is reduced to, in one round less than there are leaves.
  pub create_merkle_tree-reduce :
      (leaves : List Bytes)
      → 2 ≤ length leaves
      → (root : Bytes) × (create_merkle_tree h leaves ≡ merkle_root root)
        × (reduce h (length leaves - 1) (map pad_leaf leaves) ≡ root ∷ [])
  create_merkle_tree-reduce [] le = absurd (omega arith)
  create_merkle_tree-reduce (x ∷ []) le = absurd (omega arith)
  create_merkle_tree-reduce (x ∷ y ∷ rest) le =
      let padded = map pad_leaf (x ∷ y ∷ rest) in
      let n = length rest in
      let count_is : suc n ≡ suc (suc n) - 1 = omega arith in
      let last_is : n ≡ suc n - 1 = omega arith in
      let (hs, root, runs, found, reduced) =
        hash_loop_lem n n padded (replicate (suc n) []) 0 0 0 padded (append-nil padded)
          (length-pad (x ∷ y ∷ rest)) (omega arith) (length-replicate (suc n) []) (omega arith) in
      (
        root,
        create_merkle_tree_enough (x ∷ y ∷ rest) (ground arith)
            ∙ subst
                (λ count.
                  merkle_of (hash_loop h count padded (replicate count []) 0 0 0) (count - 1)
                  ≡ merkle_root root)
                count_is
                (merkle_of_lem _ hs (suc n - 1) root runs
                  (subst (λ k. get_elem? hs k ≡ some root) last_is found)),
        subst (λ count. reduce h count padded ≡ root ∷ []) count_is reduced,
      )
