-- ===== src/CommitReveal/Merkle/Binding.antt =====
-- commit-reveal2/merkleTree.go: what a Merkle root says of the leaves under it.
use drb_node.Base.{
  ℕ, zero, suc, ◌-◌, ◌≤◌, ◌≡◌, ◌⊎◌, inl, inr, refl, subst, sym, ◌∙◌, Bytes, bytes_eq, List, [], ◌∷◌,
  ◌++◌, map, length, length-append, arith, All, All-append, append-inj,
}
use drb_node.Crypto.{Hasher, Collision, digest-inj}
use drb_node.CommitReveal.Merkle.{merkle_root, efficient_keccak256, create_merkle_tree, pad_leaf}
use drb_node.CommitReveal.Merkle.Queue.{reduce, create_merkle_tree-reduce}

-- [32]byte
abbrev pub Is32 : Bytes → Type 0
Is32 b = length b ≡ 32

map-pad_leaf : (leaves : List Bytes) → All Is32 leaves → map pad_leaf leaves ≡ leaves
unfolding pad_leaf
map-pad_leaf [] _ = refl
map-pad_leaf (x ∷ xs) (len, lens) = ground (arith, map-pad_leaf xs lens)

module _ (h : Hasher) where
  heads_eq : (x y : Bytes) → x ∷ [] ≡ y ∷ [] → x ≡ y
  heads_eq x y e = cc

  join_pair :
      (a b c d : Bytes) (xs ys : List Bytes)
      → xs ≡ ys
      → length a ≡ length c
      → (a ++ b ≡ c ++ d) ⊎ Collision h
      → (a ∷ b ∷ xs ≡ c ∷ d ∷ ys) ⊎ Collision h
  join_pair a b c d xs ys tails len (inl e) = let (ac, bd) = append-inj a b c d len e in inl (cc)
  join_pair a b c d xs ys tails len (inr clash) = inr clash

  reduce-inj :
      (n : ℕ) (xs ys : List Bytes) (root : Bytes)
      → length xs ≡ suc n
      → length ys ≡ suc n
      → All Is32 xs
      → All Is32 ys
      → reduce h n xs ≡ root ∷ []
      → reduce h n ys ≡ root ∷ []
      → (xs ≡ ys) ⊎ Collision h
  unfolding reduce efficient_keccak256
  reduce-inj zero xs ys root lx ly ax ay ex ey = inl (ex ∙ sym ey)
  reduce-inj (suc n) (a ∷ b ∷ xs) (c ∷ d ∷ ys) root lx ly ax ay ex ey =
      elim (reduce-inj n (xs ++ h.digest (a ++ b) ∷ []) (ys ++ h.digest (c ++ d) ∷ []) root
        (omega (arith, length-append xs (h.digest (a ++ b) ∷ [])))
        (omega (arith, length-append ys (h.digest (c ++ d) ∷ [])))
        (All-append Is32 xs (h.digest (a ++ b) ∷ []) ax.1.1 (h.length-digest (a ++ b), tt))
        (All-append Is32 ys (h.digest (c ++ d) ∷ []) ay.1.1 (h.length-digest (c ++ d), tt)) ex ey) [
          | inl same ↦
              let (tails, tops) =
                append-inj xs (h.digest (a ++ b) ∷ []) ys (h.digest (c ++ d) ∷ []) (omega arith)
                  same in
              join_pair a b c d xs ys tails (ax.0 ∙ sym ay.0) (
                digest-inj h (a ++ b) (c ++ d)
                  (heads_eq (h.digest (a ++ b)) (h.digest (c ++ d)) tops))
          | inr c ↦ inr c
        ]
  reduce-inj (suc n) [] ys root lx ly ax ay ex ey = absurd (omega arith)
  reduce-inj (suc n) (a ∷ []) ys root lx ly ax ay ex ey = absurd (omega arith)
  reduce-inj (suc n) (a ∷ b ∷ xs) [] root lx ly ax ay ex ey = absurd (omega arith)
  reduce-inj (suc n) (a ∷ b ∷ xs) (c ∷ []) root lx ly ax ay ex ey = absurd (omega arith)

  root_of :
      (leaves : List Bytes) (root : Bytes)
      → 2 ≤ length leaves
      → All Is32 leaves
      → create_merkle_tree h leaves ≡ merkle_root root
      → reduce h (length leaves - 1) leaves ≡ root ∷ []
  root_of leaves root le all made =
      let (other, made', reduced) = create_merkle_tree-reduce h leaves le in
      let same : other ≡ root = cc in rw (map-pad_leaf leaves all, same) at reduced

  -- Two lists of as many 32-byte leaves, two at least, with one root are the same list in the same
  -- order, unless they show two messages with one digest.
  pub create_merkle_tree-inj :
      (xs ys : List Bytes) (root : Bytes)
      → 2 ≤ length xs
      → length xs ≡ length ys
      → All Is32 xs
      → All Is32 ys
      → create_merkle_tree h xs ≡ merkle_root root
      → create_merkle_tree h ys ≡ merkle_root root
      → (xs ≡ ys) ⊎ Collision h
  create_merkle_tree-inj xs ys root le same_length ax ay ex ey =
      reduce-inj (length xs - 1) xs ys root (omega arith) (omega arith) ax ay
        (root_of xs root le ax ex)
        (subst (λ n. reduce h (n - 1) ys ≡ root ∷ []) (sym same_length)
          (root_of ys root (omega arith) ay ey))
