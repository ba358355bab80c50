-- ===== src/CommitReveal/Merkle.antt =====
-- commit-reveal2/merkleTree.go: the Merkle root of the leaves, computed in one array of hashes.
pub mod Queue
pub mod Binding
use drb_node.Base.{
  ℕ, zero, suc, ◌+◌, ◌-◌, ◌≡◌, refl, Bool, Bytes, Option, none, some, List, [], ◌∷◌, ◌++◌, map, ltb,
  eqb, if◌then◌else◌, length, get_elem?, set, take, drop, replicate, arith, copy_into, zero32,
  ◌>>=◌,
}
use drb_node.Crypto.{Hasher}

pub data MerkleResult : Type 0 where
  merkle_root : Bytes → MerkleResult
  not_enough_leaves : MerkleResult
  index_out_of_range : MerkleResult

-- A leaf of another length is copied into 32 zero bytes.
unfoldable pub pad_leaf : Bytes → Bytes
pad_leaf leaf = if eqb (length leaf) 32 then leaf else copy_into zero32 leaf

module _ (h : Hasher) where
  -- Two writes to one hasher.
  unfoldable pub efficient_keccak256 : Bytes → Bytes → Bytes
  efficient_keccak256 a b = h.digest (a ++ b)

-- The choice of `a` or `b`: the next leaf, or else the next hash; `none` is an index panic.
unfoldable pub take_node : List Bytes → List Bytes → ℕ → ℕ → Option (Bytes × ℕ × ℕ)
take_node leaves hashes leaf_pos hash_pos =
    if ltb leaf_pos (length leaves)
    then (do a ← get_elem? leaves leaf_pos; some (a, leaf_pos + 1, hash_pos))
    else (do a ← get_elem? hashes hash_pos; some (a, leaf_pos, hash_pos + 1))

unfoldable pub merkle_of : Option (List Bytes) → ℕ → MerkleResult
merkle_of none last = index_out_of_range
merkle_of (some hashes) last = elim (get_elem? hashes last) [
  | none ↦ index_out_of_range
  | some root ↦ merkle_root root
]

module _ (h : Hasher) where
  -- The loop over `i`, with the rounds that are left.
  unfoldable pub hash_loop : ℕ → List Bytes → List Bytes → ℕ → ℕ → ℕ → Option (List Bytes)
  unfolding take_node efficient_keccak256
  hash_loop zero leaves hashes leaf_pos hash_pos i = some hashes
  hash_loop (suc rounds) leaves hashes leaf_pos hash_pos i = do
    (a, leaf_pos', hash_pos') ← take_node leaves hashes leaf_pos hash_pos
    (b, leaf_pos'', hash_pos'') ← take_node leaves hashes leaf_pos' hash_pos'
    hash_loop rounds leaves (set hashes i (efficient_keccak256 h a b)) leaf_pos'' hash_pos'' (i + 1)

  unfoldable pub create_merkle_tree : List Bytes → MerkleResult
  unfolding hash_loop pad_leaf merkle_of
  create_merkle_tree leaves =
      let padded = map pad_leaf leaves in
      let hash_count = length leaves - 1 in
      if ltb (length leaves) 2
      then not_enough_leaves
      else merkle_of (hash_loop hash_count padded (replicate hash_count []) 0 0 0) (hash_count - 1)
