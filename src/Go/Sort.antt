-- ===== src/Go/Sort.antt =====
-- sort.Slice over a slice whose entries are compared by a key: its documentation promises a
-- permutation in ascending order of the keys, and no order among equal keys. So the sorted slice
-- is a parameter with these two laws.
use drb_node.Base.{ℕ, ◌≤◌, List, [], ◌∷◌}
use mathlib.Core.List.{Perm}

abbrev pub IsAscending : {A : Type 0} → (A → ℕ) → List A → Type 0
IsAscending key [] = Unit
IsAscending key (x ∷ []) = Unit
IsAscending key (x ∷ y ∷ rest) = (key x ≤ key y) × IsAscending key (y ∷ rest)

pub record SliceSort (A : Type 0) (key : A → ℕ) : Type 0 where
  pub sort_slice : List A → List A
  pub sort_slice-perm : (xs : List A) → Perm (sort_slice xs) xs
  pub sort_slice-IsAscending : (xs : List A) → IsAscending key (sort_slice xs)
