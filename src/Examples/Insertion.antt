-- ===== src/Examples/Insertion.antt =====
-- An insertion sort, which shows that the laws of sort.Slice can hold.
use drb_node.Base.{ℕ, ◌≤◌, leb, if◌then◌else◌, Bool-cases, inl, inr, List, [], ◌∷◌, arith}
use mathlib.Core.List.{Perm}
use mathlib.Core.List.Perm
use drb_node.Go.Sort.{IsAscending, SliceSort}

module _ {A : Type 0} (key : A → ℕ) where
  unfoldable pub insert : A → List A → List A
  insert x [] = x ∷ []
  insert x (y ∷ ys) =
      let later = insert x ys in if leb (key x) (key y) then x ∷ y ∷ ys else y ∷ later

  unfoldable pub sort : List A → List A
  unfolding insert
  sort [] = []
  sort (x ∷ xs) = insert x (sort xs)

  insert-perm : (x : A) (xs : List A) → Perm (insert x xs) (x ∷ xs)
  unfolding insert
  insert-perm x [] = Perm.rfl
  insert-perm x (y ∷ ys) = elim (Bool-cases (leb (key x) (key y))) [
    | inl le ↦ rw (le, insert) Perm.rfl
    | inr gt ↦ rw (gt, insert) (Perm.trans (Perm.cons y (insert-perm x ys)) (Perm.swap x y ys))
  ]

  pub sort-perm : (xs : List A) → Perm (sort xs) xs
  unfolding sort
  sort-perm [] = Perm.rfl
  sort-perm (x ∷ xs) = Perm.trans (insert-perm x (sort xs)) (Perm.cons x (sort-perm xs))

  -- An insertion below a bound that the list keeps.
  insert-above :
      (low x : A) (xs : List A)
      → key low ≤ key x
      → IsAscending key (low ∷ xs)
      → IsAscending key (insert x xs)
      → IsAscending key (low ∷ insert x xs)
  unfolding insert
  insert-above low x [] le a b = (le, tt)
  insert-above low x (y ∷ ys) le a b = elim (Bool-cases (leb (key x) (key y))) [
    | inl first ↦
        let c : IsAscending key (x ∷ y ∷ ys) = rw (first, insert) at b in rw (first, insert) (le, c)
    | inr gt ↦
        let c : IsAscending key (y ∷ insert x ys) = rw (gt, insert) at b in rw (gt, insert) (a.0, c)
  ]

  insert-IsAscending : (x : A) (xs : List A) → IsAscending key xs → IsAscending key (insert x xs)
  unfolding insert
  insert-IsAscending x [] a = tt
  insert-IsAscending x (y ∷ ys) a = elim (Bool-cases (leb (key x) (key y))) [
    | inl le ↦ rw (le, insert) (ground arith, a)
    | inr gt ↦
        rw (gt, insert)
          (insert-above y x ys (ground arith) a (insert-IsAscending x ys (tail y ys a)))
  ]
    where
      tail : (y : A) (ys : List A) → IsAscending key (y ∷ ys) → IsAscending key ys
      tail y [] a = tt
      tail y (z ∷ zs) a = a.1

  pub sort-IsAscending : (xs : List A) → IsAscending key (sort xs)
  unfolding sort
  sort-IsAscending [] = tt
  sort-IsAscending (x ∷ xs) = insert-IsAscending x (sort xs) (sort-IsAscending xs)

  abbrev pub insertion_sort : SliceSort A key
  insertion_sort = record {
    sort_slice = sort;
    sort_slice-perm = sort-perm;
    sort_slice-IsAscending = sort-IsAscending;
  }
