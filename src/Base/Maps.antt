-- ===== src/Base/Maps.antt =====
-- Go maps as association lists. The order of the entries is the order in which `range` meets
-- them; Go leaves that order open, so statements hold for every list of entries.
use mathlib.Core.Path.{◌≡◌, refl, sym, subst, subst₂}
use mathlib.Core.Logic.{inl, inr}
use mathlib.Core.List.{List, [], ◌∷◌}
use mathlib.Core.Option.{Option, none, some}
use native.Mathlib.Omega.{arith}
use drb_node.Base.Tests.{Eq, Bool-cases, ◌==◌, ==_refl, if◌then◌else◌}

abbrev pub Map : Type 0 → Type 0 → Type 0
Map K V = List (K × V)

module _ {K V : Type 0} ⦃e : Eq K⦄ where
  -- v, ok := m[k]
  unfoldable pub get : K → Map K V → Option V
  get k [] = none
  get k ((j, v) ∷ m) = if j == k then some v else get k m

  -- m[k] = v
  unfoldable pub put : K → V → Map K V → Map K V
  put k v [] = (k, v) ∷ []
  put k v ((j, w) ∷ m) = if j == k then (j, v) ∷ m else (j, w) ∷ put k v m

  pub get-put :
      (k j : K) (v : V) (m : Map K V) → get j (put k v m) ≡ (if k == j then some v else get j m)
  unfolding get put
  get-put k j v [] = refl
  get-put k j v ((i, w) ∷ m) =
      ground (arith, e.equals_iff k j, e.equals_iff i k, e.equals_iff i j, get-put k j v m)

  pub get-put_self : (k : K) (v : V) (m : Map K V) → get k (put k v m) ≡ some v
  get-put_self k v m = simp (get-put, ==_refl)

  -- A predicate at each entry.
  abbrev pub AllEntries : (K → V → Type 0) → Map K V → Type 0
  AllEntries P [] = Unit
  AllEntries P ((k, v) ∷ m) = P k v × AllEntries P m

  pub AllEntries-get :
      (P : K → V → Type 0) (k : K) (v : V) (m : Map K V) → AllEntries P m → get k m ≡ some v → P k v
  unfolding get
  AllEntries-get P k v [] a found = absurd (cc)
  AllEntries-get P k v ((j, w) ∷ m) a found = elim (Bool-cases (j == k)) [
    | inl same ↦
        let key : j ≡ k = (e.equals_iff j k).0 same in
        let value : w ≡ v = ground arith in subst₂ P key value a.0
    | inr other ↦ AllEntries-get P k v m a.1 (ground arith)
  ]

  pub AllEntries-put :
      (P : K → V → Type 0) (k : K) (v : V) (m : Map K V)
      → AllEntries P m
      → P k v
      → AllEntries P (put k v m)
  unfolding put
  AllEntries-put P k v [] a p = (p, tt)
  AllEntries-put P k v ((j, w) ∷ m) a p = elim (Bool-cases (j == k)) [
    | inl same ↦ rw (same, put) (subst (λ i. P i v) (sym ((e.equals_iff j k).0 same)) p, a.1)
    | inr other ↦ rw (other, put) (a.0, AllEntries-put P k v m a.1 p)
  ]
