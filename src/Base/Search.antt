-- ===== src/Base/Search.antt =====
-- Loops that look for an element, and membership.
use mathlib.Core.Path.{◌≡◌, sym, subst, ◌∙◌}
use mathlib.Core.Bool.{Bool, true, false, ◌||◌}
use mathlib.Core.List.{List, ◌∷◌, Mem, mem-cons, mem-cons_self, mem-cons_of_mem}
use mathlib.Core.Logic.{inl, inr}
use mathlib.Core.Logic.Or
use mathlib.Core.HLevel.{⊥_prop}
use drb_node.Base.Tests.{Bool-cases, Eq, ◌==◌}

-- A loop that compares each element finds the members, and only those.
module _ {ℓ} {A : Type ℓ} ⦃test : Eq A⦄ where
  pub found-Mem :
      (a x : A) (xs : List A) (later : Bool)
      → ((x == a) || later) ≡ true
      → (later ≡ true → Mem a xs)
      → Mem a (x ∷ xs)
  found-Mem a x xs later h rest = elim (Bool-cases (x == a)) [
    | inl same ↦ subst (λ y. Mem a (y ∷ xs)) (sym ((test.equals_iff x a).0 same)) mem-cons_self
    | inr other ↦ mem-cons_of_mem x (rest (rw other at h))
  ]

  pub not-found-Mem :
      (a x : A) (xs : List A) (later : Bool)
      → ((x == a) || later) ≡ false
      → (later ≡ false → ¬ Mem a xs)
      → ¬ Mem a (x ∷ xs)
  not-found-Mem a x xs later h rest m = elim (Bool-cases (x == a)) [
    | inl same ↦ absurd (true-false (rw same at h))
    | inr other ↦ Or.elim ⊥_prop (mem-cons.0 m) (λ e. differs (sym e) other) (rest (rw other at h))
  ]
    where
      true-false : true ≡ false → ⊥
      true-false e = cc

      differs : x ≡ a → (x == a) ≡ false → ⊥
      differs e other = true-false (sym ((test.equals_iff x a).1 e) ∙ other)
