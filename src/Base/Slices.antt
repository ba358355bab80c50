-- ===== src/Base/Slices.antt =====
-- Slices at a position: heads of tails, writes, and prefixes.
use Prim.Native.Nat.{ℕ, zero, suc, ◌+◌, ◌≤◌, ◌<◌}
use mathlib.Core.Path.{◌≡◌, refl, sym, ap, ap₂, ◌∙◌}
use mathlib.Core.List.{List, [], ◌∷◌, ◌++◌, map, Mem, not-mem-nil, mem-cons}
use mathlib.Core.Logic.Or
use mathlib.Core.HLevel.{×_prop}
use native.Mathlib.Bridge.{le_prop}
use mathlib.Core.Option.{some}
use native.Mathlib.Omega.{arith}
use drb_node.Base.Lists.{length, get_elem?, set, take, drop}

module _ {ℓ} {A : Type ℓ} where
  pub drop_head :
      (n : ℕ) (xs : List A) (a : A) (q : List A)
      → drop n xs ≡ a ∷ q
      → (get_elem? xs n ≡ some a) × (drop (suc n) xs ≡ q) × (n < length xs)
  drop_head zero [] a q e = absurd (ground arith)
  drop_head zero (x ∷ xs) a q e = (ground arith, ground arith, omega arith)
  drop_head (suc n) [] a q e = absurd (ground arith)
  drop_head (suc n) (x ∷ xs) a q e = let r = drop_head n xs a q e in (r.0, r.1, omega (arith, r.2))

  pub drop_lt : (n : ℕ) (xs : List A) → n < length xs → (a : A) × (q : List A) × (drop n xs ≡ a ∷ q)
  drop_lt n [] lt = absurd (omega arith)
  drop_lt zero (x ∷ xs) lt = (x, xs, refl)
  drop_lt (suc n) (x ∷ xs) lt = drop_lt n xs (omega arith)

  pub drop_past : (n : ℕ) (xs : List A) → length xs ≤ n → drop n xs ≡ []
  drop_past zero [] le = refl
  drop_past zero (x ∷ xs) le = absurd (omega arith)
  drop_past (suc n) [] le = refl
  drop_past (suc n) (x ∷ xs) le = drop_past n xs (omega arith)

  pub get_elem?-take :
      (n i : ℕ) (xs : List A) (a : A) → get_elem? (take i xs) n ≡ some a → get_elem? xs n ≡ some a
  get_elem?-take n zero xs a e = absurd (ground arith)
  get_elem?-take n (suc i) [] a e = absurd (ground arith)
  get_elem?-take zero (suc i) (x ∷ xs) a e = e
  get_elem?-take (suc n) (suc i) (x ∷ xs) a e = get_elem?-take n i xs a e

  pub take-suc-set :
      (i : ℕ) (xs : List A) (v : A)
      → i < length xs
      → take (suc i) (set xs i v) ≡ take i xs ++ v ∷ []
  take-suc-set i [] v lt = absurd (omega arith)
  take-suc-set zero (x ∷ xs) v lt = refl
  take-suc-set (suc i) (x ∷ xs) v lt = ap (◌∷◌ x) (take-suc-set i xs v (omega arith))

  pub get_elem?-set_self :
      (i : ℕ) (xs : List A) (v : A) → i < length xs → get_elem? (set xs i v) i ≡ some v
  get_elem?-set_self i [] v lt = absurd (omega arith)
  get_elem?-set_self zero (x ∷ xs) v lt = refl
  get_elem?-set_self (suc i) (x ∷ xs) v lt = get_elem?-set_self i xs v (omega arith)

  pub length-set : (i : ℕ) (xs : List A) (v : A) → length (set xs i v) ≡ length xs
  length-set i [] v = refl
  length-set zero (x ∷ xs) v = refl
  length-set (suc i) (x ∷ xs) v = ap suc (length-set i xs v)

  pub drop-append : (n : ℕ) (xs ys : List A) → n ≤ length xs → drop n (xs ++ ys) ≡ drop n xs ++ ys
  drop-append zero xs ys le = refl
  drop-append (suc n) [] ys le = absurd (omega arith)
  drop-append (suc n) (x ∷ xs) ys le = drop-append n xs ys (omega arith)

  pub length-take_le : (i : ℕ) (xs : List A) → i ≤ length xs → length (take i xs) ≡ i
  length-take_le zero xs le = refl
  length-take_le (suc i) [] le = absurd (omega arith)
  length-take_le (suc i) (x ∷ xs) le = ap suc (length-take_le i xs (omega arith))

-- A concatenation whose first parts have one length.
pub append-inj {ℓ} :
    {A : Type ℓ} (a b c d : List A) → length a ≡ length c → a ++ b ≡ c ++ d → (a ≡ c) × (b ≡ d)
append-inj [] b [] d len e = (refl, e)
append-inj [] b (z ∷ c) d len e = absurd (omega arith)
append-inj (x ∷ a) b [] d len e = absurd (omega arith)
append-inj (x ∷ a) b (z ∷ c) d len e =
    let heads : x ≡ z = cc in
    let tails : a ++ b ≡ c ++ d = cc in
    let (ac, bd) = append-inj a b c d (omega arith) tails in (cc, bd)

module _ {ℓ} {A : Type ℓ} where
  abbrev pub get_or : List A → ℕ → A → A
  get_or [] i d = d
  get_or (x ∷ xs) zero d = x
  get_or (x ∷ xs) (suc i) d = get_or xs i d

  pub get_elem?-get_or :
      (xs : List A) (i : ℕ) (d : A) → i < length xs → get_elem? xs i ≡ some (get_or xs i d)
  get_elem?-get_or [] i d lt = absurd (omega arith)
  get_elem?-get_or (x ∷ xs) zero d lt = refl
  get_elem?-get_or (x ∷ xs) (suc i) d lt = get_elem?-get_or xs i d (omega arith)

-- The numbers from `i` on, `n` of them.
abbrev pub indices : ℕ → ℕ → List ℕ
indices i zero = []
indices i (suc n) = i ∷ indices (suc i) n

pub mem-indices : (i n k : ℕ) → Mem k (indices i n) → (i ≤ k) × (k < i + n)
mem-indices i zero k m = absurd (not-mem-nil m)
mem-indices i (suc n) k m =
    Or.elim (×_prop le_prop le_prop) (mem-cons.0 m) (λ e. (omega arith, omega arith))
      λ later. let r = mem-indices (suc i) n k later in (omega (arith, r.0), omega (arith, r.1))

pub map-indices {ℓ} :
    {A : Type ℓ} (f : ℕ → A) (g : ℕ → A) (i n : ℕ)
    → ((k : ℕ) → f k ≡ g (suc k))
    → map f (indices i n) ≡ map g (indices (suc i) n)
map-indices f g i zero h = refl
map-indices f g i (suc n) h = ap₂ ◌∷◌ (h i) (map-indices f g (suc i) n h)

-- Reading a list at each of its positions gives the list.
pub map-get_or {ℓ} :
    {A : Type ℓ} (xs : List A) (d : A) → map (λ i. get_or xs i d) (indices 0 (length xs)) ≡ xs
map-get_or [] d = refl
map-get_or (x ∷ xs) d = ap (◌∷◌ x) (
    sym (map-indices (λ i. get_or xs i d) (λ i. get_or (x ∷ xs) i d) 0 (length xs) (λ k. refl))
    ∙ map-get_or xs d)

-- The parts of an append, by position.
module _ {ℓ} {A : Type ℓ} where
  pub get_or-append :
      (xs ys : List A) (j : ℕ) (d : A) → get_or (xs ++ ys) (length xs + j) d ≡ get_or ys j d
  get_or-append [] ys j d = ap (λ n. get_or ys n d) (omega arith)
  get_or-append (x ∷ xs) ys j d =
      ap (λ n. get_or (x ∷ xs ++ ys) n d) (shift (length xs) j) ∙ get_or-append xs ys j d
    where
      shift : (n k : ℕ) → suc n + k ≡ suc (n + k)
      shift n k = omega arith

  pub take-append : (xs ys : List A) → take (length xs) (xs ++ ys) ≡ xs
  take-append [] ys = refl
  take-append (x ∷ xs) ys = ap (◌∷◌ x) (take-append xs ys)

  pub drop-append_self : (xs ys : List A) → drop (length xs) (xs ++ ys) ≡ ys
  drop-append_self [] ys = refl
  drop-append_self (x ∷ xs) ys = drop-append_self xs ys
