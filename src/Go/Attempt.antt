-- ===== src/Go/Attempt.antt =====
-- What a function with an error result does: it returns a value, returns an error, or ends the
-- process by log.Fatal. The callers only log an error, so its text is left out.
use drb_node.Base.{
  ◌≡◌, refl, true, false, Bytes, bytes_eq, Bool, Option, none, some, [], ◌==◌, if◌then◌else◌,
}

pub data Attempt (A : Type 0) : Type 0 where
  value : A → Attempt A
  error : Attempt A
  process_exit : Attempt A

infixl 5 ◌>>=◌ ◌>>◌
abbrev pub ◌>>=◌ : {A B : Type 0} → Attempt A → (A → Attempt B) → Attempt B
value a >>= f = f a
error >>= f = error
process_exit >>= f = process_exit

abbrev pub ◌>>◌ : {B : Type 0} → Attempt (Unit {0}) → Attempt B → Attempt B
m >> rest = m >>= λ _. rest

-- A pair (v, err) or (v, ok) of Go.
abbrev pub or_error : {A : Type 0} → Option A → Attempt A
or_error none = error
or_error (some a) = value a

-- A test that fails with an error.
abbrev pub ensure : Bool → Attempt (Unit {0})
ensure b = if b then value tt else error

-- os.Getenv(name), with log.Fatal where it is empty
abbrev pub required : Bytes → Attempt Bytes
required text = if text == [] then process_exit else value text

-- Inversions of a chain that returns a value.
pub >>=-eq-value :
    {A B : Type 0} (m : Attempt A) (f : A → Attempt B) {b : B}
    → (m >>= f) ≡ value b
    → (a : A) × (m ≡ value a) × (f a ≡ value b)
>>=-eq-value (value a) f h = (a, refl, h)
>>=-eq-value error f h = cc
>>=-eq-value process_exit f h = cc

pub or_error-eq-value : {A : Type 0} (o : Option A) {a : A} → or_error o ≡ value a → o ≡ some a
or_error-eq-value none h = cc
or_error-eq-value (some b) h = cc

pub ensure-eq-value : (b : Bool) {u : Unit {0}} → ensure b ≡ value u → b ≡ true
ensure-eq-value true h = refl
ensure-eq-value false h = cc

pub value-inj : {A : Type 0} (a b : A) → value a ≡ value b → a ≡ b
value-inj a b e = cc
