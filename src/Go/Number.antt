-- ===== src/Go/Number.antt =====
-- Numbers as text and as bytes: math/big and strconv, base 10.
use drb_node.Base.{
  replicate, ℕ, zero, suc, ◌+◌, ◌-◌, ◌*◌, ◌/◌, ◌%◌, ◌^◌, ◌<◌, ◌≤◌, ◌≡◌, refl, Bytes, Option, none,
  some, [], ◌∷◌, ◌++◌, Bool, true, false, subst, inl, inr, Option-cases, ltb, leb, eqb, ◌&&◌,
  if◌then◌else◌, ◌>>=◌, length, length-append, arith,
}
use native.Mathlib.Nat.{pow-suc}

-- `negsuc n` is -(n + 1).
pub data ℤ : Type 0 where
  pos : ℕ → ℤ
  negsuc : ℕ → ℤ

abbrev pub negate : ℕ → ℤ
negate zero = pos 0
negate (suc n) = negsuc n

-- The absolute value, on which Int.Bytes works.
unfoldable pub magnitude : ℤ → ℕ
magnitude (pos n) = n
magnitude (negsuc n) = suc n

unfoldable pub digits_value : ℕ → Bytes → Option ℕ
digits_value acc [] = some acc
digits_value acc (c ∷ cs) =
    if leb b'0' c && leb c b'9' then digits_value (acc * 10 + (c - b'0')) cs else none

unfoldable pub unsigned_value : Bytes → Option ℕ
unfolding digits_value
unsigned_value [] = none
unsigned_value (c ∷ cs) = digits_value 0 (c ∷ cs)

-- new(big.Int).SetString(s, 10): a sign and decimal digits; `none` is `!ok`.
unfoldable pub set_string : Bytes → Option ℤ
unfolding unsigned_value
set_string [] = none
set_string (c ∷ cs) =
    if eqb c b'+'
    then (do n ← unsigned_value cs; some (pos n))
    else if eqb c b'-'
    then (do n ← unsigned_value cs; some (negate n))
    else (do n ← unsigned_value (c ∷ cs); some (pos n))

pub data ParsedInt : Type 0 where
  int_value : ℤ → ParsedInt
  syntax_error : ParsedInt
  range_error : ℤ → ParsedInt

abbrev in_int64 : ℤ → ParsedInt
in_int64 (pos n) = if ltb n (2 ^ 63) then int_value (pos n) else range_error (pos (2 ^ 63 - 1))
in_int64 (negsuc n) =
    if ltb n (2 ^ 63) then int_value (negsuc n) else range_error (negsuc (2 ^ 63 - 1))

-- strconv.Atoi(s) and strconv.ParseInt(s, 10, 64) on a 64-bit machine, with the value that comes
-- beside a range error.
unfoldable pub parse_int : Bytes → ParsedInt
unfolding set_string
parse_int s = elim (set_string s) [ none ↦ syntax_error | some z ↦ in_int64 z ]

-- strconv.ParseUint(s, 10, 8): digits alone, and a value of eight bits.
unfoldable pub parse_uint8 : Bytes → Option ℕ
unfolding unsigned_value
parse_uint8 s = do n ← unsigned_value s; if ltb n 256 then some n else none

-- fmt.Sprintf("%d", v) for a uint8
unfoldable pub print_uint8 : ℕ → Bytes
print_uint8 v =
    if ltb v 10
    then (v + b'0') ∷ []
    else if ltb v 100
    then (v / 10 + b'0') ∷ (v % 10 + b'0') ∷ []
    else (v / 100 + b'0') ∷ (v / 10 % 10 + b'0') ∷ (v % 10 + b'0') ∷ []

pub parse_uint8-print_uint8 : (v : ℕ) → v < 256 → parse_uint8 (print_uint8 v) ≡ some v
unfolding parse_uint8 print_uint8
parse_uint8-print_uint8 v h = ground arith

-- Int.SetBytes: big-endian.
unfoldable pub set_bytes : ℕ → Bytes → ℕ
set_bytes acc [] = acc
set_bytes acc (b ∷ bs) = set_bytes (acc * 256 + b) bs

-- Int.Bytes: the shortest big-endian bytes, least significant byte last.
big_bytes : ℕ → ℕ → Bytes
big_bytes zero n = []
big_bytes (suc fuel) n =
    let high = big_bytes fuel (n / 256) in if eqb n 0 then [] else high ++ (n % 256) ∷ []

-- The number itself bounds the count of its digits.
unfoldable pub int_bytes : ℕ → Bytes
unfolding big_bytes
int_bytes n = big_bytes n n

pub set_bytes-append :
    (acc : ℕ) (xs : Bytes) (b : ℕ) → set_bytes acc (xs ++ b ∷ []) ≡ set_bytes acc xs * 256 + b
unfolding set_bytes
set_bytes-append acc [] b = refl
set_bytes-append acc (x ∷ xs) b = set_bytes-append (acc * 256 + x) xs b

set_bytes-big_bytes : (fuel n : ℕ) → n ≤ fuel → set_bytes 0 (big_bytes fuel n) ≡ n
unfolding big_bytes set_bytes
set_bytes-big_bytes zero n h = omega arith
set_bytes-big_bytes (suc fuel) n h = ground (
  arith,
  set_bytes-append 0 (big_bytes fuel (n / 256)) (n % 256),
  set_bytes-big_bytes fuel (n / 256),
)

-- Reading the bytes of a number gives the number.
pub set_bytes-int_bytes : (n : ℕ) → set_bytes 0 (int_bytes n) ≡ n
unfolding int_bytes
set_bytes-int_bytes n = set_bytes-big_bytes n n (omega arith)

length-big_bytes-le : (k fuel n : ℕ) → n < 256 ^ k → length (big_bytes fuel n) ≤ k
unfolding big_bytes
length-big_bytes-le k zero n h = omega arith
length-big_bytes-le zero (suc fuel) n h = ground arith
length-big_bytes-le (suc k) (suc fuel) n h =
    let room : n < 256 ^ k * 256 = rw pow-suc at h in
    ground (
      arith,
      length-append (big_bytes fuel (n / 256)) ((n % 256) ∷ []),
      length-big_bytes-le k fuel (n / 256),
    )

-- A number below 256 ^ k has at most k bytes.
pub length-int_bytes-le : (k n : ℕ) → n < 256 ^ k → length (int_bytes n) ≤ k
unfolding int_bytes
length-int_bytes-le k n h = length-big_bytes-le k n n h

-- Zeros in front do not count.
pub set_bytes-padded : (k : ℕ) (b : Bytes) → set_bytes 0 (replicate k 0 ++ b) ≡ set_bytes 0 b
unfolding set_bytes
set_bytes-padded zero b = refl
set_bytes-padded (suc k) b = set_bytes-padded k b

-- int64
abbrev pub IsInt64 : ℤ → Type 0
IsInt64 (pos n) = n < 2 ^ 63
IsInt64 (negsuc n) = n < 2 ^ 63

if-int_value :
    (b : Bool) (z w v : ℤ)
    → (if b then int_value z else range_error w) ≡ int_value v
    → (b ≡ true) × (z ≡ v)
if-int_value true z w v h = (refl, value_of h)
  where
    value_of : int_value z ≡ int_value v → z ≡ v
    value_of e = cc
if-int_value false z w v h = cc

in_int64-IsInt64 : (z v : ℤ) → in_int64 z ≡ int_value v → IsInt64 v
in_int64-IsInt64 (pos n) v h =
    let (small, same) = if-int_value (ltb n (2 ^ 63)) (pos n) _ v h in
    subst IsInt64 same (ground arith)
in_int64-IsInt64 (negsuc n) v h =
    let (small, same) = if-int_value (ltb n (2 ^ 63)) (negsuc n) _ v h in
    subst IsInt64 same (ground arith)

pub parse_int-IsInt64 : (text : Bytes) (v : ℤ) → parse_int text ≡ int_value v → IsInt64 v
unfolding parse_int
parse_int-IsInt64 text v h = elim (Option-cases (set_string text)) [
  | inl bad ↦ absurd (no_value (rw (bad, parse_int) at h))
  | inr (z, good) ↦ in_int64-IsInt64 z v (rw (good, parse_int) at h)
]
  where
    no_value : syntax_error ≡ int_value v → ⊥
    no_value e = cc
