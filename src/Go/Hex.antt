-- ===== src/Go/Hex.antt =====
-- encoding/hex: EncodeToString and DecodeString.
use drb_node.Base.{
  ℕ, ◌+◌, ◌-◌, ◌*◌, ◌/◌, ◌%◌, ◌<◌, ◌≡◌, refl, Bytes, Option, none, some, [], ◌∷◌, ltb, leb, ◌&&◌,
  if◌then◌else◌, ◌>>=◌, length, All, arith,
}

abbrev pub IsByte : ℕ → Type 0
IsByte x = x < 256

unfoldable pub hex_digit : ℕ → ℕ
hex_digit d = if ltb d 10 then d + b'0' else d - 10 + b'a'

unfoldable pub encode_to_string : Bytes → Bytes
unfolding hex_digit
encode_to_string [] = []
encode_to_string (x ∷ xs) = hex_digit (x / 16) ∷ hex_digit (x % 16) ∷ encode_to_string xs

-- Digits and both cases of letters; `none` is InvalidByteError.
unfoldable pub hex_value : ℕ → Option ℕ
hex_value c =
    if leb b'0' c && leb c b'9'
    then some (c - b'0')
    else if leb b'a' c && leb c b'f'
    then some (c - b'a' + 10)
    else if leb b'A' c && leb c b'F'
    then some (c - b'A' + 10)
    else none

-- `none` also for an odd number of digits.
unfoldable pub decode_string : Bytes → Option Bytes
unfolding hex_value
decode_string [] = some []
decode_string (a ∷ []) = none
decode_string (a ∷ b ∷ rest) = do
  high ← hex_value a
  low ← hex_value b
  bytes ← decode_string rest
  some ((high * 16 + low) ∷ bytes)

hex_value-hex_digit : (d : ℕ) → d < 16 → hex_value (hex_digit d) ≡ some d
unfolding hex_value hex_digit
hex_value-hex_digit d h = ground arith

pub decode-encode : (b : Bytes) → All IsByte b → decode_string (encode_to_string b) ≡ some b
unfolding decode_string encode_to_string
decode-encode [] _ = refl
decode-encode (x ∷ xs) (hx, hxs) =
    rw
      (
        hex_value-hex_digit (x / 16) (omega arith),
        hex_value-hex_digit (x % 16) (omega arith),
        decode-encode xs hxs,
      )
      (ground arith)

pub length-encode : (b : Bytes) → length (encode_to_string b) ≡ 2 * length b
unfolding encode_to_string
length-encode [] = omega arith
length-encode (x ∷ xs) = omega (arith, length-encode xs)
