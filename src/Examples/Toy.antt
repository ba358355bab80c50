-- ===== src/Examples/Toy.antt =====
-- A toy cryptography, which shows that the laws of the packages can hold: a checksum for a digest,
-- and signatures that carry the digest and the key.
use drb_node.Base.{
  ◌<◌, ◌∙◌, ap, subst, ◌==◌, ==_refl, bytes_eq, zero32, copy_into, copy_into_all, length-copy_into,
  length-append, get_or, get_or-append, take, take-append, drop, drop-append_self, All, ℕ, ◌+◌, ◌*◌,
  ◌%◌, ◌-◌, ◌≤◌, ◌≡◌, refl, sym, Bytes, Option, some, none, [], ◌∷◌, ◌++◌, eqb, if◌then◌else◌,
  length, replicate, Bool-cases, inl, inr, arith,
}
use drb_node.Go.Hex.{IsByte, encode_to_string, decode_string, decode-encode}
use drb_node.Crypto.{Hasher, Ethereum}
use drb_node.CommitReveal.RevealOrder.{RevealOrderEntry, RevealSort}
use drb_node.Examples.Insertion.{insertion_sort}

unfoldable pub checksum : Bytes → ℕ
checksum [] = 7
checksum (b ∷ bs) = (b + 3 * checksum bs) % 251

unfoldable pub toy_digest : Bytes → Bytes
unfolding checksum
toy_digest x = replicate 31 1 ++ checksum x ∷ []

pub toy_digest-size : (x : Bytes) → length (toy_digest x) ≡ 32
unfolding toy_digest
toy_digest-size x = refl

abbrev pub toy_hasher : Hasher
toy_hasher = record { digest = toy_digest; length-digest = toy_digest-size }

unfoldable pub toy_pad : Bytes → ℕ → Bytes
toy_pad b n = replicate (n - length b) 0 ++ b

pub toy_pad-short :
    (b : Bytes) (n : ℕ) → length b ≤ n → toy_pad b n ≡ replicate (n - length b) 0 ++ b
unfolding toy_pad
toy_pad-short b n le = refl

pub toy_pad-long : (b : Bytes) (n : ℕ) → n ≤ length b → toy_pad b n ≡ b
unfolding toy_pad
toy_pad-long b n le = let none_left : n - length b ≡ 0 = omega arith in rw none_left refl

-- A text of another length is the zero address.
unfoldable pub toy_address : Bytes → Bytes
toy_address s = if eqb (length s) 20 then s else replicate 20 0

pub toy_address-size : (s : Bytes) → length (toy_address s) ≡ 20
unfolding toy_address
toy_address-size s = elim (Bool-cases (eqb (length s) 20)) [
  | inl same ↦ rw (same, toy_address) (ground arith)
  | inr other ↦ rw (other, toy_address) refl
]

pub toy_address-id : (a : Bytes) → length a ≡ 20 → toy_address a ≡ a
unfolding toy_address
toy_address-id a len = ground arith

fill32 : Option Bytes → Bytes
fill32 none = zero32
fill32 (some b) = copy_into zero32 b

-- The bytes of a hexadecimal text, cut or filled up to 32.
unfoldable pub toy_hash : Bytes → Bytes
unfolding fill32
toy_hash s = fill32 (decode_string s)

fill32-size : (o : Option Bytes) → length (fill32 o) ≡ 32
unfolding fill32
fill32-size none = refl
fill32-size (some b) = length-copy_into zero32 b

pub toy_hash-size : (s : Bytes) → length (toy_hash s) ≡ 32
unfolding toy_hash
toy_hash-size s = fill32-size (decode_string s)

pub toy_hash-encode : (b : Bytes) → length b ≡ 32 → All IsByte b → toy_hash (encode_to_string b) ≡ b
unfolding toy_hash
toy_hash-encode b len bytes = rw (decode-encode b bytes, fill32) (copy_into_all zero32 b (sym len))

-- The first 20 bytes of a key.
unfoldable pub toy_key_address : Bytes → Bytes
toy_key_address = copy_into (replicate 20 0)

pub toy_key_address-size : (k : Bytes) → length (toy_key_address k) ≡ 20
unfolding toy_key_address
toy_key_address-size k = length-copy_into (replicate 20 0) k

-- A signature is the key, the digest, and a zero; keys and digests have 32 bytes.
unfoldable pub toy_sign : Bytes → Bytes → Option Bytes
toy_sign hash key =
    if eqb (length key) 32
    then (if eqb (length hash) 32 then some (key ++ (hash ++ 0 ∷ [])) else none)
    else none

unfoldable pub toy_recover : Bytes → Bytes → Option Bytes
toy_recover hash signature =
    if drop 32 signature == hash ++ 0 ∷ [] then some (take 32 signature) else none

toy_signed :
    (hash key signature : Bytes)
    → toy_sign hash key ≡ some signature
    → (length key ≡ 32) × (length hash ≡ 32) × (key ++ (hash ++ 0 ∷ []) ≡ signature)
unfolding toy_sign
toy_signed hash key signature e = ground arith

pub toy_sign-size :
    (hash key signature : Bytes) → toy_sign hash key ≡ some signature → length signature ≡ 65
toy_sign-size hash key signature e =
    let (long, digest, same) = toy_signed hash key signature e in
    omega (arith, ap length same, length-append key (hash ++ 0 ∷ []), length-append hash (0 ∷ []))

pub toy_sign-recovery_id :
    (hash key signature : Bytes) → toy_sign hash key ≡ some signature → get_or signature 64 0 < 2
toy_sign-recovery_id hash key signature e =
    let (long, digest, same) = toy_signed hash key signature e in
    let place : length key + (length hash + 0) ≡ 64 = omega arith in
    let last : get_or signature 64 0 ≡ 0 =
      subst (λ n. get_or signature n 0 ≡ 0) place
        (rw (← same) (
          get_or-append key (hash ++ 0 ∷ []) (length hash + 0) 0
          ∙ get_or-append hash (0 ∷ []) 0 0)) in
    omega arith

pub toy_recover-sign :
    (hash key signature : Bytes)
    → toy_sign hash key ≡ some signature
    → toy_recover hash signature ≡ some key
unfolding toy_recover
toy_recover-sign hash key signature e =
    let (long, digest, same) = toy_signed hash key signature e in
    let tail : drop 32 signature ≡ hash ++ 0 ∷ [] =
      subst (λ n. drop n signature ≡ hash ++ 0 ∷ []) long
        (rw (← same) (drop-append_self key (hash ++ 0 ∷ []))) in
    let front : take 32 signature ≡ key =
      subst (λ n. take n signature ≡ key) long (rw (← same) (take-append key (hash ++ 0 ∷ []))) in
    rw (tail, front, ==_refl (hash ++ 0 ∷ [])) refl

abbrev pub toy_ethereum : Ethereum
toy_ethereum = record {
  hasher = toy_hasher;
  left_pad_bytes = toy_pad;
  left_pad_short = toy_pad-short;
  left_pad_long = toy_pad-long;
  hex_to_address = toy_address;
  address_hex = λ a. a;
  length-hex_to_address = toy_address-size;
  hex_to_address-address_hex = toy_address-id;
  hex_to_hash = toy_hash;
  length-hex_to_hash = toy_hash-size;
  hex_to_hash-encode = toy_hash-encode;
  sig_to_pub = toy_recover;
  pubkey_to_address = toy_key_address;
  length-pubkey_to_address = toy_key_address-size;
  sign = toy_sign;
  public_key = λ key. key;
  length-sign = toy_sign-size;
  sign-recovery_id = toy_sign-recovery_id;
  sig_to_pub-sign = toy_recover-sign;
}

abbrev pub toy_sort : RevealSort
toy_sort = insertion_sort (λ (e : RevealOrderEntry). e.value)
