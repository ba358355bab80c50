-- ===== src/Crypto.antt =====
-- The cryptography that the node takes from third-party packages: golang.org/x/crypto/sha3 and
-- github.com/ethereum/go-ethereum (crypto, common). It is a parameter of the model; the fields
-- with an equation or an order are what the documentation of those packages promises.
use drb_node.Base.{
  Bool-cases, ◌==◌, inl, inr, bytes_eq, arith, ◌⊎◌, ℕ, ◌≡◌, ◌≢◌, ◌≤◌, ◌-◌, Bytes, Option, some,
  length, replicate, ◌++◌, ◌<◌, get_or, All,
}
use drb_node.Go.Hex.{IsByte, encode_to_string}

-- sha3.NewLegacyKeccak256, crypto.Keccak256Hash: the digest of all that was written.
pub record Hasher : Type 0 where
  pub digest : Bytes → Bytes
  pub length-digest : (x : Bytes) → length (digest x) ≡ 32

-- Two messages with one digest.
pub record Collision (h : Hasher) : Type 0 where
  pub left : Bytes
  pub right : Bytes
  pub differ : left ≢ right
  pub same_digest : h.digest left ≡ h.digest right

module _ (h : Hasher) where
  pub digest-inj : (x y : Bytes) → h.digest x ≡ h.digest y → (x ≡ y) ⊎ Collision h
  digest-inj x y e = elim (Bool-cases (x == y)) [
    | inl same ↦ inl ((bytes_eq.equals_iff x y).0 same)
    | inr other ↦ inr (record {
      left = x;
      right = y;
      differ = λ p. ground (arith, bytes_eq.equals_iff x y);
      same_digest = e;
    })
  ]

-- An address is its 20 bytes; keys and signatures are byte strings.
pub record Ethereum : Type 0 where
  pub hasher : Hasher
  pub open hasher use *
  -- common.LeftPadBytes
  pub left_pad_bytes : Bytes → ℕ → Bytes
  pub left_pad_short :
      (b : Bytes) (n : ℕ) → length b ≤ n → left_pad_bytes b n ≡ replicate (n - length b) 0 ++ b
  pub left_pad_long : (b : Bytes) (n : ℕ) → n ≤ length b → left_pad_bytes b n ≡ b
  -- common.HexToAddress and Address.Hex
  pub hex_to_address : Bytes → Bytes
  pub address_hex : Bytes → Bytes
  pub length-hex_to_address : (s : Bytes) → length (hex_to_address s) ≡ 20
  pub hex_to_address-address_hex : (a : Bytes) → length a ≡ 20 → hex_to_address (address_hex a) ≡ a
  -- common.HexToHash
  pub hex_to_hash : Bytes → Bytes
  pub length-hex_to_hash : (s : Bytes) → length (hex_to_hash s) ≡ 32
  pub hex_to_hash-encode :
      (b : Bytes) → length b ≡ 32 → All IsByte b → hex_to_hash (encode_to_string b) ≡ b
  -- crypto.SigToPub, crypto.PubkeyToAddress, crypto.Sign, privateKey.PublicKey
  pub sig_to_pub : Bytes → Bytes → Option Bytes
  pub pubkey_to_address : Bytes → Bytes
  pub length-pubkey_to_address : (k : Bytes) → length (pubkey_to_address k) ≡ 20
  pub sign : Bytes → Bytes → Option Bytes
  pub public_key : Bytes → Bytes
  -- A signature is [R || S || V] with V either 0 or 1.
  pub length-sign :
      (hash key signature : Bytes) → sign hash key ≡ some signature → length signature ≡ 65
  pub sign-recovery_id :
      (hash key signature : Bytes) → sign hash key ≡ some signature → get_or signature 64 0 < 2
  pub sig_to_pub-sign :
      (hash key signature : Bytes)
      → sign hash key ≡ some signature
      → sig_to_pub hash signature ≡ some (public_key key)
