-- ===== src/CommitReveal/Commit.antt =====
-- commit-reveal2/commit.go: the secret value, COS and CVS of a regular node.
pub mod Chain
pub mod Inputs
pub mod Words
use drb_node.Base.{ℕ, Bytes, Option, some, List, [], ◌∷◌, ◌++◌, copy_into, zero32, ◌>>=◌}
use drb_node.Go.Number.{ℤ, pos, magnitude, set_string, int_bytes}
use drb_node.Crypto.{Ethereum}

-- abiEncodePacked
unfoldable pub abi_encode_packed : List Bytes → Bytes
abi_encode_packed [] = []
abi_encode_packed (e ∷ es) = e ++ abi_encode_packed es

pub record Commitment : Type 0 where
  pub secret_value : Bytes
  pub cos : Bytes
  pub cvs : Bytes

module _ (eth : Ethereum) where
  -- Keccak256
  unfoldable pub keccak256 : Bytes → Bytes
  keccak256 data' = eth.digest data'

  -- abiEncode
  unfoldable pub abi_encode : List Bytes → Bytes
  abi_encode [] = []
  abi_encode (e ∷ es) = eth.left_pad_bytes e 32 ++ abi_encode es

  -- intToBytes
  unfoldable pub int_to_bytes : ℤ → Bytes
  int_to_bytes n = eth.left_pad_bytes (int_bytes (magnitude n)) 32

  unfoldable pub commitment_of : ℤ → Bytes → ℕ → Commitment
  unfolding keccak256 abi_encode abi_encode_packed int_to_bytes
  commitment_of round_int operator_address timestamp =
      let secret = keccak256 (
        abi_encode_packed
          (int_to_bytes round_int ∷ operator_address ∷ int_to_bytes (pos timestamp) ∷ [])) in
      let cos = keccak256 (abi_encode (secret ∷ [])) in
      let cvs = keccak256 (abi_encode (cos ∷ [])) in
      record {
        secret_value = copy_into zero32 secret;
        cos = copy_into zero32 cos;
        cvs = copy_into zero32 cvs;
      }

  -- GenerateCommit at the Unix time `timestamp`; `none` is the error of a round that is no number.
  unfoldable pub generate_commit : ℕ → Bytes → Bytes → Option Commitment
  unfolding commitment_of
  generate_commit timestamp round operator = do
    round_int ← set_string round
    some (commitment_of round_int (eth.hex_to_address operator) timestamp)
