-- ===== src/Regular/CvsSignature.antt =====
-- nodes/regularNode_helper/generateCvsSignature.go: the EIP-712 signature of a round and its CVS.
-- The file's abiEncode, abiEncodePacked and intToBytes are those of commit-reveal2/commit.go.
pub mod Binding
pub mod Judged
use drb_node.Base.{
  ℕ, ◌+◌, ◌%◌, ◌^◌, Bytes, nat_eq, codes, Bool, Option, none, some, List, [], ◌∷◌, take, drop,
  get_or,
}
use drb_node.Base.Maps.{Map}
use drb_node.Crypto.{Ethereum}
use drb_node.Go.Attempt.{Attempt, value, error, process_exit, ◌>>=◌, or_error, required}
use drb_node.Go.Hex.{encode_to_string}
use drb_node.Go.Number.{ℤ, set_string, print_uint8}
use drb_node.Go.Text.{trim_prefix}
use drb_node.CommitReveal.Commit.{abi_encode, abi_encode_packed, int_to_bytes}
use drb_node.Regular.State.{Env}

-- The results v, r and s.
pub record CvsSignature : Type 0 where
  pub v : ℕ
  pub r : Bytes
  pub s : Bytes

-- Slices of a signature of 65 bytes; the sum is one of eight bits.
unfoldable pub split_signature : Bytes → CvsSignature
split_signature signature = record {
  v = (get_or signature 64 0 + 27) % 256;
  r = encode_to_string (take 32 signature);
  s = encode_to_string (take 32 (drop 32 signature));
}

abbrev pub domain_type : Bytes
domain_type =
    codes "EIP712Domain(string name,string version,uint256 chainId,address verifyingContract)"

abbrev pub message_type : Bytes
message_type = codes "Message(uint256 round,bytes32 cv)"

module _ (eth : Ethereum) where
  unfoldable pub domain_separator : ℤ → Bytes → Bytes
  unfolding abi_encode int_to_bytes
  domain_separator chain_id contract_address = eth.digest (
      abi_encode eth (
        eth.digest domain_type
        ∷ eth.digest (codes "Tokamak DRB")
        ∷ eth.digest (codes "1")
        ∷ int_to_bytes eth chain_id
        ∷ contract_address
        ∷ []))

  unfoldable pub message_hash : ℤ → Bytes → Bytes
  unfolding abi_encode int_to_bytes
  message_hash round cvs =
      eth.digest (abi_encode eth (eth.digest message_type ∷ int_to_bytes eth round ∷ cvs ∷ []))

  unfoldable pub typed_data_hash : ℤ → Bytes → ℤ → Bytes → Bytes
  unfolding domain_separator message_hash abi_encode_packed
  typed_data_hash chain_id contract_address round cvs = eth.digest (
      abi_encode_packed (
        (0x19 ∷ 0x01 ∷ [])
        ∷ domain_separator chain_id contract_address
        ∷ message_hash round cvs
        ∷ []))

  -- GenerateCvsSignature
  unfoldable pub generate_cvs_signature : Env → Bytes → Bytes → Attempt CvsSignature
  unfolding typed_data_hash split_signature
  generate_cvs_signature env round_num cvs = do
    contract_text ← required env.contract_address
    chain_text ← required env.chain_id
    let contract_address = eth.hex_to_address (trim_prefix contract_text (codes "0x"))
    chain_id ← or_error (set_string chain_text)
    round ← or_error (set_string round_num)
    key_text ← required env.eoa_private_key
    key ← or_error (env.hex_to_ecdsa key_text)
    signature ← or_error (eth.sign (typed_data_hash chain_id contract_address round cvs) key)
    value (split_signature signature)

-- The field `Sign` of a commit request.
unfoldable pub sign_map : CvsSignature → Map Bytes Bytes
unfolding print_uint8
sign_map x = (codes "v", print_uint8 x.v) ∷ (codes "r", x.r) ∷ (codes "s", x.s) ∷ []
