-- ===== src/CommitReveal/Commit/Chain.antt =====
-- commit-reveal2/commit.go: the secret value, COS and CVS as a chain of digests.
use drb_node.Base.{
  ℕ, ◌≡◌, ◌⊎◌, inl, inr, refl, sym, Bytes, none, some, [], ◌∷◌, copy_into, copy_into_all, zero32,
  Option-cases, length, arith,
}
use mathlib.Core.List.{append-nil}
use drb_node.Go.Number.{ℤ, pos, set_string}
use drb_node.Crypto.{Ethereum}
use drb_node.CommitReveal.Commit.{
  Commitment, keccak256, abi_encode_packed, int_to_bytes, commitment_of, generate_commit,
}

module _ (eth : Ethereum) where
  pub copy_digest : (x : Bytes) → copy_into zero32 (eth.digest x) ≡ eth.digest x
  copy_digest x = copy_into_all zero32 (eth.digest x) (sym (eth.length-digest x))

  pad_digest : (x : Bytes) → eth.left_pad_bytes (eth.digest x) 32 ≡ eth.digest x
  pad_digest x = eth.left_pad_long (eth.digest x) 32 (omega (arith, eth.length-digest x))

  -- The message under the secret value.
  abbrev pub secret_message : ℤ → Bytes → ℕ → Bytes
  secret_message n operator time =
      abi_encode_packed (int_to_bytes eth n ∷ operator ∷ int_to_bytes eth (pos time) ∷ [])

  abbrev chain_from : Bytes → Commitment
  chain_from secret = record {
    secret_value = secret;
    cos = eth.digest secret;
    cvs = eth.digest (eth.digest secret);
  }

  pub commitment_of-chain_from :
      (n : ℤ) (operator : Bytes) (time : ℕ)
      → commitment_of eth n operator time ≡ chain_from (eth.digest (secret_message n operator time))
  unfolding commitment_of
  commitment_of-chain_from n operator time = simp (copy_digest, pad_digest, append-nil)

  -- COS is the digest of the secret value and CVS the digest of COS, all of 32 bytes.
  pub record IsChain (c : Commitment) : Type 0 where
    pub secret_size : length c.secret_value ≡ 32
    pub cos_size : length c.cos ≡ 32
    pub cvs_size : length c.cvs ≡ 32
    pub cos_of_secret : keccak256 eth c.secret_value ≡ c.cos
    pub cvs_of_cos : keccak256 eth c.cos ≡ c.cvs

  chain_from-IsChain : (x : Bytes) → IsChain (chain_from (eth.digest x))
  unfolding keccak256
  chain_from-IsChain x = record {
    secret_size = eth.length-digest x;
    cos_size = eth.length-digest (eth.digest x);
    cvs_size = eth.length-digest (eth.digest (eth.digest x));
    cos_of_secret = refl;
    cvs_of_cos = refl;
  }

  -- Whatever the round, the operator and the time, a commitment that is made is a chain of
  -- digests, the one that the leader and the contract check; it is made for every round that is a
  -- decimal number, and for no other.
  pub generate_commit-IsChain :
      (time : ℕ) (round operator : Bytes)
      → ((set_string round ≡ none) × (generate_commit eth time round operator ≡ none))
        ⊎ ((c : Commitment) × (generate_commit eth time round operator ≡ some c) × IsChain c)
  unfolding generate_commit
  generate_commit-IsChain time round operator = elim (Option-cases (set_string round)) [
    | inl bad ↦ inl (bad, rw bad)
    | inr (n, parsed) ↦ inr (
      commitment_of eth n (eth.hex_to_address operator) time,
      rw parsed,
      rw (commitment_of-chain_from n (eth.hex_to_address operator) time)
          (chain_from-IsChain (secret_message n (eth.hex_to_address operator) time)),
    )
  ]
