-- ===== src/Leader/Outputs.antt =====
-- nodes/leaderNode.go and its helpers: the form of what the leader sends.
use drb_node.Base.{
  ℕ, ◌<◌, ◌≡◌, ◌≢◌, inl, inr, subst, sym, Bytes, bytes_eq, Bool, true, false, some, List, [], ◌∷◌,
  ◌++◌, if◌then◌else◌, length, length-copy_into, zero32, All, All-append,
}
use drb_node.Crypto.{Ethereum}
use drb_node.Go.Number.{IsInt64, parse_int-IsInt64}
use drb_node.Utils.Requests.{SecretValueRequest}
use drb_node.Utils.Signature.{verify_signature, key_eoa}
use drb_node.CommitReveal.Merkle.Binding.{Is32}
use drb_node.Leader.State.{
  Output, submits_merkle_root, generates_random_number, requests_secret, activates, Leader, Setup,
  Replies,
}
use drb_node.Leader.MerkleRoot.{generate_merkle_root}
use drb_node.Leader.MerkleRoot.Sent.{generate_merkle_root-Outcome}

module _ (eth : Ethereum) (setup : Setup) where
  -- A request that a regular node accepts from the address of the leader's key.
  pub record IsOwnRequest (req : SecretValueRequest) : Type 0 where
    pub key : Bytes
    pub key_decoded : setup.hex_to_ecdsa setup.leader_private_key ≡ some key
    pub sender : req.eoa_address ≡ key_eoa eth key
    pub accepted :
        verify_signature eth
          (record { eoa_address = req.eoa_address; signature = req.signature; peer_id = [] })
        ≡ true

  -- The four lists of a random number transaction: as long as each other, with secrets, r and s of
  -- 32 bytes and v of eight bits.
  pub record IsRow (secrets : List Bytes) (vs : List ℕ) (rs ss : List Bytes) : Type 0 where
    pub secret_sizes : All Is32 secrets
    pub v_bounds : All (λ v. v < 256) vs
    pub r_sizes : All Is32 rs
    pub s_sizes : All Is32 ss
    pub as_many_vs : length vs ≡ length secrets
    pub as_many_rs : length rs ≡ length secrets
    pub as_many_ss : length ss ≡ length secrets

  abbrev pub IsWellFormed : Output → Type 0
  IsWellFormed (submits_merkle_root number root) = IsInt64 number × Is32 root
  IsWellFormed (generates_random_number number secrets vs rs ss) =
      (secrets ≢ []) × IsRow secrets vs rs ss
  IsWellFormed (requests_secret eoa info req) = IsOwnRequest req
  IsWellFormed (activates operator) = length operator ≡ 20

  abbrev pub AllWellFormed : Leader → Type 0
  AllWellFormed s = All IsWellFormed s.outputs

  abbrev pub Keeps : (Leader → Leader) → Type 0
  Keeps f = (s : Leader) → AllWellFormed s → AllWellFormed (f s)

  pub if-AllWellFormed :
      (b : Bool) (s t : Leader)
      → AllWellFormed s
      → AllWellFormed t
      → AllWellFormed (if b then s else t)
  if-AllWellFormed true s t p q = p
  if-AllWellFormed false s t p q = q

  pub add-AllWellFormed :
      (o : Output) (s : Leader)
      → IsWellFormed o
      → AllWellFormed s
      → All IsWellFormed (s.outputs ++ o ∷ [])
  add-AllWellFormed o s formed all = All-append IsWellFormed s.outputs (o ∷ []) all (formed, tt)

  module _ (replies : Replies) where
    pub generate_merkle_root-Keeps :
        (round : Bytes) → Keeps (generate_merkle_root eth setup replies round)
    generate_merkle_root-Keeps round s all =
        elim (generate_merkle_root-Outcome eth setup replies round s) [
          | inl (same, _) ↦ subst (All IsWellFormed) (sym same) all
          | inr sent ↦ subst (All IsWellFormed) (sym sent.sent) (
              add-AllWellFormed _ s
                (parse_int-IsInt64 round sent.number sent.parsed, length-copy_into zero32 sent.root)
                all)
        ]
