-- ===== src/CommitReveal/Commit/Inputs.antt =====
-- commit-reveal2/commit.go: the inputs under a secret value.
use drb_node.Base.{
  ℕ, ◌-◌, ◌^◌, ◌≤◌, ◌<◌, ◌≡◌, ◌⊎◌, inl, inr, sym, ap, ◌∙◌, Bytes, [], length, length-append,
  length-replicate, replicate, append-inj, arith,
}
use drb_node.Go.Number.{
  ℤ, pos, magnitude, int_bytes, set_bytes, set_bytes-int_bytes, set_bytes-padded,
  length-int_bytes-le,
}
use drb_node.Crypto.{Ethereum, Collision, digest-inj}
use drb_node.CommitReveal.Commit.{Commitment, abi_encode_packed, int_to_bytes, commitment_of}
use drb_node.CommitReveal.Commit.Chain.{secret_message, commitment_of-chain_from}

module _ (eth : Ethereum) where
  -- A number of at most 256 bits takes 32 bytes, which give the number back.
  pub int_to_bytes-size : (n : ℤ) → magnitude n < 256 ^ 32 → length (int_to_bytes eth n) ≡ 32
  unfolding int_to_bytes
  int_to_bytes-size n h =
      let b = int_bytes (magnitude n) in
      let short : length b ≤ 32 = length-int_bytes-le 32 (magnitude n) h in
      rw (eth.left_pad_short b 32 short) (
        omega (
          arith,
          length-append (replicate (32 - length b) 0) b,
          length-replicate {A = ℕ} (32 - length b) 0,
        ))

  set_bytes-int_to_bytes :
      (n : ℤ) → magnitude n < 256 ^ 32 → set_bytes 0 (int_to_bytes eth n) ≡ magnitude n
  unfolding int_to_bytes
  set_bytes-int_to_bytes n h =
      let b = int_bytes (magnitude n) in
      rw (
        eth.left_pad_short b 32 (length-int_bytes-le 32 (magnitude n) h),
        set_bytes-padded,
        set_bytes-int_bytes,
      )

  pub int_to_bytes-inj :
      (m n : ℤ)
      → magnitude m < 256 ^ 32
      → magnitude n < 256 ^ 32
      → int_to_bytes eth m ≡ int_to_bytes eth n
      → magnitude m ≡ magnitude n
  int_to_bytes-inj m n hm hn e =
      sym (set_bytes-int_to_bytes m hm) ∙ ap (set_bytes 0) e ∙ set_bytes-int_to_bytes n hn

  secret_message-inj :
      (m n : ℤ) (p q : Bytes) (s t : ℕ)
      → magnitude m < 256 ^ 32
      → magnitude n < 256 ^ 32
      → s < 256 ^ 32
      → t < 256 ^ 32
      → length p ≡ length q
      → secret_message eth m p s ≡ secret_message eth n q t
      → (magnitude m ≡ magnitude n) × (p ≡ q) × (s ≡ t)
  unfolding abi_encode_packed magnitude
  secret_message-inj m n p q s t hm hn hs ht len e =
      let (rounds, rest) =
        append-inj _ _ _ _ (int_to_bytes-size m hm ∙ sym (int_to_bytes-size n hn)) e in
      let (operators, times) = append-inj p _ q _ len rest in
      let (times', _) =
        append-inj (int_to_bytes eth (pos s)) [] (int_to_bytes eth (pos t)) []
          (int_to_bytes-size (pos s) hs ∙ sym (int_to_bytes-size (pos t) ht)) times in
      (int_to_bytes-inj m n hm hn rounds, operators, int_to_bytes-inj (pos s) (pos t) hs ht times')

  secret_of-chain :
      (n : ℤ) (p : Bytes) (s : ℕ)
      → (commitment_of eth n p s).secret_value ≡ eth.digest (secret_message eth n p s)
  secret_of-chain n p s =
      ap (λ (c : Commitment). c.secret_value) (commitment_of-chain_from eth n p s)

  -- Two commitments with one secret value were made for rounds of one absolute value, for one
  -- operator and at one time, unless they show two messages with one digest. The rounds and the
  -- times are numbers of at most 256 bits, and the operators addresses of one length.
  pub commitment_of-inj :
      (m n : ℤ) (p q : Bytes) (s t : ℕ)
      → magnitude m < 256 ^ 32
      → magnitude n < 256 ^ 32
      → s < 256 ^ 32
      → t < 256 ^ 32
      → length p ≡ length q
      → (commitment_of eth m p s).secret_value ≡ (commitment_of eth n q t).secret_value
      → ((magnitude m ≡ magnitude n) × (p ≡ q) × (s ≡ t)) ⊎ Collision eth.hasher
  commitment_of-inj m n p q s t hm hn hs ht len e =
      elim (digest-inj eth.hasher (secret_message eth m p s) (secret_message eth n q t)
        (sym (secret_of-chain m p s) ∙ e ∙ secret_of-chain n q t)) [
          | inl same ↦ inl (secret_message-inj m n p q s t hm hn hs ht len same)
          | inr clash ↦ inr clash
        ]
