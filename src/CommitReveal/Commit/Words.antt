-- ===== src/CommitReveal/Commit/Words.antt =====
-- commit-reveal2/commit.go: abiEncode on values of at most 32 bytes.
use drb_node.Base.{
  ℕ, ◌-◌, ◌≤◌, ◌≡◌, refl, sym, ap, ap₂, ◌∙◌, Bytes, List, [], ◌∷◌, ◌++◌, length, length-append,
  length-replicate, replicate, append-inj, arith,
}
use drb_node.Crypto.{Ethereum}
use drb_node.CommitReveal.Commit.{abi_encode}

-- Two lists of values, each as long as its partner and at most 32 bytes long.
abbrev pub SameSizes : List Bytes → List Bytes → Type 0
SameSizes [] [] = Unit
SameSizes (x ∷ xs) (y ∷ ys) = (length x ≤ 32) × (length x ≡ length y) × SameSizes xs ys
SameSizes _ _ = ⊥

module _ (eth : Ethereum) where
  left_pad-size : (b : Bytes) → length b ≤ 32 → length (eth.left_pad_bytes b 32) ≡ 32
  left_pad-size b short = rw (eth.left_pad_short b 32 short) (
      omega (
        arith,
        length-append (replicate (32 - length b) 0) b,
        length-replicate {A = ℕ} (32 - length b) 0,
      ))

  left_pad-inj :
      (b c : Bytes)
      → length b ≤ 32
      → length b ≡ length c
      → eth.left_pad_bytes b 32 ≡ eth.left_pad_bytes c 32
      → b ≡ c
  left_pad-inj b c short same e =
      let padded : replicate (32 - length b) 0 ++ b ≡ replicate (32 - length c) 0 ++ c =
        sym (eth.left_pad_short b 32 short) ∙ e ∙ eth.left_pad_short c 32 (omega arith) in
      (append-inj (replicate (32 - length b) 0) b (replicate (32 - length c) 0) c
        (ap (λ n. length (replicate {A = ℕ} (32 - n) 0)) same) padded).1

  pub abi_encode-inj :
      (xs ys : List Bytes) → SameSizes xs ys → abi_encode eth xs ≡ abi_encode eth ys → xs ≡ ys
  unfolding abi_encode
  abi_encode-inj [] [] s e = refl
  abi_encode-inj [] (y ∷ ys) s e = absurd s
  abi_encode-inj (x ∷ xs) [] s e = absurd s
  abi_encode-inj (x ∷ xs) (y ∷ ys) (short, same, rest) e =
      let (heads, tails) =
        append-inj (eth.left_pad_bytes x 32) (abi_encode eth xs) (eth.left_pad_bytes y 32)
          (abi_encode eth ys) (left_pad-size x short ∙ sym (left_pad-size y (omega arith))) e in
      ap₂ ◌∷◌ (left_pad-inj x y short same heads) (abi_encode-inj xs ys rest tails)
