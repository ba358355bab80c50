-- ===== src/Regular/CvsSignature/Binding.antt =====
-- nodes/regularNode_helper/generateCvsSignature.go: what the hash that is signed says.
use drb_node.Base.{
  ◌^◌, ◌<◌, ◌≤◌, ◌≡◌, ◌⊎◌, inl, inr, refl, sym, ap, ◌∙◌, Bytes, codes, List, [], ◌∷◌, ◌++◌, length,
  append-inj, get_or, arith,
}
use drb_node.Crypto.{Ethereum, Collision, digest-inj}
use drb_node.Go.Number.{ℤ, magnitude}
use drb_node.CommitReveal.Commit.{abi_encode, abi_encode_packed, int_to_bytes}
use drb_node.CommitReveal.Commit.Inputs.{int_to_bytes-size, int_to_bytes-inj}
use drb_node.CommitReveal.Commit.Words.{abi_encode-inj}
use drb_node.Regular.CvsSignature.{
  domain_type, message_type, domain_separator, message_hash, typed_data_hash,
}

abbrev pub Wide : ℤ → Type 0
Wide n = magnitude n < 256 ^ 32

-- The parts of the packed text after the prefix.
parts :
    (a b c d : Bytes)
    → length a ≡ length b
    → length c ≡ length d
    → abi_encode_packed ((0x19 ∷ 0x01 ∷ []) ∷ a ∷ c ∷ [])
      ≡ abi_encode_packed ((0x19 ∷ 0x01 ∷ []) ∷ b ∷ d ∷ [])
    → (a ≡ b) × (c ≡ d)
unfolding abi_encode_packed
parts a b c d heads tails e =
    let tail =
      (append-inj (0x19 ∷ 0x01 ∷ []) (a ++ (c ++ [])) (0x19 ∷ 0x01 ∷ []) (b ++ (d ++ [])) refl
        e).1 in
    let (same, rest) = append-inj a (c ++ []) b (d ++ []) heads tail in
    (same, (append-inj c [] d [] tails rest).0)

module _ (eth : Ethereum) where
  domain_size : (chain : ℤ) (contract : Bytes) → length (domain_separator eth chain contract) ≡ 32
  unfolding domain_separator
  domain_size chain contract = eth.length-digest _

  message_size : (round : ℤ) (cvs : Bytes) → length (message_hash eth round cvs) ≡ 32
  unfolding message_hash
  message_size round cvs = eth.length-digest _

module _ (eth : Ethereum) where
  -- The values under the two hashes.
  abbrev message_words : ℤ → Bytes → List Bytes
  message_words round cvs = eth.digest message_type ∷ int_to_bytes eth round ∷ cvs ∷ []

  abbrev domain_words : ℤ → Bytes → List Bytes
  domain_words chain_id contract_address =
      eth.digest domain_type
      ∷ eth.digest (codes "Tokamak DRB")
      ∷ eth.digest (codes "1")
      ∷ int_to_bytes eth chain_id
      ∷ contract_address
      ∷ []

  digest_short : (x : Bytes) → length (eth.digest x) ≤ 32
  digest_short x = omega (arith, eth.length-digest x)

  message_hash-inj :
      (m n : ℤ) (c d : Bytes)
      → Wide m
      → Wide n
      → length c ≡ 32
      → length d ≡ 32
      → message_hash eth m c ≡ message_hash eth n d
      → ((magnitude m ≡ magnitude n) × (c ≡ d)) ⊎ Collision eth.hasher
  unfolding message_hash
  message_hash-inj m n c d hm hn hc hd e =
      let size = int_to_bytes-size eth m hm in
      let sizes = size ∙ sym (int_to_bytes-size eth n hn) in
      elim (digest-inj eth.hasher (abi_encode eth (message_words m c))
        (abi_encode eth (message_words n d)) e) [
          | inr clash ↦ inr clash
          | inl same ↦
              let lists =
                abi_encode-inj eth (message_words m c) (message_words n d)
                  (
                    digest_short message_type,
                    refl,
                    (omega arith, sizes, (omega arith, hc ∙ sym hd, tt)),
                  )
                  same in
              inl (
                int_to_bytes-inj eth m n hm hn (ap (λ (l : List Bytes). get_or l 1 []) lists),
                ap (λ (l : List Bytes). get_or l 2 []) lists,
              )
        ]

  domain_separator-inj :
      (m n : ℤ) (p q : Bytes)
      → Wide m
      → Wide n
      → length p ≡ 20
      → length q ≡ 20
      → domain_separator eth m p ≡ domain_separator eth n q
      → ((magnitude m ≡ magnitude n) × (p ≡ q)) ⊎ Collision eth.hasher
  unfolding domain_separator
  domain_separator-inj m n p q hm hn hp hq e =
      let size = int_to_bytes-size eth m hm in
      let sizes = size ∙ sym (int_to_bytes-size eth n hn) in
      elim (digest-inj eth.hasher (abi_encode eth (domain_words m p))
        (abi_encode eth (domain_words n q)) e) [
          | inr clash ↦ inr clash
          | inl same ↦
              let lists =
                abi_encode-inj eth (domain_words m p) (domain_words n q)
                  (
                    digest_short domain_type,
                    refl,
                    (
                      digest_short (codes "Tokamak DRB"),
                      refl,
                      (
                        digest_short (codes "1"),
                        refl,
                        (omega arith, sizes, (omega arith, hp ∙ sym hq, tt)),
                      ),
                    ),
                  )
                  same in
              inl (
                int_to_bytes-inj eth m n hm hn (ap (λ (l : List Bytes). get_or l 3 []) lists),
                ap (λ (l : List Bytes). get_or l 4 []) lists,
              )
        ]

  -- Two typed data hashes that are equal are those of one chain and one round, up to their signs,
  -- of one contract and of one CVS, unless they show two messages with one digest. The numbers have
  -- at most 256 bits, the contracts 20 bytes, and the CVS 32.
  pub typed_data_hash-inj :
      (chain chain' : ℤ) (contract contract' : Bytes) (round round' : ℤ) (cvs cvs' : Bytes)
      → Wide chain
      → Wide chain'
      → Wide round
      → Wide round'
      → length contract ≡ 20
      → length contract' ≡ 20
      → length cvs ≡ 32
      → length cvs' ≡ 32
      → typed_data_hash eth chain contract round cvs
        ≡ typed_data_hash eth chain' contract' round' cvs'
      → ((magnitude chain ≡ magnitude chain')
          × (contract ≡ contract')
          × (magnitude round ≡ magnitude round')
          × (cvs ≡ cvs'))
        ⊎ Collision eth.hasher
  unfolding typed_data_hash
  typed_data_hash-inj chain chain' p q round round' c d hm hm' hn hn' hp hq hc hd e =
      let domain = domain_separator eth chain p in
      let domain' = domain_separator eth chain' q in
      let message = message_hash eth round c in
      let message' = message_hash eth round' d in
      elim (digest-inj eth.hasher (abi_encode_packed ((0x19 ∷ 0x01 ∷ []) ∷ domain ∷ message ∷ []))
        (abi_encode_packed ((0x19 ∷ 0x01 ∷ []) ∷ domain' ∷ message' ∷ [])) e) [
          | inr clash ↦ inr clash
          | inl same ↦
              let (domains, messages) =
                parts domain domain' message message'
                  (domain_size eth chain p ∙ sym (domain_size eth chain' q))
                  (message_size eth round c ∙ sym (message_size eth round' d)) same in
              elim (domain_separator-inj chain chain' p q hm hm' hp hq domains) [
                | inr clash ↦ inr clash
                | inl (chains, contracts) ↦
                    elim (message_hash-inj round round' c d hn hn' hc hd messages) [
                      | inr clash ↦ inr clash
                      | inl (rounds, values) ↦ inl (chains, contracts, rounds, values)
                    ]
              ]
        ]
