-- ===== src/Eth/Estimates.antt =====
-- eth/eth.go: the attempts of ExecuteTransaction to estimate the gas.
use drb_node.Base.{ℕ, zero, suc, ◌+◌, ◌<◌, ◌≡◌, ap, ◌∙◌, none, some, Option-cases, inl, inr, arith}
use drb_node.Eth.{CallMsg, Failure, estimate_failed, done, failed, Client, estimated, estimates}

module _ (client : Client) (msg : CallMsg) where
  -- No one of so many attempts from the k-th on succeeds.
  abbrev pub AllFail : ℕ → ℕ → Type 0
  AllFail left k = (i : ℕ) → i < left → client.estimate_gas msg (k + i) ≡ none

  -- The first attempt to succeed, among so many from the k-th on.
  abbrev pub FirstEstimate : ℕ → ℕ → ℕ → Type 0
  FirstEstimate left k gas =
      (i : ℕ) × (i < left) × AllFail i k × (client.estimate_gas msg (k + i) ≡ some gas)

  AllFail-suc :
      (left k : ℕ) → client.estimate_gas msg k ≡ none → AllFail left (suc k) → AllFail (suc left) k
  AllFail-suc left k here later zero below =
      let e : k + 0 ≡ k = omega arith in ap (client.estimate_gas msg) e ∙ here
  AllFail-suc left k here later (suc i) below =
      let e : k + suc i ≡ suc k + i = omega arith in
      ap (client.estimate_gas msg) e ∙ later i (omega arith)

  pub estimates-failed :
      (left k : ℕ) (e : Failure)
      → estimates client msg left k ≡ failed e
      → (e ≡ estimate_failed) × AllFail left k
  unfolding estimates estimated
  estimates-failed zero k e h = (cc, λ i below. absurd (omega arith))
  estimates-failed (suc left) k e h = elim (Option-cases (client.estimate_gas msg k)) [
    | inl here ↦
        let (same, later) = estimates-failed left (suc k) e (rw here at h) in
        (same, AllFail-suc left k here later)
    | inr (gas, here) ↦
        let h' : estimated (some gas) (estimates client msg left (suc k)) ≡ failed e =
          rw here at h in
        absurd (cc)
  ]

  pub estimates-done :
      (left k gas : ℕ) → estimates client msg left k ≡ done gas → FirstEstimate left k gas
  unfolding estimates estimated
  estimates-done zero k gas h = absurd (cc)
  estimates-done (suc left) k gas h = elim (Option-cases (client.estimate_gas msg k)) [
    | inl here ↦
        let (i, below, before, at) = estimates-done left (suc k) gas (rw here at h) in
        let e : k + suc i ≡ suc k + i = omega arith in
        (suc i, omega arith, AllFail-suc i k here before, ap (client.estimate_gas msg) e ∙ at)
    | inr (gas', here) ↦
        let h' : estimated (some gas') (estimates client msg left (suc k)) ≡ done gas =
          rw here at h in
        let e : k + 0 ≡ k = omega arith in
        let same : some gas' ≡ some gas = cc in
        (
          0,
          omega arith,
          λ i below. absurd (omega arith),
          ap (client.estimate_gas msg) e ∙ here ∙ same,
        )
  ]
