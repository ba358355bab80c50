-- ===== src/Eth/Receipts.antt =====
-- eth/eth.go: waitForTransactionSuccess ends with the first reply that is not "not found".
use drb_node.Base.{
  ℕ, zero, suc, ◌+◌, ◌<◌, ◌≡◌, ◌≢◌, ◌⊎◌, inl, inr, refl, sym, ap, subst, ◌∙◌, true, false, Option,
  none, some, arith, nat_eq, ◌==◌, Bool-cases, some-inj, if◌then◌else◌,
}
use drb_node.Eth.{
  SignedTransaction, ReceiptReply, receipt, not_found, receipt_error, receipt_failed, reverted,
  Outcome, done, failed, Client, verdict, asked, wait_for_transaction_success,
}

asked-cases :
    (o later : Option (Outcome (Unit {0}))) (r : Outcome (Unit {0}))
    → asked o later ≡ some r
    → (o ≡ some r) ⊎ ((o ≡ none) × (later ≡ some r))
unfolding asked
asked-cases none later r h = inr (refl, h)
asked-cases (some x) later r h = inl h

verdict-none : (reply : ReceiptReply) → verdict reply ≡ none → reply ≡ not_found
unfolding verdict
verdict-none not_found h = refl
verdict-none receipt_error h = cc
verdict-none (receipt status) h = cc

-- What a reply about a receipt means: status 1 is success, another status is a revert, "not found" is
-- nothing yet.
abbrev pub Settles : ReceiptReply → Outcome (Unit {0}) → Type 0
Settles not_found r = ⊥
Settles receipt_error r = r ≡ failed receipt_failed
Settles (receipt status) r =
    ((status ≡ 1) × (r ≡ done tt)) ⊎ ((status ≢ 1) × (r ≡ failed (reverted status)))

verdict-Settles :
    (reply : ReceiptReply) (r : Outcome (Unit {0})) → verdict reply ≡ some r → Settles reply r
unfolding verdict
verdict-Settles not_found r h = cc
verdict-Settles receipt_error r h = cc
verdict-Settles (receipt status) r h = elim (Bool-cases (status == 1)) [
  | inl success ↦
      inl ((nat_eq.equals_iff status 1).0 success, sym (some-inj (done tt) r (rw success at h)))
  | inr other ↦ inr (
    λ e. true-false (sym ((nat_eq.equals_iff status 1).1 e) ∙ other),
    sym (some-inj (failed (reverted status)) r (rw other at h)),
  )
]
  where
    true-false : true ≡ false → ⊥
    true-false e = cc

-- A reply other than "not found" settles the transaction.
verdict-settles :
    (reply : ReceiptReply) → reply ≢ not_found → (r : Outcome (Unit {0})) × (verdict reply ≡ some r)
unfolding verdict
verdict-settles not_found h = absurd (h refl)
verdict-settles receipt_error h = (failed receipt_failed, refl)
verdict-settles (receipt status) h =
    (if status == 1 then done tt else failed (reverted status), refl)

module _ (client : Client) (tx : SignedTransaction) where
  -- The k-th reply is the first one other than "not found".
  abbrev pub FirstReply : ℕ → Type 0
  FirstReply k =
      ((i : ℕ) → i < k → client.transaction_receipt tx i ≡ not_found)
      × (client.transaction_receipt tx k ≢ not_found)

  -- The first reply other than "not found" is the k-th, and means `r`.
  abbrev pub FirstSettles : ℕ → Outcome (Unit {0}) → Type 0
  FirstSettles k r =
      ((i : ℕ) → i < k → client.transaction_receipt tx i ≡ not_found)
      × Settles (client.transaction_receipt tx k) r

  -- The k-th reply, from `start`, is the first one whose verdict settles the transaction, as `r`.
  abbrev SettlesAt : ℕ → ℕ → Outcome (Unit {0}) → Type 0
  SettlesAt start k r =
      ((i : ℕ) → i < k → client.transaction_receipt tx (start + i) ≡ not_found)
      × (verdict (client.transaction_receipt tx (start + k)) ≡ some r)

  shift :
      (start k : ℕ) (r : Outcome (Unit {0})) → SettlesAt start (suc k) r → SettlesAt (suc start) k r
  shift start k r (before, at) = (
    λ i below.
        let e : suc start + i ≡ start + suc i = omega arith in
        ap (client.transaction_receipt tx) e ∙ before (suc i) (omega arith),
    let e : suc start + k ≡ start + suc k = omega arith in
        ap (λ j. verdict (client.transaction_receipt tx j)) e ∙ at,
  )

  unshift :
      (start k : ℕ) (r : Outcome (Unit {0}))
      → client.transaction_receipt tx start ≡ not_found
      → SettlesAt (suc start) k r
      → SettlesAt start (suc k) r
  unshift start k r here (before, at) =
      let e : start + suc k ≡ suc start + k = omega arith in
      (first, ap (λ j. verdict (client.transaction_receipt tx j)) e ∙ at)
    where
      first : (i : ℕ) → i < suc k → client.transaction_receipt tx (start + i) ≡ not_found
      first zero below =
          let e : start + 0 ≡ start = omega arith in ap (client.transaction_receipt tx) e ∙ here
      first (suc i) below =
          let e : start + suc i ≡ suc start + i = omega arith in
          ap (client.transaction_receipt tx) e ∙ before i (omega arith)

  -- Fuel for one more call than the replies before the settling one is enough.
  wait-settled :
      (fuel start k : ℕ) (r : Outcome (Unit {0}))
      → k < fuel
      → SettlesAt start k r
      → wait_for_transaction_success client tx fuel start ≡ some r
  unfolding wait_for_transaction_success asked
  wait-settled zero start k r enough h = absurd (omega arith)
  wait-settled (suc fuel) start zero r enough (before, at) =
      let e : start + 0 ≡ start = omega arith in
      let here : verdict (client.transaction_receipt tx start) ≡ some r =
        subst (λ j. verdict (client.transaction_receipt tx j) ≡ some r) e at in
      rw here
  wait-settled (suc fuel) start (suc k) r enough h =
      let e : start + 0 ≡ start = omega arith in
      let here : client.transaction_receipt tx start ≡ not_found =
        subst (λ j. client.transaction_receipt tx j ≡ not_found) e (h.0 0 (omega arith)) in
      let again : verdict (client.transaction_receipt tx start) ≡ none =
        ap verdict here ∙ unfold verdict in refl in
      let later = wait-settled fuel (suc start) k r (omega arith) (shift start k r h) in
      rw again later

  -- A result comes from a settling reply, whatever the fuel.
  wait-result :
      (fuel start : ℕ) (r : Outcome (Unit {0}))
      → wait_for_transaction_success client tx fuel start ≡ some r
      → (k : ℕ) × SettlesAt start k r
  unfolding wait_for_transaction_success
  wait-result zero start r h = cc
  wait-result (suc fuel) start r h = step (wait-result fuel (suc start) r) (asked-cases _ _ r h)
    where
      step :
          (wait_for_transaction_success client tx fuel (suc start) ≡ some r
            → (k : ℕ) × SettlesAt (suc start) k r)
          → (verdict (client.transaction_receipt tx start) ≡ some r)
            ⊎ ((verdict (client.transaction_receipt tx start) ≡ none)
                × (wait_for_transaction_success client tx fuel (suc start) ≡ some r))
          → (k : ℕ) × SettlesAt start k r
      step ih (inl at) =
          let e : start ≡ start + 0 = omega arith in
          (
            0,
            (
              λ i below. absurd (omega arith),
              subst (λ j. verdict (client.transaction_receipt tx j) ≡ some r) e at,
            ),
          )
      step ih (inr (none_here, later)) =
          let (k, settled) = ih later in
          (suc k, unshift start k r (verdict-none _ none_here) settled)

  from_zero : (i : ℕ) → 0 + i ≡ i
  from_zero i = omega arith

  -- Fuel for one more call than the replies before the first other than "not found" is enough.
  pub wait-returns :
      (k : ℕ)
      → FirstReply k
      → (r : Outcome (Unit {0})) × ((fuel : ℕ)
          → k < fuel
          → wait_for_transaction_success client tx fuel 0 ≡ some r)
  wait-returns k (before, found) =
      let (r, at) = verdict-settles (client.transaction_receipt tx k) found in
      let settled : SettlesAt 0 k r = (
        λ i below. ap (client.transaction_receipt tx) (from_zero i) ∙ before i below,
        ap (λ j. verdict (client.transaction_receipt tx j)) (from_zero k) ∙ at,
      ) in
      (r, λ fuel enough. wait-settled fuel 0 k r enough settled)

  pub wait-FirstSettles :
      (fuel : ℕ) (r : Outcome (Unit {0}))
      → wait_for_transaction_success client tx fuel 0 ≡ some r
      → (k : ℕ) × FirstSettles k r
  wait-FirstSettles fuel r h =
      let (k, (before, at)) = wait-result fuel 0 r h in
      (
        k,
        (
          λ i below. ap (client.transaction_receipt tx) (sym (from_zero i)) ∙ before i below,
          verdict-Settles (client.transaction_receipt tx k) r
              (ap (λ j. verdict (client.transaction_receipt tx j)) (sym (from_zero k)) ∙ at),
        ),
      )
