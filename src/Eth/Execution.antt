-- ===== src/Eth/Execution.antt =====
-- eth/eth.go: ExecuteTransaction, by its result and by what it has sent.
use drb_node.Base.{
  ℕ, ◌≡◌, refl, ap, subst, ◌∙◌, ◌⊎◌, inl, inr, Bytes, true, Bool-cases, Option, none, some, List,
  [], ◌∷◌,
}
use drb_node.Eth.{
  Failure, send_failed, estimate_failed, Outcome, done, failed, Client, Prepared, call_msg,
  estimates, concluded, after_estimates, sent, executed, execute_transaction,
}
use drb_node.Eth.Receipts.{FirstSettles, wait-FirstSettles}
use drb_node.Eth.Estimates.{AllFail, FirstEstimate, estimates-failed, estimates-done}
use drb_node.Eth.Preparation.{IsPrepared, prepare-IsPrepared}

module _ (client : Client) where
  -- What ExecuteTransaction has done where it returns a transaction.
  pub record IsExecuted (p : Prepared) : Type 0 where
    pub accepted : client.send_transaction p.signed ≡ true
    pub estimated : (gas : ℕ) × FirstEstimate client (call_msg client p) 3 0 gas
    pub mined : (k : ℕ) × FirstSettles client p.signed k (done tt)

  -- How ExecuteTransaction fails after it has sent.
  abbrev pub FailsLate : Prepared → Failure → Type 0
  FailsLate p e =
      ((e ≡ estimate_failed) × AllFail client (call_msg client p) 3 0)
      ⊎ ((gas : ℕ) × FirstEstimate client (call_msg client p) 3 0 gas
          × (k : ℕ) × FirstSettles client p.signed k (failed e))

  concluded-done :
      (p q : Prepared) (o : Option (Outcome (Unit {0})))
      → concluded p o ≡ some (done q)
      → (o ≡ some (done tt)) × (p ≡ q)
  unfolding concluded
  concluded-done p q none h = cc
  concluded-done p q (some (failed e)) h = cc
  concluded-done p q (some (done tt)) h = (refl, cc)

  concluded-failed :
      (p : Prepared) (e : Failure) (o : Option (Outcome (Unit {0})))
      → concluded p o ≡ some (failed e)
      → o ≡ some (failed e)
  unfolding concluded
  concluded-failed p e none h = cc
  concluded-failed p e (some (failed e')) h = cc
  concluded-failed p e (some (done u)) h = cc

  after_estimates-done :
      (fuel : ℕ) (p q : Prepared) (o : Outcome ℕ)
      → after_estimates client fuel p o ≡ some (done q)
      → (gas : ℕ) × (o ≡ done gas) × (p ≡ q) × ((k : ℕ) × FirstSettles client p.signed k (done tt))
  unfolding after_estimates
  after_estimates-done fuel p q (failed e) h = cc
  after_estimates-done fuel p q (done gas) h =
      let (waited, same) = concluded-done p q _ h in
      (gas, refl, same, wait-FirstSettles client p.signed fuel (done tt) waited)

  after_estimates-failed :
      (fuel : ℕ) (p : Prepared) (e : Failure) (o : Outcome ℕ)
      → estimates client (call_msg client p) 3 0 ≡ o
      → after_estimates client fuel p o ≡ some (failed e)
      → FailsLate p e
  unfolding after_estimates
  after_estimates-failed fuel p e (failed e') from h =
      let (same, all) = estimates-failed client (call_msg client p) 3 0 e' from in
      let equal : e ≡ e' = cc in inl (equal ∙ same, all)
  after_estimates-failed fuel p e (done gas) from h =
      let (k, settled) =
        wait-FirstSettles client p.signed fuel (failed e) (concluded-failed p e _ h) in
      inr (gas, estimates-done client (call_msg client p) 3 0 gas from, k, settled)

  sent-done :
      (fuel : ℕ) (p q : Prepared)
      → (sent client fuel p).0 ≡ some (done q)
      → (p ≡ q) × ((sent client fuel p).1 ≡ p.signed ∷ []) × IsExecuted p
  unfolding sent
  sent-done fuel p q h = elim (Bool-cases (client.send_transaction p.signed)) [
    | inl accepted ↦
        let (gas, e, same, mined) = after_estimates-done fuel p q _ (rw accepted at h) in
        (
          same,
          rw accepted,
          record {
            accepted = accepted;
            estimated = (gas, estimates-done client (call_msg client p) 3 0 gas e);
            mined = mined;
          },
        )
    | inr refused ↦ absurd (no_result (rw refused at h))
  ]
    where
      no_result : some (failed send_failed) ≡ some (done q) → ⊥
      no_result e = cc

  sent-failed :
      (fuel : ℕ) (p : Prepared) (e : Failure)
      → (sent client fuel p).0 ≡ some (failed e)
      → ((sent client fuel p).1 ≡ []) ⊎ (((sent client fuel p).1 ≡ p.signed ∷ []) × FailsLate p e)
  unfolding sent
  sent-failed fuel p e h = elim (Bool-cases (client.send_transaction p.signed)) [
    | inl accepted ↦ inr (rw accepted, after_estimates-failed fuel p e _ refl (rw accepted at h))
    | inr refused ↦ inl (rw refused)
  ]

  module _ (name : Bytes) (amount : ℕ) (params : List Bytes) where
    executed-IsExecuted :
        (fuel : ℕ) (o : Outcome Prepared) (p : Prepared)
        → (executed client fuel o).0 ≡ some (done p)
        → (o ≡ done p) × ((executed client fuel o).1 ≡ p.signed ∷ []) × IsExecuted p
    unfolding executed
    executed-IsExecuted fuel (failed e) p h = cc
    executed-IsExecuted fuel (done q) p h =
        let (same, one, done_so) = sent-done fuel q p h in
        (ap done same, one ∙ ap (λ x. x.signed ∷ []) same, subst IsExecuted same done_so)

    executed-failed :
        (fuel : ℕ) (o : Outcome Prepared) (e : Failure)
        → (executed client fuel o).0 ≡ some (failed e)
        → ((executed client fuel o).1 ≡ [])
          ⊎ ((p : Prepared) × (o ≡ done p)
              × ((executed client fuel o).1 ≡ p.signed ∷ [])
              × FailsLate p e)
    unfolding executed
    executed-failed fuel (failed e') e h = inl refl
    executed-failed fuel (done p) e h = elim (sent-failed fuel p e h) [
      | inl silent ↦ inl silent
      | inr (one, late) ↦ inr (p, refl, one, late)
    ]

    -- Where ExecuteTransaction returns a transaction, it was prepared from the replies of the chain:
    -- it goes to the contract's address with the amount that was asked for, the suggested gas price,
    -- a gas limit of 3000000, the packed arguments, the account's pending nonce where that is below
    -- 2 ^ 63, and the signature for the network's id. It is the one transaction that was sent. One of
    -- the three estimates succeeded, and the first reply about its receipt other than "not found" is a
    -- receipt with the status 1.
    pub execute_transaction-IsExecuted :
        (fuel : ℕ) (p : Prepared)
        → (execute_transaction client fuel name amount params).0 ≡ some (done p)
        → IsPrepared client name amount params p
          × ((execute_transaction client fuel name amount params).1 ≡ p.signed ∷ [])
          × IsExecuted p
    unfolding execute_transaction
    execute_transaction-IsExecuted fuel p h =
        let (from, one, done_so) = executed-IsExecuted fuel _ p h in
        (prepare-IsPrepared client name amount params p from, one, done_so)

    -- Where ExecuteTransaction returns an error, the chain has taken no transaction, or it has taken
    -- the one that was prepared. Then all three estimates of its gas have failed, or one has
    -- succeeded and the first reply about its receipt other than "not found" is an error or a status
    -- other than 1.
    pub execute_transaction-failed :
        (fuel : ℕ) (e : Failure)
        → (execute_transaction client fuel name amount params).0 ≡ some (failed e)
        → ((execute_transaction client fuel name amount params).1 ≡ [])
          ⊎ ((p : Prepared) × IsPrepared client name amount params p
              × ((execute_transaction client fuel name amount params).1 ≡ p.signed ∷ [])
              × FailsLate p e)
    unfolding execute_transaction
    execute_transaction-failed fuel e h = elim (executed-failed fuel _ e h) [
      | inl silent ↦ inl silent
      | inr (p, from, one, late) ↦
          inr (p, prepare-IsPrepared client name amount params p from, one, late)
    ]
