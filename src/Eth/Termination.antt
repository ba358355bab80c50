-- ===== src/Eth/Termination.antt =====
-- eth/eth.go: ExecuteTransaction returns once a receipt is found or the chain answers with an error.
use drb_node.Base.{
  ℕ, ◌<◌, ◌≡◌, refl, ◌∙◌, ap, Bytes, Bool, true, false, Option, some, List, [], ◌∷◌, if◌then◌else◌,
}
use drb_node.Eth.{
  SignedTransaction, send_failed, Outcome, done, failed, Client, Prepared, call_msg, prepare,
  estimates, concluded, after_estimates, sent, executed, execute_transaction,
}
use drb_node.Eth.Receipts.{FirstReply, wait-returns}

module _ (client : Client) where
  concluded-returns :
      (p : Prepared) (r : Outcome (Unit {0}))
      → (result : Outcome Prepared) × (concluded p (some r) ≡ some result)
  unfolding concluded
  concluded-returns p (failed e) = (failed e, refl)
  concluded-returns p (done u) = (done p, refl)

  module _ (k : ℕ) where
    after_estimates-returns :
        (p : Prepared) (o : Outcome ℕ)
        → FirstReply client p.signed k
        → (result : Outcome Prepared) × ((fuel : ℕ)
            → k < fuel
            → after_estimates client fuel p o ≡ some result)
    unfolding after_estimates
    after_estimates-returns p (failed e) settles = (failed e, λ fuel enough. refl)
    after_estimates-returns p (done gas) settles =
        let (r, waited) = wait-returns client p.signed k settles in
        let (result, e) = concluded-returns p r in
        (result, λ fuel enough. ap (concluded p) (waited fuel enough) ∙ e)

    executed-returns :
        (o : Outcome Prepared)
        → ((p : Prepared) → o ≡ done p → FirstReply client p.signed k)
        → (result : Outcome Prepared) × (transactions : List SignedTransaction) × ((fuel : ℕ)
            → k < fuel
            → executed client fuel o ≡ (some result, transactions))
    unfolding executed sent
    executed-returns (failed e) settles = (failed e, [], λ fuel enough. refl)
    executed-returns (done p) settles =
        by_test p (client.send_transaction p.signed)
          (after_estimates-returns p (estimates client (call_msg client p) 3 0) (settles p refl))
      where
        by_test :
            (p : Prepared) (b : Bool)
            → (result : Outcome Prepared) × ((fuel : ℕ)
                → k < fuel
                → after_estimates client fuel p (estimates client (call_msg client p) 3 0)
                  ≡ some result)
            → (result : Outcome Prepared) × (transactions : List SignedTransaction) × ((fuel : ℕ)
                → k < fuel
                → ◌≡◌ {A = Option (Outcome Prepared) × List SignedTransaction}
                    (if b
                      then (
                        after_estimates client fuel p (estimates client (call_msg client p) 3 0),
                        p.signed ∷ [],
                      )
                      else (some (failed send_failed), []))
                    (some result, transactions))
        by_test p true (result, e) =
            (result, p.signed ∷ [], λ fuel enough. ap (λ x. (x, p.signed ∷ [])) (e fuel enough))
        by_test p false (result, e) = (failed send_failed, [], λ fuel enough. refl)

    -- Let the k-th reply about the receipt of the prepared transaction, if one is prepared, be the
    -- first other than "not found". Then ExecuteTransaction returns: there are a result and a list of
    -- transactions sent that fuel for more than k calls always gives.
    pub execute_transaction-returns :
        (name : Bytes) (amount : ℕ) (params : List Bytes)
        → ((p : Prepared)
            → prepare client name amount params ≡ done p
            → FirstReply client p.signed k)
        → (result : Outcome Prepared) × (transactions : List SignedTransaction) × ((fuel : ℕ)
            → k < fuel
            → execute_transaction client fuel name amount params ≡ (some result, transactions))
    unfolding execute_transaction
    execute_transaction-returns name amount params settles =
        executed-returns (prepare client name amount params) settles
