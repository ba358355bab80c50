-- ===== src/Regular/Deposit/Bounds.antt =====
-- nodes/regularNode.go: the bounds of the amount that depositAndCheckActivation deposits.
use drb_node.Base.{
  ℕ, ◌+◌, ◌-◌, ◌≤◌, ◌<◌, ◌≡◌, ◌≢◌, refl, ◌⊎◌, Bytes, bytes_eq, true, Bool-cases, inl, inr, Option,
  none, some, [], ◌∷◌, ◌++◌, not, ltb, arith,
}
use drb_node.Utils.Clients.{abi_loads}
use drb_node.Crypto.{Ethereum}
use drb_node.Go.Attempt.{
  Attempt, value, error, process_exit, ◌>>◌, or_error, ensure, required, >>=-eq-value,
  or_error-eq-value, ensure-eq-value,
}
use drb_node.Regular.State.{deposits, RegularNode, Env}
use drb_node.Regular.Deposit.{
  Chain, affordable, missing_deposit, deposit_of, deposit_and_check_activation,
}

value-none-ne-some : (r : ℕ) (m : Attempt (Option ℕ)) → m ≡ value none → m ≢ value (some r)
value-none-ne-some r m e h = cc

-- The replies of the chain by which the amount `r` is missing.
abbrev pub IsMissing : Chain → Bytes → ℕ → Type 0
IsMissing chain account r =
    (deposit threshold balance : ℕ) × (chain.deposit_amount account ≡ some deposit)
    × (chain.activation_threshold ≡ some threshold)
    × (chain.balance account ≡ some balance)
    × (deposit + r ≡ threshold)
    × (0 < r)
    × (r ≤ balance)

module _ (eth : Ethereum) (env : Env) (chain : Chain) (eoa : Bytes) where
  affordable-IsMissing :
      (deposit threshold r : ℕ)
      → chain.deposit_amount (eth.hex_to_address eoa) ≡ some deposit
      → chain.activation_threshold ≡ some threshold
      → ltb deposit threshold ≡ true
      → affordable eth chain eoa (threshold - deposit) ≡ value (some r)
      → IsMissing chain (eth.hex_to_address eoa) r
  unfolding affordable
  affordable-IsMissing deposit threshold r hd ht less h =
      let (balance, hb, k) =
        >>=-eq-value (or_error (chain.balance (eth.hex_to_address eoa)))
          (λ b. ensure (not (ltb b (threshold - deposit))) >> value (some (threshold - deposit)))
          h in
      let (_, enough, e) =
        >>=-eq-value (ensure (not (ltb balance (threshold - deposit))))
          (λ _. value (some (threshold - deposit))) k in
      let loaded = or_error-eq-value (chain.balance (eth.hex_to_address eoa)) hb in
      let test : not (ltb balance (threshold - deposit)) ≡ true = ensure-eq-value _ enough in
      let amount : threshold - deposit ≡ r = ground arith in
      (deposit, threshold, balance, hd, ht, loaded, ground arith, ground arith, ground arith)

  missing_deposit-IsMissing :
      (r : ℕ)
      → missing_deposit eth env chain eoa ≡ value (some r)
      → IsMissing chain (eth.hex_to_address eoa) r
  unfolding missing_deposit
  missing_deposit-IsMissing r h =
      let (url, _, h1) = >>=-eq-value (required env.eth_rpc_url) _ h in
      let (_, _, h2) = >>=-eq-value (ensure (env.dials url)) _ h1 in
      let (contract, _, h3) = >>=-eq-value (required env.contract_address) _ h2 in
      let (_, _, h4) = >>=-eq-value (ensure (abi_loads env.abi)) _ h3 in
      let (deposit, hd, h5) =
        >>=-eq-value (or_error (chain.deposit_amount (eth.hex_to_address eoa))) _ h4 in
      let (threshold, ht, h6) = >>=-eq-value (or_error chain.activation_threshold) _ h5 in
      elim (Bool-cases (ltb deposit threshold)) [
        | inl less ↦
            affordable-IsMissing deposit threshold r (or_error-eq-value _ hd)
              (or_error-eq-value _ ht) less (rw less at h6)
        | inr more ↦ absurd (value-none-ne-some r _ refl (rw more at h6))
      ]

  deposit_of-IsMissing :
      (m : Attempt (Option ℕ)) (s : RegularNode)
      → ((r : ℕ) → m ≡ value (some r) → IsMissing chain (eth.hex_to_address eoa) r)
      → ((deposit_of chain m s).1.outputs ≡ s.outputs)
        ⊎ ((r : ℕ) × ((deposit_of chain m s).1.outputs ≡ s.outputs ++ deposits r ∷ [])
            × IsMissing chain (eth.hex_to_address eoa) r)
  unfolding deposit_of
  deposit_of-IsMissing process_exit s h = inl refl
  deposit_of-IsMissing error s h = inl refl
  deposit_of-IsMissing (value none) s h = inl refl
  deposit_of-IsMissing (value (some r)) s h = inr (r, refl, h r refl)

  -- An attempt to deposit and to be activated sends nothing, or it deposits one amount `r`: the
  -- contract has reported a deposit and an activation threshold, and the chain a balance, with
  -- deposit + r = threshold, 0 < r and r at most the balance.
  pub deposit_and_check_activation-IsMissing :
      (s : RegularNode)
      → ((deposit_and_check_activation eth env chain eoa s).1.outputs ≡ s.outputs)
        ⊎ ((r : ℕ) × ((deposit_and_check_activation eth env chain eoa s).1.outputs
              ≡ s.outputs ++ deposits r ∷ [])
            × IsMissing chain (eth.hex_to_address eoa) r)
  unfolding deposit_and_check_activation
  deposit_and_check_activation-IsMissing s =
      deposit_of-IsMissing (missing_deposit eth env chain eoa) s missing_deposit-IsMissing
