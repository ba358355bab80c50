-- ===== src/Leader/Registration/Activation.antt =====
-- nodes/leaderNode_helper/registration_helper.go: what ActivateOnChain sends, and when it succeeds.
use drb_node.Base.{
  ℕ, ◌≡◌, ◌≤◌, refl, sym, ◌⊎◌, inl, inr, Bytes, bytes_eq, Bool, true, false, not, Bool-cases, some,
  List, [], ◌∷◌, ◌++◌, Mem, not-mem-nil, found-Mem, not-found-Mem, ltb, if◌then◌else◌, arith,
}
use drb_node.Utils.Clients.{abi_loads}
use drb_node.Go.Attempt.{
  Attempt, value, error, process_exit, or_error, ensure, required, >>=-eq-value, or_error-eq-value,
  ensure-eq-value, value-inj,
}
use drb_node.Leader.State.{activates, Leader, Setup}
use drb_node.Leader.Registration.{
  Contract, lists_operator, check_deposit, needs_activation, activate,
}

module _ (contract : Contract) (operator : Bytes) where
  lists_operator-Mem :
      (operators : List Bytes) → lists_operator operator operators ≡ true → Mem operator operators
  unfolding lists_operator
  lists_operator-Mem [] h = cc
  lists_operator-Mem (op ∷ ops) h =
      found-Mem operator op ops (lists_operator operator ops) h (lists_operator-Mem ops)

  lists_operator-not :
      (operators : List Bytes)
      → lists_operator operator operators ≡ false
      → ¬ Mem operator operators
  unfolding lists_operator
  lists_operator-not [] h = not-mem-nil
  lists_operator-not (op ∷ ops) h =
      not-found-Mem operator op ops (lists_operator operator ops) h (lists_operator-not ops)

  -- The contract lists the operator as activated.
  abbrev pub IsListed : Type 0
  IsListed =
      (operators : List Bytes) × (contract.activated_operators ≡ some operators)
      × Mem operator operators

  -- The operator is not activated, and its deposit reaches the threshold.
  abbrev pub IsDue : Type 0
  IsDue =
      (operators : List Bytes) × (deposit : ℕ) × (threshold : ℕ) × (contract.activated_operators
        ≡ some operators)
      × (¬ Mem operator operators)
      × (contract.deposit_amount operator ≡ some deposit)
      × (contract.activation_threshold ≡ some threshold)
      × (threshold ≤ deposit)

  module _ (setup : Setup) where
    check_deposit-true :
        (b : Bool)
        → check_deposit setup contract operator ≡ value b
        → (b ≡ true)
          × ((deposit : ℕ) × (threshold : ℕ) × (contract.deposit_amount operator ≡ some deposit)
              × (contract.activation_threshold ≡ some threshold)
              × (threshold ≤ deposit))
    unfolding check_deposit
    check_deposit-true b h =
        let (deposit, hd, h1) = >>=-eq-value (or_error (contract.deposit_amount operator)) _ h in
        let (threshold, ht, h2) = >>=-eq-value (or_error contract.activation_threshold) _ h1 in
        let (_, he, h3) = >>=-eq-value (ensure (not (ltb deposit threshold))) _ h2 in
        let (text, _, h4) = >>=-eq-value (required setup.leader_private_key) _ h3 in
        let (key, _, h5) = >>=-eq-value (or_error (setup.hex_to_ecdsa text)) (λ _. value true) h4 in
        (
          sym (value-inj true b h5),
          (
            deposit,
            threshold,
            or_error-eq-value _ hd,
            or_error-eq-value _ ht,
            below deposit threshold (ensure-eq-value _ he),
          ),
        )
      where
        below : (a b : ℕ) → not (ltb a b) ≡ true → b ≤ a
        below a b e = ground arith

    needs_activation-value :
        (b : Bool)
        → needs_activation setup contract operator ≡ value b
        → ((b ≡ false) × IsListed) ⊎ ((b ≡ true) × IsDue)
    unfolding needs_activation
    needs_activation-value b h =
        let (url, _, h1) = >>=-eq-value (required setup.eth_rpc_url) _ h in
        let (_, _, h2) = >>=-eq-value (ensure (setup.dials url)) _ h1 in
        let (address, _, h3) = >>=-eq-value (required setup.contract_address) _ h2 in
        let (_, _, h4) = >>=-eq-value (ensure (abi_loads setup.abi)) _ h3 in
        let (operators, ho, h5) = >>=-eq-value (or_error contract.activated_operators) _ h4 in
        let found = or_error-eq-value contract.activated_operators ho in
        elim (Bool-cases (lists_operator operator operators)) [
          | inl listed ↦ inl (
            sym (value-inj false b (rw listed at h5)),
            (operators, found, lists_operator-Mem operators listed),
          )
          | inr missing ↦
              let (same, (deposit, threshold, hd, ht, enough)) =
                check_deposit-true b (rw missing at h5) in
              inr (
                same,
                (
                  operators,
                  deposit,
                  threshold,
                  found,
                  lists_operator-not operators missing,
                  hd,
                  ht,
                  enough,
                ),
              )
        ]

    -- What a step leaves of the leader: a transaction at most.
    abbrev pub Settled : Leader → Leader → Type 0
    Settled s t =
        (t.committed_nodes ≡ s.committed_nodes)
        × ((t.outputs ≡ s.outputs) ⊎ (IsDue × (t.outputs ≡ s.outputs ++ activates operator ∷ [])))

    -- The operator is activated, by the contract's account or by a transaction.
    abbrev pub IsActivated : Leader → Leader → Type 0
    IsActivated s t =
        (IsListed × (t.outputs ≡ s.outputs))
        ⊎ (IsDue
            × (contract.activation_accepted operator ≡ true)
            × (t.outputs ≡ s.outputs ++ activates operator ∷ []))

    pub activate-Settled :
        (m : Attempt Bool) (s : Leader)
        → needs_activation setup contract operator ≡ m
        → Settled s (activate setup contract operator m s).1
    unfolding activate
    activate-Settled process_exit s e = (refl, inl refl)
    activate-Settled error s e = (refl, inl refl)
    activate-Settled (value false) s e = (refl, inl refl)
    activate-Settled (value true) s e = elim (needs_activation-value true e) [
      | inl (wrong, _) ↦ absurd (cc)
      | inr (_, due) ↦ (refl, inr (due, refl))
    ]

    pub activate-registered_nodes :
        (m : Attempt Bool) (s : Leader)
        → (activate setup contract operator m s).1.registered_nodes ≡ s.registered_nodes
    unfolding activate
    activate-registered_nodes process_exit s = refl
    activate-registered_nodes error s = refl
    activate-registered_nodes (value false) s = refl
    activate-registered_nodes (value true) s = refl

    pub activate-IsActivated :
        (m : Attempt Bool) (s : Leader)
        → needs_activation setup contract operator ≡ m
        → (activate setup contract operator m s).0 ≡ value tt
        → IsActivated s (activate setup contract operator m s).1
    unfolding activate
    activate-IsActivated process_exit s e h = absurd (cc)
    activate-IsActivated error s e h = absurd (cc)
    activate-IsActivated (value false) s e h = elim (needs_activation-value false e) [
      | inl (_, listed) ↦ inl (listed, refl)
      | inr (wrong, _) ↦ absurd (cc)
    ]
    activate-IsActivated (value true) s e h = elim (needs_activation-value true e) [
      | inl (wrong, _) ↦ absurd (cc)
      | inr (_, due) ↦ inr (due, accepted (contract.activation_accepted operator) h, refl)
    ]
      where
        accepted : (b : Bool) → (if b then value tt else error) ≡ value tt → b ≡ true
        accepted true e = refl
        accepted false e = cc
