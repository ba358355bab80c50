-- ===== src/CommitReveal/RevealOrder/Stored.antt =====
-- commit-reveal2/reveal_order.go: what a call of DetermineRevealOrder leaves in the files.
use drb_node.Base.{
  ◌≡◌, refl, sym, subst, ap, ◌∙◌, ◌⊎◌, inl, inr, Bytes, bytes_eq, Bool, Option, none, some, List,
  [], ◌∷◌, map, Option-cases, arith,
}
use drb_node.Base.Maps.{Map, get, put}
use drb_node.Go.File.{
  JsonFile, Content, holds, Fault, no_fault, open_fails, transfer_fails, first_fault, Result, ok,
  err, open_failed, encode_failed, read_file, create_file, absent, blank, garbled, read_result,
  create_content, Error, entries,
}
use drb_node.Crypto.{Ethereum}
use drb_node.Utils.LeaderNodeData.{LeaderCommitData}
use drb_node.CommitReveal.RevealOrder.{
  RevealSort, RevealData, RevealError, orders_unreadable, no_activated_operators, orders_not_saved,
  Files, Collected, collected, not_collected, collect_cos, load_reveal_orders, save_reveal_orders,
  store_order, with_cos, with_operators, with_orders, determine_reveal_order, saved_or, or_empty,
}
use drb_node.CommitReveal.RevealOrder.Collect.{
  operators_of, HasCos, HasCos-length, Collects, collect_cos-Collects,
}
use drb_node.CommitReveal.RevealOrder.Order.{IsRevealData, reveal_data_lem}

module _ (eth : Ethereum) (sorter : RevealSort) (round : Bytes) where
  abbrev Keeps : Option RevealError × Files → Files → Type 0
  Keeps r files = r.1.reveal_orders.content ≡ files.reveal_orders.content

  -- What the call did: it found the order of the round, or it stored one, or it failed, which
  -- changes the file only where the writing of it fails.
  pub data Outcome (activated : Map Bytes (Map Bytes Bool)) (files : Files)
      (r : Option RevealError × Files) : Type 0 where
    found :
        (d : RevealData)
        → get round (entries files.reveal_orders.content) ≡ some d
        → r.0 ≡ none
        → Keeps r files
        → Outcome activated files r
    stored :
        (ops : Map Bytes Bool) (cs : List Bytes) (d : RevealData)
        → get round (entries files.reveal_orders.content) ≡ none
        → get round activated ≡ some ops
        → HasCos eth round (operators_of ops) files.leader_commits.content cs
        → IsRevealData eth sorter cs (map eth.address_hex (operators_of ops)) d
        → r.0 ≡ none
        → r.1.reveal_orders.content ≡ holds (put round d (entries files.reveal_orders.content))
        → Outcome activated files r
    failed :
        (e : RevealError)
        → r.0 ≡ some e
        → Keeps r files ⊎ ((e' : Error) × (e ≡ orders_not_saved e'))
        → Outcome activated files r

  create_cases :
      (m : Map Bytes RevealData) (f : Fault RevealData) (c : Content RevealData)
      → let r = create_content m f c in
        ((r.0 ≡ none) × (r.1 ≡ holds m)) ⊎ ((e : Error) × (r.0 ≡ some e))
  create_cases m no_fault c = inl (refl, refl)
  create_cases m open_fails c = inr (open_failed, refl)
  create_cases m (transfer_fails left) c = inr (encode_failed, refl)

  store_order_cases :
      (m : Map Bytes RevealData) (d : RevealData) (files : Files)
      → let r = store_order eth sorter round m (some d) files in
        ((r.0 ≡ none) × (r.1.reveal_orders.content ≡ holds (put round d m)))
        ⊎ ((e : Error) × (r.0 ≡ some (orders_not_saved e)))
  unfolding store_order save_reveal_orders create_file
  store_order_cases m d files =
      elim (create_cases (put round d m) (first_fault files.reveal_orders.faults)
        files.reveal_orders.content) [
          | inl (done, content) ↦ inl (ap saved_or done, content)
          | inr (e, bad) ↦ inr (e, ap saved_or bad)
        ]

  module _ (activated : Map Bytes (Map Bytes Bool)) (files : Files) where
    abbrev Done : Option RevealError × Files → Type 0
    Done = Outcome activated files

    with_cos-Outcome :
        (ops : Map Bytes Bool) (m : Map Bytes RevealData) (cos : Collected) (files' : Files)
        → entries files.reveal_orders.content ≡ m
        → files'.reveal_orders.content ≡ files.reveal_orders.content
        → get round m ≡ none
        → get round activated ≡ some ops
        → Collects eth round (operators_of ops) files.leader_commits.content cos
        → Done (with_cos eth sorter round (operators_of ops) m cos files')
    unfolding with_cos
    with_cos-Outcome ops m (not_collected e) files' em same new act has = failed e refl (inl same)
    with_cos-Outcome ops m (collected cs) files' em same new act has =
        let hexes = map eth.address_hex (operators_of ops) in
        let (d, made, is_data) =
          reveal_data_lem eth sorter cs hexes
            (HasCos-length eth round (operators_of ops) files.leader_commits.content cs has) in
        subst (λ o. Done (store_order eth sorter round m o files')) (sym made)
          (elim (store_order_cases m d files') [
            | inl (done, content) ↦
                stored ops cs d (ap (get round) em ∙ new) act has is_data done
                  (content ∙ ap (λ x. holds (put round d x)) (sym em))
            | inr (e, bad) ↦ failed (orders_not_saved e) bad (inr (e, refl))
          ])

    with_operators-Outcome :
        (found : Option (Map Bytes Bool)) (m : Map Bytes RevealData) (files' : Files)
        → entries files.reveal_orders.content ≡ m
        → files'.reveal_orders.content ≡ files.reveal_orders.content
        → files'.leader_commits ≡ files.leader_commits
        → get round m ≡ none
        → get round activated ≡ found
        → Done (with_operators eth sorter round found m files')
    unfolding with_operators
    with_operators-Outcome none m files' em same commits new act =
        failed no_activated_operators refl (inl same)
    with_operators-Outcome (some []) m files' em same commits new act =
        failed no_activated_operators refl (inl same)
    with_operators-Outcome (some (op ∷ ops)) m files' em same commits new act =
        let (cos, commits') =
          collect_cos eth round (operators_of (op ∷ ops)) files'.leader_commits in
        with_cos-Outcome (op ∷ ops) m cos (record files' { leader_commits = commits' }) em same new
          act
          (subst
            (λ (f : JsonFile LeaderCommitData).
              Collects eth round (operators_of (op ∷ ops)) f.content cos)
            commits
            (collect_cos-Collects eth round (operators_of (op ∷ ops)) files'.leader_commits))

    -- The map that the function works with is what the file holds.
    or_empty_read :
        (f : Fault RevealData) (c : Content RevealData) (m : Map Bytes RevealData)
        → or_empty (read_result f c) ≡ ok m
        → entries c ≡ m
    unfolding or_empty
    or_empty_read no_fault absent m e = ground arith
    or_empty_read no_fault blank m e = absurd (cc)
    or_empty_read no_fault garbled m e = absurd (cc)
    or_empty_read no_fault (holds m') m e = ground arith
    or_empty_read open_fails c m e = absurd (cc)
    or_empty_read (transfer_fails _) c m e = absurd (cc)

    with_orders-Outcome :
        (r : Result (Map Bytes RevealData)) (files' : Files)
        → ((m : Map Bytes RevealData) → r ≡ ok m → entries files.reveal_orders.content ≡ m)
        → files'.reveal_orders.content ≡ files.reveal_orders.content
        → files'.leader_commits ≡ files.leader_commits
        → Done (with_orders eth sorter round activated r files')
    unfolding with_orders
    with_orders-Outcome (err e) files' em same commits =
        failed (orders_unreadable e) refl (inl same)
    with_orders-Outcome (ok m) files' em same commits = elim (Option-cases (get round m)) [
      | inl new ↦
          rw (new, with_orders)
            (with_operators-Outcome (get round activated) m files' (em m refl) same commits new
              refl)
      | inr (d, old) ↦ rw (old, with_orders) (found d (ap (get round) (em m refl) ∙ old) refl same)
    ]

    -- A call of DetermineRevealOrder either finds an order for the round and changes nothing; or
    -- stores one, and then every activated operator of the round has a COS other than zero in the
    -- file, and the nodes are these operators, each as often, by ascending distance from RV; or fails,
    -- and then the stored orders stay as they were unless the failure was in writing them.
    pub determine_reveal_order-Outcome :
        Done (determine_reveal_order eth sorter round activated files)
    unfolding determine_reveal_order load_reveal_orders read_file
    determine_reveal_order-Outcome =
        with_orders-Outcome
          (or_empty
            (read_result (first_fault files.reveal_orders.faults) files.reveal_orders.content))
          (record files { reveal_orders = (load_reveal_orders files.reveal_orders).1 })
          (λ m.
            or_empty_read (first_fault files.reveal_orders.faults) files.reveal_orders.content m)
          refl refl
