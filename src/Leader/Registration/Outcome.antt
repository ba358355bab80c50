-- ===== src/Leader/Registration/Outcome.antt =====
-- nodes/leaderNode_helper/registration_helper.go: what RegisterNode leaves behind.
use drb_node.Base.{
  ◌≡◌, refl, ap, ◌∙◌, ◌⊎◌, inl, inr, Bytes, bytes_eq, true, Bool-cases, Option, none, some, [], ◌∷◌,
  ◌++◌,
}
use drb_node.Base.Maps.{Map, put}
use drb_node.Crypto.{Ethereum}
use drb_node.Go.Attempt.{value, error}
use drb_node.Go.File.{
  Error, Result, ok, err, Content, absent, blank, garbled, holds, Fault, no_fault, open_fails,
  transfer_fails, first_fault, read_result, read_file, create_content, create_file, entries,
}
use drb_node.Utils.Requests.{RegistrationRequest}
use drb_node.Utils.Signature.{verify_signature}
use drb_node.Leader.State.{NodeInfo, activates, Leader, Setup}
use drb_node.Leader.Nodes.{nodes_or_empty, load_registered_nodes, save_registered_nodes}
use drb_node.Leader.Registration.{
  Contract, node_info, needs_activation, activate_on_chain, after_save, with_nodes, with_info,
  register_node,
}
use drb_node.Leader.Registration.Activation.{
  IsDue, Settled, IsActivated, activate-Settled, activate-registered_nodes, activate-IsActivated,
}

loaded-entries :
    (fault : Fault NodeInfo) (c : Content NodeInfo) (m : Map Bytes NodeInfo)
    → nodes_or_empty (read_result fault c) ≡ ok m
    → m ≡ entries c
unfolding nodes_or_empty
loaded-entries no_fault absent m e = cc
loaded-entries no_fault blank m e = cc
loaded-entries no_fault garbled m e = cc
loaded-entries no_fault (holds x) m e = cc
loaded-entries open_fails c m e = cc
loaded-entries (transfer_fails left) c m e = cc

created-content :
    (m : Map Bytes NodeInfo) (fault : Fault NodeInfo) (c : Content NodeInfo)
    → (create_content m fault c).0 ≡ none
    → (create_content m fault c).1 ≡ holds m
created-content m open_fails c e = cc
created-content m no_fault c e = refl
created-content m (transfer_fails left) c e = cc

module _ (eth : Ethereum) (setup : Setup) (contract : Contract) where
  abbrev Ends : Bytes → Leader → Leader → Type 0
  Ends eoa s t = Settled contract (eth.hex_to_address eoa) setup s t

  after_save-Ends :
      (eoa : Bytes) (e : Option Error) (s : Leader)
      → Ends eoa s (after_save eth setup contract eoa e s).1
  unfolding after_save activate_on_chain
  after_save-Ends eoa (some e) s = (refl, inl refl)
  after_save-Ends eoa none s =
      activate-Settled contract (eth.hex_to_address eoa) setup
        (needs_activation setup contract (eth.hex_to_address eoa)) s refl

  with_nodes-Ends :
      (eoa : Bytes) (info : NodeInfo) (r : Result (Map Bytes NodeInfo)) (s : Leader)
      → Ends eoa s (with_nodes eth setup contract eoa info r s).1
  unfolding with_nodes
  with_nodes-Ends eoa info (err e) s = (refl, inl refl)
  with_nodes-Ends eoa info (ok nodes) s =
      let (e, file) = save_registered_nodes (put eoa info nodes) s.registered_nodes in
      after_save-Ends eoa e (record s { registered_nodes = file })

  with_info-Ends :
      (eoa : Bytes) (o : Option NodeInfo) (s : Leader)
      → Ends eoa s (with_info eth setup contract eoa o s).1
  unfolding with_info
  with_info-Ends eoa none s = (refl, inl refl)
  with_info-Ends eoa (some info) s =
      let (nodes, file) = load_registered_nodes s.registered_nodes in
      with_nodes-Ends eoa info nodes (record s { registered_nodes = file })

  -- A request for registration leaves the commits in memory as they are, and makes the leader send
  -- nothing, or one transaction that activates an operator. Then the request is decoded and carries
  -- a signature by the address that it names, the operator is that address, the contract does not
  -- list it as activated, and its deposit reaches the activation threshold.
  pub register_node-sends :
      (request : Option RegistrationRequest) (remote_addr : Bytes) (s : Leader)
      → let t = (register_node eth setup contract request remote_addr s).1 in
        (t.committed_nodes ≡ s.committed_nodes)
        × ((t.outputs ≡ s.outputs)
            ⊎ ((req : RegistrationRequest) × (request ≡ some req)
                × (verify_signature eth req ≡ true)
                × IsDue contract (eth.hex_to_address req.eoa_address)
                × (t.outputs ≡ s.outputs ++ activates (eth.hex_to_address req.eoa_address) ∷ [])))
  unfolding register_node
  register_node-sends none remote_addr s = (refl, inl refl)
  register_node-sends (some req) remote_addr s = elim (Bool-cases (verify_signature eth req)) [
    | inl verified ↦ rw verified (
        signed
          (with_info eth setup contract req.eoa_address (node_info remote_addr req.peer_id) s).1
          verified (with_info-Ends req.eoa_address (node_info remote_addr req.peer_id) s))
    | inr forged ↦ rw forged (refl, inl refl)
  ]
    where
      signed :
          (t : Leader)
          → verify_signature eth req ≡ true
          → Ends req.eoa_address s t
          → (t.committed_nodes ≡ s.committed_nodes)
            × ((t.outputs ≡ s.outputs)
                ⊎ ((r : RegistrationRequest) × (some req ≡ some r)
                    × (verify_signature eth r ≡ true)
                    × IsDue contract (eth.hex_to_address r.eoa_address)
                    × (t.outputs ≡ s.outputs ++ activates (eth.hex_to_address r.eoa_address) ∷ [])))
      signed t verified (same, inl silent) = (same, inl silent)
      signed t verified (same, inr (due, sent)) = (same, inr (req, refl, verified, due, sent))

  -- What a step that succeeds leaves: the nodes, and an activated operator.
  abbrev Registers : Bytes → Map Bytes NodeInfo → Leader → Leader → Type 0
  Registers eoa nodes s t =
      (t.registered_nodes.content ≡ holds nodes)
      × IsActivated contract (eth.hex_to_address eoa) setup s t

  after_save-Registers :
      (eoa : Bytes) (e : Option Error) (nodes : Map Bytes NodeInfo) (s : Leader)
      → (e ≡ none → s.registered_nodes.content ≡ holds nodes)
      → (after_save eth setup contract eoa e s).0 ≡ value tt
      → Registers eoa nodes s (after_save eth setup contract eoa e s).1
  unfolding after_save activate_on_chain
  after_save-Registers eoa (some e) nodes s saved h = absurd (cc)
  after_save-Registers eoa none nodes s saved h =
      let m = needs_activation setup contract (eth.hex_to_address eoa) in
      (
        ap (λ f. f.content) (activate-registered_nodes contract (eth.hex_to_address eoa) setup m s)
            ∙ saved refl,
        activate-IsActivated contract (eth.hex_to_address eoa) setup m s refl h,
      )

  with_nodes-Registers :
      (eoa : Bytes) (info : NodeInfo) (r : Result (Map Bytes NodeInfo)) (old : Map Bytes NodeInfo)
      (s : Leader)
      → ((m : Map Bytes NodeInfo) → r ≡ ok m → m ≡ old)
      → (with_nodes eth setup contract eoa info r s).0 ≡ value tt
      → Registers eoa (put eoa info old) s (with_nodes eth setup contract eoa info r s).1
  unfolding with_nodes save_registered_nodes create_file
  with_nodes-Registers eoa info (err e) old s loaded h = absurd (cc)
  with_nodes-Registers eoa info (ok nodes) old s loaded h =
      let (e, file) = save_registered_nodes (put eoa info nodes) s.registered_nodes in
      after_save-Registers eoa e (put eoa info old) (record s { registered_nodes = file })
        (λ saved.
          created-content (put eoa info nodes) (first_fault s.registered_nodes.faults)
            s.registered_nodes.content saved
          ∙ ap (λ m. holds (put eoa info m)) (loaded nodes refl))
        h

  with_info-Registers :
      (eoa : Bytes) (o : Option NodeInfo) (s : Leader)
      → (with_info eth setup contract eoa o s).0 ≡ value tt
      → (info : NodeInfo) × (o ≡ some info)
        × Registers eoa
            (put eoa info (entries s.registered_nodes.content))
            s
            (with_info eth setup contract eoa o s).1
  unfolding with_info load_registered_nodes read_file
  with_info-Registers eoa none s h = absurd (cc)
  with_info-Registers eoa (some info) s h =
      let (nodes, file) = load_registered_nodes s.registered_nodes in
      (
        info,
        refl,
        with_nodes-Registers eoa info nodes (entries s.registered_nodes.content)
            (record s { registered_nodes = file })
            (λ m e.
              loaded-entries (first_fault s.registered_nodes.faults) s.registered_nodes.content m e)
            h,
      )

  -- Where a registration is reported as done, the request was decoded and carries a signature by the
  -- address that it names, and the remote address has at least five parts. The file then holds what it
  -- held before, with the request's node under that address in hexadecimal. The contract lists the
  -- operator as activated and the leader sends nothing, or the operator is due, with a deposit that
  -- reaches the threshold, and the leader has sent one transaction that activates it, which was
  -- accepted.
  pub register_node-done :
      (request : Option RegistrationRequest) (remote_addr : Bytes) (s : Leader)
      → (register_node eth setup contract request remote_addr s).0 ≡ value tt
      → (req : RegistrationRequest) × (info : NodeInfo) × (request ≡ some req)
        × (verify_signature eth req ≡ true)
        × (node_info remote_addr req.peer_id ≡ some info)
        × ((register_node eth setup contract request remote_addr s).1.registered_nodes.content
            ≡ holds (put req.eoa_address info (entries s.registered_nodes.content)))
        × IsActivated contract
            (eth.hex_to_address req.eoa_address)
            setup
            s
            (register_node eth setup contract request remote_addr s).1
  unfolding register_node
  register_node-done none remote_addr s h = absurd (cc)
  register_node-done (some req) remote_addr s h = elim (Bool-cases (verify_signature eth req)) [
    | inl verified ↦
        let (info, found, (content, activated)) =
          with_info-Registers req.eoa_address (node_info remote_addr req.peer_id) s
            (rw verified at h) in
        (req, info, refl, verified, found, rw verified content, rw verified activated)
    | inr forged ↦ absurd (no_value (rw forged at h))
  ]
    where
      no_value : error ≡ value (tt {0}) → ⊥
      no_value e = cc
