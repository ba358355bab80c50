-- ===== src/Regular/Node/Signed.antt =====
-- nodes/regularNode.go: the signatures of all that a regular node sends in a run.
use drb_node.Base.{
  some-inj, ◌≡◌, refl, sym, ◌∙◌, Bytes, bytes_eq, Bool, true, false, Option, none, some, List, [],
  ◌∷◌, ◌==◌, All, All-append, ℕ,
}
use drb_node.Crypto.{Ethereum}
use drb_node.Go.Attempt.{Attempt, value, error, process_exit}
use drb_node.Utils.PeerId.{Files, create_host}
use drb_node.Utils.Signature.{key_eoa}
use drb_node.Leader.Rounds.{RoundData}
use drb_node.Regular.State.{deposits, RegularNode, Env, fatal, if_running}
use drb_node.Regular.Sends.{send_registration_request_to_leader}
use drb_node.Regular.Sends.Signed.{IsSigned, AllSigned, if-AllSigned, send_registration-AllSigned}
use drb_node.Regular.Deposit.{
  Chain, check_activation_status, check_deposit_amount, missing_deposit, deposit_of,
  deposit_and_check_activation,
}
use drb_node.Regular.Rounds.{node_rounds}
use drb_node.Regular.Rounds.Signed.{node_rounds-AllSigned}
use drb_node.Regular.Secrets.Signed.{handle_secret_value_request-AllSigned}
use drb_node.Regular.Node.Started.{start_node-started}
use drb_node.Regular.Node.{
  Incoming, handle_incoming, Machine, make_host, serve, serve_early, Turn, NodeEvent, turns, asks,
  start_node, register, after_deposit, with_deposit, ensure_activated, with_rounds, node_turn,
  node_event, node_events, run_started, run_regular_node,
}

module _ (eth : Ethereum) (env : Env) (key : Bytes)
    (own_key : env.hex_to_ecdsa env.eoa_private_key ≡ some key) where
  abbrev Own : RegularNode → Type 0
  Own = AllSigned eth (key_eoa eth key) env.peer_id

  abbrev Keeps : (RegularNode → RegularNode) → Type 0
  Keeps next = (s : RegularNode) → Own s → Own (next s)

  register-Keeps :
      (t : Turn) (next : RegularNode → RegularNode)
      → Keeps next
      → Keeps (register eth env key t next)
  unfolding register
  register-Keeps t next keeps s all =
      let s1 =
        send_registration_request_to_leader eth env t.reached_register (key_eoa eth key) key s in
      let all1 = send_registration-AllSigned eth env key own_key t.reached_register s all in
      if-AllSigned eth (key_eoa eth key) env.peer_id s1.exited s1 (next s1) all1 (keeps s1 all1)

  deposit_of-Own :
      (chain : Chain) (a : Attempt (Option ℕ)) (s : RegularNode)
      → Own s
      → Own (deposit_of chain a s).1
  unfolding deposit_of
  deposit_of-Own chain process_exit s all = all
  deposit_of-Own chain error s all = all
  deposit_of-Own chain (value none) s all = all
  deposit_of-Own chain (value (some remaining)) s all =
      All-append (IsSigned eth (key_eoa eth key) env.peer_id) s.outputs (deposits remaining ∷ [])
        all (tt, tt)

  after_deposit-Own :
      (t : Turn) (next : RegularNode → RegularNode)
      → Keeps next
      → (a : Attempt Bool) (s : RegularNode) → Own s
      → Own (after_deposit eth env key t next (a, s))
  unfolding after_deposit
  after_deposit-Own t next keeps process_exit s all = all
  after_deposit-Own t next keeps error s all = all
  after_deposit-Own t next keeps (value true) s all = all
  after_deposit-Own t next keeps (value false) s all = register-Keeps t next keeps s all

  with_deposit-Keeps :
      (t : Turn) (next : RegularNode → RegularNode) (o : Option Bool)
      → Keeps next
      → Keeps (with_deposit eth env key t next o)
  unfolding with_deposit deposit_and_check_activation
  with_deposit-Keeps t next none keeps s all = all
  with_deposit-Keeps t next (some true) keeps s all = register-Keeps t next keeps s all
  with_deposit-Keeps t next (some false) keeps s all =
      let a = missing_deposit eth env t.chain_later (key_eoa eth key) in
      let (r, u) = deposit_of t.chain_later a s in
      after_deposit-Own t next keeps r u (deposit_of-Own t.chain_later a s all)

  ensure_activated-Keeps :
      (t : Turn) (next : RegularNode → RegularNode)
      → Keeps next
      → Keeps (ensure_activated eth env key t next)
  unfolding ensure_activated
  ensure_activated-Keeps t next keeps s all =
      if-AllSigned eth (key_eoa eth key) env.peer_id
        (check_activation_status eth t.chain (key_eoa eth key)) (next s) _ (keeps s all)
        (with_deposit-Keeps t next (check_deposit_amount eth t.chain (key_eoa eth key)) keeps s all)

  with_rounds-Keeps : (t : Turn) (o : Option (List RoundData)) → Keeps (with_rounds eth env key t o)
  unfolding with_rounds
  with_rounds-Keeps t none s all = all
  with_rounds-Keeps t (some rounds) s all =
      ensure_activated-Keeps t (node_rounds eth env (key_eoa eth key) key t.pass rounds)
        (node_rounds-AllSigned eth env key own_key t.pass rounds) s all

  node_turn-Keeps : (t : Turn) → Keeps (node_turn eth env key t)
  unfolding node_turn
  node_turn-Keeps t s all =
      if-AllSigned eth (key_eoa eth key) env.peer_id (env.subgraph_url == []) (fatal s) _ all
        (with_rounds-Keeps t t.rounds s all)

  node_event-Keeps : (e : NodeEvent) → Keeps (node_event eth env key e)
  unfolding node_event handle_incoming
  node_event-Keeps (turns t) s all = node_turn-Keeps t s all
  node_event-Keeps (asks i) s all =
      handle_secret_value_request-AllSigned eth env i.reached key env.peer_id own_key i.request s
        all

  node_events-Keeps : (es : List NodeEvent) → Keeps (node_events eth env key es)
  unfolding node_events
  node_events-Keeps [] s all = all
  node_events-Keeps (e ∷ es) s all =
      node_events-Keeps es (if_running (node_event eth env key e) s)
        (if-AllSigned eth (key_eoa eth key) env.peer_id s.exited s _ all (node_event-Keeps e s all))

module _ (eth : Ethereum) (machine : Machine) (env : Env) where
  serve-AllSigned :
      (key id : Bytes) (is : List Incoming) (s : RegularNode)
      → env.hex_to_ecdsa env.eoa_private_key ≡ some key
      → AllSigned eth (key_eoa eth key) id s
      → AllSigned eth (key_eoa eth key) id (serve eth machine env is s)
  unfolding serve handle_incoming
  serve-AllSigned key id [] s own_key all = all
  serve-AllSigned key id (i ∷ is) s own_key all =
      serve-AllSigned key id is (if_running (handle_incoming eth env i) s) own_key (
        if-AllSigned eth (key_eoa eth key) id s.exited s _ all
          (handle_secret_value_request-AllSigned eth env i.reached key id own_key i.request s all))

  serve_early-AllSigned :
      (key id : Bytes) (host : Option (Bytes × Bytes)) (s : RegularNode)
      → env.hex_to_ecdsa env.eoa_private_key ≡ some key
      → AllSigned eth (key_eoa eth key) id s
      → AllSigned eth (key_eoa eth key) id (serve_early eth machine env host s)
  unfolding serve_early
  serve_early-AllSigned key id none s own_key all = all
  serve_early-AllSigned key id (some _) s own_key all =
      serve-AllSigned key id machine.asked_early s own_key all

  run_started-AllSigned :
      (key id : Bytes) (events : List NodeEvent) (a : Attempt (Bytes × Bytes)) (s : RegularNode)
      → env.hex_to_ecdsa env.eoa_private_key ≡ some key
      → ((k i : Bytes) → a ≡ value (k, i) → (k ≡ key) × (i ≡ id))
      → AllSigned eth (key_eoa eth key) id s
      → AllSigned eth (key_eoa eth key) id (run_started eth env events a s)
  unfolding run_started
  run_started-AllSigned key id events process_exit s own_key same all = all
  run_started-AllSigned key id events error s own_key same all = all
  run_started-AllSigned key id events (value (k, i)) s own_key same all =
      let (keys, ids) = same k i refl in
      rw (keys, ids) (node_events-Keeps eth (record env { peer_id = id }) key own_key events s all)

  -- Over any run of a regular node, whatever the subgraph, the chain and the leader answer and
  -- whatever secret values it is asked for: where the host that the start makes, if it makes one, has
  -- the identity `id`, and all requests so far name the address of the node's key and carry a
  -- signature that the leader accepts for it, and each registration names that identity, the same
  -- holds of all requests at the end: registrations, CVS, COS and secret values alike.
  pub run_regular_node-AllSigned :
      (key id : Bytes) (events : List NodeEvent) (files : Files) (s : RegularNode)
      → env.hex_to_ecdsa env.eoa_private_key ≡ some key
      → ((host_key i : Bytes)
          → (create_host machine.identities machine.host env.port files).0 ≡ some (host_key, i)
          → i ≡ id)
      → All (IsSigned eth (key_eoa eth key) id) s.outputs
      → All
          (IsSigned eth (key_eoa eth key) id)
          (run_regular_node eth machine env events files s).0.outputs
  unfolding run_regular_node
  run_regular_node-AllSigned key id events files s own_key named all =
      run_started-AllSigned key id events (start_node eth machine env files s).0
        (start_node eth machine env files s).2 own_key
        (λ k i e.
          let (own, host_key, found) = start_node-started eth machine env k i files s e in
          (some-inj k key (sym own ∙ own_key), named host_key i found))
        (unfold start_node in
          serve_early-AllSigned key id (make_host eth machine env files).0 s own_key all)
