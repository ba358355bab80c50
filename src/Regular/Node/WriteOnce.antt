-- ===== src/Regular/Node/WriteOnce.antt =====
-- nodes/regularNode.go: the commit file of a regular node over a whole run.
use drb_node.Base.{
  ℕ, ◌≡◌, refl, Bytes, bytes_eq, Bool, true, false, Option, none, some, List, [], ◌∷◌, ◌==◌,
}
use drb_node.Crypto.{Ethereum}
use drb_node.Go.Attempt.{Attempt, value, error, process_exit}
use drb_node.Utils.Commit.{CommitData}
use drb_node.Utils.Commit.Growth.{Extends, stored, IsSound, Grows-trans}
use drb_node.Utils.PeerId.{Files}
use drb_node.Utils.Signature.{sign_data, key_eoa}
use drb_node.Leader.Rounds.{RoundData}
use drb_node.Regular.State.{RegularNode, Env, fatal, if_running}
use drb_node.Regular.Sends.{with_registration_signature, send_registration_request_to_leader}
use drb_node.Regular.Sends.Growth.{IsOwn, Grown, Grown-same, if-Grown, send_to_leader-same}
use drb_node.Regular.Deposit.{
  check_activation_status, check_deposit_amount, deposit_of, missing_deposit,
  deposit_and_check_activation,
}
use drb_node.Regular.Rounds.{node_rounds}
use drb_node.Regular.Rounds.WriteOnce.{node_rounds-Grown}
use drb_node.Regular.Secrets.Kept.{handle_secret_value_request-Grown}
use drb_node.Regular.Node.{
  Incoming, handle_incoming, Machine, with_host, make_host, serve, serve_early, start_node, Turn,
  NodeEvent, turns, asks, register, after_deposit, with_deposit, ensure_activated, with_rounds,
  node_turn, node_event, node_events, run_started, run_regular_node,
}

module _ (eth : Ethereum) (env : Env) (key : Bytes) where
  -- A part of a turn that goes on with `next` where the file is as it was.
  abbrev Passes : (RegularNode → RegularNode) → Type 0
  Passes next = (s : RegularNode) → Grown eth s (next s)

  registration-same :
      (reached : Bool) (eoa : Bytes) (o : Option Bytes) (s : RegularNode)
      → (with_registration_signature eth env reached eoa o s).commits ≡ s.commits
  unfolding with_registration_signature
  registration-same reached eoa none s = refl
  registration-same reached eoa (some signature) s = send_to_leader-same eth reached _ s

  after_same :
      (next : RegularNode → RegularNode) (s t : RegularNode)
      → Passes next
      → t.commits ≡ s.commits
      → Grown eth s (next t)
  after_same next s t passes same =
      Grows-trans (IsOwn eth) s.commits t.commits (next t).commits (Grown-same eth s t same)
        (passes t)

  register-Grown :
      (t : Turn) (next : RegularNode → RegularNode)
      → Passes next
      → Passes (register eth env key t next)
  unfolding register send_registration_request_to_leader
  register-Grown t next passes s =
      let eoa = key_eoa eth key in
      let s1 = send_registration_request_to_leader eth env t.reached_register eoa key s in
      let same : s1.commits ≡ s.commits =
        registration-same t.reached_register eoa (sign_data eth eoa key) s in
      if-Grown eth s1.exited s s1 (next s1) (Grown-same eth s s1 same)
        (after_same next s s1 passes same)

  deposit_of-same :
      (t : Turn) (a : Attempt (Option ℕ)) (s : RegularNode)
      → (deposit_of t.chain_later a s).1.commits ≡ s.commits
  unfolding deposit_of
  deposit_of-same t process_exit s = refl
  deposit_of-same t error s = refl
  deposit_of-same t (value none) s = refl
  deposit_of-same t (value (some remaining)) s = refl

  after_deposit-Grown :
      (t : Turn) (next : RegularNode → RegularNode)
      → Passes next
      → (a : Attempt Bool) (s u : RegularNode) → u.commits ≡ s.commits
      → Grown eth s (after_deposit eth env key t next (a, u))
  unfolding after_deposit
  after_deposit-Grown t next passes process_exit s u same = Grown-same eth s u same
  after_deposit-Grown t next passes error s u same = Grown-same eth s u same
  after_deposit-Grown t next passes (value true) s u same = Grown-same eth s u same
  after_deposit-Grown t next passes (value false) s u same =
      after_same (register eth env key t next) s u (register-Grown t next passes) same

  with_deposit-Grown :
      (t : Turn) (next : RegularNode → RegularNode)
      → Passes next
      → (o : Option Bool) → Passes (with_deposit eth env key t next o)
  unfolding with_deposit deposit_and_check_activation
  with_deposit-Grown t next passes none s = Grown-same eth s s refl
  with_deposit-Grown t next passes (some true) s = register-Grown t next passes s
  with_deposit-Grown t next passes (some false) s =
      let a = missing_deposit eth env t.chain_later (key_eoa eth key) in
      let (r, u) = deposit_of t.chain_later a s in
      after_deposit-Grown t next passes r s u (deposit_of-same t a s)

  ensure_activated-Grown :
      (t : Turn) (next : RegularNode → RegularNode)
      → Passes next
      → Passes (ensure_activated eth env key t next)
  unfolding ensure_activated
  ensure_activated-Grown t next passes s =
      if-Grown eth (check_activation_status eth t.chain (key_eoa eth key)) s (next s) _ (passes s)
        (with_deposit-Grown t next passes (check_deposit_amount eth t.chain (key_eoa eth key)) s)

  with_rounds-Grown :
      (t : Turn) (o : Option (List RoundData)) → Passes (with_rounds eth env key t o)
  unfolding with_rounds
  with_rounds-Grown t none s = Grown-same eth s (fatal s) refl
  with_rounds-Grown t (some rounds) s =
      let eoa = key_eoa eth key in
      ensure_activated-Grown t (node_rounds eth env eoa key t.pass rounds)
        (node_rounds-Grown eth env eoa key t.pass rounds) s

  node_turn-Grown : (t : Turn) → Passes (node_turn eth env key t)
  unfolding node_turn
  node_turn-Grown t s =
      if-Grown eth (env.subgraph_url == []) s (fatal s) _ (Grown-same eth s (fatal s) refl)
        (with_rounds-Grown t t.rounds s)

  handle_incoming-Grown : (i : Incoming) → Passes (handle_incoming eth env i)
  unfolding handle_incoming
  handle_incoming-Grown i s = handle_secret_value_request-Grown eth env i.reached i.request s

  node_event-Grown : (e : NodeEvent) → Passes (node_event eth env key e)
  unfolding node_event
  node_event-Grown (turns t) s = node_turn-Grown t s
  node_event-Grown (asks i) s = handle_incoming-Grown i s

  node_events-Grown : (es : List NodeEvent) → Passes (node_events eth env key es)
  unfolding node_events
  node_events-Grown [] s = Grown-same eth s s refl
  node_events-Grown (e ∷ es) s =
      let s1 = if_running (node_event eth env key e) s in
      Grows-trans (IsOwn eth) s.commits s1.commits (node_events eth env key es s1).commits
        (if-Grown eth s.exited s s _ (Grown-same eth s s refl) (node_event-Grown e s))
        (node_events-Grown es s1)

module _ (eth : Ethereum) (machine : Machine) (env : Env) where
  serve-Grown : (is : List Incoming) (s : RegularNode) → Grown eth s (serve eth machine env is s)
  unfolding serve
  serve-Grown [] s = Grown-same eth s s refl
  serve-Grown (i ∷ is) s =
      let s1 = if_running (handle_incoming eth env i) s in
      Grows-trans (IsOwn eth) s.commits s1.commits (serve eth machine env is s1).commits
        (if-Grown eth s.exited s s _ (Grown-same eth s s refl)
          (handle_incoming-Grown eth env [] i s))
        (serve-Grown is s1)

  serve_early-Grown :
      (host : Option (Bytes × Bytes)) (s : RegularNode)
      → Grown eth s (serve_early eth machine env host s)
  unfolding serve_early
  serve_early-Grown none s = Grown-same eth s s refl
  serve_early-Grown (some _) s = serve-Grown machine.asked_early s

  run_started-Grown :
      (events : List NodeEvent) (a : Attempt (Bytes × Bytes)) (s : RegularNode)
      → Grown eth s (run_started eth env events a s)
  unfolding run_started
  run_started-Grown events (value (key, id)) s =
      node_events-Grown eth (record env { peer_id = id }) key events s
  run_started-Grown events error s = Grown-same eth s s refl
  run_started-Grown events process_exit s = Grown-same eth s (fatal s) refl

  -- Over any run of a regular node, whatever the subgraph, the chain and the leader answer and
  -- whatever secret values it is asked for, a commit file in which every entry is a commitment under
  -- its own round stays such a file, and each of its entries keeps its secret value, its COS, its CVS,
  -- and the mark that the COS was sent. No use of the file stops halfway.
  pub run_regular_node-Keeps :
      (events : List NodeEvent) (files : Files) (s : RegularNode)
      → IsSound (IsOwn eth) s.commits
      → let t = (run_regular_node eth machine env events files s).0 in
        IsSound (IsOwn eth) t.commits
        × ((round : Bytes) (d : CommitData)
            → stored round s.commits ≡ some d
            → (d' : CommitData) × (stored round t.commits ≡ some d') × Extends d d')
  unfolding run_regular_node start_node
  run_regular_node-Keeps events files s sound =
      let host = make_host eth machine env files in
      let s1 = serve_early eth machine env host.0 s in
      let a = (with_host eth machine env s1.exited host).0 in
      Grows-trans (IsOwn eth) s.commits s1.commits (run_started eth env events a s1).commits
        (serve_early-Grown host.0 s) (run_started-Grown events a s1) sound
