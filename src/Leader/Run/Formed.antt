-- ===== src/Leader/Run/Formed.antt =====
-- nodes/leaderNode.go: all that the leader sends in a run is well formed.
use drb_node.Base.{
  inl, inr, subst, sym, Bytes, bytes_eq, Bool, true, false, Option, none, some, List, [], ◌∷◌, ◌==◌,
  All,
}
use drb_node.Crypto.{Ethereum}
use drb_node.Go.File.{Error}
use drb_node.Utils.Requests.{RegistrationRequest, SecretValueRequest}
use drb_node.Utils.Signature.{verify_signature}
use drb_node.Utils.LeaderNodeData.{load_leader_commit_data, save_leader_commit_data}
use drb_node.CommitReveal.RevealOrder.{RevealSort}
use drb_node.Leader.State.{activates, Leader, Setup, Replies, fatal, if_running}
use drb_node.Leader.Outputs.{IsWellFormed, Keeps, if-AllWellFormed, add-AllWellFormed}
use drb_node.Leader.Requests.Formed.{response-Keeps}
use drb_node.Leader.Registration.{Contract, handle_registration_request}
use drb_node.Leader.Registration.Outcome.{register_node-sends}
use drb_node.Leader.Handlers.Formed.{handle_commit_request-Keeps, handle_cos_request-Keeps}
use drb_node.Leader.Secrets.{loaded_or_new, take_secret, after_secret_save, accept_secret_value}
use drb_node.Leader.Rounds.{RoundData}
use drb_node.Leader.Rounds.Formed.{process_rounds-Keeps}
use drb_node.Leader.Monitor.Formed.{check_rounds_for_completion-Keeps}
use drb_node.Leader.Run.{
  Happening, on_register, on_cvs, on_cos, on_secret_value, monitors, polls, Event, with_rounds,
  poll, happens, handle_events, run_leader_node,
}

module _ (eth : Ethereum) (sorter : RevealSort) (setup : Setup) where
  register-Keeps :
      (contract : Contract) (request : Option RegistrationRequest) (remote_addr : Bytes)
      → Keeps eth setup (handle_registration_request eth setup contract request remote_addr)
  unfolding handle_registration_request
  register-Keeps contract request remote_addr s all =
      elim (register_node-sends eth setup contract request remote_addr s).1 [
        | inl silent ↦ subst (All (IsWellFormed eth setup)) (sym silent) all
        | inr (req, _, _, _, sent) ↦ subst (All (IsWellFormed eth setup)) (sym sent) (
            add-AllWellFormed eth setup (activates (eth.hex_to_address req.eoa_address)) s
              (eth.length-hex_to_address req.eoa_address) all)
      ]

  after_secret_save-Keeps :
      (replies : Replies) (round : Bytes) (e : Option Error)
      → Keeps eth setup (after_secret_save eth setup replies round e)
  unfolding after_secret_save
  after_secret_save-Keeps replies round (some e) s all = all
  after_secret_save-Keeps replies round none s all = response-Keeps eth setup replies round s all

  accept_secret_value-Keeps :
      (replies : Replies) (o : Option SecretValueRequest)
      → Keeps eth setup (accept_secret_value eth setup replies o)
  unfolding accept_secret_value
  accept_secret_value-Keeps replies none s all = all
  accept_secret_value-Keeps replies (some req) s all =
      let (r, file) = load_leader_commit_data req.round req.eoa_address s.leader_commits in
      let (e, file') = save_leader_commit_data (take_secret req (loaded_or_new req r)) file in
      if-AllWellFormed eth setup
        (verify_signature eth
          (record { eoa_address = req.eoa_address; signature = req.signature; peer_id = [] }))
        _ s (after_secret_save-Keeps replies req.round e (record s { leader_commits = file' }) all)
        all

  with_rounds-Keeps :
      (replies : Replies) (o : Option (List RoundData))
      → Keeps eth setup (with_rounds eth sorter setup replies o)
  unfolding with_rounds
  with_rounds-Keeps replies none s all = all
  with_rounds-Keeps replies (some rounds) s all =
      process_rounds-Keeps eth setup replies rounds s all

  happens-Keeps :
      (replies : Replies) (h : Happening) → Keeps eth setup (happens eth sorter setup replies h)
  unfolding happens poll
  happens-Keeps replies (on_register request remote_addr contract) s all =
      register-Keeps contract request remote_addr s all
  happens-Keeps replies (on_cvs request) s all =
      handle_commit_request-Keeps eth setup replies request s all
  happens-Keeps replies (on_cos request) s all =
      handle_cos_request-Keeps eth setup replies sorter request s all
  happens-Keeps replies (on_secret_value request) s all =
      accept_secret_value-Keeps replies request s all
  happens-Keeps replies monitors s all = check_rounds_for_completion-Keeps eth setup replies s all
  happens-Keeps replies (polls rounds) s all =
      if-AllWellFormed eth setup (setup.subgraph_url == []) (fatal s) _ all
        (with_rounds-Keeps replies rounds s all)

  handle_events-Keeps :
      (events : List Event) → Keeps eth setup (handle_events eth sorter setup events)
  unfolding handle_events
  handle_events-Keeps [] s all = all
  handle_events-Keeps (e ∷ es) s all =
      handle_events-Keeps es (if_running (happens eth sorter setup e.replies e.what) s)
        (if-AllWellFormed eth setup s.exited s _ all (happens-Keeps e.replies e.what s all))

  -- Whatever requests come in and whatever the outside answers, what the leader sends in a run is well
  -- formed, where all that it has sent before is: a Merkle root has 32 bytes, under a round that is
  -- an int64; a random number has secrets, at least one, with as many v, r and
  -- s, the secrets, r and s of 32 bytes and v of eight bits; a request for a secret names the address
  -- of the leader's key, with a signature that a regular node accepts for it; and an activated operator
  -- is an address of 20 bytes.
  pub run_leader_node-AllWellFormed :
      (port : Bytes) (host_starts : Bool) (events : List Event) (s : Leader)
      → All (IsWellFormed eth setup) s.outputs
      → All
          (IsWellFormed eth setup)
          (run_leader_node eth sorter setup port host_starts events s).outputs
  unfolding run_leader_node
  run_leader_node-AllWellFormed port true events s all =
      if-AllWellFormed eth setup (port == []) (fatal s) _ all (handle_events-Keeps events s all)
  run_leader_node-AllWellFormed port false events s all =
      if-AllWellFormed eth setup (port == []) (fatal s) (fatal s) all all
