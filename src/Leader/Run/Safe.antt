-- ===== src/Leader/Run/Safe.antt =====
-- nodes/leaderNode.go: the commits in memory over a run of the leader.
use drb_node.Base.{
  ◌≡◌, refl, Bytes, bytes_eq, Bool, true, false, Option, none, some, List, [], ◌∷◌, ◌==◌,
  if◌then◌else◌, All, length,
}
use drb_node.Crypto.{Ethereum}
use drb_node.Utils.LeaderNodeData.{LeaderCommitData}
use drb_node.CommitReveal.RevealOrder.{RevealSort}
use drb_node.Leader.State.{Leader, Setup, Replies, fatal, if_running}
use drb_node.Leader.Registration.{handle_registration_request}
use drb_node.Leader.Registration.Outcome.{register_node-sends}
use drb_node.Leader.Handlers.{handle_commit_request, handle_cos_request}
use drb_node.Leader.Handlers.Reached.{handle_commit_request-Reach, handle_cos_request-Reach}
use drb_node.Leader.MerkleRoot.Reached.{if-Reach}
use drb_node.Leader.Rounds.{RoundData}
use drb_node.Leader.Rounds.Reached.{process_rounds-Reach, accept_secret_value-Reach}
use drb_node.Leader.Secrets.{accept_secret_value}
use drb_node.Leader.Monitor.Quiet.{check_rounds_for_completion-Same}
use drb_node.Leader.Memory.Entries.{IsConsistent}
use drb_node.Leader.Memory.Growth.{lookup, Extends}
use drb_node.Leader.Memory.Steps.{Reach, here, Reach-trans, one-elsewhere, Reach-IsConsistent}
use drb_node.Leader.Memory.WriteOnce.{Reach-Grows}
use drb_node.Leader.Run.{
  Happening, on_register, on_cvs, on_cos, on_secret_value, monitors, polls, Event, with_rounds,
  poll, happens, handle_events, run_leader_node,
}

-- The CVS of a commit request is of type [32]byte.
abbrev pub IsTyped : Happening → Type 0
IsTyped (on_register request remote_addr contract) = Unit
IsTyped (on_cvs none) = Unit
IsTyped (on_cvs (some req)) = length req.cvs ≡ 32
IsTyped (on_cos request) = Unit
IsTyped (on_secret_value request) = Unit
IsTyped monitors = Unit
IsTyped (polls rounds) = Unit

module _ (eth : Ethereum) (sorter : RevealSort) (setup : Setup) where
  fatal-Reach : (s : Leader) → Reach eth s (fatal s)
  fatal-Reach s = one-elsewhere eth s (fatal s) refl

  with_rounds-Reach :
      (replies : Replies) (o : Option (List RoundData)) (s : Leader)
      → Reach eth s (with_rounds eth sorter setup replies o s)
  unfolding with_rounds
  with_rounds-Reach replies none s = fatal-Reach s
  with_rounds-Reach replies (some rounds) s = process_rounds-Reach eth setup replies rounds s

  happens-Reach :
      (replies : Replies) (h : Happening) (s : Leader)
      → IsTyped h
      → Reach eth s (happens eth sorter setup replies h s)
  unfolding happens handle_registration_request handle_commit_request handle_cos_request
      accept_secret_value poll
  happens-Reach replies (on_register request remote_addr contract) s typed =
      one-elsewhere eth s _ (register_node-sends eth setup contract request remote_addr s).0
  happens-Reach replies (on_cvs none) s typed = here
  happens-Reach replies (on_cvs (some req)) s typed =
      handle_commit_request-Reach eth setup replies req s typed
  happens-Reach replies (on_cos none) s typed = here
  happens-Reach replies (on_cos (some req)) s typed =
      handle_cos_request-Reach eth setup replies sorter req s
  happens-Reach replies (on_secret_value none) s typed = here
  happens-Reach replies (on_secret_value (some req)) s typed =
      accept_secret_value-Reach eth setup replies req s
  happens-Reach replies monitors s typed =
      one-elsewhere eth s _ (check_rounds_for_completion-Same eth setup replies s)
  happens-Reach replies (polls rounds) s typed =
      if-Reach eth setup replies (setup.subgraph_url == []) s (fatal s) _ (fatal-Reach s)
        (with_rounds-Reach replies rounds s)

  handle_events-Reach :
      (events : List Event) (s : Leader)
      → All (λ e. IsTyped e.what) events
      → Reach eth s (handle_events eth sorter setup events s)
  unfolding handle_events
  handle_events-Reach [] s typed = here
  handle_events-Reach (e ∷ es) s typed =
      let s1 = if_running (happens eth sorter setup e.replies e.what) s in
      Reach-trans eth
        (if-Reach eth setup e.replies s.exited s s _ here
          (happens-Reach e.replies e.what s typed.0))
        (handle_events-Reach es s1 typed.1)

  fatal_or-Reach :
      (b : Bool) (s t : Leader) → Reach eth s t → Reach eth s (if b then fatal s else t)
  fatal_or-Reach true s t reach = fatal-Reach s
  fatal_or-Reach false s t reach = reach

  -- RunLeaderNode refines the steps on the memory: a whole run, with any requests, passes of the monitor
  -- and turns of the polling loop, is a sequence of critical sections, of COS, of commits with a CVS
  -- of 32 bytes, of marks and of what leaves the memory as it is. The CVS of each commit request has
  -- 32 bytes.
  pub run_leader_node-Reach :
      (port : Bytes) (host_starts : Bool) (events : List Event) (s : Leader)
      → All (λ e. IsTyped e.what) events
      → Reach eth s (run_leader_node eth sorter setup port host_starts events s)
  unfolding run_leader_node
  run_leader_node-Reach port true events s typed =
      fatal_or-Reach (port == []) s (handle_events eth sorter setup events s)
        (handle_events-Reach events s typed)
  run_leader_node-Reach port false events s typed =
      fatal_or-Reach (port == []) s (fatal s) (fatal-Reach s)

  -- Over a run of the leader, with any requests, passes of the monitor and turns of the polling loop,
  -- whatever the outside answers: a memory whose entries are consistent stays so, and each entry in it
  -- stays, keeps its CVS and the signature with it and its COS once they are not zero, and stays marked
  -- as submitted. The CVS of each commit request has 32 bytes.
  pub run_leader_node-Safe :
      (port : Bytes) (host_starts : Bool) (events : List Event) (s : Leader)
      → All (λ e. IsTyped e.what) events
      → IsConsistent eth s
      → let t = run_leader_node eth sorter setup port host_starts events s in
        IsConsistent eth t
        × ((round addr : Bytes) (d : LeaderCommitData)
            → lookup round addr s ≡ some d
            → (d' : LeaderCommitData) × (lookup round addr t ≡ some d') × Extends d d')
  run_leader_node-Safe port host_starts events s typed consistent =
      let reach = run_leader_node-Reach port host_starts events s typed in
      (Reach-IsConsistent eth reach consistent, Reach-Grows eth reach)
