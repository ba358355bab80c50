-- ===== src/Leader/Run.antt =====
-- nodes/leaderNode.go: RunLeaderNode. The streams' handlers, the monitor and the polling loop run in
-- goroutines of their own; what happens is a list of events, in any order, each of which ends before
-- the next. Interleavings of their critical sections are in Memory.Steps.
pub mod Safe
pub mod Formed
use drb_node.Base.{
  Bytes, bytes_eq, Bool, true, Option, none, some, List, [], ◌∷◌, ◌==◌, if◌then◌else◌,
}
use drb_node.Crypto.{Ethereum}
use drb_node.Utils.Requests.{RegistrationRequest, SecretValueRequest, CommitRequest, CosRequest}
use drb_node.CommitReveal.RevealOrder.{RevealSort}
use drb_node.Leader.State.{Leader, Setup, Replies, fatal, if_running}
use drb_node.Leader.Registration.{Contract, handle_registration_request}
use drb_node.Leader.Handlers.{handle_commit_request, handle_cos_request}
use drb_node.Leader.Secrets.{accept_secret_value}
use drb_node.Leader.Rounds.{RoundData, process_rounds}
use drb_node.Leader.Monitor.{check_rounds_for_completion}

-- A stream, with its request where it can be decoded; a pass of the monitor; a turn of the polling
-- loop, with the rounds where the query succeeds.
pub data Happening : Type 0 where
  on_register : Option RegistrationRequest → Bytes → Contract → Happening
  on_cvs : Option CommitRequest → Happening
  on_cos : Option CosRequest → Happening
  on_secret_value : Option SecretValueRequest → Happening
  monitors : Happening
  polls : Option (List RoundData) → Happening

-- What happens, and what the outside answers to it.
pub record Event : Type 0 where
  pub what : Happening
  pub replies : Replies

module _ (eth : Ethereum) (sorter : RevealSort) (setup : Setup) where
  with_rounds : Replies → Option (List RoundData) → Leader → Leader
  with_rounds replies none s = fatal s
  with_rounds replies (some rounds) s = process_rounds eth setup replies rounds s

  -- fetchRoundsData and processRounds: a failed query ends the process.
  unfoldable pub poll : Replies → Option (List RoundData) → Leader → Leader
  unfolding with_rounds
  poll replies rounds s = if setup.subgraph_url == [] then fatal s else with_rounds replies rounds s

  happens : Replies → Happening → Leader → Leader
  unfolding poll
  happens replies (on_register request remote_addr contract) s =
      handle_registration_request eth setup contract request remote_addr s
  happens replies (on_cvs request) s = handle_commit_request eth setup replies request s
  happens replies (on_cos request) s = handle_cos_request eth setup replies sorter request s
  happens replies (on_secret_value request) s = accept_secret_value eth setup replies request s
  happens replies monitors s = check_rounds_for_completion eth setup replies s
  happens replies (polls rounds) s = poll replies rounds s

  unfoldable pub handle_events : List Event → Leader → Leader
  unfolding happens
  handle_events [] s = s
  handle_events (e ∷ es) s = handle_events es (if_running (happens e.replies e.what) s)

  -- RunLeaderNode with LEADER_PORT, and whether libp2putils.CreateHost succeeds.
  unfoldable pub run_leader_node : Bytes → Bool → List Event → Leader → Leader
  unfolding handle_events
  run_leader_node port host_starts events s =
      if port == [] then fatal s else if host_starts then handle_events events s else fatal s
