-- ===== src/Leader/Monitor/Formed.antt =====
-- nodes/leaderNode_helper/monitor_commits.go: the random number transaction is well formed.
use drb_node.Base.{
  ◌≢◌, inl, inr, Bytes, bytes_eq, Bool, true, false, not, Option, none, some, List, [], ◌∷◌, ◌==◌,
  map, if◌then◌else◌, Bool-cases,
}
use drb_node.Base.Maps.{Map, get}
use drb_node.Utils.Clients.{abi_loads}
use drb_node.Crypto.{Ethereum}
use drb_node.Go.File.{Result, ok, err}
use drb_node.Go.Number.{ℤ, set_string}
use drb_node.Utils.LeaderNodeData.{LeaderCommitData, commit_key}
use drb_node.Leader.State.{NodeInfo, Leader, Setup, Replies, fatal, if_running}
use drb_node.Leader.MerkleRoot.{filter_operators, fetch_activated_operators}
use drb_node.Leader.Outputs.{AllWellFormed, Keeps, if-AllWellFormed, add-AllWellFormed}
use drb_node.Leader.Requests.Formed.{send-Keeps}
use drb_node.Leader.Monitor.Collected.{
  IsJudged, IsCollected, append_submitted-IsCollected, no_secrets-IsCollected, not_empty,
  judge_entry-IsJudged, secret_hashes-IsRow,
}
use drb_node.Leader.Monitor.Secrets.{
  Judged, no_secret, incomplete_signature, bad_v, ready, Revealed, no_secrets, Ended,
  fetch_node_info, with_info, with_judged, judge, append_submitted, collect_secrets,
}
use drb_node.Leader.Monitor.Transaction.{
  secret_hashes, any_empty, send, with_key, with_number, generate_random_number_transaction,
}
use drb_node.Leader.Monitor.{
  load_leader_commits, is_round_completed, root_submitted_in_file, mark_round_completed, rounds_in,
  with_outcome, with_secrets, with_operators, with_commits, check_round, check_rounds,
  check_rounds_for_completion,
}

module _ (eth : Ethereum) (setup : Setup) where
  module _ (replies : Replies) where
    -- The end of the loop over the operators, or of a part of it.
    abbrev IsEnded : Ended → Type 0
    IsEnded e = AllWellFormed eth setup e.leader × IsCollected e.revealed

    abbrev KeepsLoop : (Revealed → Leader → Ended) → Type 0
    KeepsLoop next =
        (acc : Revealed) (s : Leader)
        → IsCollected acc
        → AllWellFormed eth setup s
        → IsEnded (next acc s)

    with_info-IsEnded :
        (round eoa : Bytes) (o : Option NodeInfo) (next : Revealed → Leader → Ended)
        → KeepsLoop next
        → KeepsLoop (with_info eth setup replies round eoa o next)
    unfolding with_info
    with_info-IsEnded round eoa none next keeps acc s c all = keeps acc s c all
    with_info-IsEnded round eoa (some node) next keeps acc s c all =
        (send-Keeps eth setup replies round eoa node s all, c)

    with_judged-IsEnded :
        (round eoa : Bytes) (j : Judged) (next : Revealed → Leader → Ended)
        → IsJudged j
        → KeepsLoop next
        → KeepsLoop (with_judged eth setup replies round eoa j next)
    unfolding with_judged fetch_node_info
    with_judged-IsEnded round eoa no_secret next i keeps acc s c all =
        let (info, s1) = fetch_node_info eoa s in
        with_info-IsEnded round eoa info next keeps acc s1 c all
    with_judged-IsEnded round eoa incomplete_signature next i keeps acc s c all = (all, c)
    with_judged-IsEnded round eoa bad_v next i keeps acc s c all = (all, c)
    with_judged-IsEnded round eoa (ready x) next i keeps acc s c all =
        keeps (append_submitted acc x) s (append_submitted-IsCollected acc x c i) all

    collect_secrets-IsEnded :
        (round : Bytes) (commits : Map Bytes LeaderCommitData) (operators : List Bytes)
        → KeepsLoop (collect_secrets eth setup replies round commits operators)
    unfolding collect_secrets judge
    collect_secrets-IsEnded round commits [] acc s c all = (all, c)
    collect_secrets-IsEnded round commits (operator ∷ operators) acc s c all =
        with_judged-IsEnded round (eth.address_hex operator) (judge eth round commits operator)
          (collect_secrets eth setup replies round commits operators)
          (judge_entry-IsJudged eth setup
            (get (commit_key round (eth.address_hex operator)) commits))
          (collect_secrets-IsEnded round commits operators) acc s c all

    if_sent-AllWellFormed :
        (b : Bool) (p q : Leader × Bool)
        → AllWellFormed eth setup p.0
        → AllWellFormed eth setup q.0
        → AllWellFormed eth setup (if b then p else q).0
    if_sent-AllWellFormed true p q h k = h
    if_sent-AllWellFormed false p q h k = k

    module _ (x : Revealed) (c : IsCollected x) (s : Leader) (all : AllWellFormed eth setup s) where
      with_key-AllWellFormed :
          (z : ℤ) (o : Option Bytes)
          → secret_hashes x.secrets ≢ []
          → AllWellFormed eth setup (with_key setup replies z x o s).0
      unfolding with_key send
      with_key-AllWellFormed z none some_secret = all
      with_key-AllWellFormed z (some key) some_secret =
          if_sent-AllWellFormed (setup.contract_address == []) _ _ all (
            if_sent-AllWellFormed (not (abi_loads setup.abi)) _ _ all (
              add-AllWellFormed eth setup _ s (some_secret, secret_hashes-IsRow eth setup x c) all))

      with_number-AllWellFormed :
          (o : Option ℤ)
          → secret_hashes x.secrets ≢ []
          → AllWellFormed eth setup (with_number setup replies o x s).0
      unfolding with_number
      with_number-AllWellFormed none some_secret = all
      with_number-AllWellFormed (some z) some_secret =
          if_sent-AllWellFormed (setup.eth_rpc_url == []) _ _ all (
            if_sent-AllWellFormed (not (setup.dials setup.eth_rpc_url)) _ _ all (
              if_sent-AllWellFormed (setup.leader_private_key == []) _ _ all (
                with_key-AllWellFormed z (setup.hex_to_ecdsa setup.leader_private_key)
                  some_secret)))

      transaction-AllWellFormed :
          (round : Bytes)
          → AllWellFormed eth setup (generate_random_number_transaction setup replies round x s).0
      unfolding generate_random_number_transaction
      transaction-AllWellFormed round = elim (Bool-cases (any_empty x)) [
        | inl empty ↦ rw empty all
        | inr full ↦ rw full (with_number-AllWellFormed (set_string round) (not_empty x full))
      ]

    with_secrets-AllWellFormed :
        (round : Bytes) (commits : Map Bytes LeaderCommitData) (e : Ended)
        → IsEnded e
        → AllWellFormed eth setup (with_secrets eth setup replies round commits e)
    unfolding with_secrets with_outcome mark_round_completed
    with_secrets-AllWellFormed round commits e (all, c) =
        let (s, accepted) =
          generate_random_number_transaction setup replies round e.revealed e.leader in
        let sent = transaction-AllWellFormed e.revealed c e.leader all round in
        if-AllWellFormed eth setup e.all_submitted _ e.leader
          (if-AllWellFormed eth setup accepted (mark_round_completed commits round s) s sent sent)
          all

    with_operators-AllWellFormed :
        (round : Bytes) (commits : Map Bytes LeaderCommitData) (o : Option (List Bytes))
        → Keeps eth setup (with_operators eth setup replies round commits o)
    unfolding with_operators
    with_operators-AllWellFormed round commits none s all = all
    with_operators-AllWellFormed round commits (some fetched) s all =
        let operators = map eth.hex_to_address (filter_operators fetched) in
        let e = collect_secrets eth setup replies round commits operators no_secrets s in
        with_secrets-AllWellFormed round commits e
          (collect_secrets-IsEnded round commits operators no_secrets s no_secrets-IsCollected all)

    with_commits-AllWellFormed :
        (round : Bytes) (r : Result (Map Bytes LeaderCommitData))
        → Keeps eth setup (with_commits eth setup replies round r)
    unfolding with_commits
    with_commits-AllWellFormed round (err e) s all = all
    with_commits-AllWellFormed round (ok commits) s all =
        if-AllWellFormed eth setup (is_round_completed commits round) s _ all (
          if-AllWellFormed eth setup (not (root_submitted_in_file commits round)) s _ all (
            if-AllWellFormed eth setup (setup.subgraph_url == []) (fatal s) _ all (
              with_operators-AllWellFormed round commits (fetch_activated_operators replies round) s
                all)))

    check_rounds-Keeps :
        (rounds : List Bytes) → Keeps eth setup (check_rounds eth setup replies rounds)
    unfolding check_rounds check_round load_leader_commits
    check_rounds-Keeps [] s all = all
    check_rounds-Keeps (round ∷ rounds) s all =
        let (r, s1) = load_leader_commits s in
        check_rounds-Keeps rounds (if_running (check_round eth setup replies round) s)
          (if-AllWellFormed eth setup s.exited s _ all (with_commits-AllWellFormed round r s1 all))

    pub check_rounds_for_completion-Keeps :
        Keeps eth setup (check_rounds_for_completion eth setup replies)
    unfolding check_rounds_for_completion load_leader_commits
    check_rounds_for_completion-Keeps s all =
        let (r, s1) = load_leader_commits s in check_rounds-Keeps (rounds_in eth r) s1 all
