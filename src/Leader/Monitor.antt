-- ===== src/Leader/Monitor.antt =====
-- nodes/leaderNode_helper/monitor_commits.go: the monitor that makes the random number of a round.
-- It works on the files alone, and not on the leader's memory.
pub mod Keys
pub mod Secrets
pub mod Transaction
pub mod Quiet
pub mod Collected
pub mod Formed
use drb_node.Base.{
  Bytes, bytes_eq, Bool, true, false, Option, none, some, List, [], ◌∷◌, ◌==◌, not, map,
  if◌then◌else◌,
}
use drb_node.Base.Maps.{Map}
use drb_node.Crypto.{Ethereum}
use drb_node.Go.File.{JsonFile, Error, Result, ok, err, read_file, create_file}
use drb_node.Utils.LeaderNodeData.{LeaderCommitData}
use drb_node.Leader.State.{Leader, Setup, Replies, fatal, if_running}
use drb_node.Leader.MerkleRoot.{filter_operators, fetch_activated_operators}
use drb_node.Leader.Monitor.Keys.{group_eoas}
use drb_node.Leader.Monitor.Secrets.{Revealed, no_secrets, Ended, collect_secrets}
use drb_node.Leader.Monitor.Transaction.{generate_random_number_transaction}

-- loadLeaderCommits
unfoldable pub load_leader_commits : Leader → Result (Map Bytes LeaderCommitData) × Leader
load_leader_commits s =
    let (r, file) = read_file s.leader_commits in (r, record s { leader_commits = file })

-- isMerkleRootSubmitted of this file: the flag of the first entry of the round that is met.
unfoldable pub root_submitted_in_file : Map Bytes LeaderCommitData → Bytes → Bool
root_submitted_in_file [] round = false
root_submitted_in_file ((_, d) ∷ rest) round =
    let later = root_submitted_in_file rest round in
    if d.round == round then d.submit_merkle_root_done else later

unfoldable pub is_round_completed : Map Bytes LeaderCommitData → Bytes → Bool
is_round_completed [] round = false
is_round_completed ((_, d) ∷ rest) round =
    let later = is_round_completed rest round in
    if d.round == round then d.random_number_generated else later

unfoldable pub complete_round : Map Bytes LeaderCommitData → Bytes → Map Bytes LeaderCommitData
complete_round [] round = []
complete_round ((key, d) ∷ rest) round =
    (key, if d.round == round then record d { random_number_generated = true } else d)
    ∷ complete_round rest round

-- markRoundCompleted: saveLeaderCommits, whose error is only logged.
unfoldable pub mark_round_completed : Map Bytes LeaderCommitData → Bytes → Leader → Leader
unfolding complete_round
mark_round_completed commits round s =
    let (_, file) = create_file (complete_round commits round) s.leader_commits in
    record s { leader_commits = file }

module _ (eth : Ethereum) where
  rounds_in : Result (Map Bytes LeaderCommitData) → List Bytes
  unfolding group_eoas
  rounds_in (err e) = []
  rounds_in (ok commits) = map (λ entry. entry.0) (group_eoas eth commits [])

  module _ (setup : Setup) (replies : Replies) where
    with_outcome : Bytes → Map Bytes LeaderCommitData → Leader × Bool → Leader
    with_outcome round commits (s, accepted) =
        if accepted then mark_round_completed commits round s else s

    with_secrets : Bytes → Map Bytes LeaderCommitData → Ended → Leader
    unfolding generate_random_number_transaction with_outcome
    with_secrets round commits e =
        if e.all_submitted
        then with_outcome round commits
            (generate_random_number_transaction setup replies round e.revealed e.leader)
        else e.leader

    with_operators : Bytes → Map Bytes LeaderCommitData → Option (List Bytes) → Leader → Leader
    unfolding with_secrets collect_secrets filter_operators
    with_operators round commits none s = s
    with_operators round commits (some fetched) s = with_secrets round commits (
        collect_secrets eth setup replies round commits
          (map eth.hex_to_address (filter_operators fetched)) no_secrets s)

    with_commits : Bytes → Result (Map Bytes LeaderCommitData) → Leader → Leader
    unfolding with_operators is_round_completed root_submitted_in_file
    with_commits round (err e) s = s
    with_commits round (ok commits) s =
        if is_round_completed commits round
        then s
        else if not (root_submitted_in_file commits round)
        then s
        else if setup.subgraph_url == []
        then fatal s
        else with_operators round commits (fetch_activated_operators replies round) s

    -- The body of the loop over the rounds.
    unfoldable pub check_round : Bytes → Leader → Leader
    unfolding load_leader_commits with_commits
    check_round round s = let (r, s1) = load_leader_commits s in with_commits round r s1

    unfoldable pub check_rounds : List Bytes → Leader → Leader
    unfolding check_round
    check_rounds [] s = s
    check_rounds (round ∷ rounds) s = check_rounds rounds (if_running (check_round round) s)

    unfoldable pub check_rounds_for_completion : Leader → Leader
    unfolding load_leader_commits rounds_in check_rounds
    check_rounds_for_completion s =
        let (r, s1) = load_leader_commits s in check_rounds (rounds_in r) s1
