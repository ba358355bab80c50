-- ===== src/Regular/Rounds.antt =====
-- nodes/regularNode.go: one pass of a regular node over the rounds of the subgraph.
pub mod WriteOnce
pub mod Signed
use drb_node.Base.{
  ℕ, Bytes, bytes_eq, Bool, true, false, not, Option, none, some, List, [], ◌∷◌, ◌==◌, ◌||◌, ◌&&◌,
  if◌then◌else◌,
}
use drb_node.Crypto.{Ethereum}
use drb_node.Go.File.{Error}
use drb_node.Utils.Commit.{
  CommitData, LoadedCommit, commit, commit_not_found, commit_error, load_commit_data,
  save_commit_data,
}
use drb_node.CommitReveal.Commit.{Commitment, generate_commit}
use drb_node.Leader.Rounds.{RoundData}
use drb_node.Leader.Handlers.{lists_address}
use drb_node.Regular.State.{RegularNode, Env, if_running}
use drb_node.Regular.Sends.{send_commit_to_leader, send_cos_to_leader}

-- What the outside gives during one pass: the clock at each commitment, and whether the leader is
-- reached with a commit or a COS.
pub record Pass : Type 0 where
  pub now : Bytes → ℕ
  pub reached_cvs : Bytes → Bool
  pub reached_cos : Bytes → Bool

-- Commit data as they are first saved.
unfoldable pub commit_data_of : Bytes → Commitment → CommitData
commit_data_of round c = record {
  round = round;
  secret_value = c.secret_value;
  cos = c.cos;
  cvs = c.cvs;
  send_to_leader = true;
  send_cos_to_leader = false;
  sign = [];
}

-- isEOAActivated
unfoldable pub is_eoa_activated : Ethereum → RoundData → Bytes → Bool
unfolding lists_address
is_eoa_activated eth r eoa = lists_address eth (eth.hex_to_address eoa) r.activated_operators

module _ (eth : Ethereum) (env : Env) (eoa key : Bytes) (pass : Pass) where
  unfoldable after_commit_saved : CommitData → Option Error → RegularNode → RegularNode
  unfolding send_commit_to_leader
  after_commit_saved d (some e) s = s
  after_commit_saved d none s = send_commit_to_leader eth env (pass.reached_cvs d.round) d eoa s

  unfoldable with_commitment : Bytes → Option Commitment → RegularNode → RegularNode
  unfolding after_commit_saved commit_data_of
  with_commitment round none s = s
  with_commitment round (some c) s =
      let (e, file) = save_commit_data (commit_data_of round c) s.commits in
      after_commit_saved (commit_data_of round c) e (record s { commits = file })

  -- After sendCosToLeader: the flag is saved, and an error of that is only logged.
  mark_cos_sent : CommitData → RegularNode → RegularNode
  mark_cos_sent d s =
      let (_, file) = save_commit_data (record d { send_cos_to_leader = true }) s.commits in
      record s { commits = file }

  -- A round whose commit data are stored.
  unfoldable with_stored : RoundData → CommitData → RegularNode → RegularNode
  unfolding send_cos_to_leader mark_cos_sent
  with_stored r d s =
      if not d.send_cos_to_leader && r.merkle_root_set && not r.random_number_set
      then if_running (mark_cos_sent d)
          (send_cos_to_leader eth (pass.reached_cos d.round) d eoa key s)
      else s

  unfoldable with_loaded : RoundData → Bytes → LoadedCommit → RegularNode → RegularNode
  unfolding with_commitment with_stored
  with_loaded r round (commit_error e) s = s
  with_loaded r round commit_not_found s =
      if not r.merkle_root_set && not r.random_number_set
      then with_commitment round (generate_commit eth (pass.now round) round eoa) s
      else s
  with_loaded r round (commit d) s = with_stored r d s

  unfoldable with_round : RoundData → Option Bytes → RegularNode → RegularNode
  unfolding with_loaded
  with_round r none s = s
  with_round r (some round) s =
      let (d, file) = load_commit_data round s.commits in
      with_loaded r round d (record s { commits = file })

  -- The body of the loop over the rounds.
  unfoldable pub node_round : RoundData → RegularNode → RegularNode
  unfolding with_round is_eoa_activated
  node_round r s =
      if r.merkle_root_set && r.random_number_set
      then s
      else if is_eoa_activated eth r eoa
      then with_round r r.round s
      else s

  unfoldable pub node_rounds : List RoundData → RegularNode → RegularNode
  unfolding node_round
  node_rounds [] s = s
  node_rounds (r ∷ rs) s = node_rounds rs (if_running (node_round r) s)
