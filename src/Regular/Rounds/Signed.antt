-- ===== src/Regular/Rounds/Signed.antt =====
-- nodes/regularNode.go: the signatures of what the loop over the rounds sends.
use drb_node.Base.{◌≡◌, Bytes, bytes_eq, not, ◌&&◌, Option, none, some, List, [], ◌∷◌}
use drb_node.Crypto.{Ethereum}
use drb_node.Go.File.{Error}
use drb_node.Utils.Commit.{
  CommitData, LoadedCommit, commit, commit_not_found, commit_error, load_commit_data,
  save_commit_data,
}
use drb_node.Utils.Signature.{key_eoa}
use drb_node.CommitReveal.Commit.{Commitment, generate_commit}
use drb_node.Leader.Rounds.{RoundData}
use drb_node.Regular.State.{RegularNode, Env, if_running}
use drb_node.Regular.Sends.{send_cos_to_leader}
use drb_node.Regular.Sends.Signed.{
  AllSigned, if-AllSigned, send_cos-AllSigned, send_commit-AllSigned,
}
use drb_node.Regular.Rounds.{
  Pass, commit_data_of, is_eoa_activated, after_commit_saved, with_commitment, mark_cos_sent,
  with_stored, with_loaded, with_round, node_round, node_rounds,
}

module _ (eth : Ethereum) (env : Env) (key : Bytes)
    (own_key : env.hex_to_ecdsa env.eoa_private_key ≡ some key) (pass : Pass) where
  abbrev Own : RegularNode → Type 0
  Own = AllSigned eth (key_eoa eth key) env.peer_id

  after_commit_saved-Own :
      (d : CommitData) (e : Option Error) (s : RegularNode)
      → Own s
      → Own (after_commit_saved eth env (key_eoa eth key) key pass d e s)
  unfolding after_commit_saved
  after_commit_saved-Own d (some e) s all = all
  after_commit_saved-Own d none s all =
      send_commit-AllSigned eth env key own_key (pass.reached_cvs d.round) d s all

  with_commitment-Own :
      (round : Bytes) (o : Option Commitment) (s : RegularNode)
      → Own s
      → Own (with_commitment eth env (key_eoa eth key) key pass round o s)
  unfolding with_commitment
  with_commitment-Own round none s all = all
  with_commitment-Own round (some c) s all =
      let (e, file) = save_commit_data (commit_data_of round c) s.commits in
      after_commit_saved-Own (commit_data_of round c) e (record s { commits = file }) all

  with_stored-Own :
      (r : RoundData) (d : CommitData) (s : RegularNode)
      → Own s
      → Own (with_stored eth env (key_eoa eth key) key pass r d s)
  unfolding with_stored mark_cos_sent
  with_stored-Own r d s all =
      let s1 = send_cos_to_leader eth (pass.reached_cos d.round) d (key_eoa eth key) key s in
      let all1 = send_cos-AllSigned eth env key own_key (pass.reached_cos d.round) d s all in
      if-AllSigned eth (key_eoa eth key) env.peer_id
        (not d.send_cos_to_leader && r.merkle_root_set && not r.random_number_set)
        (if_running (mark_cos_sent eth env (key_eoa eth key) key pass d) s1) s
        (if-AllSigned eth (key_eoa eth key) env.peer_id s1.exited s1
          (mark_cos_sent eth env (key_eoa eth key) key pass d s1) all1 all1)
        all

  with_loaded-Own :
      (r : RoundData) (round : Bytes) (d : LoadedCommit) (s : RegularNode)
      → Own s
      → Own (with_loaded eth env (key_eoa eth key) key pass r round d s)
  unfolding with_loaded
  with_loaded-Own r round (commit_error e) s all = all
  with_loaded-Own r round commit_not_found s all =
      if-AllSigned eth (key_eoa eth key) env.peer_id
        (not r.merkle_root_set && not r.random_number_set) _ s
        (with_commitment-Own round (generate_commit eth (pass.now round) round (key_eoa eth key)) s
          all)
        all
  with_loaded-Own r round (commit d) s all = with_stored-Own r d s all

  with_round-Own :
      (r : RoundData) (o : Option Bytes) (s : RegularNode)
      → Own s
      → Own (with_round eth env (key_eoa eth key) key pass r o s)
  unfolding with_round
  with_round-Own r none s all = all
  with_round-Own r (some round) s all =
      let (d, file) = load_commit_data round s.commits in
      with_loaded-Own r round d (record s { commits = file }) all

  node_round-Own :
      (r : RoundData) (s : RegularNode)
      → Own s
      → Own (node_round eth env (key_eoa eth key) key pass r s)
  unfolding node_round
  node_round-Own r s all =
      if-AllSigned eth (key_eoa eth key) env.peer_id (r.merkle_root_set && r.random_number_set) s _
        all
        (if-AllSigned eth (key_eoa eth key) env.peer_id (is_eoa_activated eth r (key_eoa eth key)) _
          s (with_round-Own r r.round s all) all)

  pub node_rounds-AllSigned :
      (rs : List RoundData) (s : RegularNode)
      → AllSigned eth (key_eoa eth key) env.peer_id s
      → AllSigned eth
          (key_eoa eth key)
          env.peer_id
          (node_rounds eth env (key_eoa eth key) key pass rs s)
  unfolding node_rounds
  node_rounds-AllSigned [] s all = all
  node_rounds-AllSigned (r ∷ rs) s all =
      node_rounds-AllSigned rs (if_running (node_round eth env (key_eoa eth key) key pass r) s)
        (if-AllSigned eth (key_eoa eth key) env.peer_id s.exited s _ all (node_round-Own r s all))
