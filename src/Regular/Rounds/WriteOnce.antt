-- ===== src/Regular/Rounds/WriteOnce.antt =====
-- nodes/regularNode.go: the commit file of a regular node under its passes over the rounds.
use drb_node.Base.{
  some-inj, ℕ, ◌≡◌, inl, inr, refl, sym, ap, subst, ◌∙◌, Bytes, bytes_eq, true, not, ◌&&◌, Option,
  none, some, List, [], ◌∷◌,
}
use drb_node.Base.Maps.{AllEntries-get}
use drb_node.Crypto.{Ethereum}
use drb_node.Go.File.{Error, entries}
use drb_node.Utils.Commit.{
  CommitData, LoadedCommit, commit, commit_not_found, commit_error, load_commit_data,
  save_commit_data,
}
use drb_node.Utils.Commit.Growth.{
  stored, IsSound, Grows, Grows-trans, load-Grows, save-Grows, load-stored, load-none, save-stored,
}
use drb_node.Utils.Signature.{sign_data}
use drb_node.CommitReveal.Commit.{Commitment, generate_commit}
use drb_node.CommitReveal.Commit.Chain.{IsChain, generate_commit-IsChain}
use drb_node.Leader.Rounds.{RoundData}
use drb_node.Regular.State.{RegularNode, Env, if_running}
use drb_node.Regular.Sends.{send_cos_to_leader}
use drb_node.Regular.Rounds.{
  Pass, commit_data_of, is_eoa_activated, after_commit_saved, with_commitment, mark_cos_sent,
  with_stored, with_loaded, with_round, node_round, node_rounds,
}
use drb_node.Regular.Sends.Growth.{
  IsOwn, Grown, Grown-same, if-Grown, IsThere, Extends-there, send_cos-same, send_commit-Grown,
}

module _ (eth : Ethereum) where
  module _ (env : Env) (eoa key : Bytes) (pass : Pass) where
    after_commit_saved-Grown :
        (d : CommitData) (e : Option Error) (s : RegularNode)
        → (e ≡ none → IsThere eth d s)
        → Grown eth s (after_commit_saved eth env eoa key pass d e s)
    unfolding after_commit_saved
    after_commit_saved-Grown d (some e) s there = Grown-same eth s s refl
    after_commit_saved-Grown d none s there =
        send_commit-Grown eth env eoa (pass.reached_cvs d.round) d s (there refl)

    with_commitment-Grown :
        (round : Bytes) (o : Option Commitment) (s : RegularNode)
        → ((c : Commitment) → o ≡ some c → IsChain eth c)
        → stored round s.commits ≡ none
        → Grown eth s (with_commitment eth env eoa key pass round o s)
    unfolding with_commitment commit_data_of
    with_commitment-Grown round none s chain new = Grown-same eth s s refl
    with_commitment-Grown round (some c) s chain new =
        let d = commit_data_of round c in
        let file = (save_commit_data d s.commits).1 in
        let s1 = record s { commits = file } in
        Grows-trans (IsOwn eth) s.commits file
          (after_commit_saved eth env eoa key pass d (save_commit_data d s.commits).0 s1).commits
          (save-Grows (IsOwn eth) d s.commits (refl, chain c refl) (λ old e. absurd (cc)))
          (after_commit_saved-Grown d (save_commit_data d s.commits).0 s1
            (λ done. (save-stored d s.commits done, chain c refl)))

    mark_cos_sent-Grown :
        (d : CommitData) (s : RegularNode)
        → IsThere eth d s
        → Grown eth s (mark_cos_sent eth env eoa key pass d s)
    unfolding mark_cos_sent
    mark_cos_sent-Grown d s there =
        let marked = record d { send_cos_to_leader = true } in
        save-Grows (IsOwn eth) marked s.commits (refl, there.1)
          (Extends-there eth d marked s there (record {
            same_secret = refl;
            same_cos = refl;
            same_cvs = refl;
            stays_sent = λ h. refl;
          }))

    with_stored-Grown :
        (r : RoundData) (d : CommitData) (s : RegularNode)
        → IsThere eth d s
        → Grown eth s (with_stored eth env eoa key pass r d s)
    unfolding with_stored send_cos_to_leader
    with_stored-Grown r d s there =
        let reached = pass.reached_cos d.round in
        let s1 = send_cos_to_leader eth reached d eoa key s in
        let same : s1.commits ≡ s.commits =
          send_cos-same eth reached d eoa (sign_data eth eoa key) s in
        let still : IsThere eth d s1 = (ap (stored d.round) same ∙ there.0, there.1) in
        if-Grown eth (not d.send_cos_to_leader && r.merkle_root_set && not r.random_number_set) s _
          s
          (subst
            (λ f.
              Grows (IsOwn eth) f (if_running (mark_cos_sent eth env eoa key pass d) s1).commits)
            same
            (if-Grown eth s1.exited s1 s1 _ (Grown-same eth s1 s1 refl)
              (mark_cos_sent-Grown d s1 still)))
          (Grown-same eth s s refl)

    -- The commitment for a round is made of a chain of digests.
    generated :
        (time : ℕ) (round : Bytes) (c : Commitment)
        → generate_commit eth time round eoa ≡ some c
        → IsChain eth c
    generated time round c e = elim (generate_commit-IsChain eth time round eoa) [
      | inl (bad, failed) ↦ absurd (cc)
      | inr (c', made, chain) ↦
          let same : c' ≡ c = some-inj c' c (sym made ∙ e) in subst (IsChain eth) same chain
    ]

    with_loaded-Grown :
        (r : RoundData) (round : Bytes) (d : LoadedCommit) (s : RegularNode)
        → ((x : CommitData) → d ≡ commit x → IsThere eth x s)
        → (d ≡ commit_not_found → stored round s.commits ≡ none)
        → Grown eth s (with_loaded eth env eoa key pass r round d s)
    unfolding with_loaded
    with_loaded-Grown r round (commit_error e) s there new = Grown-same eth s s refl
    with_loaded-Grown r round commit_not_found s there new =
        if-Grown eth (not r.merkle_root_set && not r.random_number_set) s _ s
          (with_commitment-Grown round (generate_commit eth (pass.now round) round eoa) s
            (generated (pass.now round) round) (new refl))
          (Grown-same eth s s refl)
    with_loaded-Grown r round (commit d) s there new = with_stored-Grown r d s (there d refl)

    -- What a load finds in a sound file is stored under its own round.
    loaded-IsThere :
        (round : Bytes) (s : RegularNode) (x : CommitData)
        → IsSound (IsOwn eth) s.commits
        → let (r, file) = load_commit_data round s.commits in
          r ≡ commit x → IsThere eth x (record s { commits = file })
    loaded-IsThere round s x sound found =
        let (r, file) = load_commit_data round s.commits in
        let at : stored round file ≡ some x = load-stored round s.commits x found in
        let sound' : IsSound (IsOwn eth) file = (load-Grows (IsOwn eth) round s.commits sound).0 in
        let own : IsOwn eth round x =
          AllEntries-get (IsOwn eth) round x (entries file.content) sound'.1 at in
        (ap (λ k. stored k file) own.0 ∙ at, own.1)

    with_round-Grown :
        (r : RoundData) (o : Option Bytes) (s : RegularNode)
        → Grown eth s (with_round eth env eoa key pass r o s)
    unfolding with_round
    with_round-Grown r none s sound = Grown-same eth s s refl sound
    with_round-Grown r (some round) s sound =
        let (d, file) = load_commit_data round s.commits in
        let s1 = record s { commits = file } in
        Grows-trans (IsOwn eth) s.commits file
          (with_loaded eth env eoa key pass r round d s1).commits
          (load-Grows (IsOwn eth) round s.commits)
          (with_loaded-Grown r round d s1 (λ x. loaded-IsThere round s x sound)
            (load-none round s.commits))
          sound

    node_round-Grown :
        (r : RoundData) (s : RegularNode) → Grown eth s (node_round eth env eoa key pass r s)
    unfolding node_round
    node_round-Grown r s =
        if-Grown eth (r.merkle_root_set && r.random_number_set) s s _ (Grown-same eth s s refl) (
          if-Grown eth (is_eoa_activated eth r eoa) s _ s (with_round-Grown r r.round s)
            (Grown-same eth s s refl))

    -- One pass over the rounds, whatever the subgraph reports and whoever is reached, keeps each entry
    -- of a commit file in which every entry is a commitment under its own round: its secret value, COS
    -- and CVS stay, and so does the mark that its COS was sent; and the file stays such a file. No use
    -- of the file stops halfway.
    pub node_rounds-Grown :
        (rs : List RoundData) (s : RegularNode)
        → Grown eth s (node_rounds eth env eoa key pass rs s)
    unfolding node_rounds
    node_rounds-Grown [] s = Grown-same eth s s refl
    node_rounds-Grown (r ∷ rs) s =
        let s1 = if_running (node_round eth env eoa key pass r) s in
        Grows-trans (IsOwn eth) s.commits s1.commits
          (node_rounds eth env eoa key pass rs s1).commits
          (if-Grown eth s.exited s s _ (Grown-same eth s s refl) (node_round-Grown r s))
          (node_rounds-Grown rs s1)
