-- ===== src/Leader/Rounds/Reached.antt =====
-- nodes/leaderNode.go and secret_value_handler.go: the rounds of the subgraph and the handler of
-- secret values, as sequences of steps on the leader's memory.
use drb_node.Base.{ap, refl, ◌≡◌, Bytes, bytes_eq, not, ◌&&◌, Option, none, some, List, [], ◌∷◌}
use drb_node.Crypto.{Ethereum}
use drb_node.Go.File.{Error}
use drb_node.Utils.Requests.{SecretValueRequest}
use drb_node.Utils.Signature.{verify_signature}
use drb_node.Utils.LeaderNodeData.{load_leader_commit_data, save_leader_commit_data}
use drb_node.Leader.State.{Leader, Setup, Replies, if_running, all_commits_received}
use drb_node.Leader.MerkleRoot.Reached.{generate_merkle_root-Reach, if-Reach}
use drb_node.Leader.Requests.Quiet.{response-Quiet}
use drb_node.Leader.Secrets.{loaded_or_new, take_secret, after_secret_save, accept_secret_value}
use drb_node.Leader.Rounds.{RoundData, note_operators, process_named, process_round, process_rounds}
use drb_node.Leader.Memory.Steps.{Reach, here, Reach-trans, one-elsewhere}

module _ (eth : Ethereum) (setup : Setup) (replies : Replies) where
  note_operators-same :
      (round : Bytes) (ops : List Bytes) (s : Leader)
      → (note_operators eth round ops s).committed_nodes ≡ s.committed_nodes
  unfolding note_operators
  note_operators-same round [] s = refl
  note_operators-same round (op ∷ ops) s = refl

  process_named-Reach :
      (r : RoundData) (o : Option Bytes) (s : Leader)
      → Reach eth s (process_named eth setup replies r o s)
  unfolding process_named
  process_named-Reach r none s = here
  process_named-Reach r (some round) s =
      let s1 = note_operators eth round r.activated_operators s in
      let noted = one-elsewhere eth s s1 (note_operators-same round r.activated_operators s) in
      if-Reach eth setup replies (not r.merkle_root_set && not r.random_number_set) s _ s1
        (if-Reach eth setup replies (all_commits_received round s1) s _ s1
          (Reach-trans eth noted (generate_merkle_root-Reach eth setup replies round s1)) noted)
        noted

  -- Whatever rounds the subgraph reports and whatever it and the chain answer, processRounds takes
  -- the leader from its state to the next by a sequence of steps.
  pub process_rounds-Reach :
      (rounds : List RoundData) (s : Leader)
      → Reach eth s (process_rounds eth setup replies rounds s)
  unfolding process_rounds process_round
  process_rounds-Reach [] s = here
  process_rounds-Reach (r ∷ rounds) s =
      let s1 = if_running (process_round eth setup replies r) s in
      Reach-trans eth
        (if-Reach eth setup replies s.exited s s (process_round eth setup replies r s) here
          (process_named-Reach r r.round s))
        (process_rounds-Reach rounds s1)

  after_secret_save-Reach :
      (round : Bytes) (e : Option Error) (s : Leader)
      → Reach eth s (after_secret_save eth setup replies round e s)
  unfolding after_secret_save
  after_secret_save-Reach round (some e) s = here
  after_secret_save-Reach round none s =
      one-elsewhere eth s _ (ap (λ p. p.0) (response-Quiet eth setup replies round s))

  -- A secret value, accepted or not, takes the leader from its state to the next by steps that leave
  -- the commits in memory alone.
  pub accept_secret_value-Reach :
      (req : SecretValueRequest) (s : Leader)
      → Reach eth s (accept_secret_value eth setup replies (some req) s)
  unfolding accept_secret_value
  accept_secret_value-Reach req s =
      let (r, file) = load_leader_commit_data req.round req.eoa_address s.leader_commits in
      let (e, file') = save_leader_commit_data (take_secret req (loaded_or_new req r)) file in
      let s1 = record s { leader_commits = file' } in
      if-Reach eth setup replies
        (verify_signature eth
          (record { eoa_address = req.eoa_address; signature = req.signature; peer_id = [] }))
        s _ s
        (Reach-trans eth (one-elsewhere eth s s1 refl) (after_secret_save-Reach req.round e s1))
        here
