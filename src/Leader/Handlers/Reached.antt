-- ===== src/Leader/Handlers/Reached.antt =====
-- nodes/leaderNode.go: the handlers as sequences of steps on the leader's memory.
use drb_node.Base.{ap, ◌≡◌, refl, Bytes, Option, none, some, bytes_eq, length}
use drb_node.Crypto.{Ethereum}
use drb_node.Utils.Requests.{CommitRequest, CosRequest}
use drb_node.CommitReveal.RevealOrder.{RevealSort, RevealError, determine_reveal_order}
use drb_node.Leader.State.{Leader, Setup, Replies, fatal, if_running, all_commits_received}
use drb_node.Leader.MerkleRoot.Reached.{generate_merkle_root-Reach, if-Reach}
use drb_node.Leader.Requests.Quiet.{start-Quiet}
use drb_node.Leader.Handlers.{
  Verdict, accepted, rejected, process_exit, verify_signature_and_check_activation, commit_locked,
  cos_locked, commit_accepted, cos_accepted, on_verdict, ready_for_root, root_if_ready,
  handle_commit_request, after_order, reveal_if_ready, handle_cos_request,
}
use drb_node.Leader.Memory.Steps.{commits, opens, Reach, here, next, Reach-trans, one-elsewhere}

module _ (eth : Ethereum) (setup : Setup) (replies : Replies) where
  -- Process exits are steps elsewhere.
  on_verdict-Reach :
      (v : Verdict) (continue : Leader → Leader) (s : Leader)
      → Reach eth s (continue s)
      → Reach eth s (on_verdict eth setup replies v continue s)
  on_verdict-Reach accepted continue s r = r
  on_verdict-Reach rejected continue s r = here
  on_verdict-Reach process_exit continue s r = one-elsewhere eth s (fatal s) refl

  root_if_ready-Reach :
      (round : Bytes) (s : Leader) → Reach eth s (root_if_ready eth setup replies round s)
  unfolding root_if_ready
  root_if_ready-Reach round s =
      if-Reach eth setup replies (ready_for_root round s) s _ s
        (generate_merkle_root-Reach eth setup replies round s) here

  commit_accepted-Reach :
      (req : CommitRequest) (s : Leader)
      → length req.cvs ≡ 32
      → Reach eth s (commit_accepted eth setup replies req s)
  unfolding commit_accepted
  commit_accepted-Reach req s len =
      let (s1, stored) = commit_locked eth req s in
      let locked : Reach eth s s1 = next here (commits req s len) in
      if-Reach eth setup replies stored s _ s1
        (Reach-trans eth locked (root_if_ready-Reach req.round s1)) locked

  -- Whatever the outside answers, handleCommitRequest on a request whose CVS has 32 bytes takes the
  -- leader from its state to the next by a sequence of steps.
  pub handle_commit_request-Reach :
      (req : CommitRequest) (s : Leader)
      → length req.cvs ≡ 32
      → Reach eth s (handle_commit_request eth setup replies (some req) s)
  unfolding handle_commit_request
  handle_commit_request-Reach req s len =
      on_verdict-Reach
        (verify_signature_and_check_activation eth setup replies
          (record { round = req.round; eoa_address = req.eoa_address; signature = req.signature }))
        (commit_accepted eth setup replies req) s (commit_accepted-Reach req s len)

  module _ (sorter : RevealSort) where
    after_order-Reach :
        (round : Bytes) (e : Option RevealError) (s : Leader)
        → Reach eth s (after_order eth setup replies sorter round e s)
    unfolding after_order
    after_order-Reach round (some e) s = here
    after_order-Reach round none s =
        one-elsewhere eth s _ (ap (λ p. p.0) (start-Quiet eth setup replies round s))

    reveal_if_ready-Reach :
        (round : Bytes) (s : Leader)
        → Reach eth s (reveal_if_ready eth setup replies sorter round s)
    unfolding reveal_if_ready
    reveal_if_ready-Reach round s =
        let (e, files) =
          determine_reveal_order eth sorter round s.activated_operators
            (record { reveal_orders = s.reveal_orders; leader_commits = s.leader_commits }) in
        let s1 = record s {
          reveal_orders = files.reveal_orders;
          leader_commits = files.leader_commits;
        } in
        if-Reach eth setup replies (all_commits_received round s) s _ s
          (Reach-trans eth (one-elsewhere eth s s1 refl) (after_order-Reach round e s1)) here

    if_running-Reach :
        (f : Leader → Leader) (s : Leader) → Reach eth s (f s) → Reach eth s (if_running f s)
    if_running-Reach f s r = if-Reach eth setup replies s.exited s s (f s) here r

    cos_accepted-Reach :
        (req : CosRequest) (s : Leader) → Reach eth s (cos_accepted eth setup replies sorter req s)
    unfolding cos_accepted
    cos_accepted-Reach req s =
        let (s1, stored) = cos_locked eth req s in
        let locked : Reach eth s s1 = next here (opens req s) in
        let s2 = root_if_ready eth setup replies req.round s1 in
        if-Reach eth setup replies stored s _ s1
          (Reach-trans eth (Reach-trans eth locked (root_if_ready-Reach req.round s1)) (
            if_running-Reach (reveal_if_ready eth setup replies sorter req.round) s2
              (reveal_if_ready-Reach req.round s2)))
          locked

    -- Whatever the outside answers, handleCOSRequest takes the leader from its state to the next by
    -- a sequence of steps.
    pub handle_cos_request-Reach :
        (req : CosRequest) (s : Leader)
        → Reach eth s (handle_cos_request eth setup replies sorter (some req) s)
    unfolding handle_cos_request
    handle_cos_request-Reach req s =
        on_verdict-Reach
          (verify_signature_and_check_activation eth setup replies (record {
            round = req.round;
            eoa_address = req.eoa_address;
            signature = req.signature;
          }))
          (cos_accepted eth setup replies sorter req) s (cos_accepted-Reach req s)
