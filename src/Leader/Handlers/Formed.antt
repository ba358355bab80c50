-- ===== src/Leader/Handlers/Formed.antt =====
-- nodes/leaderNode.go: what the handlers of commits and COS send is well formed.
use drb_node.Base.Maps.{get}
use drb_node.Base.{
  All, subst, sym, ◌∙◌, ◌≡◌, refl, Bytes, Bool, true, false, Option, none, some, if◌then◌else◌, not,
  ◌==◌, bytes_eq, zero32,
}
use drb_node.Crypto.{Ethereum}
use drb_node.Go.File.{Error}
use drb_node.Utils.Requests.{CommitRequest, CosRequest}
use drb_node.Utils.LeaderNodeData.{LeaderCommitData, save_leader_commit_data}
use drb_node.CommitReveal.Commit.{keccak256}
use drb_node.CommitReveal.RevealOrder.{RevealSort, RevealError, determine_reveal_order}
use drb_node.Leader.State.{
  Leader, Setup, Replies, all_commits_received, update_in_memory, get_or_create, created, round_map,
}
use drb_node.Leader.Outputs.{
  IsWellFormed, AllWellFormed, Keeps, if-AllWellFormed, generate_merkle_root-Keeps,
}
use drb_node.Leader.Requests.Formed.{start-Keeps}
use drb_node.Leader.Handlers.{
  Verdict, accepted, rejected, process_exit, verify_signature_and_check_activation, take_cvs,
  after_save, store_entry, commit_locked, cos_into, cos_locked, commit_accepted, cos_accepted,
  on_verdict, ready_for_root, root_if_ready, handle_commit_request, after_order, reveal_if_ready,
  handle_cos_request,
}

module _ (eth : Ethereum) (setup : Setup) (replies : Replies) where
  on_verdict-Keeps :
      (v : Verdict) (continue : Leader → Leader)
      → Keeps eth setup continue
      → Keeps eth setup (on_verdict eth setup replies v continue)
  on_verdict-Keeps accepted continue keeps s all = keeps s all
  on_verdict-Keeps rejected continue keeps s all = all
  on_verdict-Keeps process_exit continue keeps s all = all

  root_if_ready-Keeps : (round : Bytes) → Keeps eth setup (root_if_ready eth setup replies round)
  unfolding root_if_ready
  root_if_ready-Keeps round s all =
      if-AllWellFormed eth setup (ready_for_root round s) _ s
        (generate_merkle_root-Keeps eth setup replies round s all) all

  after_save-outputs :
      (round addr : Bytes) (d : LeaderCommitData) (e : Option Error) (s : Leader)
      → (after_save round addr d e s).0.outputs ≡ s.outputs
  unfolding after_save update_in_memory
  after_save-outputs round addr d none s = refl
  after_save-outputs round addr d (some e) s = refl

  store_entry-outputs :
      (round addr : Bytes) (d : LeaderCommitData) (s : Leader)
      → (store_entry round addr d s).0.outputs ≡ s.outputs
  unfolding store_entry
  store_entry-outputs round addr d s =
      let (e, file) = save_leader_commit_data d s.leader_commits in
      after_save-outputs round addr d e (record s { leader_commits = file })

  created-outputs :
      (round addr : Bytes) (o : Option LeaderCommitData) (s : Leader)
      → (created eth round addr o s).0.outputs ≡ s.outputs
  unfolding created update_in_memory
  created-outputs round addr none s = refl
  created-outputs round addr (some d) s = refl

  if-outputs :
      (b : Bool) (s : Leader) (p q : Leader × Bool)
      → p.0.outputs ≡ s.outputs
      → q.0.outputs ≡ s.outputs
      → (if b then p else q).0.outputs ≡ s.outputs
  if-outputs true s p q h k = h
  if-outputs false s p q h k = k

  commit_locked-outputs :
      (req : CommitRequest) (s : Leader) → (commit_locked eth req s).0.outputs ≡ s.outputs
  unfolding commit_locked get_or_create
  commit_locked-outputs req s =
      let addr = eth.hex_to_address req.eoa_address in
      let (s1, d) = get_or_create eth req.round addr s in
      store_entry-outputs req.round addr (take_cvs req d) s1
      ∙ created-outputs req.round addr (get addr (round_map req.round s)) s

  cos_into-outputs :
      (req : CosRequest) (d : LeaderCommitData) (s : Leader)
      → (cos_into eth req d s).0.outputs ≡ s.outputs
  unfolding cos_into
  cos_into-outputs req d s = if-outputs (d.cvs == zero32) s _ _ refl (
      if-outputs (not (keccak256 eth req.cos == d.cvs)) s _ _ refl (
        if-outputs (not (d.cos == zero32)) s _ _ refl
          (store_entry-outputs req.round (eth.hex_to_address req.eoa_address) _ s)))

  cos_locked-outputs :
      (req : CosRequest) (s : Leader) → (cos_locked eth req s).0.outputs ≡ s.outputs
  unfolding cos_locked get_or_create
  cos_locked-outputs req s =
      let addr = eth.hex_to_address req.eoa_address in
      let (s1, d) = get_or_create eth req.round addr s in
      cos_into-outputs req d s1
      ∙ created-outputs req.round addr (get addr (round_map req.round s)) s

  commit_accepted-Keeps :
      (req : CommitRequest) → Keeps eth setup (commit_accepted eth setup replies req)
  unfolding commit_accepted
  commit_accepted-Keeps req s all =
      let (s1, stored) = commit_locked eth req s in
      let all1 : AllWellFormed eth setup s1 =
        subst (All (IsWellFormed eth setup)) (sym (commit_locked-outputs req s)) all in
      if-AllWellFormed eth setup stored _ s1 (root_if_ready-Keeps req.round s1 all1) all1

  pub handle_commit_request-Keeps :
      (o : Option CommitRequest) → Keeps eth setup (handle_commit_request eth setup replies o)
  unfolding handle_commit_request
  handle_commit_request-Keeps none s all = all
  handle_commit_request-Keeps (some req) s all =
      on_verdict-Keeps
        (verify_signature_and_check_activation eth setup replies
          (record { round = req.round; eoa_address = req.eoa_address; signature = req.signature }))
        (commit_accepted eth setup replies req) (commit_accepted-Keeps req) s all

  module _ (sorter : RevealSort) where
    after_order-Keeps :
        (round : Bytes) (e : Option RevealError)
        → Keeps eth setup (after_order eth setup replies sorter round e)
    unfolding after_order
    after_order-Keeps round (some e) s all = all
    after_order-Keeps round none s all = start-Keeps eth setup replies round s all

    reveal_if_ready-Keeps :
        (round : Bytes) → Keeps eth setup (reveal_if_ready eth setup replies sorter round)
    unfolding reveal_if_ready
    reveal_if_ready-Keeps round s all =
        let (e, files) =
          determine_reveal_order eth sorter round s.activated_operators
            (record { reveal_orders = s.reveal_orders; leader_commits = s.leader_commits }) in
        let s1 = record s {
          reveal_orders = files.reveal_orders;
          leader_commits = files.leader_commits;
        } in
        if-AllWellFormed eth setup (all_commits_received round s) _ s
          (after_order-Keeps round e s1 all) all

    cos_accepted-Keeps :
        (req : CosRequest) → Keeps eth setup (cos_accepted eth setup replies sorter req)
    unfolding cos_accepted
    cos_accepted-Keeps req s all =
        let (s1, stored) = cos_locked eth req s in
        let all1 : AllWellFormed eth setup s1 =
          subst (All (IsWellFormed eth setup)) (sym (cos_locked-outputs req s)) all in
        let s2 = root_if_ready eth setup replies req.round s1 in
        let all2 = root_if_ready-Keeps req.round s1 all1 in
        if-AllWellFormed eth setup stored _ s1
          (if-AllWellFormed eth setup s2.exited s2 _ all2 (reveal_if_ready-Keeps req.round s2 all2))
          all1

    pub handle_cos_request-Keeps :
        (o : Option CosRequest) → Keeps eth setup (handle_cos_request eth setup replies sorter o)
    unfolding handle_cos_request
    handle_cos_request-Keeps none s all = all
    handle_cos_request-Keeps (some req) s all =
        on_verdict-Keeps
          (verify_signature_and_check_activation eth setup replies (record {
            round = req.round;
            eoa_address = req.eoa_address;
            signature = req.signature;
          }))
          (cos_accepted eth setup replies sorter req) (cos_accepted-Keeps req) s all
