-- ===== src/Leader/Monitor/Quiet.antt =====
-- nodes/leaderNode_helper/monitor_commits.go: the monitor, and the commits in memory.
use drb_node.Base.{
  ap, ◌≡◌, refl, ◌∙◌, Bytes, bytes_eq, Bool, true, false, not, Option, none, some, List, [], ◌∷◌,
  ◌==◌, map, if◌then◌else◌,
}
use drb_node.Base.Maps.{Map}
use drb_node.Utils.Clients.{abi_loads}
use drb_node.Crypto.{Ethereum}
use drb_node.Go.File.{Result, ok, err}
use drb_node.Go.Number.{ℤ, set_string}
use drb_node.Utils.LeaderNodeData.{LeaderCommitData}
use drb_node.Leader.State.{NodeInfo, Leader, Setup, Replies, fatal, if_running}
use drb_node.Leader.MerkleRoot.{filter_operators, fetch_activated_operators}
use drb_node.Leader.Requests.Quiet.{if-committed, send-Quiet}
use drb_node.Leader.Monitor.Secrets.{
  Judged, no_secret, incomplete_signature, bad_v, ready, Revealed, no_secrets, Ended,
  fetch_node_info, with_info, with_judged, judge, append_submitted, collect_secrets,
}
use drb_node.Leader.Monitor.Transaction.{
  any_empty, send, with_key, with_number, generate_random_number_transaction,
}
use drb_node.Leader.Monitor.{
  load_leader_commits, is_round_completed, root_submitted_in_file, mark_round_completed, rounds_in,
  with_outcome, with_secrets, with_operators, with_commits, check_round, check_rounds,
  check_rounds_for_completion,
}

module _ (eth : Ethereum) (setup : Setup) (replies : Replies) where
  abbrev Same : Leader → Leader → Type 0
  Same s t = t.committed_nodes ≡ s.committed_nodes

  -- The rest of the loop over the operators.
  abbrev QuietLoop : (Revealed → Leader → Ended) → Type 0
  QuietLoop next = (acc : Revealed) (s : Leader) → Same s (next acc s).leader

  with_info-Same :
      (round eoa : Bytes) (o : Option NodeInfo) (next : Revealed → Leader → Ended) (acc : Revealed)
      (s : Leader)
      → QuietLoop next
      → Same s (with_info eth setup replies round eoa o next acc s).leader
  unfolding with_info
  with_info-Same round eoa none next acc s quiet = quiet acc s
  with_info-Same round eoa (some node) next acc s quiet =
      ap (λ p. p.0) (send-Quiet eth setup replies round eoa node s)

  with_judged-Same :
      (round eoa : Bytes) (j : Judged) (next : Revealed → Leader → Ended) (acc : Revealed)
      (s : Leader)
      → QuietLoop next
      → Same s (with_judged eth setup replies round eoa j next acc s).leader
  unfolding with_judged fetch_node_info
  with_judged-Same round eoa no_secret next acc s quiet =
      let (info, s1) = fetch_node_info eoa s in with_info-Same round eoa info next acc s1 quiet
  with_judged-Same round eoa incomplete_signature next acc s quiet = refl
  with_judged-Same round eoa bad_v next acc s quiet = refl
  with_judged-Same round eoa (ready x) next acc s quiet = quiet (append_submitted acc x) s

  collect_secrets-Same :
      (round : Bytes) (commits : Map Bytes LeaderCommitData) (operators : List Bytes)
      → QuietLoop (collect_secrets eth setup replies round commits operators)
  unfolding collect_secrets
  collect_secrets-Same round commits [] acc s = refl
  collect_secrets-Same round commits (operator ∷ operators) acc s =
      with_judged-Same round (eth.address_hex operator) (judge eth round commits operator)
        (collect_secrets eth setup replies round commits operators) acc s
        (collect_secrets-Same round commits operators)

  if_sent-Same :
      (b : Bool) (s : Leader) (p q : Leader × Bool)
      → Same s p.0
      → Same s q.0
      → Same s (if b then p else q).0
  if_sent-Same true s p q h k = h
  if_sent-Same false s p q h k = k

  key-Same :
      (z : ℤ) (x : Revealed) (o : Option Bytes) (s : Leader)
      → Same s (with_key setup replies z x o s).0
  unfolding with_key send
  key-Same z x none s = refl
  key-Same z x (some key) s =
      if_sent-Same (setup.contract_address == []) s _ _ refl
        (if_sent-Same (not (abi_loads setup.abi)) s _ _ refl refl)

  number-Same :
      (o : Option ℤ) (x : Revealed) (s : Leader) → Same s (with_number setup replies o x s).0
  unfolding with_number
  number-Same none x s = refl
  number-Same (some z) x s = if_sent-Same (setup.eth_rpc_url == []) s _ _ refl (
      if_sent-Same (not (setup.dials setup.eth_rpc_url)) s _ _ refl (
        if_sent-Same (setup.leader_private_key == []) s _ _ refl
          (key-Same z x (setup.hex_to_ecdsa setup.leader_private_key) s)))

  transaction-Same :
      (round : Bytes) (x : Revealed) (s : Leader)
      → Same s (generate_random_number_transaction setup replies round x s).0
  unfolding generate_random_number_transaction
  transaction-Same round x s =
      if_sent-Same (any_empty x) s _ _ refl (number-Same (set_string round) x s)

  outcome-Same :
      (round : Bytes) (commits : Map Bytes LeaderCommitData) (p : Leader × Bool)
      → Same p.0 (with_outcome eth setup replies round commits p)
  unfolding with_outcome mark_round_completed
  outcome-Same round commits (s, accepted) =
      if-committed eth setup replies accepted s (mark_round_completed commits round s) s refl refl

  with_secrets-Same :
      (round : Bytes) (commits : Map Bytes LeaderCommitData) (e : Ended)
      → Same e.leader (with_secrets eth setup replies round commits e)
  unfolding with_secrets
  with_secrets-Same round commits e =
      let p = generate_random_number_transaction setup replies round e.revealed e.leader in
      if-committed eth setup replies e.all_submitted e.leader
        (with_outcome eth setup replies round commits p) e.leader
        (outcome-Same round commits p ∙ transaction-Same round e.revealed e.leader) refl

  with_operators-Same :
      (round : Bytes) (commits : Map Bytes LeaderCommitData) (o : Option (List Bytes)) (s : Leader)
      → Same s (with_operators eth setup replies round commits o s)
  unfolding with_operators
  with_operators-Same round commits none s = refl
  with_operators-Same round commits (some fetched) s =
      let operators = map eth.hex_to_address (filter_operators fetched) in
      let e = collect_secrets eth setup replies round commits operators no_secrets s in
      with_secrets-Same round commits e ∙ collect_secrets-Same round commits operators no_secrets s

  with_commits-Same :
      (round : Bytes) (r : Result (Map Bytes LeaderCommitData)) (s : Leader)
      → Same s (with_commits eth setup replies round r s)
  unfolding with_commits
  with_commits-Same round (err e) s = refl
  with_commits-Same round (ok commits) s =
      if-committed eth setup replies (is_round_completed commits round) s s _ refl (
        if-committed eth setup replies (not (root_submitted_in_file commits round)) s s _ refl (
          if-committed eth setup replies (setup.subgraph_url == []) s (fatal s) _ refl
            (with_operators-Same round commits (fetch_activated_operators replies round) s)))

  check_round-Same : (round : Bytes) (s : Leader) → Same s (check_round eth setup replies round s)
  unfolding check_round load_leader_commits
  check_round-Same round s = let (r, s1) = load_leader_commits s in with_commits-Same round r s1

  check_rounds-Same :
      (rounds : List Bytes) (s : Leader) → Same s (check_rounds eth setup replies rounds s)
  unfolding check_rounds
  check_rounds-Same [] s = refl
  check_rounds-Same (round ∷ rounds) s =
      let s1 = if_running (check_round eth setup replies round) s in
      check_rounds-Same rounds s1
      ∙ if-committed eth setup replies s.exited s s _ refl (check_round-Same round s)

  -- A pass of the monitor leaves the commits in memory as they are.
  pub check_rounds_for_completion-Same :
      (s : Leader)
      → (check_rounds_for_completion eth setup replies s).committed_nodes ≡ s.committed_nodes
  unfolding check_rounds_for_completion load_leader_commits
  check_rounds_for_completion-Same s =
      let (r, s1) = load_leader_commits s in check_rounds-Same (rounds_in eth r) s1
