-- ===== src/Leader/Rounds/Formed.antt =====
-- nodes/leaderNode.go: what processRounds sends is well formed.
use drb_node.Base.{◌≡◌, refl, subst, sym, Bytes, not, ◌&&◌, Option, none, some, List, [], ◌∷◌, All}
use drb_node.Crypto.{Ethereum}
use drb_node.Leader.State.{Leader, Setup, Replies, if_running, all_commits_received}
use drb_node.Leader.Outputs.{
  IsWellFormed, AllWellFormed, Keeps, if-AllWellFormed, generate_merkle_root-Keeps,
}
use drb_node.Leader.Rounds.{RoundData, note_operators, process_named, process_round, process_rounds}

module _ (eth : Ethereum) (setup : Setup) (replies : Replies) where
  note_operators-outputs :
      (round : Bytes) (ops : List Bytes) (s : Leader)
      → (note_operators eth round ops s).outputs ≡ s.outputs
  unfolding note_operators
  note_operators-outputs round [] s = refl
  note_operators-outputs round (op ∷ ops) s = refl

  process_named-Keeps :
      (r : RoundData) (o : Option Bytes) → Keeps eth setup (process_named eth setup replies r o)
  unfolding process_named
  process_named-Keeps r none s all = all
  process_named-Keeps r (some round) s all =
      let s1 = note_operators eth round r.activated_operators s in
      let all1 : AllWellFormed eth setup s1 =
        subst (All (IsWellFormed eth setup))
          (sym (note_operators-outputs round r.activated_operators s)) all in
      if-AllWellFormed eth setup (not r.merkle_root_set && not r.random_number_set) _ s1
        (if-AllWellFormed eth setup (all_commits_received round s1) _ s1
          (generate_merkle_root-Keeps eth setup replies round s1 all1) all1)
        all1

  pub process_rounds-Keeps :
      (rounds : List RoundData) → Keeps eth setup (process_rounds eth setup replies rounds)
  unfolding process_rounds process_round
  process_rounds-Keeps [] s all = all
  process_rounds-Keeps (r ∷ rounds) s all =
      process_rounds-Keeps rounds (if_running (process_round eth setup replies r) s)
        (if-AllWellFormed eth setup s.exited s _ all (process_named-Keeps r r.round s all))
