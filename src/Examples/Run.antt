-- ===== src/Examples/Run.antt =====
-- nodes/leaderNode.go: a run of the leader on concrete events.
use drb_node.Base.{◌≡◌, Bytes, codes, true, some, List, [], ◌∷◌, All}
use drb_node.Utils.LeaderNodeData.{LeaderCommitData}
use drb_node.Leader.Memory.Entries.{IsConsistent}
use drb_node.Leader.Memory.Growth.{lookup, Extends}
use drb_node.Leader.Memory.Steps.{Reach, here, next, commits, Reach-IsConsistent}
use drb_node.Leader.Run.{on_register, on_cvs, on_cos, monitors, polls, Event, run_leader_node}
use drb_node.Leader.Run.Safe.{IsTyped, run_leader_node-Reach, run_leader_node-Safe}
use drb_node.Leader.Outputs.{IsWellFormed}
use drb_node.Leader.Run.Formed.{run_leader_node-AllWellFormed}
use drb_node.Examples.Toy.{toy_ethereum, toy_sort}
use drb_node.Examples.Memory.{
  empty_leader, after_commit, cvs_size, commit_of_key1, cos_of_key1, setup1, replies1,
}
use drb_node.Examples.Registration.{contract1, registration1, remote1}
use drb_node.Examples.Rounds.{round7}

abbrev events1 : List Event
events1 =
    record { what = on_register (some registration1) remote1 contract1; replies = replies1 }
    ∷ record { what = on_cvs (some commit_of_key1); replies = replies1 }
    ∷ record { what = polls (some (round7 ∷ [])); replies = replies1 }
    ∷ record { what = on_cos (some cos_of_key1); replies = replies1 }
    ∷ record { what = monitors; replies = replies1 }
    ∷ []

events1-IsTyped : All (λ e. IsTyped e.what) events1
events1-IsTyped = (tt, (cvs_size, (tt, (tt, (tt, tt)))))

after_commit-IsConsistent : IsConsistent toy_ethereum after_commit
after_commit-IsConsistent =
    Reach-IsConsistent toy_ethereum (next here (commits commit_of_key1 empty_leader cvs_size)) tt

events1-Safe :
    let t = run_leader_node toy_ethereum toy_sort setup1 (codes "4000") true events1 after_commit in
    IsConsistent toy_ethereum t
    × ((round addr : Bytes) (d : LeaderCommitData)
        → lookup round addr after_commit ≡ some d
        → (d' : LeaderCommitData) × (lookup round addr t ≡ some d') × Extends d d')
events1-Safe =
    run_leader_node-Safe toy_ethereum toy_sort setup1 (codes "4000") true events1 after_commit
      events1-IsTyped after_commit-IsConsistent

events1-Reach :
    Reach toy_ethereum after_commit
      (run_leader_node toy_ethereum toy_sort setup1 (codes "4000") true events1 after_commit)
events1-Reach =
    run_leader_node-Reach toy_ethereum toy_sort setup1 (codes "4000") true events1 after_commit
      events1-IsTyped

-- A leader that has sent nothing.
events1-AllWellFormed :
    All
      (IsWellFormed toy_ethereum setup1)
      (run_leader_node toy_ethereum toy_sort setup1
        (codes "4000")
        true
        events1
        empty_leader).outputs
events1-AllWellFormed =
    run_leader_node-AllWellFormed toy_ethereum toy_sort setup1 (codes "4000") true events1
      empty_leader tt
