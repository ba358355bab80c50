-- ===== src/Examples/Monitor.antt =====
-- nodes/leaderNode_helper/monitor_commits.go: the monitor on concrete inputs.
use drb_node.Base.{
  ℕ, zero, suc, ◌≡◌, ◌≢◌, ◌⊎◌, refl, bytes_eq, list_equals, Bytes, codes, true, false, List, [],
  ◌∷◌, All, replicate, arith,
}
use drb_node.Base.Maps.{Map, get, put}
use drb_node.Go.File.{holds, read_file}
use drb_node.Utils.LeaderNodeData.{LeaderCommitData, commit_key}
use drb_node.Leader.State.{NodeInfo, Leader}
use drb_node.Leader.Nodes.{nodes_or_empty, load_registered_nodes}
use drb_node.Leader.Monitor.Keys.{plus, parse_leader_commit_key}
use drb_node.Leader.Monitor.Keys.Parsed.{parse_leader_commit_key-commit_key}
use drb_node.Leader.Monitor.Secrets.{
  Submitted, no_secrets, incomplete_signature, bad_v, find_info, fetch_node_info, judge_entry,
  judge, collect_secrets,
}
use drb_node.Leader.Monitor.Secrets.Complete.{
  columns, AllReady, SomeUnready, IsKnown, HasNoNodes, collect_secrets-AllReady,
  collect_secrets-passed_over,
}
use drb_node.Examples.Toy.{toy_ethereum}
use drb_node.Examples.Files.{key1, commit7}
use drb_node.Examples.Memory.{empty_leader, setup1, replies1}

clean : (n : ℕ) → All (λ c. c ≢ plus) (replicate n 3)
clean zero = tt
clean (suc n) = ((λ e. omega (arith, e)), clean n)

parse_key7 : parse_leader_commit_key (commit_key (codes "7") key1) ≡ (codes "7", key1)
parse_key7 = parse_leader_commit_key-commit_key (codes "7") key1 (clean 20)

abbrev pub node1 : NodeInfo
node1 = record { ip = codes "10.0.0.1"; port = codes "4001"; peer_id = codes "QmPeer" }

abbrev pub leader1 : Leader
leader1 = record empty_leader {
  registered_nodes = record { content = holds (put key1 node1 []); faults = [] };
}

abbrev revealed7 : LeaderCommitData
revealed7 = record commit7 {
  secret_value = replicate 32 6;
  sign = (codes "v", codes "27") ∷ (codes "r", codes "0x01") ∷ (codes "s", codes "0x02") ∷ [];
}

abbrev commits7 : Map Bytes LeaderCommitData
commits7 = put (commit_key (codes "7") key1) revealed7 []

key1-IsKnown : IsKnown toy_ethereum setup1 replies1 (codes "7") commits7 leader1 key1
unfolding fetch_node_info find_info load_registered_nodes nodes_or_empty read_file get put
    list_equals
key1-IsKnown = (node1, refl)

commits7-AllReady :
    ((xs : List Submitted) × AllReady toy_ethereum setup1 replies1
        (codes "7")
        commits7
        (key1 ∷ [])
        xs
      × (collect_secrets toy_ethereum setup1 replies1
            (codes "7")
            commits7
            (key1 ∷ [])
            no_secrets
            leader1
          ≡ record { leader = leader1; all_submitted = true; revealed = columns xs }))
    ⊎ (((collect_secrets toy_ethereum setup1 replies1
            (codes "7")
            commits7
            (key1 ∷ [])
            no_secrets
            leader1).all_submitted
          ≡ false)
        × SomeUnready toy_ethereum setup1 replies1 (codes "7") commits7 (key1 ∷ []))
commits7-AllReady =
    collect_secrets-AllReady toy_ethereum setup1 replies1 (codes "7") commits7 (key1 ∷ []) leader1
      (key1-IsKnown, tt)

no_nodes : HasNoNodes toy_ethereum setup1 replies1 (codes "7") [] empty_leader
unfolding fetch_node_info find_info load_registered_nodes nodes_or_empty read_file get
no_nodes eoa = (refl, refl)

not_incomplete : judge toy_ethereum (codes "7") [] key1 ≢ incomplete_signature
unfolding judge judge_entry get
not_incomplete e = absurd (cc)

not_bad : judge toy_ethereum (codes "7") [] key1 ≢ bad_v
unfolding judge judge_entry get
not_bad e = absurd (cc)

key1-passed_over :
    (collect_secrets toy_ethereum setup1 replies1
      (codes "7")
      []
      (key1 ∷ [])
      no_secrets
      empty_leader).all_submitted
    ≡ true
key1-passed_over =
    collect_secrets-passed_over toy_ethereum setup1 replies1 (codes "7") [] (key1 ∷ []) no_secrets
      empty_leader no_nodes ((not_incomplete, not_bad), tt)
