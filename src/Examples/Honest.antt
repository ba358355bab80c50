-- ===== src/Examples/Honest.antt =====
-- nodes/leaderNode.go with nodes/regularNode.go: an honest node's COS at the leader.
use drb_node.Base.{
  ◌≡◌, ◌≢◌, refl, ap, get_or, Bytes, bytes_eq, list_equals, codes, none, true, [], zero32, arith,
}
use drb_node.Base.Maps.{get}
use drb_node.Go.File.{update_file}
use drb_node.Utils.LeaderNodeData.{new_commit_data, save_leader_commit_data}
use drb_node.Leader.State.{Leader, get_or_create, created, or_nil, update_in_memory}
use drb_node.Leader.Handlers.{take_cvs, after_save, store_entry, commit_locked}
use drb_node.Leader.Memory.Growth.{lookup}
use drb_node.Leader.Memory.Steps.{here}
use drb_node.Protocol.Honest.{commit_request, node_address, Accepted, cos_locked-Accepted}
use drb_node.Examples.Toy.{toy_ethereum, toy_digest}
use drb_node.Examples.Files.{secret_key1, signature1}
use drb_node.Examples.Memory.{empty_leader}
use drb_node.Examples.Regular.{commitment7, commitment7-IsChain}

abbrev after_commit7 : Leader
after_commit7 =
    (commit_locked toy_ethereum
      (commit_request toy_ethereum (codes "7") secret_key1 signature1 [] commitment7)
      empty_leader).0

commit7_kept :
    (commit_locked toy_ethereum
      (commit_request toy_ethereum (codes "7") secret_key1 signature1 [] commitment7)
      empty_leader).1
    ≡ true
unfolding commit_locked get_or_create created or_nil update_in_memory take_cvs store_entry
    after_save save_leader_commit_data update_file new_commit_data list_equals get
commit7_kept = refl

nothing_kept :
    lookup
      (codes "7")
      (node_address toy_ethereum (codes "7") secret_key1 signature1 [] commitment7)
      empty_leader
    ≡ none
unfolding get or_nil
nothing_kept = refl

cvs7_shows : commitment7.cvs ≢ zero32
unfolding toy_digest
cvs7_shows e = omega (arith, ap (λ (l : Bytes). get_or l 0 0) e)

cos7-Accepted :
    Accepted toy_ethereum (codes "7") secret_key1 signature1 [] commitment7 after_commit7
cos7-Accepted =
    cos_locked-Accepted toy_ethereum (codes "7") secret_key1 signature1 [] commitment7 empty_leader
      after_commit7 commitment7-IsChain cvs7_shows tt nothing_kept commit7_kept here
