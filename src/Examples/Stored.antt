-- ===== src/Examples/Stored.antt =====
-- nodes/leaderNode.go: what concrete requests leave in memory and in the file.
use drb_node.Base.{
  ◌≡◌, ◌≢◌, refl, ap, bytes_eq, list_equals, Bytes, codes, true, some, get_or, zero32, arith,
}
use drb_node.Base.Maps.{get, put}
use drb_node.Go.File.{entries, update_file}
use drb_node.Go.Hex.{encode_to_string}
use drb_node.Utils.LeaderNodeData.{
  LeaderCommitData, commit_key, new_commit_data, with_cvs_hex, save_leader_commit_data,
}
use drb_node.CommitReveal.Commit.{keccak256}
use drb_node.Leader.State.{update_in_memory, get_or_create, created, or_nil}
use drb_node.Leader.Handlers.{take_cvs, store_entry, after_save, commit_locked, cos_locked}
use drb_node.Leader.Handlers.Stored.{Written, commit_locked-secret, cos_locked-Written}
use drb_node.Examples.Toy.{toy_ethereum, toy_digest, toy_address, checksum}
use drb_node.Examples.Files.{key1}
use drb_node.Examples.Memory.{
  empty_leader, commit_of_key1, cos_of_key1, after_commit, committed7, cvs_size,
  lookup-after_commit,
}

goes_on : (commit_locked toy_ethereum commit_of_key1 empty_leader).1 ≡ true
unfolding commit_locked get_or_create created or_nil update_in_memory take_cvs store_entry
    after_save save_leader_commit_data update_file with_cvs_hex new_commit_data toy_address
    toy_digest checksum list_equals get put
goes_on = refl

commit_of_key1-secret :
    (f : LeaderCommitData) × (get
        (commit_key (codes "7") (toy_address (toy_address key1)))
        (entries (commit_locked toy_ethereum commit_of_key1 empty_leader).0.leader_commits.content)
      ≡ some f)
    × (f.secret_value ≡ zero32)
unfolding toy_address
commit_of_key1-secret =
    commit_locked-secret toy_ethereum commit_of_key1 empty_leader cvs_size tt goes_on

some_cvs : committed7.cvs ≢ zero32
unfolding toy_digest
some_cvs e = omega (arith, ap (λ (l : Bytes). get_or l 0 0) e)

opens_cvs : keccak256 toy_ethereum cos_of_key1.cos ≡ committed7.cvs
unfolding keccak256
opens_cvs = refl

lookup_address : toy_address key1 ≡ key1
unfolding toy_address
lookup_address = refl

cos_of_key1-Written :
    Written
      (codes "7")
      (toy_address key1)
      (record committed7 { cos = cos_of_key1.cos; cos_hex = encode_to_string cos_of_key1.cos })
      after_commit
      (cos_locked toy_ethereum cos_of_key1 after_commit)
unfolding toy_address
cos_of_key1-Written =
    cos_locked-Written toy_ethereum cos_of_key1 committed7 after_commit lookup-after_commit some_cvs
      opens_cvs refl
