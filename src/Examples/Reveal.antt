-- ===== src/Examples/Reveal.antt =====
-- nodes/regularNode_helper/secretValueHandler.go with nodes/leaderNode_helper/secret_value_handler.go:
-- a secret value from a regular node to the leader.
use drb_node.Base.{true, ◌≡◌, refl, bytes_eq, list_equals, codes, some, [], ◌∷◌}
use drb_node.Base.Maps.{get}
use drb_node.Go.File.{holds, entries, read_file}
use drb_node.Utils.Requests.{SecretValueRequest}
use drb_node.Utils.LeaderNodeData.{
  LeaderCommitData, new_commit_data, commit_key, find_commit, cvs_from_hex, load_leader_commit_data,
}
use drb_node.Leader.State.{Leader, Setup}
use drb_node.Leader.Outputs.{IsOwnRequest}
use drb_node.Leader.Secrets.{accept_secret_value}
use drb_node.Regular.State.{sends_secret}
use drb_node.Regular.Secrets.{handle_secret_value_request}
use drb_node.Protocol.Reveal.{CanAnswer, HasEntry, accept_secret_value-handle_secret_value_request}
use drb_node.Examples.Toy.{toy_ethereum, toy_digest, toy_digest-size, toy_key_address}
use drb_node.Examples.Files.{key1, secret_key1, signature1, signed_by_key1}
use drb_node.Examples.Memory.{empty_leader, setup1, replies1}
use drb_node.Examples.Regular.{
  secret7, secret7_shows, stored7, stored7_there, env1, node7, request7, request7_verified,
}

-- The leader's entry has the CVS and the COS of the node.
abbrev entry7 : LeaderCommitData
entry7 = record (new_commit_data (codes "7") key1) { cvs = stored7.cvs; cos = stored7.cos }

abbrev leader7 : Leader
leader7 = record empty_leader {
  leader_commits = record {
    content = holds ((commit_key (codes "7") key1, entry7) ∷ []);
    faults = [];
  };
}

key1_is : toy_ethereum.address_hex (toy_key_address secret_key1) ≡ key1
unfolding toy_key_address
key1_is = refl

leader7-HasEntry : HasEntry leader7 (codes "7") key1 entry7
unfolding load_leader_commit_data find_commit cvs_from_hex read_file new_commit_data get list_equals
leader7-HasEntry = record {
  no_faults = refl;
  loads = refl;
  of_round = refl;
  of_eoa = refl;
  size = refl;
}

-- The leader of this test has the same key.
abbrev setup3 : Setup
setup3 = record setup1 { hex_to_ecdsa = λ _. some secret_key1 }

request7-IsOwnRequest : IsOwnRequest toy_ethereum setup3 request7
unfolding toy_key_address
request7-IsOwnRequest = record {
  key = secret_key1;
  key_decoded = refl;
  sender = refl;
  accepted = request7_verified;
}

node7-CanAnswer : CanAnswer toy_ethereum env1 node7 (codes "7") secret_key1 stored7
node7-CanAnswer = record {
  leader_set = λ e. cc;
  no_faults = refl;
  there = stored7_there;
  shows = secret7_shows;
  size = toy_digest-size (1 ∷ []);
  peer_set = λ e. cc;
  peer = codes "QmLeader";
  peer_decoded = refl;
  key_set = λ e. cc;
  key_decoded = refl;
  signature = signature1;
  signs = signed_by_key1;
}

secret7-filed :
    (message : SecretValueRequest) × ((handle_secret_value_request toy_ethereum env1 true
        (some request7)
        node7).outputs
      ≡ sends_secret message ∷ [])
    × (f : LeaderCommitData) × (get (commit_key (codes "7") key1) (
          entries
            (accept_secret_value toy_ethereum setup3 replies1
              (some message)
              leader7).leader_commits.content)
        ≡ some f)
    × (f.secret_value ≡ secret7)
    × (f.cos ≡ toy_digest secret7)
    × (f.cvs ≡ toy_digest (toy_digest secret7))
unfolding new_commit_data toy_key_address
secret7-filed =
    accept_secret_value-handle_secret_value_request toy_ethereum setup3 replies1 env1 request7 node7
      secret_key1 stored7 leader7 entry7 request7-IsOwnRequest node7-CanAnswer leader7-HasEntry
