-- ===== src/Examples/Memory.antt =====
-- nodes/leaderNode.go: the leader's memory after concrete requests.
use drb_node.Base.{
  ◌≡◌, refl, bytes_eq, list_equals, codes, length, Bool, true, false, some, [], ◌∷◌, replicate,
  zero32,
}
use drb_node.Base.Maps.{get, put}
use drb_node.Go.File.{absent, update_file}
use drb_node.Go.Hex.{encode_to_string}
use drb_node.Utils.Requests.{CommitRequest, CosRequest}
use drb_node.Utils.LeaderNodeData.{
  LeaderCommitData, new_commit_data, with_cvs_hex, save_leader_commit_data,
}
use drb_node.Leader.State.{Leader, Setup, Replies, update_in_memory, get_or_create, created, or_nil}
use drb_node.Leader.Handlers.{take_cvs, store_entry, after_save, commit_locked, cos_locked}
use drb_node.Leader.Memory.Entries.{IsConsistent}
use drb_node.Leader.Memory.Growth.{lookup, Extends}
use drb_node.Leader.Memory.Steps.{Reach, here, next, commits, opens, Reach-IsConsistent}
use drb_node.Leader.Memory.WriteOnce.{Reach-Grows}
use drb_node.Examples.Toy.{toy_ethereum, toy_digest, toy_address, checksum}
use drb_node.Examples.Network.{network1, abi1}
use drb_node.Examples.Files.{key1, signature1}

abbrev pub empty_leader : Leader
empty_leader = record {
  committed_nodes = [];
  activated_operators = [];
  leader_commits = record { content = absent; faults = [] };
  reveal_orders = record { content = absent; faults = [] };
  registered_nodes = record { content = absent; faults = [] };
  reveal_request_status = [];
  outputs = [];
  exited = false;
}

abbrev pub commit_of_key1 : CommitRequest
commit_of_key1 = record {
  round = codes "7";
  cvs = toy_digest (replicate 32 5);
  eoa_address = key1;
  signature = signature1;
  sign = [];
}

abbrev pub cos_of_key1 : CosRequest
cos_of_key1 = record {
  round = codes "7";
  cos = replicate 32 5;
  eoa_address = key1;
  signature = signature1;
}

abbrev pub after_commit : Leader
after_commit = (commit_locked toy_ethereum commit_of_key1 empty_leader).0

abbrev after_cos : Leader
after_cos = (cos_locked toy_ethereum cos_of_key1 after_commit).0

pub cvs_size : length commit_of_key1.cvs ≡ 32
unfolding toy_digest
cvs_size = refl

two_steps : Reach toy_ethereum empty_leader after_cos
two_steps =
    next (next here (commits commit_of_key1 empty_leader cvs_size)) (opens cos_of_key1 after_commit)

two_steps-IsConsistent : IsConsistent toy_ethereum after_cos
two_steps-IsConsistent = Reach-IsConsistent toy_ethereum two_steps tt

abbrev pub committed7 : LeaderCommitData
committed7 = record {
  round = codes "7";
  eoa_address = key1;
  cvs = toy_digest (replicate 32 5);
  cvs_hex = encode_to_string (toy_digest (replicate 32 5));
  cos = zero32;
  cos_hex = [];
  secret_value = zero32;
  secret_value_hex = [];
  sign = [];
  submit_merkle_root_done = Bool.false;
  random_number_generated = Bool.false;
}

pub lookup-after_commit : lookup (codes "7") key1 after_commit ≡ some committed7
unfolding commit_locked get_or_create created or_nil update_in_memory take_cvs store_entry
    after_save save_leader_commit_data update_file with_cvs_hex new_commit_data toy_address
    toy_digest checksum list_equals get put
lookup-after_commit = refl

lookup-after_cos :
    (d : LeaderCommitData) × (lookup (codes "7") key1 after_cos ≡ some d) × Extends committed7 d
lookup-after_cos = Reach-Grows toy_ethereum one_step (codes "7") key1 committed7 lookup-after_commit
  where
    one_step : Reach toy_ethereum after_commit after_cos
    one_step = next here (opens cos_of_key1 after_commit)

abbrev pub setup1 : Setup
setup1 = record {
  subgraph_url = codes "http://subgraph";
  eth_rpc_url = codes "http://rpc";
  contract_address = codes "0x01";
  leader_private_key = codes "0a";
  dials = λ _. true;
  abi = abi1;
  hex_to_ecdsa = λ key. some key;
}

abbrev pub replies1 : Replies
replies1 = record {
  activation = λ _. some ((key1 ∷ []) ∷ []);
  operators = λ _. some ((key1 ∷ []) ∷ []);
  root_accepted = λ _. true;
  random_number_accepted = λ _. true;
  network = network1;
}
