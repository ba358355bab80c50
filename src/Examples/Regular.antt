-- ===== src/Examples/Regular.antt =====
-- nodes/regularNode.go and its helpers: a regular node on concrete inputs.
use drb_node.Base.{
  ℕ, ◌≡◌, ◌≢◌, refl, ap, get_or, ◌⊎◌, Bytes, bytes_eq, list_equals, codes, true, false, some, List,
  [], ◌∷◌, zero32, arith,
}
use drb_node.Base.Maps.{get}
use drb_node.Go.Attempt.{value}
use drb_node.Go.File.{holds, JsonFile}
use drb_node.Utils.Requests.{SecretValueRequest}
use drb_node.Utils.Signature.{verify_signature}
use drb_node.Utils.Clients.{abi_loads}
use drb_node.Utils.Commit.{CommitData}
use drb_node.Utils.Commit.Growth.{Extends, stored, IsSound}
use drb_node.CommitReveal.Commit.{Commitment, keccak256}
use drb_node.CommitReveal.Commit.Chain.{IsChain}
use drb_node.Leader.Rounds.{RoundData}
use drb_node.Regular.State.{sends_secret, deposits, RegularNode, Env}
use drb_node.Regular.Sends.Growth.{IsOwn}
use drb_node.Regular.Deposit.{Chain, deposit_and_check_activation}
use drb_node.Regular.Deposit.Bounds.{IsMissing, deposit_and_check_activation-IsMissing}
use drb_node.Regular.Secrets.{handle_secret_value_request}
use drb_node.Regular.Secrets.Outcome.{Discloses, handle_secret_value_request-Outcome}
use drb_node.Regular.Secrets.AnySigner.{handle_secret_value_request-any_signer}
use drb_node.Regular.Node.{Machine, Turn, NodeEvent, turns, asks, run_regular_node}
use drb_node.Regular.Node.WriteOnce.{run_regular_node-Keeps}
use drb_node.Examples.Toy.{
  toy_ethereum, toy_digest, toy_digest-size, checksum, toy_recover, toy_key_address,
}
use drb_node.Examples.Network.{network1, abi1, machine1}
use drb_node.Examples.Files.{key1, secret_key1, signature1, signed_by_key1}

abbrev pub secret7 : Bytes
secret7 = toy_digest (1 ∷ [])

-- A commitment made from a digest.
abbrev pub commitment7 : Commitment
commitment7 = record {
  secret_value = secret7;
  cos = toy_digest secret7;
  cvs = toy_digest (toy_digest secret7);
}

pub commitment7-IsChain : IsChain toy_ethereum commitment7
unfolding keccak256
commitment7-IsChain = record {
  secret_size = toy_digest-size (1 ∷ []);
  cos_size = toy_digest-size secret7;
  cvs_size = toy_digest-size (toy_digest secret7);
  cos_of_secret = refl;
  cvs_of_cos = refl;
}

abbrev pub stored7 : CommitData
stored7 = record {
  round = codes "7";
  secret_value = secret7;
  cos = commitment7.cos;
  cvs = commitment7.cvs;
  send_to_leader = true;
  send_cos_to_leader = false;
  sign = [];
}

abbrev pub file7 : JsonFile CommitData
file7 = record { content = holds ((codes "7", stored7) ∷ []); faults = [] }

abbrev pub node7 : RegularNode
node7 = record { commits = file7; outputs = []; exited = false }

abbrev pub env1 : Env
env1 = record {
  port = codes "4001";
  leader_ip = codes "10.0.0.1";
  leader_port = codes "4000";
  leader_peer_id = codes "QmLeader";
  leader_eoa = codes "0xleader";
  eoa_private_key = codes "03";
  eth_rpc_url = codes "http://rpc";
  contract_address = codes "0x01";
  chain_id = codes "1";
  subgraph_url = codes "http://subgraph";
  network = network1;
  decode_peer_id = λ id. some id;
  peer_id = codes "QmPeer";
  dials = λ _. true;
  abi = abi1;
  hex_to_ecdsa = λ _. some secret_key1;
}

-- A node that has deposited 40 of 100.
abbrev pub chain1 : Chain
chain1 = record {
  activated_operators = some [];
  deposit_amount = λ _. some 40;
  activation_threshold = some 100;
  balance = λ _. some 75;
  deposit_accepted = λ _. true;
}

deposit_made :
    ((deposit_and_check_activation toy_ethereum env1 chain1 key1 node7).1.outputs ≡ [])
    ⊎ ((r : ℕ) × ((deposit_and_check_activation toy_ethereum env1 chain1 key1 node7).1.outputs
          ≡ deposits r ∷ [])
        × IsMissing chain1 (toy_ethereum.hex_to_address key1) r)
deposit_made = deposit_and_check_activation-IsMissing toy_ethereum env1 chain1 key1 node7

deposit_of_60 :
    deposit_and_check_activation toy_ethereum env1 chain1 key1 node7
    ≡ (value true, record node7 { outputs = deposits 60 ∷ [] })
unfolding deposit_and_check_activation abi_loads list_equals
deposit_of_60 = refl

abbrev pub request7 : SecretValueRequest
request7 = record {
  eoa_address = key1;
  round = codes "7";
  signature = signature1;
  secret_value = [];
}

secret_answer :
    let t = handle_secret_value_request toy_ethereum env1 true (some request7) node7 in
    (t.commits.content ≡ node7.commits.content)
    × ((t.outputs ≡ [])
        ⊎ ((req : SecretValueRequest) × (some request7 ≡ some req)
            × (verify_signature toy_ethereum (record {
              eoa_address = req.eoa_address;
              signature = req.signature;
              peer_id = [];
            })
                ≡ true)
            × Discloses toy_ethereum env1 true req.round node7 t))
secret_answer = handle_secret_value_request-Outcome toy_ethereum env1 true (some request7) node7

pub request7_verified :
    verify_signature toy_ethereum
      (record { eoa_address = key1; signature = signature1; peer_id = [] })
    ≡ true
unfolding verify_signature toy_key_address toy_recover toy_digest checksum list_equals
request7_verified = refl

pub stored7_there : stored (codes "7") file7 ≡ some stored7
unfolding get list_equals
stored7_there = refl

pub secret7_shows : secret7 ≢ zero32
unfolding toy_digest
secret7_shows e = omega (arith, ap (λ (l : Bytes). get_or l 0 0) e)

-- The request is signed by the address key1, which is not LEADER_EOA.
answer_to_any_signer :
    (handle_secret_value_request toy_ethereum env1 true (some request7) node7).outputs
    ≡ sends_secret (record {
      eoa_address = key1;
      round = codes "7";
      signature = signature1;
      secret_value = secret7;
    })
      ∷ []
unfolding toy_key_address
answer_to_any_signer =
    handle_secret_value_request-any_signer toy_ethereum env1 request7 node7 stored7
      (codes "QmLeader") secret_key1 signature1
      (λ e. omega (arith, ap (λ (l : Bytes). get_or l 0 0) e)) request7_verified refl stored7_there
      secret7_shows (λ e. omega (arith, ap (λ (l : Bytes). get_or l 0 0) e)) refl
      (λ e. omega (arith, ap (λ (l : Bytes). get_or l 0 0) e)) refl signed_by_key1

abbrev round_of : Bytes → RoundData
round_of round = record {
  merkle_root_set = false;
  round = some round;
  random_number_set = false;
  activated_operators = key1 ∷ [];
}

-- A turn of an activated node, with a round that is stored and a new one.
abbrev pub turn1 : Turn
turn1 = record {
  rounds = some (round_of (codes "7") ∷ round_of (codes "9") ∷ []);
  chain = record chain1 { activated_operators = some (key1 ∷ []) };
  chain_later = chain1;
  reached_register = true;
  pass = record { now = λ _. 1700000000; reached_cvs = λ _. true; reached_cos = λ _. true };
}

file7-IsSound : IsSound (IsOwn toy_ethereum) file7
file7-IsSound = (tt, ((refl, commitment7-IsChain), tt))

-- The node is asked for a secret value while it starts, and between two turns.
abbrev pub machine2 : Machine
machine2 = record machine1 { asked_early = record { request = some request7; reached = true } ∷ [] }

abbrev pub events1 : List NodeEvent
events1 = turns turn1 ∷ asks (record { request = some request7; reached = true }) ∷ turns turn1 ∷ []

stored7_kept :
    let t = (run_regular_node toy_ethereum machine2 env1 events1 [] node7).0 in
    IsSound (IsOwn toy_ethereum) t.commits
    × ((round : Bytes) (d : CommitData)
        → stored round file7 ≡ some d
        → (d' : CommitData) × (stored round t.commits ≡ some d') × Extends d d')
stored7_kept = run_regular_node-Keeps toy_ethereum machine2 env1 events1 [] node7 file7-IsSound
