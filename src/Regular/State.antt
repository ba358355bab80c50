-- ===== src/Regular/State.antt =====
-- nodes/regularNode.go: what a regular node keeps, what it asks of others, and what it finds in its
-- environment.
use drb_node.Base.{ℕ, Bytes, Bool, true, Option, List, [], ◌∷◌, ◌++◌, if◌then◌else◌}
use drb_node.Go.File.{JsonFile}
use drb_node.Utils.Clients.{AbiPackages}
use drb_node.Utils.Requests.{RegistrationRequest, SecretValueRequest, CommitRequest, CosRequest}
use drb_node.Utils.Network.{Network}
use drb_node.Utils.Commit.{CommitData}

-- A request that reached the leader, and a deposit that eth.ExecuteTransaction was asked for.
pub data Output : Type 0 where
  registers : RegistrationRequest → Output
  sends_cvs : CommitRequest → Output
  sends_cos : CosRequest → Output
  sends_secret : SecretValueRequest → Output
  deposits : ℕ → Output

pub record RegularNode : Type 0 where
  pub commits : JsonFile CommitData
  pub outputs : List Output
  -- log.Fatal has ended the process.
  pub exited : Bool

-- Environment variables, and what the packages make of them.
pub record Env : Type 0 where
  pub port : Bytes
  pub leader_ip : Bytes
  pub leader_port : Bytes
  pub leader_peer_id : Bytes
  pub leader_eoa : Bytes
  pub eoa_private_key : Bytes
  pub eth_rpc_url : Bytes
  pub contract_address : Bytes
  pub chain_id : Bytes
  pub subgraph_url : Bytes
  pub network : Network
  -- peer.Decode
  pub decode_peer_id : Bytes → Option Bytes
  -- h.ID().String() of the host, which the start of the node makes
  pub peer_id : Bytes
  -- ethclient.Dial, utils.LoadContractABI, crypto.HexToECDSA
  pub dials : Bytes → Bool
  pub abi : AbiPackages
  pub hex_to_ecdsa : Bytes → Option Bytes

abbrev pub fatal : RegularNode → RegularNode
fatal s = record s { exited = true }

-- What follows a call that may have ended the process.
abbrev pub if_running : (RegularNode → RegularNode) → RegularNode → RegularNode
if_running next s = if s.exited then s else next s

-- A stream to the leader: the request is sent where the leader is reached.
unfoldable pub send_to_leader : Bool → Output → RegularNode → RegularNode
send_to_leader reached request s =
    if reached then record s { outputs = s.outputs ++ request ∷ [] } else s
