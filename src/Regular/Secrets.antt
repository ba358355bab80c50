-- ===== src/Regular/Secrets.antt =====
-- nodes/regularNode_helper/secretValueHandler.go: the leader's requests for secret values.
pub mod Outcome
pub mod AnySigner
pub mod Kept
pub mod Signed
use drb_node.Base.{
  Bytes, bytes_eq, Bool, true, not, Option, none, some, [], ◌==◌, if◌then◌else◌, zero32,
}
use drb_node.Crypto.{Ethereum}
use drb_node.Go.File.{Error}
use drb_node.Utils.Requests.{SecretValueRequest}
use drb_node.Utils.Commit.{
  CommitData, LoadedCommit, commit, commit_not_found, commit_error, load_commit_data,
}
use drb_node.Utils.Signature.{verify_signature, sign_data, key_eoa}
use drb_node.Regular.State.{sends_secret, RegularNode, Env, fatal, send_to_leader}

module _ (eth : Ethereum) (env : Env) (reached : Bool) where
  with_signature : Bytes → CommitData → Bytes → Option Bytes → RegularNode → RegularNode
  unfolding send_to_leader
  with_signature round d key none s = fatal s
  with_signature round d key (some signature) s =
      send_to_leader reached
        (sends_secret (record {
          eoa_address = key_eoa eth key;
          round = round;
          signature = signature;
          secret_value = d.secret_value;
        }))
        s

  with_key : Bytes → CommitData → Option Bytes → RegularNode → RegularNode
  unfolding with_signature
  with_key round d none s = s
  with_key round d (some key) s = with_signature round d key (sign_data eth (key_eoa eth key) key) s

  with_loaded : Bytes → LoadedCommit → RegularNode → RegularNode
  unfolding with_key
  with_loaded round (commit d) s =
      if env.eoa_private_key == []
      then fatal s
      else with_key round d (env.hex_to_ecdsa env.eoa_private_key) s
  with_loaded round commit_not_found s = s
  with_loaded round (commit_error e) s = s

  -- SendSecretValue
  unfoldable pub send_secret_value : Bytes → RegularNode → RegularNode
  unfolding with_loaded
  send_secret_value round s =
      let (r, file) = load_commit_data round s.commits in
      with_loaded round r (record s { commits = file })

  with_peer : Bytes → Option Bytes → RegularNode → RegularNode
  unfolding send_secret_value
  with_peer round none s = s
  with_peer round (some peer) s = send_secret_value round s

  with_commit : Bytes → LoadedCommit → RegularNode → RegularNode
  unfolding with_peer
  with_commit round commit_not_found s = s
  with_commit round (commit_error e) s = s
  with_commit round (commit d) s =
      if d.secret_value == zero32
      then s
      else if env.leader_peer_id == []
      then fatal s
      else with_peer round (env.decode_peer_id env.leader_peer_id) s

  -- HandleSecretValueRequest; `none` is a request that cannot be decoded.
  unfoldable pub handle_secret_value_request : Option SecretValueRequest → RegularNode → RegularNode
  unfolding with_commit
  handle_secret_value_request none s = s
  handle_secret_value_request (some req) s =
      let (r, file) = load_commit_data req.round s.commits in
      if env.leader_eoa == []
      then s
      else if not (
          verify_signature eth
            (record { eoa_address = req.eoa_address; signature = req.signature; peer_id = [] }))
      then s
      else with_commit req.round r (record s { commits = file })
