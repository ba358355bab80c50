-- ===== src/Regular/Secrets/AnySigner.antt =====
-- nodes/regularNode_helper/secretValueHandler.go: who may ask a regular node for a secret value.
use drb_node.Base.{◌≡◌, ◌≢◌, ◌∙◌, Bytes, bytes_eq, true, some, [], ◌∷◌, ◌++◌, ==_false, zero32}
use drb_node.Crypto.{Ethereum}
use drb_node.Utils.Requests.{SecretValueRequest}
use drb_node.Utils.Commit.{CommitData, load_commit_data}
use drb_node.Utils.Commit.Found.{load-found, load-calm}
use drb_node.Utils.Commit.Growth.{stored}
use drb_node.Utils.Signature.{verify_signature, sign_data, key_eoa}
use drb_node.Regular.State.{sends_secret, RegularNode, Env, send_to_leader}
use drb_node.Regular.Secrets.{
  with_signature, with_key, with_loaded, send_secret_value, with_peer, with_commit,
  handle_secret_value_request,
}

send_secret_value-sends :
    (eth : Ethereum) (env : Env) (round : Bytes) (s : RegularNode) (d : CommitData)
    (key signature : Bytes)
    → s.commits.faults ≡ []
    → stored round s.commits ≡ some d
    → env.eoa_private_key ≢ []
    → env.hex_to_ecdsa env.eoa_private_key ≡ some key
    → sign_data eth (key_eoa eth key) key ≡ some signature
    → (send_secret_value eth env true round s).outputs
      ≡ s.outputs
        ++ sends_secret (record {
          eoa_address = key_eoa eth key;
          round = round;
          signature = signature;
          secret_value = d.secret_value;
        })
          ∷ []
unfolding send_secret_value with_signature with_key with_loaded send_to_leader
send_secret_value-sends eth env round s d key signature calm there to_key key_of signs =
    rw (load-found round s.commits d calm there) (rw (==_false _ _ to_key, key_of) (rw signs))

module _ (eth : Ethereum) (env : Env) (req : SecretValueRequest) (s : RegularNode) (d : CommitData)
    (peer key signature : Bytes) where
  -- A request for a secret value is answered whoever has signed it. Let LEADER_EOA be set to any
  -- text, and let the request carry a valid signature by the address that it names. Let
  -- LEADER_PEER_ID and EOA_PRIVATE_KEY be set and decodable, and let the key sign and the leader be
  -- reached. Where the commit file can be read and holds a secret value other than zero for the
  -- round, exactly that value is sent to the leader.
  pub handle_secret_value_request-any_signer :
      env.leader_eoa ≢ []
      → verify_signature eth
          (record { eoa_address = req.eoa_address; signature = req.signature; peer_id = [] })
        ≡ true
      → s.commits.faults ≡ []
      → stored req.round s.commits ≡ some d
      → d.secret_value ≢ zero32
      → env.leader_peer_id ≢ []
      → env.decode_peer_id env.leader_peer_id ≡ some peer
      → env.eoa_private_key ≢ []
      → env.hex_to_ecdsa env.eoa_private_key ≡ some key
      → sign_data eth (key_eoa eth key) key ≡ some signature
      → (handle_secret_value_request eth env true (some req) s).outputs
        ≡ s.outputs
          ++ sends_secret (record {
            eoa_address = key_eoa eth key;
            round = req.round;
            signature = signature;
            secret_value = d.secret_value;
          })
            ∷ []
  unfolding handle_secret_value_request with_peer with_commit
  handle_secret_value_request-any_signer leader verified calm there shows to_peer peer_id to_key
        key_of signs =
      let found = load-found req.round s.commits d calm there in
      let (calm', same) = load-calm req.round req.round s.commits calm in
      rw (==_false _ _ leader, verified, found)
        (rw (==_false _ _ shows, ==_false _ _ to_peer, peer_id)
          (send_secret_value-sends eth env req.round
            (record s { commits = (load_commit_data req.round s.commits).1 }) d key signature calm'
            (same ∙ there) to_key key_of signs))
