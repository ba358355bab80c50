-- ===== src/Regular/Secrets/Kept.antt =====
-- nodes/regularNode_helper/secretValueHandler.go: the commit file under requests for secret values.
use drb_node.Base.{◌≡◌, refl, Bytes, bytes_eq, Bool, not, Option, none, some, [], ◌==◌, zero32}
use drb_node.Crypto.{Ethereum}
use drb_node.Utils.Requests.{SecretValueRequest}
use drb_node.Utils.Commit.{
  LoadedCommit, commit, commit_not_found, commit_error, CommitData, load_commit_data,
}
use drb_node.Utils.Commit.Growth.{Grows-trans, load-Grows}
use drb_node.Utils.Signature.{verify_signature, sign_data, key_eoa}
use drb_node.Regular.State.{RegularNode, Env, fatal}
use drb_node.Regular.Secrets.{
  with_signature, with_key, with_loaded, send_secret_value, with_peer, with_commit,
  handle_secret_value_request,
}
use drb_node.Regular.Sends.Growth.{IsOwn, Grown, Grown-same, if-Grown, send_to_leader-same}

module _ (eth : Ethereum) (env : Env) (reached : Bool) where
  with_signature-same :
      (round : Bytes) (d : CommitData) (key : Bytes) (o : Option Bytes) (s : RegularNode)
      → (with_signature eth env reached round d key o s).commits ≡ s.commits
  unfolding with_signature
  with_signature-same round d key none s = refl
  with_signature-same round d key (some signature) s = send_to_leader-same eth reached _ s

  with_key-same :
      (round : Bytes) (d : CommitData) (o : Option Bytes) (s : RegularNode)
      → (with_key eth env reached round d o s).commits ≡ s.commits
  unfolding with_key
  with_key-same round d none s = refl
  with_key-same round d (some key) s =
      with_signature-same round d key (sign_data eth (key_eoa eth key) key) s

  with_loaded-Grown :
      (round : Bytes) (r : LoadedCommit) (s : RegularNode)
      → Grown eth s (with_loaded eth env reached round r s)
  unfolding with_loaded
  with_loaded-Grown round commit_not_found s = Grown-same eth s s refl
  with_loaded-Grown round (commit_error e) s = Grown-same eth s s refl
  with_loaded-Grown round (commit d) s =
      if-Grown eth (env.eoa_private_key == []) s (fatal s) _ (Grown-same eth s (fatal s) refl) (
        Grown-same eth s (with_key eth env reached round d (env.hex_to_ecdsa env.eoa_private_key) s)
          (with_key-same round d (env.hex_to_ecdsa env.eoa_private_key) s))

  with_peer-Grown :
      (round : Bytes) (o : Option Bytes) (s : RegularNode)
      → Grown eth s (with_peer eth env reached round o s)
  unfolding with_peer send_secret_value
  with_peer-Grown round none s = Grown-same eth s s refl
  with_peer-Grown round (some peer) s =
      let (r, file) = load_commit_data round s.commits in
      let s1 = record s { commits = file } in
      Grows-trans (IsOwn eth) s.commits file (with_loaded eth env reached round r s1).commits
        (load-Grows (IsOwn eth) round s.commits) (with_loaded-Grown round r s1)

  with_commit-Grown :
      (round : Bytes) (r : LoadedCommit) (s : RegularNode)
      → Grown eth s (with_commit eth env reached round r s)
  unfolding with_commit
  with_commit-Grown round commit_not_found s = Grown-same eth s s refl
  with_commit-Grown round (commit_error e) s = Grown-same eth s s refl
  with_commit-Grown round (commit d) s =
      if-Grown eth (d.secret_value == zero32) s s _ (Grown-same eth s s refl) (
        if-Grown eth (env.leader_peer_id == []) s (fatal s) _ (Grown-same eth s (fatal s) refl)
          (with_peer-Grown round (env.decode_peer_id env.leader_peer_id) s))

  -- The handler of requests for secret values only reads the commit file.
  pub handle_secret_value_request-Grown :
      (request : Option SecretValueRequest) (s : RegularNode)
      → Grown eth s (handle_secret_value_request eth env reached request s)
  unfolding handle_secret_value_request
  handle_secret_value_request-Grown none s = Grown-same eth s s refl
  handle_secret_value_request-Grown (some req) s =
      let (r, file) = load_commit_data req.round s.commits in
      let s1 = record s { commits = file } in
      let verified =
        verify_signature eth
          (record { eoa_address = req.eoa_address; signature = req.signature; peer_id = [] }) in
      if-Grown eth (env.leader_eoa == []) s s _ (Grown-same eth s s refl) (
        if-Grown eth (not verified) s s _ (Grown-same eth s s refl) (
          Grows-trans (IsOwn eth) s.commits file
            (with_commit eth env reached req.round r s1).commits
            (load-Grows (IsOwn eth) req.round s.commits) (with_commit-Grown req.round r s1)))
