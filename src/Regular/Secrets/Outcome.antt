-- ===== src/Regular/Secrets/Outcome.antt =====
-- nodes/regularNode_helper/secretValueHandler.go: what a request for a secret value makes a regular
-- node send.
use drb_node.Base.{
  ◌≡◌, ◌≢◌, ◌⊎◌, inl, inr, refl, ap, ◌∙◌, Bytes, bytes_eq, Bool, true, false, not, Option, none,
  some, [], ◌∷◌, ◌++◌, ◌==◌, if◌then◌else◌, Bool-cases, zero32,
}
use drb_node.Crypto.{Ethereum}
use drb_node.Go.File.{read_file}
use drb_node.Utils.Requests.{SecretValueRequest}
use drb_node.Utils.Commit.{
  CommitData, LoadedCommit, commit, commit_not_found, commit_error, load_commit_data,
}
use drb_node.Utils.Commit.Growth.{stored, load-stored}
use drb_node.Utils.Signature.{verify_signature, sign_data, key_eoa}
use drb_node.Regular.State.{sends_secret, RegularNode, Env, send_to_leader}
use drb_node.Regular.Secrets.{
  with_signature, with_key, with_loaded, send_secret_value, with_peer, with_commit,
  handle_secret_value_request,
}

load-same :
    (round : Bytes) (s : RegularNode)
    → (load_commit_data round s.commits).1.content ≡ s.commits.content
unfolding load_commit_data read_file
load-same round s = refl

-- The value that a load returns is stored, before the load as after it.
load-was_stored :
    (round : Bytes) (s : RegularNode) (d : CommitData)
    → (load_commit_data round s.commits).0 ≡ commit d
    → stored round s.commits ≡ some d
unfolding load_commit_data read_file
load-was_stored round s d e = unfold load_commit_data read_file in load-stored round s.commits d e

module _ (eth : Ethereum) (env : Env) (reached : Bool) where
  -- The state `t` has the secret value of `round` sent once more than `s`, signed with the node's key.
  abbrev pub Discloses : Bytes → RegularNode → RegularNode → Type 0
  Discloses round s t =
      (d : CommitData) × (key : Bytes) × (signature : Bytes) × (stored round s.commits ≡ some d)
      × (d.secret_value ≢ zero32)
      × (env.hex_to_ecdsa env.eoa_private_key ≡ some key)
      × (sign_data eth (key_eoa eth key) key ≡ some signature)
      × (reached ≡ true)
      × (t.outputs
          ≡ s.outputs
            ++ sends_secret (record {
              eoa_address = key_eoa eth key;
              round = round;
              signature = signature;
              secret_value = d.secret_value;
            })
              ∷ [])

  abbrev Outcome : Bytes → RegularNode → RegularNode → Type 0
  Outcome round s t =
      (t.commits.content ≡ s.commits.content) × ((t.outputs ≡ s.outputs) ⊎ Discloses round s t)

  if-Outcome :
      (b : Bool) (round : Bytes) (s t u : RegularNode)
      → Outcome round s t
      → Outcome round s u
      → Outcome round s (if b then t else u)
  if-Outcome true round s t u p q = p
  if-Outcome false round s t u p q = q

  module _ (round : Bytes) (s : RegularNode) (d : CommitData)
      (there : stored round s.commits ≡ some d) (shows : d.secret_value ≢ zero32) where
    sent-Outcome :
        (key signature : Bytes) (b : Bool)
        → reached ≡ b
        → env.hex_to_ecdsa env.eoa_private_key ≡ some key
        → sign_data eth (key_eoa eth key) key ≡ some signature
        → Outcome round s (
            send_to_leader b
              (sends_secret (record {
                eoa_address = key_eoa eth key;
                round = round;
                signature = signature;
                secret_value = d.secret_value;
              }))
              s)
    unfolding send_to_leader
    sent-Outcome key signature true r k e =
        (refl, inr (d, key, signature, there, shows, k, e, r, refl))
    sent-Outcome key signature false r k e = (refl, inl refl)

    with_signature-Outcome :
        (key : Bytes) (o : Option Bytes)
        → env.hex_to_ecdsa env.eoa_private_key ≡ some key
        → sign_data eth (key_eoa eth key) key ≡ o
        → Outcome round s (with_signature eth env reached round d key o s)
    unfolding with_signature
    with_signature-Outcome key none k e = (refl, inl refl)
    with_signature-Outcome key (some signature) k e = sent-Outcome key signature reached refl k e

    with_key-Outcome :
        (o : Option Bytes)
        → env.hex_to_ecdsa env.eoa_private_key ≡ o
        → Outcome round s (with_key eth env reached round d o s)
    unfolding with_key
    with_key-Outcome none k = (refl, inl refl)
    with_key-Outcome (some key) k = with_signature-Outcome key _ k refl

  with_loaded-Outcome :
      (round : Bytes) (r : LoadedCommit) (s : RegularNode)
      → ((d : CommitData)
          → r ≡ commit d
          → (stored round s.commits ≡ some d) × (d.secret_value ≢ zero32))
      → Outcome round s (with_loaded eth env reached round r s)
  unfolding with_loaded
  with_loaded-Outcome round (commit d) s h =
      let (there, shows) = h d refl in
      if-Outcome (env.eoa_private_key == []) round s (record s { exited = true })
        (with_key eth env reached round d (env.hex_to_ecdsa env.eoa_private_key) s) (refl, inl refl)
        (with_key-Outcome round s d there shows _ refl)
  with_loaded-Outcome round commit_not_found s h = (refl, inl refl)
  with_loaded-Outcome round (commit_error e) s h = (refl, inl refl)

  send_secret_value-Outcome :
      (round : Bytes) (s : RegularNode) (d : CommitData)
      → stored round s.commits ≡ some d
      → d.secret_value ≢ zero32
      → Outcome round s (send_secret_value eth env reached round s)
  unfolding send_secret_value load_commit_data read_file
  send_secret_value-Outcome round s d there shows =
      with_loaded-Outcome round (load_commit_data round s.commits).0
        (record s { commits = (load_commit_data round s.commits).1 })
        (λ d' e.
          let there' : stored round s.commits ≡ some d' = load-was_stored round s d' e in
          let same : d ≡ d' = cc in (there', λ z. shows (ap (λ x. x.secret_value) same ∙ z)))

  with_peer-Outcome :
      (round : Bytes) (o : Option Bytes) (s : RegularNode) (d : CommitData)
      → stored round s.commits ≡ some d
      → d.secret_value ≢ zero32
      → Outcome round s (with_peer eth env reached round o s)
  unfolding with_peer
  with_peer-Outcome round none s d there shows = (refl, inl refl)
  with_peer-Outcome round (some peer) s d there shows =
      send_secret_value-Outcome round s d there shows

  with_commit-Outcome :
      (round : Bytes) (r : LoadedCommit) (s : RegularNode)
      → ((d : CommitData) → r ≡ commit d → stored round s.commits ≡ some d)
      → Outcome round s (with_commit eth env reached round r s)
  unfolding with_commit
  with_commit-Outcome round commit_not_found s h = (refl, inl refl)
  with_commit-Outcome round (commit_error e) s h = (refl, inl refl)
  with_commit-Outcome round (commit d) s h = elim (Bool-cases (d.secret_value == zero32)) [
    | inl zero_value ↦ rw zero_value (refl, inl refl)
    | inr shows ↦ rw shows (
        if-Outcome (env.leader_peer_id == []) round s (record s { exited = true })
          (with_peer eth env reached round (env.decode_peer_id env.leader_peer_id) s)
          (refl, inl refl)
          (with_peer-Outcome round _ s d (h d refl) (differs d.secret_value shows)))
  ]
    where
      differs : (v : Bytes) → (v == zero32) ≡ false → v ≢ zero32
      differs v test e = cc ((bytes_eq.equals_iff v zero32).1 e)

  abbrev IsVerified : SecretValueRequest → Type 0
  IsVerified req =
      verify_signature eth
        (record { eoa_address = req.eoa_address; signature = req.signature; peer_id = [] })
      ≡ true

  abbrev Answer : Option SecretValueRequest → RegularNode → RegularNode → Type 0
  Answer request s t =
      (t.commits.content ≡ s.commits.content)
      × ((t.outputs ≡ s.outputs)
          ⊎ ((req : SecretValueRequest) × (request ≡ some req)
              × IsVerified req
              × Discloses req.round s t))

  if-Answer :
      (b : Bool) (request : Option SecretValueRequest) (s t u : RegularNode)
      → Answer request s t
      → (b ≡ false → Answer request s u)
      → Answer request s (if b then t else u)
  if-Answer true request s t u p q = p
  if-Answer false request s t u p q = q refl

  answered :
      (req : SecretValueRequest) (s t : RegularNode)
      → IsVerified req
      → Outcome req.round s t
      → Answer (some req) s t
  answered req s t verified (same, inl silent) = (same, inl silent)
  answered req s t verified (same, inr sent) = (same, inr (req, refl, verified, sent))

  not-false : (b : Bool) → not b ≡ false → b ≡ true
  not-false true e = refl
  not-false false e = cc

  -- A request for a secret value makes a regular node send nothing, or it sends one message. Then the
  -- request is decoded and carries a signature by the address that it names, the node's key signs,
  -- the leader is reached, and the message holds the round that was asked for, and the secret value,
  -- not zero, that is stored for it. The stored rounds stay as they are.
  pub handle_secret_value_request-Outcome :
      (request : Option SecretValueRequest) (s : RegularNode)
      → let t = handle_secret_value_request eth env reached request s in
        (t.commits.content ≡ s.commits.content)
        × ((t.outputs ≡ s.outputs)
            ⊎ ((req : SecretValueRequest) × (request ≡ some req)
                × (verify_signature eth (record {
                  eoa_address = req.eoa_address;
                  signature = req.signature;
                  peer_id = [];
                })
                    ≡ true)
                × Discloses req.round s t))
  unfolding handle_secret_value_request load_commit_data read_file
  handle_secret_value_request-Outcome none s = (refl, inl refl)
  handle_secret_value_request-Outcome (some req) s =
      let (r, file) = load_commit_data req.round s.commits in
      let s' = record s { commits = file } in
      let t = with_commit eth env reached req.round r s' in
      let verified =
        verify_signature eth
          (record { eoa_address = req.eoa_address; signature = req.signature; peer_id = [] }) in
      if-Answer (env.leader_eoa == []) (some req) s s (if not verified then s else t)
        (refl, inl refl)
        (λ _.
          if-Answer (not verified) (some req) s s t (refl, inl refl)
            (λ e.
              answered req s t (not-false verified e)
                (with_commit-Outcome req.round r s' (load-was_stored req.round s))))
