-- ===== src/Regular/Sends/Signed.antt =====
-- nodes/regularNode.go: the signatures of the requests to the leader.
use drb_node.Base.{
  ◌≡◌, refl, Bytes, bytes_eq, Bool, true, false, Option, none, some, [], ◌∷◌, ◌==◌, if◌then◌else◌,
  All, All-append,
}
use drb_node.Crypto.{Ethereum}
use drb_node.Go.Attempt.{Attempt, value, error, process_exit}
use drb_node.Go.File.{Error}
use drb_node.Utils.Commit.{CommitData, save_commit_data}
use drb_node.Utils.Signature.{verify_signature, sign_data, key_eoa, verify_signature-sign_data}
use drb_node.Regular.State.{
  Output, registers, sends_cvs, sends_cos, sends_secret, deposits, RegularNode, Env, fatal,
  send_to_leader,
}
use drb_node.Regular.CvsSignature.{CvsSignature, generate_cvs_signature, sign_map}
use drb_node.Regular.Sends.{
  after_sign_saved, with_cvs_signature, with_cos_signature, send_cos_to_leader,
  with_commit_signature, with_commit_key, send_commit_to_leader, with_registration_signature,
  send_registration_request_to_leader,
}

module _ (eth : Ethereum) (eoa host_id : Bytes) where
  -- The check that each of the leader's handlers makes.
  abbrev pub IsAccepted : Bytes → Bytes → Bytes → Type 0
  IsAccepted sender signature peer_id =
      (sender ≡ eoa)
      × (verify_signature eth
            (record { eoa_address = sender; signature = signature; peer_id = peer_id })
          ≡ true)

  -- A request names this address, and its signature is accepted; a registration names this identity.
  abbrev pub IsSigned : Output → Type 0
  IsSigned (registers req) =
      IsAccepted req.eoa_address req.signature req.peer_id × (req.peer_id ≡ host_id)
  IsSigned (sends_cvs req) = IsAccepted req.eoa_address req.signature []
  IsSigned (sends_cos req) = IsAccepted req.eoa_address req.signature []
  IsSigned (sends_secret req) = IsAccepted req.eoa_address req.signature []
  IsSigned (deposits amount) = Unit

  abbrev pub AllSigned : RegularNode → Type 0
  AllSigned s = All IsSigned s.outputs

  pub if-AllSigned :
      (b : Bool) (s t : RegularNode) → AllSigned s → AllSigned t → AllSigned (if b then s else t)
  if-AllSigned true s t p q = p
  if-AllSigned false s t p q = q

  pub send-AllSigned :
      (reached : Bool) (o : Output) (s : RegularNode)
      → IsSigned o
      → AllSigned s
      → AllSigned (send_to_leader reached o s)
  unfolding send_to_leader
  send-AllSigned true o s signed all = All-append IsSigned s.outputs (o ∷ []) all (signed, tt)
  send-AllSigned false o s signed all = all

  -- A signature that is accepted for this address, with any peer identity.
  abbrev pub IsOf : Bytes → Type 0
  IsOf signature = (peer_id : Bytes) → IsAccepted eoa signature peer_id

  after_sign_saved-AllSigned :
      (reached : Bool) (d : CommitData) (signature : Bytes) (e : Option Error) (s : RegularNode)
      → IsOf signature
      → AllSigned s
      → AllSigned (after_sign_saved reached d eoa signature e s)
  unfolding after_sign_saved
  after_sign_saved-AllSigned reached d signature (some e) s signed all = all
  after_sign_saved-AllSigned reached d signature none s signed all =
      send-AllSigned reached _ s (signed []) all

  cvs-AllSigned :
      (reached : Bool) (d : CommitData) (signature : Bytes) (a : Attempt CvsSignature)
      (s : RegularNode)
      → IsOf signature
      → AllSigned s
      → AllSigned (with_cvs_signature reached d eoa signature a s)
  unfolding with_cvs_signature
  cvs-AllSigned reached d signature process_exit s signed all = all
  cvs-AllSigned reached d signature error s signed all = all
  cvs-AllSigned reached d signature (value x) s signed all =
      let d' = record d { sign = sign_map x } in
      let (e, file) = save_commit_data d' s.commits in
      after_sign_saved-AllSigned reached d' signature e (record s { commits = file }) signed all

  cos-AllSigned :
      (reached : Bool) (d : CommitData) (o : Option Bytes) (s : RegularNode)
      → ((signature : Bytes) → o ≡ some signature → IsOf signature)
      → AllSigned s
      → AllSigned (with_cos_signature eth reached d eoa o s)
  unfolding with_cos_signature
  cos-AllSigned reached d none s signed all = all
  cos-AllSigned reached d (some signature) s signed all =
      send-AllSigned reached _ s (signed signature refl []) all

  module _ (env : Env) where
    commit-AllSigned :
        (reached : Bool) (d : CommitData) (o : Option Bytes) (s : RegularNode)
        → ((signature : Bytes) → o ≡ some signature → IsOf signature)
        → AllSigned s
        → AllSigned (with_commit_signature eth env reached d eoa o s)
    unfolding with_commit_signature
    commit-AllSigned reached d none s signed all = all
    commit-AllSigned reached d (some signature) s signed all =
        cvs-AllSigned reached d signature (generate_cvs_signature eth env d.round d.cvs) s
          (signed signature refl) all

    registration-AllSigned :
        (reached : Bool) (o : Option Bytes) (s : RegularNode)
        → env.peer_id ≡ host_id
        → ((signature : Bytes) → o ≡ some signature → IsOf signature)
        → AllSigned s
        → AllSigned (with_registration_signature eth env reached eoa o s)
    unfolding with_registration_signature
    registration-AllSigned reached none s same signed all = all
    registration-AllSigned reached (some signature) s same signed all =
        send-AllSigned reached _ s (signed signature refl env.peer_id, same) all

-- The node's key, which the functions read again.
module _ (eth : Ethereum) (env : Env) (key : Bytes)
    (own_key : env.hex_to_ecdsa env.eoa_private_key ≡ some key) where
  abbrev Own : RegularNode → Type 0
  Own = AllSigned eth (key_eoa eth key) env.peer_id

  made-IsOf :
      (signature : Bytes)
      → sign_data eth (key_eoa eth key) key ≡ some signature
      → IsOf eth (key_eoa eth key) env.peer_id signature
  made-IsOf signature made peer_id =
      (refl, verify_signature-sign_data eth key signature peer_id made)

  pub send_cos-AllSigned :
      (reached : Bool) (d : CommitData) (s : RegularNode)
      → Own s
      → Own (send_cos_to_leader eth reached d (key_eoa eth key) key s)
  unfolding send_cos_to_leader
  send_cos-AllSigned reached d s all =
      cos-AllSigned eth (key_eoa eth key) env.peer_id reached d
        (sign_data eth (key_eoa eth key) key) s made-IsOf all

  pub send_registration-AllSigned :
      (reached : Bool) (s : RegularNode)
      → Own s
      → Own (send_registration_request_to_leader eth env reached (key_eoa eth key) key s)
  unfolding send_registration_request_to_leader
  send_registration-AllSigned reached s all =
      registration-AllSigned eth (key_eoa eth key) env.peer_id env reached
        (sign_data eth (key_eoa eth key) key) s refl made-IsOf all

  commit_key-AllSigned :
      (reached : Bool) (d : CommitData) (o : Option Bytes) (s : RegularNode)
      → o ≡ some key
      → Own s
      → Own (with_commit_key eth env reached d (key_eoa eth key) o s)
  unfolding with_commit_key
  commit_key-AllSigned reached d o s same all = rw same (
      commit-AllSigned eth (key_eoa eth key) env.peer_id env reached d
        (sign_data eth (key_eoa eth key) key) s made-IsOf all)

  pub send_commit-AllSigned :
      (reached : Bool) (d : CommitData) (s : RegularNode)
      → Own s
      → Own (send_commit_to_leader eth env reached d (key_eoa eth key) s)
  unfolding send_commit_to_leader
  send_commit-AllSigned reached d s all =
      if-AllSigned eth (key_eoa eth key) env.peer_id (env.eoa_private_key == []) (fatal s) _ all
        (commit_key-AllSigned reached d (env.hex_to_ecdsa env.eoa_private_key) s own_key all)
