-- ===== src/Regular/Sends.antt =====
-- nodes/regularNode.go: the requests to the leader. The flag `reached` of each says whether the
-- stream is made and written.
pub mod Growth
pub mod Signed
use drb_node.Base.{Bytes, bytes_eq, Bool, true, Option, none, some, [], ◌==◌, if◌then◌else◌}
use drb_node.Crypto.{Ethereum}
use drb_node.Go.Attempt.{Attempt, value, error, process_exit}
use drb_node.Go.File.{Error}
use drb_node.Utils.Commit.{CommitData, save_commit_data}
use drb_node.Utils.Signature.{sign_data}
use drb_node.Regular.State.{
  registers, sends_cvs, sends_cos, RegularNode, Env, fatal, send_to_leader,
}
use drb_node.Regular.CvsSignature.{CvsSignature, generate_cvs_signature, sign_map}

-- The end of sendCommitToLeader, where the commit data was saved.
unfoldable pub after_sign_saved :
    Bool → CommitData → Bytes → Bytes → Option Error → RegularNode → RegularNode
unfolding send_to_leader
after_sign_saved reached d eoa signature (some e) s = s
after_sign_saved reached d eoa signature none s =
    send_to_leader reached
      (sends_cvs (record {
        round = d.round;
        cvs = d.cvs;
        eoa_address = eoa;
        signature = signature;
        sign = d.sign;
      }))
      s

-- Commit data with v, r and s are saved, then sent.
unfoldable pub with_cvs_signature :
    Bool → CommitData → Bytes → Bytes → Attempt CvsSignature → RegularNode → RegularNode
unfolding after_sign_saved sign_map
with_cvs_signature reached d eoa signature process_exit s = fatal s
with_cvs_signature reached d eoa signature error s = s
with_cvs_signature reached d eoa signature (value x) s =
    let signed = record d { sign = sign_map x } in
    let (e, file) = save_commit_data signed s.commits in
    after_sign_saved reached signed eoa signature e (record s { commits = file })

module _ (eth : Ethereum) where
  unfoldable pub with_cos_signature :
      Bool → CommitData → Bytes → Option Bytes → RegularNode → RegularNode
  unfolding send_to_leader
  with_cos_signature reached d eoa none s = fatal s
  with_cos_signature reached d eoa (some signature) s =
      send_to_leader reached
        (sends_cos
          (record { round = d.round; cos = d.cos; eoa_address = eoa; signature = signature }))
        s

  -- sendCosToLeader
  unfoldable pub send_cos_to_leader : Bool → CommitData → Bytes → Bytes → RegularNode → RegularNode
  unfolding with_cos_signature
  send_cos_to_leader reached d eoa key s =
      with_cos_signature reached d eoa (sign_data eth eoa key) s

module _ (eth : Ethereum) (env : Env) where
  unfoldable pub with_commit_signature :
      Bool → CommitData → Bytes → Option Bytes → RegularNode → RegularNode
  unfolding with_cvs_signature
  with_commit_signature reached d eoa none s = fatal s
  with_commit_signature reached d eoa (some signature) s =
      with_cvs_signature reached d eoa signature (generate_cvs_signature eth env d.round d.cvs) s

  unfoldable pub with_commit_key :
      Bool → CommitData → Bytes → Option Bytes → RegularNode → RegularNode
  unfolding with_commit_signature
  with_commit_key reached d eoa none s = s
  with_commit_key reached d eoa (some key) s =
      with_commit_signature reached d eoa (sign_data eth eoa key) s

  -- sendCommitToLeader
  unfoldable pub send_commit_to_leader : Bool → CommitData → Bytes → RegularNode → RegularNode
  unfolding with_commit_key
  send_commit_to_leader reached d eoa s =
      if env.eoa_private_key == []
      then fatal s
      else with_commit_key reached d eoa (env.hex_to_ecdsa env.eoa_private_key) s

  unfoldable pub with_registration_signature :
      Bool → Bytes → Option Bytes → RegularNode → RegularNode
  unfolding send_to_leader
  with_registration_signature reached eoa none s = fatal s
  with_registration_signature reached eoa (some signature) s =
      send_to_leader reached
        (registers (record { eoa_address = eoa; signature = signature; peer_id = env.peer_id })) s

  -- sendRegistrationRequestToLeader
  unfoldable pub send_registration_request_to_leader :
      Bool → Bytes → Bytes → RegularNode → RegularNode
  unfolding with_registration_signature
  send_registration_request_to_leader reached eoa key s =
      with_registration_signature reached eoa (sign_data eth eoa key) s
