-- ===== src/Examples/Files.antt =====
-- utils/: the signatures and the file of the leader's commits, on concrete inputs.
use drb_node.Base.{
  ◌∷◌, bytes_eq, list_equals, ◌≡◌, refl, inl, Bytes, Bool, ◌++◌, codes, true, none, some, [],
  replicate, All, zero32, ℕ, zero, suc, arith,
}
use drb_node.Base.Maps.{put}
use drb_node.Go.File.{JsonFile, holds, no_fault, first_fault, update_file}
use drb_node.Go.Hex.{IsByte}
use drb_node.Utils.Requests.{RegistrationRequest}
use drb_node.Utils.Signature.{verify_signature, sign_data, key_eoa, verify_signature-sign_data}
use drb_node.Utils.LeaderNodeData.{
  LeaderCommitData, loaded, commit_key, load_leader_commit_data, with_cvs_hex,
  save_leader_commit_data,
}
use drb_node.Utils.LeaderNodeData.Laws.{IsStored, load-save_self}
use drb_node.Examples.Toy.{
  toy_ethereum, toy_digest, checksum, toy_sign, toy_recover, toy_key_address,
}

-- An address of 20 bytes; its text is the bytes themselves in the toy cryptography.
abbrev pub key1 : Bytes
key1 = replicate 20 3

-- Its secret key.
abbrev pub secret_key1 : Bytes
secret_key1 = replicate 32 3

abbrev pub signature1 : Bytes
signature1 = secret_key1 ++ (toy_digest key1 ++ 0 ∷ [])

abbrev signed : RegistrationRequest
signed = record { eoa_address = key1; signature = signature1; peer_id = codes "QmPeer" }

pub signed_by_key1 :
    sign_data toy_ethereum (key_eoa toy_ethereum secret_key1) secret_key1 ≡ some signature1
unfolding sign_data toy_sign toy_key_address toy_digest
signed_by_key1 = refl

accepted_key1 : verify_signature toy_ethereum signed ≡ true
unfolding verify_signature toy_key_address toy_recover toy_digest checksum list_equals
accepted_key1 = refl

own_signature-accepted :
    verify_signature toy_ethereum (record {
      eoa_address = key_eoa toy_ethereum secret_key1;
      signature = signature1;
      peer_id = codes "QmPeer";
    })
    ≡ true
own_signature-accepted =
    verify_signature-sign_data toy_ethereum secret_key1 signature1 (codes "QmPeer") signed_by_key1

-- A stored commit of round 7, and a file that holds another.
abbrev pub commit7 : LeaderCommitData
commit7 = record {
  round = codes "7";
  eoa_address = key1;
  cvs = replicate 32 9;
  cvs_hex = [];
  cos = zero32;
  cos_hex = [];
  secret_value = zero32;
  secret_value_hex = [];
  sign = [];
  submit_merkle_root_done = Bool.false;
  random_number_generated = Bool.false;
}

abbrev commit8 : LeaderCommitData
commit8 = record commit7 { round = codes "8" }

abbrev file8 : JsonFile LeaderCommitData
file8 = record { content = holds (put (commit_key (codes "8") key1) commit8 []); faults = [] }

All-replicate : (n b : ℕ) → IsByte b → All IsByte (replicate n b)
All-replicate zero b i = tt
All-replicate (suc n) b i = (i, All-replicate n b i)

commit7-IsStored : IsStored commit7
commit7-IsStored = record {
  cvs_size = refl;
  cvs_bytes = All-replicate 32 9 (omega arith);
  hex_text = inl refl;
}

saved7 : (save_leader_commit_data commit7 file8).0 ≡ none
unfolding save_leader_commit_data update_file
saved7 = refl

no_fault7 : first_fault (save_leader_commit_data commit7 file8).1.faults ≡ no_fault
unfolding save_leader_commit_data update_file
no_fault7 = refl

load-save7 :
    (load_leader_commit_data (codes "7") key1 (save_leader_commit_data commit7 file8).1).0
    ≡ loaded (with_cvs_hex commit7)
load-save7 = load-save_self commit7 file8 commit7-IsStored saved7 no_fault7
