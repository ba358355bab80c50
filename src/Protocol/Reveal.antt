-- ===== src/Protocol/Reveal.antt =====
-- nodes/regularNode_helper/secretValueHandler.go with nodes/leaderNode_helper/secret_value_handler.go:
-- a secret value from a regular node's file to the leader's.
use drb_node.Base.{
  ◌≡◌, ◌≢◌, refl, sym, ap, ap₂, subst, ◌∙◌, inl, inr, Bytes, bytes_eq, Bool-cases, true, Option,
  none, some, [], ◌∷◌, ◌++◌, ◌==◌, length, zero32, copy_into_all,
}
use drb_node.Base.Maps.{get, get-put_self}
use drb_node.Crypto.{Ethereum}
use drb_node.Go.File.{
  JsonFile, Error, Fault, no_fault, open_fails, transfer_fails, first_fault, garbled, entries,
  read_result, read_file,
}
use drb_node.Utils.Requests.{SecretValueRequest}
use drb_node.Utils.Signature.{verify_signature, sign_data, key_eoa, verify_signature-sign_data}
use drb_node.Utils.Commit.{CommitData}
use drb_node.Utils.Commit.Growth.{stored}
use drb_node.Utils.LeaderNodeData.{
  LeaderCommitData, loaded, commit_key, with_cvs_hex, load_leader_commit_data, find_commit,
  save_leader_commit_data,
}
use drb_node.Utils.LeaderNodeData.Laws.{saved_content}
use drb_node.Leader.State.{Leader, Setup, Replies}
use drb_node.Leader.Outputs.{IsOwnRequest}
use drb_node.Leader.MerkleRoot.Once.{IsWritable, save-writes}
use drb_node.Leader.Requests.Quiet.{response-Quiet}
use drb_node.Leader.Secrets.{take_secret, loaded_or_new, after_secret_save, accept_secret_value}
use drb_node.Regular.State.{sends_secret, RegularNode, Env}
use drb_node.Regular.Secrets.{handle_secret_value_request}
use drb_node.Regular.Secrets.AnySigner.{handle_secret_value_request-any_signer}

-- What a save keeps of an entry.
record IsSame (d d' : LeaderCommitData) : Type 0 where
  same_secret : d'.secret_value ≡ d.secret_value
  same_cos : d'.cos ≡ d.cos
  same_cvs : d'.cvs ≡ d.cvs

with_cvs_hex-IsSame : (d : LeaderCommitData) → IsSame d (with_cvs_hex d)
unfolding with_cvs_hex
with_cvs_hex-IsSame d = elim (Bool-cases (d.cvs == zero32)) [
  | inl none_there ↦
      rw (none_there, with_cvs_hex)
        (record { same_secret = refl; same_cos = refl; same_cvs = refl })
  | inr there ↦
      rw (there, with_cvs_hex) (record { same_secret = refl; same_cos = refl; same_cvs = refl })
]

unreadable_garbled :
    (key : Bytes) (fault : Fault LeaderCommitData) (e : LeaderCommitData)
    → find_commit key (read_result fault garbled) ≡ loaded e
    → ⊥
unfolding find_commit
unreadable_garbled key no_fault e h = cc
unreadable_garbled key open_fails e h = cc
unreadable_garbled key (transfer_fails left) e h = cc

-- A file that an entry was loaded from, without a fault then or next, can be written.
loaded-IsWritable :
    (round eoa : Bytes) (e : LeaderCommitData) (file : JsonFile LeaderCommitData)
    → file.faults ≡ []
    → (load_leader_commit_data round eoa file).0 ≡ loaded e
    → IsWritable (load_leader_commit_data round eoa file).1
unfolding load_leader_commit_data find_commit read_file
loaded-IsWritable round eoa e file calm loads = record {
  no_fault_next = rw calm refl;
  readable = λ bad. unreadable_garbled (commit_key round eoa) (first_fault file.faults) e (
      subst
        (λ c.
          find_commit (commit_key round eoa) (read_result (first_fault file.faults) c) ≡ loaded e)
        bad loads);
}

module _ (eth : Ethereum) (setup : Setup) (replies : Replies) where
  after_secret_save-file :
      (round : Bytes) (e : Option Error) (s : Leader)
      → (after_secret_save eth setup replies round e s).leader_commits ≡ s.leader_commits
  unfolding after_secret_save
  after_secret_save-file round (some e) s = refl
  after_secret_save-file round none s = ap (λ k. k.1) (response-Quiet eth setup replies round s)

  -- The leader's file after a secret value that it accepts for an entry that it can load.
  accept_secret_value-file :
      (req : SecretValueRequest) (e : LeaderCommitData) (s : Leader)
      → verify_signature eth
          (record { eoa_address = req.eoa_address; signature = req.signature; peer_id = [] })
        ≡ true
      → s.leader_commits.faults ≡ []
      → (load_leader_commit_data req.round req.eoa_address s.leader_commits).0 ≡ loaded e
      → get
          (commit_key e.round e.eoa_address)
          (entries (accept_secret_value eth setup replies (some req) s).leader_commits.content)
        ≡ some (with_cvs_hex (take_secret req e))
  unfolding accept_secret_value loaded_or_new
  accept_secret_value-file req e s verified calm loads =
      let (r, file) = load_leader_commit_data req.round req.eoa_address s.leader_commits in
      let d = take_secret req e in
      let writable = loaded-IsWritable req.round req.eoa_address e s.leader_commits calm loads in
      let saved = saved_content d file (save-writes d file writable) in
      rw (verified, loads)
        (ap (λ f. get (commit_key e.round e.eoa_address) (entries f.content))
            (after_secret_save-file req.round (save_leader_commit_data d file).0 _)
          ∙ ap (λ c. get (commit_key e.round e.eoa_address) (entries c)) saved
          ∙ unfold take_secret in
            get-put_self (commit_key e.round e.eoa_address) (with_cvs_hex d) (entries file.content))

-- A node that can answer: its commit file can be read and holds a secret value for the round, its
-- environment is set, and its key signs.
pub record CanAnswer (eth : Ethereum) (env : Env) (node : RegularNode) (round key : Bytes)
    (d : CommitData) : Type 0 where
  pub leader_set : env.leader_eoa ≢ []
  pub no_faults : node.commits.faults ≡ []
  pub there : stored round node.commits ≡ some d
  pub shows : d.secret_value ≢ zero32
  pub size : length d.secret_value ≡ 32
  pub peer_set : env.leader_peer_id ≢ []
  pub peer : Bytes
  pub peer_decoded : env.decode_peer_id env.leader_peer_id ≡ some peer
  pub key_set : env.eoa_private_key ≢ []
  pub key_decoded : env.hex_to_ecdsa env.eoa_private_key ≡ some key
  pub signature : Bytes
  pub signs : sign_data eth (key_eoa eth key) key ≡ some signature

-- A leader that has an entry of the round and the address in its file, which can be read.
pub record HasEntry (s : Leader) (round eoa : Bytes) (e : LeaderCommitData) : Type 0 where
  pub no_faults : s.leader_commits.faults ≡ []
  pub loads : (load_leader_commit_data round eoa s.leader_commits).0 ≡ loaded e
  pub of_round : e.round ≡ round
  pub of_eoa : e.eoa_address ≡ eoa
  pub size : length e.secret_value ≡ 32

-- A secret value that the leader asks for reaches its file. Let a request be signed by the leader's
-- key, let the regular node be able to answer, with the leader reached, and let the leader have the
-- entry of the node for that round. Then the node sends one message, and once the leader has handled
-- it, its file has under the round and the node's address an entry with the secret value of the
-- node's file, and with the COS and the CVS that the leader's entry had.
pub accept_secret_value-handle_secret_value_request :
    (eth : Ethereum) (setup : Setup) (replies : Replies) (env : Env) (req : SecretValueRequest)
    (node : RegularNode) (key : Bytes) (d : CommitData) (s : Leader) (e : LeaderCommitData)
    → IsOwnRequest eth setup req
    → CanAnswer eth env node req.round key d
    → HasEntry s req.round (key_eoa eth key) e
    → (message : SecretValueRequest) × ((handle_secret_value_request eth env true
          (some req)
          node).outputs
        ≡ node.outputs ++ sends_secret message ∷ [])
      × (f : LeaderCommitData) × (get (commit_key req.round (key_eoa eth key)) (
            entries (accept_secret_value eth setup replies (some message) s).leader_commits.content)
          ≡ some f)
      × (f.secret_value ≡ d.secret_value)
      × (f.cos ≡ e.cos)
      × (f.cvs ≡ e.cvs)
unfolding take_secret
accept_secret_value-handle_secret_value_request eth setup replies env req node key d s e own
      node_can leader_has =
    let message : SecretValueRequest = record {
      eoa_address = key_eoa eth key;
      round = req.round;
      signature = node_can.signature;
      secret_value = d.secret_value;
    } in
    let same = with_cvs_hex-IsSame (take_secret message e) in
    let filed =
      accept_secret_value-file eth setup replies message e s
        (verify_signature-sign_data eth key node_can.signature [] node_can.signs)
        leader_has.no_faults leader_has.loads in
    (
      message,
      handle_secret_value_request-any_signer eth env req node d node_can.peer key node_can.signature
          node_can.leader_set own.accepted node_can.no_faults node_can.there node_can.shows
          node_can.peer_set node_can.peer_decoded node_can.key_set node_can.key_decoded
          node_can.signs,
      with_cvs_hex (take_secret message e),
      ap₂
            (λ round eoa. get (commit_key round eoa) (
              entries
                (accept_secret_value eth setup replies (some message) s).leader_commits.content))
            (sym leader_has.of_round) (sym leader_has.of_eoa)
          ∙ filed,
      same.same_secret
          ∙ copy_into_all e.secret_value d.secret_value (leader_has.size ∙ sym node_can.size),
      same.same_cos,
      same.same_cvs,
    )
