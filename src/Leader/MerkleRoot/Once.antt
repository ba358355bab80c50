-- ===== src/Leader/MerkleRoot/Once.antt =====
-- nodes/leaderNode.go: a Merkle root that was sent and accepted is not sent again.
use drb_node.Base.{
  ◌≡◌, ◌≢◌, inl, inr, refl, ap, ◌∙◌, Bytes, bytes_eq, Bool, true, ◌||◌, Option, none, some, List,
  [], ◌∷◌,
}
use drb_node.Base.Maps.{Map, get, put, get-put_self}
use drb_node.Crypto.{Ethereum}
use drb_node.Go.File.{
  JsonFile, Error, Content, absent, blank, garbled, holds, Fault, no_fault, open_fails,
  transfer_fails, first_fault, update_content, update_file,
}
use drb_node.Go.Number.{ℤ}
use drb_node.Utils.LeaderNodeData.{
  LeaderCommitData, commit_key, with_cvs_hex, save_leader_commit_data,
}
use drb_node.Leader.State.{
  Leader, Setup, Replies, any_submitted, submitted_in, is_merkle_root_submitted, or_nil, round_map,
}
use drb_node.Leader.MerkleRoot.{
  mark_submitted, marked_in, update_commit_data_after_submit, generate_merkle_root,
}
use drb_node.Leader.MerkleRoot.Sent.{
  LeavesOf, no_operator, one_more, IsSent, generate_merkle_root-Outcome,
}
use drb_node.Leader.Memory.Marks.{marked}

-- The next use of the file meets no fault, and its text can be decoded or is missing.
pub record IsWritable {V : Type 0} (file : JsonFile V) : Type 0 where
  pub no_fault_next : first_fault file.faults ≡ no_fault
  pub readable : file.content ≢ garbled

update_content-writes :
    {V : Type 0} (change : Map Bytes V → Map Bytes V) (fault : Fault V) (c : Content V)
    → fault ≡ no_fault
    → c ≢ garbled
    → (update_content change fault c).0 ≡ none
update_content-writes change no_fault absent e readable = refl
update_content-writes change no_fault blank e readable = refl
update_content-writes change no_fault garbled e readable = absurd (readable refl)
update_content-writes change no_fault (holds m) e readable = refl
update_content-writes change open_fails c e readable = absurd (cc)
update_content-writes change (transfer_fails left) c e readable = absurd (cc)

pub save-writes :
    (d : LeaderCommitData) (file : JsonFile LeaderCommitData)
    → IsWritable file
    → (save_leader_commit_data d file).0 ≡ none
unfolding save_leader_commit_data update_file
save-writes d file w =
    update_content-writes (put (commit_key d.round d.eoa_address) (with_cvs_hex d))
      (first_fault file.faults) file.content w.no_fault_next w.readable

head_marked :
    (e : Option Error) (d : LeaderCommitData) (b : Bool)
    → e ≡ none
    → ((marked e d).submit_merkle_root_done || b) ≡ true
head_marked none d b h = refl
head_marked (some e) d b h = absurd (cc)

mark_submitted-any :
    (m : Map Bytes LeaderCommitData) (file : JsonFile LeaderCommitData)
    → m ≢ []
    → IsWritable file
    → any_submitted (mark_submitted m file).0 ≡ true
unfolding any_submitted mark_submitted
mark_submitted-any [] file some_entry w = absurd (some_entry refl)
mark_submitted-any ((addr, d) ∷ rest) file some_entry w =
    let d' = record d { submit_merkle_root_done = true } in
    head_marked (save_leader_commit_data d' file).0 d _ (save-writes d' file w)

marked_in-submitted :
    (round : Bytes) (o : Option (Map Bytes LeaderCommitData)) (s : Leader)
    → or_nil o ≢ []
    → IsWritable s.leader_commits
    → is_merkle_root_submitted round (marked_in round o s) ≡ true
unfolding marked_in is_merkle_root_submitted submitted_in or_nil
marked_in-submitted round none s some_entry w = absurd (some_entry refl)
marked_in-submitted round (some m) s some_entry w =
    rw (get-put_self) (mark_submitted-any m s.leader_commits some_entry w)

update-submitted :
    (round : Bytes) (s : Leader)
    → round_map round s ≢ []
    → IsWritable s.leader_commits
    → is_merkle_root_submitted round (update_commit_data_after_submit round s) ≡ true
unfolding update_commit_data_after_submit
update-submitted round s some_entry w =
    marked_in-submitted round (get round s.committed_nodes) s some_entry w

found_in :
    (k : Bytes) (m : Map Bytes LeaderCommitData) (d : LeaderCommitData) → get k m ≡ some d → m ≢ []
unfolding get
found_in k [] d found e = cc
found_in k (c ∷ m) d found e = cc

pub LeavesOf-entry :
    {to_address : Bytes → Bytes} {m : Map Bytes LeaderCommitData} {operators leaves : List Bytes}
    → LeavesOf to_address m operators leaves
    → leaves ≢ []
    → m ≢ []
LeavesOf-entry no_operator some_leaves = absurd (some_leaves refl)
LeavesOf-entry {to_address} {m} (one_more op d ops leaves found shows rest) some_leaves =
    found_in (to_address op) m d found

module _ (eth : Ethereum) (setup : Setup) (replies : Replies) (round : Bytes) where
  sent-submitted :
      (s t : Leader)
      → IsSent eth setup replies round s t
      → ((z : ℤ) → replies.root_accepted z ≡ true)
      → IsWritable s.leader_commits
      → is_merkle_root_submitted round t ≡ true
  unfolding is_merkle_root_submitted
  sent-submitted s t sent accepted w =
      let nodes = (update_commit_data_after_submit round s).committed_nodes in
      let memory : t.committed_nodes ≡ nodes = rw (accepted sent.number) at sent.memory in
      ap (λ c. submitted_in (get round c)) memory
      ∙ update-submitted round s (LeavesOf-entry sent.cvs_of sent.some_leaves) w

  -- Where generateMerkleRoot has sent the root, with the transaction accepted, the next use of the
  -- commit file without a fault, and a commit file that can be decoded or is missing, generateMerkleRoot
  -- for the same round, whatever is answered to it, changes nothing.
  pub generate_merkle_root-once :
      (later : Replies) (s : Leader)
      → ((z : ℤ) → replies.root_accepted z ≡ true)
      → IsWritable s.leader_commits
      → (generate_merkle_root eth setup replies round s).outputs ≢ s.outputs
      → generate_merkle_root eth setup later round (generate_merkle_root eth setup replies round s)
        ≡ generate_merkle_root eth setup replies round s
  generate_merkle_root-once later s accepted w changed =
      elim (generate_merkle_root-Outcome eth setup replies round s) [
        | inl (same, _) ↦ absurd (changed same)
        | inr sent ↦
            submitted_skips (generate_merkle_root eth setup replies round s)
              (sent-submitted s _ sent accepted w)
      ]
    where
      submitted_skips :
          (t : Leader)
          → is_merkle_root_submitted round t ≡ true
          → generate_merkle_root eth setup later round t ≡ t
      submitted_skips t h = unfold generate_merkle_root in (rw h refl)
