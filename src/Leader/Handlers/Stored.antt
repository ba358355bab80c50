-- ===== src/Leader/Handlers/Stored.antt =====
-- nodes/leaderNode.go: what a request that is accepted leaves in memory and in the file.
use drb_node.Base.{
  ◌≡◌, ◌≢◌, refl, sym, ap, subst, ◌∙◌, inl, inr, Bytes, bytes_eq, Bool, true, false, Option, none,
  some, ◌==◌, ==_refl, ==_false, Bool-cases, zero32, length,
}
use drb_node.Base.Maps.{get, get-put_self}
use drb_node.Crypto.{Ethereum}
use drb_node.Go.File.{Error, entries}
use drb_node.Go.Hex.{encode_to_string}
use drb_node.Utils.Requests.{CommitRequest, CosRequest}
use drb_node.Utils.LeaderNodeData.{
  LeaderCommitData, commit_key, with_cvs_hex, save_leader_commit_data,
}
use drb_node.Utils.LeaderNodeData.Laws.{saved_content}
use drb_node.CommitReveal.Commit.{keccak256}
use drb_node.Leader.State.{Leader, update_in_memory, get_or_create, created}
use drb_node.Leader.Handlers.{
  take_cvs, after_save, store_entry, commit_locked, cos_into, cos_locked,
}
use drb_node.Leader.Memory.Entries.{
  IsConsistent, IsEntry, get_or_create-IsConsistent, take_cvs-IsEntry,
}
use drb_node.Leader.Memory.Growth.{lookup, lookup-update}

-- The entry that the file holds under the key of an entry.
abbrev pub filed : LeaderCommitData → Leader → Option LeaderCommitData
filed d s = get (commit_key d.round d.eoa_address) (entries s.leader_commits.content)

-- An entry is in memory, and in the file with the hex text of its CVS.
pub record IsKept (round addr : Bytes) (d : LeaderCommitData) (s : Leader) : Type 0 where
  pub in_memory : lookup round addr s ≡ some d
  pub in_file : filed d s ≡ some (with_cvs_hex d)

-- The two ends of a write: the entry is kept and the handler goes on, or the file could not be
-- written, the memory is as it was, and the handler stops.
pub data Written (round addr : Bytes) (d : LeaderCommitData) (s : Leader) (r : Leader × Bool)
    : Type 0 where
  kept : r.1 ≡ true → IsKept round addr d r.0 → Written round addr d s r
  unwritten :
      (e : Error)
      → (save_leader_commit_data d s.leader_commits).0 ≡ some e
      → r.1 ≡ false
      → r.0.committed_nodes ≡ s.committed_nodes
      → Written round addr d s r

after_save-Written :
    (round addr : Bytes) (d : LeaderCommitData) (o : Option Error) (s : Leader)
    → (save_leader_commit_data d s.leader_commits).0 ≡ o
    → Written round addr d s (
        after_save round addr d o
          (record s { leader_commits = (save_leader_commit_data d s.leader_commits).1 }))
unfolding after_save update_in_memory save_leader_commit_data
after_save-Written round addr d none s done =
    let saved = saved_content d s.leader_commits done in
    let s1 = record s { leader_commits = (save_leader_commit_data d s.leader_commits).1 } in
    kept refl (record {
      in_memory = lookup-update round addr round addr d s1 ∙ rw (==_refl round, ==_refl addr);
      in_file =
          ap (λ c. get (commit_key d.round d.eoa_address) (entries c)) saved
          ∙ get-put_self (commit_key d.round d.eoa_address) (with_cvs_hex d)
              (entries s.leader_commits.content);
    })
after_save-Written round addr d (some e) s bad = unwritten e bad refl refl

store_entry-Written :
    (round addr : Bytes) (d : LeaderCommitData) (s : Leader)
    → Written round addr d s (store_entry round addr d s)
unfolding store_entry
store_entry-Written round addr d s =
    after_save-Written round addr d (save_leader_commit_data d s.leader_commits).0 s refl

module _ (eth : Ethereum) where
  -- The locked part of handleCommitRequest either keeps the entry that was there, or a new one,
  -- with the CVS of the request if it had none, both in memory and in the file, and goes on; or the file
  -- could not be written, and it stops with the entry as it was or new in memory.
  pub commit_locked-Written :
      (req : CommitRequest) (s : Leader)
      → let (s1, d) = get_or_create eth req.round (eth.hex_to_address req.eoa_address) s in
        Written req.round
          (eth.hex_to_address req.eoa_address)
          (take_cvs req d)
          s1
          (commit_locked eth req s)
  unfolding commit_locked
  commit_locked-Written req s =
      let addr = eth.hex_to_address req.eoa_address in
      let (s1, d) = get_or_create eth req.round addr s in
      store_entry-Written req.round addr (take_cvs req d) s1

  with_cvs_hex-secret : (d : LeaderCommitData) → (with_cvs_hex d).secret_value ≡ d.secret_value
  unfolding with_cvs_hex
  with_cvs_hex-secret d = elim (Bool-cases (d.cvs == zero32)) [
    | inl e ↦ rw (e, with_cvs_hex) refl
    | inr e ↦ rw (e, with_cvs_hex) refl
  ]

  secret_after :
      (round addr : Bytes) (d : LeaderCommitData) (s : Leader) (r : Leader × Bool)
      → IsEntry eth round addr d
      → Written round addr d s r
      → r.1 ≡ true
      → (f : LeaderCommitData) × (get
            (commit_key round (eth.address_hex addr))
            (entries r.0.leader_commits.content)
          ≡ some f)
        × (f.secret_value ≡ zero32)
  secret_after round addr d s r i (kept _ k) on = (
    with_cvs_hex d,
    subst (λ (key : Bytes). get key (entries r.0.leader_commits.content) ≡ some (with_cvs_hex d))
        (ap (λ (x : Bytes). commit_key x d.eoa_address) i.of_round ∙ ap (commit_key round) i.of_eoa)
        k.in_file,
    with_cvs_hex-secret d ∙ i.no_secret,
  )
  secret_after round addr d s r i (unwritten e _ off _) on = absurd (cc)

  -- From a consistent memory, a commit request with a CVS of 32 bytes that is kept leaves a zero
  -- secret value in the file under its round and address, whatever secret value was there.
  pub commit_locked-secret :
      (req : CommitRequest) (s : Leader)
      → length req.cvs ≡ 32
      → IsConsistent eth s
      → (commit_locked eth req s).1 ≡ true
      → (f : LeaderCommitData) × (get
            (commit_key req.round (eth.address_hex (eth.hex_to_address req.eoa_address)))
            (entries (commit_locked eth req s).0.leader_commits.content)
          ≡ some f)
        × (f.secret_value ≡ zero32)
  commit_locked-secret req s len c on =
      let addr = eth.hex_to_address req.eoa_address in
      let (s1, d) = get_or_create eth req.round addr s in
      let (_, i) = get_or_create-IsConsistent eth req.round addr s c in
      secret_after req.round addr (take_cvs req d) s1 (commit_locked eth req s)
        (take_cvs-IsEntry eth req req.round addr d len i) (commit_locked-Written req s) on

  -- A COS that opens the CVS of an entry without a COS goes through to the write of the entry.
  cos_into-opens :
      (req : CosRequest) (d : LeaderCommitData) (s : Leader)
      → d.cvs ≢ zero32
      → keccak256 eth req.cos ≡ d.cvs
      → d.cos ≡ zero32
      → cos_into eth req d s
        ≡ store_entry req.round
            (eth.hex_to_address req.eoa_address)
            (record d { cos = req.cos; cos_hex = encode_to_string req.cos })
            s
  unfolding cos_into
  cos_into-opens req d s some_cvs opened first = rw (
    ==_false d.cvs zero32 some_cvs,
    (bytes_eq.equals_iff (keccak256 eth req.cos) d.cvs).1 opened,
    (bytes_eq.equals_iff d.cos zero32).1 first,
    cos_into,
  )

  -- Where memory has an entry with a CVS other than zero and no COS, a COS whose digest is that CVS
  -- is kept in memory and in the file with the rest of the entry, unless the file cannot be written.
  pub cos_locked-Written :
      (req : CosRequest) (d : LeaderCommitData) (s : Leader)
      → lookup req.round (eth.hex_to_address req.eoa_address) s ≡ some d
      → d.cvs ≢ zero32
      → keccak256 eth req.cos ≡ d.cvs
      → d.cos ≡ zero32
      → Written req.round
          (eth.hex_to_address req.eoa_address)
          (record d { cos = req.cos; cos_hex = encode_to_string req.cos })
          s
          (cos_locked eth req s)
  unfolding cos_locked get_or_create created
  cos_locked-Written req d s there some_cvs opened first =
      let addr = eth.hex_to_address req.eoa_address in
      let d' = record d { cos = req.cos; cos_hex = encode_to_string req.cos } in
      rw (there, created)
        (subst (Written req.round addr d' s) (sym (cos_into-opens req d s some_cvs opened first))
          (store_entry-Written req.round addr d' s))
