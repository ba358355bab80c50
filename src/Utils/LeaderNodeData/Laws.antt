-- ===== src/Utils/LeaderNodeData/Laws.antt =====
-- utils/leaderNodeData.go: what a saved entry reads back as.
use drb_node.Base.{
  ◌≡◌, refl, ap, Bytes, bytes_eq, false, none, [], ◌==◌, copy_into_all, zero32, Bool-cases, inl,
  inr, ◌⊎◌, arith, All, length, ==_false, ◌∙◌,
}
use drb_node.Base.Maps.{Map, put, get-put_self}
use drb_node.Go.Hex.{encode_to_string, IsByte, decode-encode, length-encode}
use drb_node.Go.File.{
  JsonFile, no_fault, holds, entries, first_fault, ok, read_file, update_file-done,
}
use drb_node.Utils.LeaderNodeData.{
  LeaderCommitData, loaded, commit_key, cvs_from_hex, find_commit, load_leader_commit_data,
  with_cvs_hex, save_leader_commit_data,
}

-- The values that a [32]byte field can have, and a hex text that stands beside them.
pub record IsStored (d : LeaderCommitData) : Type 0 where
  pub cvs_size : length d.cvs ≡ 32
  pub cvs_bytes : All IsByte d.cvs
  pub hex_text : (d.cvs_hex ≡ []) ⊎ (d.cvs_hex ≡ encode_to_string d.cvs)

encode_ne_nil : (b : Bytes) → length b ≡ 32 → (encode_to_string b == []) ≡ false
encode_ne_nil b len =
    ==_false (encode_to_string b) [] (λ e. omega (arith, ap length e, length-encode b))

cvs_from_hex_none : (d : LeaderCommitData) → d.cvs_hex ≡ [] → cvs_from_hex d ≡ loaded d
unfolding cvs_from_hex
cvs_from_hex_none d e = ground (arith, bytes_eq.equals_iff d.cvs_hex [])

cvs_from_hex_some :
    (d : LeaderCommitData)
    → length d.cvs ≡ 32
    → All IsByte d.cvs
    → d.cvs_hex ≡ encode_to_string d.cvs
    → cvs_from_hex d ≡ loaded d
unfolding cvs_from_hex
cvs_from_hex_some d len bytes e =
    ground
      (arith, encode_ne_nil d.cvs len, decode-encode d.cvs bytes, copy_into_all d.cvs d.cvs refl)

cvs_from_hex-with_cvs_hex :
    (d : LeaderCommitData) → IsStored d → cvs_from_hex (with_cvs_hex d) ≡ loaded (with_cvs_hex d)
unfolding with_cvs_hex
cvs_from_hex-with_cvs_hex d s = elim (Bool-cases (d.cvs == zero32)) [
  | inl zero ↦
      rw (zero, with_cvs_hex)
        (elim s.hex_text [
          | inl no_hex ↦ cvs_from_hex_none d no_hex
          | inr hex ↦ cvs_from_hex_some d s.cvs_size s.cvs_bytes hex
        ])
  | inr some_cvs ↦
      rw (some_cvs, with_cvs_hex)
        (cvs_from_hex_some (record d { cvs_hex = encode_to_string d.cvs }) s.cvs_size s.cvs_bytes
          refl)
]

abbrev pub after_save : LeaderCommitData → JsonFile LeaderCommitData → JsonFile LeaderCommitData
after_save d file = (save_leader_commit_data d file).1

-- What a reader finds in the map under the key of the entry that was saved.
pub saved_content :
    (d : LeaderCommitData) (file : JsonFile LeaderCommitData)
    → (save_leader_commit_data d file).0 ≡ none
    → (after_save d file).content
      ≡ holds (put (commit_key d.round d.eoa_address) (with_cvs_hex d) (entries file.content))
unfolding save_leader_commit_data
saved_content d file done = update_file-done _ file done

load_of_content :
    (round eoa : Bytes) (file : JsonFile LeaderCommitData) (m : Map Bytes LeaderCommitData)
    → file.content ≡ holds m
    → first_fault file.faults ≡ no_fault
    → (load_leader_commit_data round eoa file).0 ≡ find_commit (commit_key round eoa) (ok m)
unfolding load_leader_commit_data read_file
load_of_content round eoa file m e f = ground arith

-- After a save that is reported as done, a load of the same round and address that meets no
-- fault returns what was saved, with the hex text of its CVS.
pub load-save_self :
    (d : LeaderCommitData) (file : JsonFile LeaderCommitData)
    → IsStored d
    → (save_leader_commit_data d file).0 ≡ none
    → first_fault (after_save d file).faults ≡ no_fault
    → (load_leader_commit_data d.round d.eoa_address (after_save d file)).0
      ≡ loaded (with_cvs_hex d)
unfolding find_commit
load-save_self d file s done f =
    load_of_content d.round d.eoa_address (after_save d file) _ (saved_content d file done) f
    ∙ rw (get-put_self, find_commit) (cvs_from_hex-with_cvs_hex d s)
