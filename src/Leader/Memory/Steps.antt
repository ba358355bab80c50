-- ===== src/Leader/Memory/Steps.antt =====
-- nodes/leaderNode.go: the critical sections of the handlers as steps, in any order. Handlers run
-- in goroutines of their own, and commitMu makes each part between Lock and Unlock one step.
use drb_node.Base.{
  ◌≡◌, sym, subst, inl, inr, Bytes, bytes_eq, Option, none, some, ◌==◌, Bool-cases, zero32, length,
  arith,
}
use drb_node.Base.Maps.{AllEntries}
use drb_node.Crypto.{Ethereum}
use drb_node.Go.File.{Error}
use drb_node.Go.Hex.{encode_to_string}
use drb_node.Utils.Requests.{CommitRequest, CosRequest}
use drb_node.Utils.LeaderNodeData.{LeaderCommitData, save_leader_commit_data}
use drb_node.CommitReveal.Commit.{keccak256}
use drb_node.Leader.State.{Leader, get_or_create}
use drb_node.Leader.MerkleRoot.{update_commit_data_after_submit}
use drb_node.Leader.Handlers.{
  take_cvs, store_entry, after_save, commit_locked, cos_locked, cos_into,
}
use drb_node.Leader.Memory.Entries.{
  IsEntry, IsRound, IsConsistent, take_cvs-IsEntry, with_cos-IsEntry, update_in_memory-IsConsistent,
  get_or_create-IsConsistent,
}
use drb_node.Leader.Memory.Marks.{mark-IsConsistent}

module _ (eth : Ethereum) where
  -- `elsewhere` is any step that leaves committedNodes alone: a read or write of a file, a message
  -- or a transaction, a round noted, the end of the process.
  pub data Step : Leader → Leader → Type 0 where
    commits :
        (req : CommitRequest) (s : Leader)
        → length req.cvs ≡ 32
        → Step s (commit_locked eth req s).0
    opens : (req : CosRequest) (s : Leader) → Step s (cos_locked eth req s).0
    marks : (round : Bytes) (s : Leader) → Step s (update_commit_data_after_submit round s)
    elsewhere : (s s' : Leader) → s'.committed_nodes ≡ s.committed_nodes → Step s s'

  pub data Reach (s : Leader) : Leader → Type 0 where
    here : Reach s s
    next : {t u : Leader} → Reach s t → Step t u → Reach s u

  elsewhere-IsConsistent :
      (s s' : Leader)
      → s'.committed_nodes ≡ s.committed_nodes
      → IsConsistent eth s
      → IsConsistent eth s'
  elsewhere-IsConsistent s s' same c = subst (AllEntries (IsRound eth)) (sym same) c

  after_save-IsConsistent :
      (round addr : Bytes) (d : LeaderCommitData) (e : Option Error) (s : Leader)
      → IsConsistent eth s
      → IsEntry eth round addr d
      → IsConsistent eth (after_save round addr d e s).0
  unfolding after_save
  after_save-IsConsistent round addr d none s c i =
      update_in_memory-IsConsistent eth round addr d s c i
  after_save-IsConsistent round addr d (some _) s c i = c

  store_entry-IsConsistent :
      (round addr : Bytes) (d : LeaderCommitData) (s : Leader)
      → IsConsistent eth s
      → IsEntry eth round addr d
      → IsConsistent eth (store_entry round addr d s).0
  unfolding store_entry
  store_entry-IsConsistent round addr d s c i =
      let (e, file) = save_leader_commit_data d s.leader_commits in
      after_save-IsConsistent round addr d e (record s { leader_commits = file }) c i

  commit-IsConsistent :
      (req : CommitRequest) (s : Leader)
      → length req.cvs ≡ 32
      → IsConsistent eth s
      → IsConsistent eth (commit_locked eth req s).0
  unfolding commit_locked
  commit-IsConsistent req s len c =
      let addr = eth.hex_to_address req.eoa_address in
      let (c', i) = get_or_create-IsConsistent eth req.round addr s c in
      let (s1, d) = get_or_create eth req.round addr s in
      store_entry-IsConsistent req.round addr (take_cvs req d) s1 c'
        (take_cvs-IsEntry eth req req.round addr d len i)

  cos_into-IsConsistent :
      (req : CosRequest) (d : LeaderCommitData) (s : Leader)
      → IsConsistent eth s
      → IsEntry eth req.round (eth.hex_to_address req.eoa_address) d
      → IsConsistent eth (cos_into eth req d s).0
  unfolding cos_into
  cos_into-IsConsistent req d s c i = elim (Bool-cases (d.cvs == zero32)) [
    | inl no_cvs ↦ rw (no_cvs, cos_into) c
    | inr some_cvs ↦
        rw (some_cvs, cos_into)
          (elim (Bool-cases (keccak256 eth req.cos == d.cvs)) [
            | inr closed ↦ rw closed c
            | inl opened ↦ rw opened (elim (Bool-cases (d.cos == zero32)) [
              | inr again ↦ rw again c
              | inl first ↦ rw first (
                  store_entry-IsConsistent req.round (eth.hex_to_address req.eoa_address)
                    (record d { cos = req.cos; cos_hex = encode_to_string req.cos }) s c
                    (with_cos-IsEntry eth req.cos (encode_to_string req.cos) req.round
                      (eth.hex_to_address req.eoa_address) d
                      (λ e. ground (arith, bytes_eq.equals_iff d.cvs zero32))
                      ((bytes_eq.equals_iff (keccak256 eth req.cos) d.cvs).0 opened) i))
            ])
          ])
  ]

  cos-IsConsistent :
      (req : CosRequest) (s : Leader)
      → IsConsistent eth s
      → IsConsistent eth (cos_locked eth req s).0
  unfolding cos_locked
  cos-IsConsistent req s c =
      let addr = eth.hex_to_address req.eoa_address in
      let (c', i) = get_or_create-IsConsistent eth req.round addr s c in
      let (s1, d) = get_or_create eth req.round addr s in cos_into-IsConsistent req d s1 c' i

  pub Step-IsConsistent : {s t : Leader} → Step s t → IsConsistent eth s → IsConsistent eth t
  Step-IsConsistent (commits req s len) c = commit-IsConsistent req s len c
  Step-IsConsistent (opens req s) c = cos-IsConsistent req s c
  Step-IsConsistent (marks round s) c = mark-IsConsistent eth round s c
  Step-IsConsistent (elsewhere s s' same) c = elsewhere-IsConsistent s s' same c

  -- In whatever order the critical sections run, from a leader whose entries are consistent, each
  -- entry in memory stands under its own round and address, has a CVS of 32 bytes, a COS that is
  -- zero or whose digest is the CVS, and no secret value. The CVS of each request has 32 bytes.
  pub Reach-IsConsistent : {s t : Leader} → Reach s t → IsConsistent eth s → IsConsistent eth t
  Reach-IsConsistent here c = c
  Reach-IsConsistent (next r step) c = Step-IsConsistent step (Reach-IsConsistent r c)

  pub Reach-trans : {s t u : Leader} → Reach s t → Reach t u → Reach s u
  Reach-trans r here = r
  Reach-trans r (next q step) = next (Reach-trans r q) step

  pub one-elsewhere : (s s' : Leader) → s'.committed_nodes ≡ s.committed_nodes → Reach s s'
  one-elsewhere s s' same = next here (elsewhere s s' same)
