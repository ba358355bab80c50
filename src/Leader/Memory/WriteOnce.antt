-- ===== src/Leader/Memory/WriteOnce.antt =====
-- nodes/leaderNode.go: CVS and COS in memory under the steps, in any order.
use drb_node.Base.{
  ◌≡◌, refl, subst, ◌∙◌, inl, inr, Bytes, bytes_eq, Option, none, some, ◌==◌, Bool-cases, zero32,
  arith, ==_refl,
}
use drb_node.Crypto.{Ethereum}
use drb_node.Go.File.{Error}
use drb_node.Go.Hex.{encode_to_string}
use drb_node.Utils.Requests.{CommitRequest, CosRequest}
use drb_node.Utils.LeaderNodeData.{LeaderCommitData, new_commit_data, save_leader_commit_data}
use drb_node.CommitReveal.Commit.{keccak256}
use drb_node.Leader.State.{Leader, get_or_create, created}
use drb_node.Leader.Handlers.{
  take_cvs, store_entry, after_save, commit_locked, cos_locked, cos_into,
}
use drb_node.Leader.Memory.Growth.{
  lookup, Extends, Grows, Grows-refl, Grows-trans, update-Grows, lookup-update, take_cvs-Extends,
}
use drb_node.Leader.Memory.Marks.{mark-Grows}
use drb_node.Leader.Memory.Steps.{Step, commits, opens, marks, elsewhere, Reach, here, next}

-- A write that extends the entry that is found there, if one is.
abbrev ExtendsAt : Bytes → Bytes → Leader → LeaderCommitData → Type 0
ExtendsAt round addr s d = (old : LeaderCommitData) → lookup round addr s ≡ some old → Extends old d

after_save-Grows :
    (round addr : Bytes) (d : LeaderCommitData) (e : Option Error) (s : Leader)
    → ExtendsAt round addr s d
    → Grows s (after_save round addr d e s).0
unfolding after_save
after_save-Grows round addr d none s ext = update-Grows round addr d s ext
after_save-Grows round addr d (some _) s ext = Grows-refl s s refl

store_entry-Grows :
    (round addr : Bytes) (d : LeaderCommitData) (s : Leader)
    → ExtendsAt round addr s d
    → Grows s (store_entry round addr d s).0
unfolding store_entry
store_entry-Grows round addr d s ext =
    let (e, file) = save_leader_commit_data d s.leader_commits in
    after_save-Grows round addr d e (record s { leader_commits = file }) ext

module _ (eth : Ethereum) where
  -- The entry that is returned is the one that is then in memory, and no other changes.
  created_lem :
      (round addr : Bytes) (o : Option LeaderCommitData) (s : Leader)
      → lookup round addr s ≡ o
      → Grows s (created eth round addr o s).0
        × (lookup round addr (created eth round addr o s).0 ≡ some (created eth round addr o s).1)
  unfolding created
  created_lem round addr (some d) s e = (Grows-refl s s refl, e)
  created_lem round addr none s e =
      let d = new_commit_data round (eth.address_hex addr) in
      (
        update-Grows round addr d s (λ old found. absurd (cc)),
        lookup-update round addr round addr d s ∙ rw (==_refl round, ==_refl addr),
      )

  get_or_create_lem :
      (round addr : Bytes) (s : Leader)
      → Grows s (get_or_create eth round addr s).0
        × (lookup round addr (get_or_create eth round addr s).0
            ≡ some (get_or_create eth round addr s).1)
  unfolding get_or_create
  get_or_create_lem round addr s = created_lem round addr (lookup round addr s) s refl

  commit-Grows : (req : CommitRequest) (s : Leader) → Grows s (commit_locked eth req s).0
  unfolding commit_locked
  commit-Grows req s =
      let addr = eth.hex_to_address req.eoa_address in
      let (grows, found) = get_or_create_lem req.round addr s in
      let (s1, d) = get_or_create eth req.round addr s in
      Grows-trans s s1 (store_entry req.round addr (take_cvs req d) s1).0 grows (
        store_entry-Grows req.round addr (take_cvs req d) s1 λ old e.
          subst (λ x. Extends x (take_cvs req d)) (ground (arith, found, e))
            (take_cvs-Extends req d))

  cos_into-Grows :
      (req : CosRequest) (d : LeaderCommitData) (s : Leader)
      → lookup req.round (eth.hex_to_address req.eoa_address) s ≡ some d
      → Grows s (cos_into eth req d s).0
  unfolding cos_into
  cos_into-Grows req d s found = elim (Bool-cases (d.cvs == zero32)) [
    | inl no_cvs ↦ rw (no_cvs, cos_into) (Grows-refl s s refl)
    | inr some_cvs ↦
        rw (some_cvs, cos_into)
          (elim (Bool-cases (keccak256 eth req.cos == d.cvs)) [
            | inr closed ↦ rw closed (Grows-refl s s refl)
            | inl opened ↦ rw opened (elim (Bool-cases (d.cos == zero32)) [
              | inr again ↦ rw again (Grows-refl s s refl)
              | inl first ↦ rw first (
                  store_entry-Grows req.round (eth.hex_to_address req.eoa_address)
                    (record d { cos = req.cos; cos_hex = encode_to_string req.cos }) s
                    λ old e.
                      let same : d ≡ old = ground (arith, found, e) in
                      subst
                        (λ x.
                          Extends x
                            (record d { cos = req.cos; cos_hex = encode_to_string req.cos }))
                        same
                        (record {
                          keeps_cvs = inr (refl, refl);
                          keeps_cos = inl ((bytes_eq.equals_iff d.cos zero32).0 first);
                          keeps_done = λ h. h;
                        }))
            ])
          ])
  ]

  cos-Grows : (req : CosRequest) (s : Leader) → Grows s (cos_locked eth req s).0
  unfolding cos_locked
  cos-Grows req s =
      let addr = eth.hex_to_address req.eoa_address in
      let (grows, found) = get_or_create_lem req.round addr s in
      let (s1, d) = get_or_create eth req.round addr s in
      Grows-trans s s1 (cos_into eth req d s1).0 grows (cos_into-Grows req d s1 found)

  Step-Grows : {s t : Leader} → Step eth s t → Grows s t
  Step-Grows (commits req s len) = commit-Grows req s
  Step-Grows (opens req s) = cos-Grows req s
  Step-Grows (marks round s) = mark-Grows round s
  Step-Grows (elsewhere s s' same) = Grows-refl s s' same

  -- In whatever order the critical sections run, an entry in memory stays, a CVS other than zero
  -- keeps its value and its signature, a COS other than zero keeps its value, and a round that is
  -- marked as submitted stays marked.
  pub Reach-Grows : {s t : Leader} → Reach eth s t → Grows s t
  Reach-Grows {s} here = Grows-refl s s refl
  Reach-Grows {s} (next {t} {u} r step) = Grows-trans s t u (Reach-Grows r) (Step-Grows step)
