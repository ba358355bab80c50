-- ===== src/Leader/Memory/Marks.antt =====
-- nodes/leaderNode.go: updateCommitDataAfterSubmit and the entries in memory.
use drb_node.Base.{
  ◌≡◌, refl, sym, ap, subst, ◌∙◌, inl, inr, Bytes, bytes_eq, true, Option, none, some, [], ◌∷◌,
  ◌==◌, Bool-cases, Option-cases, arith,
}
use drb_node.Base.Maps.{Map, get, get-put, AllEntries-get, AllEntries-put}
use drb_node.Crypto.{Ethereum}
use drb_node.Go.File.{JsonFile, Error}
use drb_node.Utils.LeaderNodeData.{LeaderCommitData, save_leader_commit_data}
use drb_node.Leader.State.{Leader, or_nil}
use drb_node.Leader.MerkleRoot.{mark_submitted, update_commit_data_after_submit}
use drb_node.Leader.Memory.Entries.{IsEntry, IsRound, IsConsistent}
use drb_node.Leader.Memory.Growth.{Extends, Extends-refl, Grows}

abbrev pub submitted : LeaderCommitData → LeaderCommitData
submitted d = record d { submit_merkle_root_done = true }

-- The entry after the attempt to save it.
abbrev pub marked : Option Error → LeaderCommitData → LeaderCommitData
marked e d = elim e [ none ↦ submitted d | some _ ↦ d ]

marked-Extends : (e : Option Error) (d : LeaderCommitData) → Extends d (marked e d)
marked-Extends none d = record {
  keeps_cvs = inr (refl, refl);
  keeps_cos = inr refl;
  keeps_done = λ _. refl;
}
marked-Extends (some _) d = Extends-refl d

mark_submitted-Extends :
    (m : Map Bytes LeaderCommitData) (file : JsonFile LeaderCommitData) (a : Bytes)
    → (d : LeaderCommitData) → get a m ≡ some d
    → (d' : LeaderCommitData) × (get a (mark_submitted m file).0 ≡ some d') × Extends d d'
unfolding mark_submitted get
mark_submitted-Extends [] file a d found = absurd (cc)
mark_submitted-Extends ((b, x) ∷ m) file a d found =
    let (e, file') = save_leader_commit_data (submitted x) file in
    elim (Bool-cases (b == a)) [
      | inl here ↦
          let same : x ≡ d = ground arith in
          (marked e x, rw here, subst (λ y. Extends y (marked e x)) same (marked-Extends e x))
      | inr later ↦
          let (d', at, ext) = mark_submitted-Extends m file' a d (ground arith) in
          (d', rw later at, ext)
    ]

module _ (eth : Ethereum) where
  marked-IsEntry :
      (round addr : Bytes) (e : Option Error) (d : LeaderCommitData)
      → IsEntry eth round addr d
      → IsEntry eth round addr (marked e d)
  marked-IsEntry round addr none d i = record {
    of_round = i.of_round;
    of_eoa = i.of_eoa;
    cvs_size = i.cvs_size;
    hex_text = i.hex_text;
    cos_after_cvs = i.cos_after_cvs;
    cos_opens = i.cos_opens;
    no_secret = i.no_secret;
  }
  marked-IsEntry round addr (some _) d i = i

  mark_submitted-IsRound :
      (round : Bytes) (m : Map Bytes LeaderCommitData) (file : JsonFile LeaderCommitData)
      → IsRound eth round m
      → IsRound eth round (mark_submitted m file).0
  unfolding mark_submitted
  mark_submitted-IsRound round [] file a = tt
  mark_submitted-IsRound round ((addr, d) ∷ m) file a =
      let (e, file') = save_leader_commit_data (submitted d) file in
      (marked-IsEntry round addr e d a.0, mark_submitted-IsRound round m file' a.1)

  pub mark-IsConsistent :
      (round : Bytes) (s : Leader)
      → IsConsistent eth s
      → IsConsistent eth (update_commit_data_after_submit round s)
  unfolding update_commit_data_after_submit
  mark-IsConsistent round s c = elim (Option-cases (get round s.committed_nodes)) [
    | inl missing ↦ rw (missing, update_commit_data_after_submit) c
    | inr (m, there) ↦
        rw (there, update_commit_data_after_submit)
          (AllEntries-put (IsRound eth) round (mark_submitted m s.leader_commits).0
            s.committed_nodes c
            (mark_submitted-IsRound round m s.leader_commits
              (AllEntries-get (IsRound eth) round m s.committed_nodes c there)))
  ]

pub mark-Grows : (round : Bytes) (s : Leader) → Grows s (update_commit_data_after_submit round s)
unfolding update_commit_data_after_submit or_nil
mark-Grows round s r a d found = elim (Option-cases (get round s.committed_nodes)) [
  | inl missing ↦ rw (missing, update_commit_data_after_submit) (d, found, Extends-refl d)
  | inr (m, there) ↦
      rw (there, update_commit_data_after_submit, get-put)
        (elim (Bool-cases (round == r)) [
          | inl same ↦
              let rounds : round ≡ r = (bytes_eq.equals_iff round r).0 same in
              let in_round : get a m ≡ some d =
                ap (λ o. get a (or_nil o)) (sym there ∙ ap (λ x. get x s.committed_nodes) rounds)
                ∙ found in
              rw same (mark_submitted-Extends m s.leader_commits a d in_round)
          | inr other ↦ rw other (d, found, Extends-refl d)
        ])
]
