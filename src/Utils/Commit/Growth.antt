-- ===== src/Utils/Commit/Growth.antt =====
-- utils/commit.go: the commit file of a regular node under loads and saves.
use drb_node.Base.{
  ◌≡◌, ◌⊎◌, inl, inr, refl, ap, ◌∙◌, Bytes, bytes_eq, true, Option, none, some, List, [], ◌∷◌, ◌==◌,
  Bool-cases, All,
}
use drb_node.Base.Maps.{Map, get, put, get-put, get-put_self, AllEntries, AllEntries-put}
use drb_node.Go.File.{
  Content, absent, blank, garbled, holds, Fault, no_fault, open_fails, transfer_fails, JsonFile,
  first_fault, other_faults, entries, read_result, read_file, update_content, update_file,
  update_file-done,
}
use drb_node.Utils.Commit.{
  CommitData, commit, commit_not_found, found_commit, find_round, load_commit_data,
  save_commit_data,
}

-- No use of the file stops halfway through the text.
abbrev pub Mild : List (Fault CommitData) → Type 0
Mild = All (λ f. (f ≡ no_fault) ⊎ (f ≡ open_fails))

-- The values of a commitment stay, and so does the mark that the COS was sent.
pub record Extends (d d' : CommitData) : Type 0 where
  pub same_secret : d'.secret_value ≡ d.secret_value
  pub same_cos : d'.cos ≡ d.cos
  pub same_cvs : d'.cvs ≡ d.cvs
  pub stays_sent : d.send_cos_to_leader ≡ true → d'.send_cos_to_leader ≡ true

pub Extends-refl : (d : CommitData) → Extends d d
Extends-refl d = record {
  same_secret = refl;
  same_cos = refl;
  same_cvs = refl;
  stays_sent = λ h. h;
}

-- The entry of a round.
abbrev pub stored : Bytes → JsonFile CommitData → Option CommitData
stored round f = get round (entries f.content)

abbrev pub Keeps : JsonFile CommitData → JsonFile CommitData → Type 0
Keeps f f' =
    (round : Bytes) (d : CommitData)
    → stored round f ≡ some d
    → (d' : CommitData) × (stored round f' ≡ some d') × Extends d d'

-- Loads and saves one after another, over a property of entries under their rounds.
module _ (IsOwn : Bytes → CommitData → Type 0) where
  abbrev pub IsSound : JsonFile CommitData → Type 0
  IsSound f = Mild f.faults × AllEntries IsOwn (entries f.content)

  -- A file that is sound stays so, and keeps its entries.
  abbrev pub Grows : JsonFile CommitData → JsonFile CommitData → Type 0
  Grows f f' = IsSound f → IsSound f' × Keeps f f'

  pub Grows-refl : (f : JsonFile CommitData) → Grows f f
  Grows-refl f sound = (sound, λ round d e. (d, e, Extends-refl d))

  pub Grows-trans : (f g h : JsonFile CommitData) → Grows f g → Grows g h → Grows f h
  Grows-trans f g h p q sound =
      let (sound_g, keeps_g) = p sound in
      let (sound_h, keeps_h) = q sound_g in
      (
        sound_h,
        λ round d e.
            let (d', e', x) = keeps_g round d e in
            let (d'', e'', y) = keeps_h round d' e' in
            (
              d'',
              e'',
              record {
                same_secret = y.same_secret ∙ x.same_secret;
                same_cos = y.same_cos ∙ x.same_cos;
                same_cvs = y.same_cvs ∙ x.same_cvs;
                stays_sent = λ h. y.stays_sent (x.stays_sent h);
              },
            ),
      )

  other-Mild : (fs : List (Fault CommitData)) → Mild fs → Mild (other_faults fs)
  other-Mild [] m = tt
  other-Mild (f ∷ fs) m = m.1

  pub load-Grows : (round : Bytes) (f : JsonFile CommitData) → Grows f (load_commit_data round f).1
  unfolding load_commit_data read_file
  load-Grows round f (mild, own) =
      ((other-Mild f.faults mild, own), λ r d e. (d, e, Extends-refl d))

  put-Keeps :
      (d : CommitData) (m : Map Bytes CommitData)
      → ((old : CommitData) → get d.round m ≡ some old → Extends old d)
      → (round : Bytes) (x : CommitData) → get round m ≡ some x
      → (d' : CommitData) × (get round (put d.round d m) ≡ some d') × Extends x d'
  put-Keeps d m ext round x e = elim (Bool-cases (d.round == round)) [
    | inl same ↦
        let here : d.round ≡ round = (bytes_eq.equals_iff d.round round).0 same in
        (d, rw (get-put, same) refl, ext x (ap (λ r. get r m) here ∙ e))
    | inr other ↦ (x, rw (get-put, other) e, Extends-refl x)
  ]

  save_content :
      (d : CommitData) (fault : Fault CommitData) (c : Content CommitData)
      → (fault ≡ no_fault) ⊎ (fault ≡ open_fails)
      → AllEntries IsOwn (entries c)
      → IsOwn d.round d
      → ((old : CommitData) → get d.round (entries c) ≡ some old → Extends old d)
      → let c' = (update_content (put d.round d) fault c).1 in
        AllEntries IsOwn (entries c')
        × ((round : Bytes) (x : CommitData)
            → get round (entries c) ≡ some x
            → (d' : CommitData) × (get round (entries c') ≡ some d') × Extends x d')
  save_content d no_fault absent mild own mine ext =
      (AllEntries-put IsOwn d.round d [] own mine, put-Keeps d [] ext)
  save_content d no_fault blank mild own mine ext =
      (AllEntries-put IsOwn d.round d [] own mine, put-Keeps d [] ext)
  save_content d no_fault garbled mild own mine ext = (own, λ round x e. (x, e, Extends-refl x))
  save_content d no_fault (holds m) mild own mine ext =
      (AllEntries-put IsOwn d.round d m own mine, put-Keeps d m ext)
  save_content d open_fails c mild own mine ext = (own, λ round x e. (x, e, Extends-refl x))
  save_content d (transfer_fails left) c mild own mine ext = absurd (not_mild mild)
    where
      not_mild :
          {left : Content CommitData}
          → (transfer_fails left ≡ no_fault) ⊎ (transfer_fails left ≡ open_fails)
          → ⊥
      not_mild (inl e) = absurd (cc)
      not_mild (inr e) = absurd (cc)

  first-Mild :
      (fs : List (Fault CommitData))
      → Mild fs
      → (first_fault fs ≡ no_fault) ⊎ (first_fault fs ≡ open_fails)
  first-Mild [] m = inl refl
  first-Mild (f ∷ fs) m = m.0

  -- A save of an entry that extends what is stored for its round.
  pub save-Grows :
      (d : CommitData) (f : JsonFile CommitData)
      → IsOwn d.round d
      → ((old : CommitData) → stored d.round f ≡ some old → Extends old d)
      → Grows f (save_commit_data d f).1
  unfolding save_commit_data update_file
  save-Grows d f mine ext (mild, own) =
      let (own', keeps) =
        save_content d (first_fault f.faults) f.content (first-Mild f.faults mild) own mine ext in
      ((other-Mild f.faults mild, own'), keeps)

found-stored : (o : Option CommitData) (d : CommitData) → found_commit o ≡ commit d → o ≡ some d
unfolding found_commit
found-stored none d e = absurd (cc)
found-stored (some x) d e = cc

found-none : (o : Option CommitData) → found_commit o ≡ commit_not_found → o ≡ none
unfolding found_commit
found-none none e = refl
found-none (some x) e = absurd (cc)

find_round-stored :
    (round : Bytes) (fault : Fault CommitData) (c : Content CommitData) (d : CommitData)
    → find_round round (read_result fault c) ≡ commit d
    → get round (entries c) ≡ some d
unfolding find_round
find_round-stored round no_fault (holds m) d e = found-stored (get round m) d e
find_round-stored round no_fault absent d e = absurd (cc)
find_round-stored round no_fault blank d e = absurd (cc)
find_round-stored round no_fault garbled d e = absurd (cc)
find_round-stored round open_fails c d e = absurd (cc)
find_round-stored round (transfer_fails _) c d e = absurd (cc)

find_round-none :
    (round : Bytes) (fault : Fault CommitData) (c : Content CommitData)
    → find_round round (read_result fault c) ≡ commit_not_found
    → get round (entries c) ≡ none
unfolding find_round get
find_round-none round no_fault (holds m) e = found-none (get round m) e
find_round-none round no_fault absent e = refl
find_round-none round no_fault blank e = absurd (cc)
find_round-none round no_fault garbled e = absurd (cc)
find_round-none round open_fails c e = absurd (cc)
find_round-none round (transfer_fails _) c e = absurd (cc)

-- What a load finds is stored, and what it does not find is not.
pub load-stored :
    (round : Bytes) (f : JsonFile CommitData) (d : CommitData)
    → (load_commit_data round f).0 ≡ commit d
    → stored round (load_commit_data round f).1 ≡ some d
unfolding load_commit_data read_file
load-stored round f d e = find_round-stored round (first_fault f.faults) f.content d e

pub load-none :
    (round : Bytes) (f : JsonFile CommitData)
    → (load_commit_data round f).0 ≡ commit_not_found
    → stored round (load_commit_data round f).1 ≡ none
unfolding load_commit_data read_file
load-none round f e = find_round-none round (first_fault f.faults) f.content e

-- After a save that is reported as done the entry is stored.
pub save-stored :
    (d : CommitData) (f : JsonFile CommitData)
    → (save_commit_data d f).0 ≡ none
    → stored d.round (save_commit_data d f).1 ≡ some d
unfolding save_commit_data
save-stored d f done =
    ap (λ c. get d.round (entries c)) (update_file-done (put d.round d) f done)
    ∙ get-put_self d.round d (entries f.content)
