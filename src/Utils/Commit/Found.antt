-- ===== src/Utils/Commit/Found.antt =====
-- utils/commit.go: a load of the commit file that finds what is stored.
use drb_node.Base.{◌≡◌, refl, ap, Bytes, bytes_eq, some, []}
use drb_node.Base.Maps.{get}
use drb_node.Go.File.{
  Content, absent, blank, garbled, holds, no_fault, JsonFile, entries, read_file, read_result,
  other_faults,
}
use drb_node.Utils.Commit.{CommitData, commit, found_commit, find_round, load_commit_data}
use drb_node.Utils.Commit.Growth.{stored}

find_round-found :
    (round : Bytes) (c : Content CommitData) (d : CommitData)
    → get round (entries c) ≡ some d
    → find_round round (read_result no_fault c) ≡ commit d
unfolding find_round found_commit get
find_round-found round absent d e = cc
find_round-found round blank d e = cc
find_round-found round garbled d e = cc
find_round-found round (holds m) d e = rw e

-- Without a fault of the file, a load finds what is stored.
pub load-found :
    (round : Bytes) (f : JsonFile CommitData) (d : CommitData)
    → f.faults ≡ []
    → stored round f ≡ some d
    → (load_commit_data round f).0 ≡ commit d
unfolding load_commit_data read_file
load-found round f d calm there = rw calm (find_round-found round f.content d there)

-- Such a load meets no fault later, and changes no entry.
pub load-calm :
    (round key : Bytes) (f : JsonFile CommitData)
    → f.faults ≡ []
    → ((load_commit_data round f).1.faults ≡ [])
      × (stored key (load_commit_data round f).1 ≡ stored key f)
unfolding load_commit_data read_file
load-calm round key f calm = (ap other_faults calm, refl)
