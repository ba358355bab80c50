-- ===== src/Utils/Commit.antt =====
-- utils/commit.go: a regular node's commit data and the file commits.json.
pub mod Growth
pub mod Found
use drb_node.Base.{Bytes, bytes_eq, Bool, Option, none, some}
use drb_node.Base.Maps.{Map, get, put}
use drb_node.Go.File.{
  JsonFile, Error, not_exist, open_failed, decode_failed, encode_failed, Result, ok, err, read_file,
  update_file,
}

pub record CommitData : Type 0 where
  pub round : Bytes
  pub secret_value : Bytes
  pub cos : Bytes
  pub cvs : Bytes
  pub send_to_leader : Bool
  pub send_cos_to_leader : Bool
  pub sign : Map Bytes Bytes

-- `commit_not_found` is the error text that the caller compares with.
pub data LoadedCommit : Type 0 where
  commit : CommitData → LoadedCommit
  commit_not_found : LoadedCommit
  commit_error : Error → LoadedCommit

found_commit : Option CommitData → LoadedCommit
found_commit none = commit_not_found
found_commit (some d) = commit d

unfoldable pub find_round : Bytes → Result (Map Bytes CommitData) → LoadedCommit
unfolding found_commit
find_round round (err not_exist) = commit_not_found
find_round round (err open_failed) = commit_error open_failed
find_round round (err decode_failed) = commit_error decode_failed
find_round round (err encode_failed) = commit_error encode_failed
find_round round (ok commits) = found_commit (get round commits)

unfoldable pub load_commit_data : Bytes → JsonFile CommitData → LoadedCommit × JsonFile CommitData
unfolding find_round
load_commit_data round file =
    let (commits, file') = read_file file in (find_round round commits, file')

unfoldable pub save_commit_data :
    CommitData → JsonFile CommitData → Option Error × JsonFile CommitData
save_commit_data d file = update_file (put d.round d) file
