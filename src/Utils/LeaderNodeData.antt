-- ===== src/Utils/LeaderNodeData.antt =====
-- utils/leaderNodeData.go: the leader's commit data and the file leader_commits.json.
pub mod Laws
use drb_node.Base.{
  Bytes, bytes_eq, Bool, Option, none, some, List, [], ◌∷◌, ◌++◌, codes, ◌==◌, if◌then◌else◌,
  copy_into, zero32, ◌>>=◌,
}
use drb_node.Base.Maps.{Map, get, put}
use drb_node.Go.Hex.{encode_to_string, decode_string}
use drb_node.Go.File.{JsonFile, Error, Result, ok, err, read_file, update_file}

pub record LeaderCommitData : Type 0 where
  pub round : Bytes
  pub eoa_address : Bytes
  pub cvs : Bytes
  pub cvs_hex : Bytes
  pub cos : Bytes
  pub cos_hex : Bytes
  pub secret_value : Bytes
  pub secret_value_hex : Bytes
  pub sign : Map Bytes Bytes
  pub submit_merkle_root_done : Bool
  pub random_number_generated : Bool

-- LeaderCommitData{Round: round, EOAAddress: eoa}
unfoldable pub new_commit_data : Bytes → Bytes → LeaderCommitData
new_commit_data round eoa = record {
  round = round;
  eoa_address = eoa;
  cvs = zero32;
  cvs_hex = [];
  cos = zero32;
  cos_hex = [];
  secret_value = zero32;
  secret_value_hex = [];
  sign = [];
  submit_merkle_root_done = Bool.false;
  random_number_generated = Bool.false;
}

-- roundNum + "+" + eoaAddress
abbrev pub commit_key : Bytes → Bytes → Bytes
commit_key round eoa = round ++ (codes "+" ++ eoa)

pub data LoadError : Type 0 where
  unreadable : Error → LoadError
  key_not_found : LoadError
  bad_cvs_hex : LoadError

pub data Loaded : Type 0 where
  loaded : LeaderCommitData → Loaded
  load_failed : LoadError → Loaded

-- The bytes of `Cvs` are read from `CvsHex` where that is present.
unfoldable pub cvs_from_hex : LeaderCommitData → Loaded
cvs_from_hex d = if d.cvs_hex == [] then loaded d else elim (decode_string d.cvs_hex) [
  | none ↦ load_failed bad_cvs_hex
  | some bytes ↦ loaded (record d { cvs = copy_into d.cvs bytes })
]

unfoldable pub find_commit : Bytes → Result (Map Bytes LeaderCommitData) → Loaded
unfolding cvs_from_hex
find_commit key (err e) = load_failed (unreadable e)
find_commit key (ok commits) = elim (get key commits) [
  | none ↦ load_failed key_not_found
  | some d ↦ cvs_from_hex d
]

unfoldable pub load_leader_commit_data :
    Bytes → Bytes → JsonFile LeaderCommitData → Loaded × JsonFile LeaderCommitData
unfolding find_commit
load_leader_commit_data round eoa file =
    let (commits, file') = read_file file in (find_commit (commit_key round eoa) commits, file')

-- If Cvs is present, the hex value is stored too.
unfoldable pub with_cvs_hex : LeaderCommitData → LeaderCommitData
with_cvs_hex d = if d.cvs == zero32 then d else record d { cvs_hex = encode_to_string d.cvs }

unfoldable pub save_leader_commit_data :
    LeaderCommitData → JsonFile LeaderCommitData → Option Error × JsonFile LeaderCommitData
unfolding with_cvs_hex
save_leader_commit_data d file =
    update_file (put (commit_key d.round d.eoa_address) (with_cvs_hex d)) file
