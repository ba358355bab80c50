-- ===== src/Leader/Monitor/Keys.antt =====
-- nodes/leaderNode_helper/monitor_commits.go: the keys of leader_commits.json, taken apart again.
pub mod Parsed
use drb_node.Base.{
  ℕ, zero, suc, ◌+◌, Bytes, nat_eq, bytes_eq, Bool, Option, none, some, List, [], ◌∷◌, ◌++◌, ◌==◌,
  ◌||◌, if◌then◌else◌, length, take, drop, get_or,
}
use drb_node.Base.Maps.{Map, get, put}
use drb_node.Crypto.{Ethereum}
use drb_node.Utils.LeaderNodeData.{LeaderCommitData}

abbrev pub plus : ℕ
plus = 43

-- The loop of parseLeaderCommitKey from index `i - 1` down to 0; the length where no + is found.
unfoldable pub last_plus : Bytes → ℕ → ℕ
last_plus key zero = length key
last_plus key (suc i) = let rest = last_plus key i in if get_or key i 0 == plus then i else rest

-- parseLeaderCommitKey
unfoldable pub parse_leader_commit_key : Bytes → Bytes × Bytes
unfolding last_plus
parse_leader_commit_key key =
    let split = last_plus key (length key) in
    if split == length key then ([], []) else (take split key, drop (suc split) key)

unfoldable pub append_if_not_exists : List Bytes → Bytes → List Bytes
append_if_not_exists [] eoa = eoa ∷ []
append_if_not_exists (addr ∷ rest) eoa =
    let later = append_if_not_exists rest eoa in if addr == eoa then addr ∷ rest else addr ∷ later

eoas_of : Option (List Bytes) → List Bytes
eoas_of none = []
eoas_of (some eoas) = eoas

module _ (eth : Ethereum) where
  -- The loop of getEOAsForRounds.
  unfoldable pub group_eoas :
      Map Bytes LeaderCommitData → Map Bytes (List Bytes) → Map Bytes (List Bytes)
  unfolding parse_leader_commit_key append_if_not_exists eoas_of
  group_eoas [] eoas = eoas
  group_eoas ((key, _) ∷ rest) eoas =
      let (round, eoa) = parse_leader_commit_key key in
      group_eoas rest (
        if round == [] || eoa == []
        then eoas
        else put round (append_if_not_exists (eoas_of (get round eoas)) (eth.hex_to_address eoa))
            eoas)
