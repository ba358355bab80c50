-- ===== src/Leader/Rounds.antt =====
-- nodes/leaderNode.go: processRounds, over the rounds that the subgraph reports.
pub mod Reached
pub mod Formed
use drb_node.Base.{
  Bytes, bytes_eq, Bool, true, not, Option, none, some, List, [], ◌∷◌, ◌==◌, ◌&&◌, if◌then◌else◌,
}
use drb_node.Base.Maps.{Map, get, put}
use drb_node.Crypto.{Ethereum}
use drb_node.Leader.State.{Leader, Setup, Replies, if_running, all_commits_received}
use drb_node.Leader.MerkleRoot.{zero_operator, generate_merkle_root}

-- A round as the subgraph reports it; `none` is a round number that is no string.
pub record RoundData : Type 0 where
  pub merkle_root_set : Bool
  pub round : Option Bytes
  pub random_number_set : Bool
  pub activated_operators : List Bytes

module _ (eth : Ethereum) where
  -- The loop over the operators of a round: the zero address is left out.
  unfoldable pub add_operators : List Bytes → Map Bytes Bool → Map Bytes Bool
  add_operators [] known = known
  add_operators (op ∷ ops) known =
      let addr = eth.hex_to_address op in
      add_operators ops
        (if addr == eth.hex_to_address zero_operator then known else put addr true known)

  known_operators : Option (Map Bytes Bool) → Map Bytes Bool
  known_operators none = []
  known_operators (some m) = m

  unfoldable pub note_operators : Bytes → List Bytes → Leader → Leader
  unfolding add_operators known_operators
  note_operators round [] s = s
  note_operators round (op ∷ ops) s = record s {
    activated_operators =
        put round (add_operators (op ∷ ops) (known_operators (get round s.activated_operators)))
          s.activated_operators;
  }

  module _ (setup : Setup) (replies : Replies) where
    process_named : RoundData → Option Bytes → Leader → Leader
    unfolding note_operators
    process_named r none s = s
    process_named r (some round) s =
        let s1 = note_operators round r.activated_operators s in
        if not r.merkle_root_set && not r.random_number_set
        then (if all_commits_received round s1
            then generate_merkle_root eth setup replies round s1
            else s1)
        else s1

    unfoldable pub process_round : RoundData → Leader → Leader
    unfolding process_named
    process_round r s = process_named r r.round s

    unfoldable pub process_rounds : List RoundData → Leader → Leader
    unfolding process_round
    process_rounds [] s = s
    process_rounds (r ∷ rs) s = process_rounds rs (if_running (process_round r) s)
