-- ===== src/Leader/Monitor/Secrets.antt =====
-- nodes/leaderNode_helper/monitor_commits.go: the secret values and the signatures of a round, in
-- the order of the activated operators.
pub mod Ready
pub mod Complete
use drb_node.Base.{
  ℕ, Bytes, bytes_eq, Bool, true, false, Option, none, some, List, [], ◌∷◌, ◌++◌, ◌==◌, ◌||◌, codes,
  if◌then◌else◌, zero32,
}
use drb_node.Base.Maps.{Map, get}
use drb_node.Crypto.{Ethereum}
use drb_node.Go.File.{Result, ok, err}
use drb_node.Go.Number.{parse_uint8}
use drb_node.Utils.LeaderNodeData.{LeaderCommitData, commit_key}
use drb_node.Leader.State.{NodeInfo, Leader, Setup, Replies}
use drb_node.Leader.Nodes.{load_registered_nodes}
use drb_node.Leader.Requests.{send_secret_value_request_to_node}

-- What an operator has submitted: a secret value with the parts of its signature.
pub record Submitted : Type 0 where
  pub secret : Bytes
  pub v : ℕ
  pub r : Bytes
  pub s : Bytes

-- secrets, vs, rs, ss
pub record Revealed : Type 0 where
  pub secrets : List Bytes
  pub vs : List ℕ
  pub rs : List Bytes
  pub ss : List Bytes

abbrev pub no_secrets : Revealed
no_secrets = record { secrets = []; vs = []; rs = []; ss = [] }

-- What the code finds for one operator.
pub data Judged : Type 0 where
  no_secret incomplete_signature bad_v : Judged
  ready : Submitted → Judged

-- The value of a key of a Go map of texts, the empty text where there is none.
unfoldable pub text_at : Bytes → Map Bytes Bytes → Bytes
text_at key m = elim (get key m) [ none ↦ [] | some text ↦ text ]

unfoldable pub append_submitted : Revealed → Submitted → Revealed
append_submitted acc x = record {
  secrets = acc.secrets ++ x.secret ∷ [];
  vs = acc.vs ++ x.v ∷ [];
  rs = acc.rs ++ x.r ∷ [];
  ss = acc.ss ++ x.s ∷ [];
}

-- The end of the loop: the leader, allEOAsSubmitted, and what was collected.
pub record Ended : Type 0 where
  pub leader : Leader
  pub all_submitted : Bool
  pub revealed : Revealed

unfoldable pub find_info : Bytes → Result (Map Bytes NodeInfo) → Option NodeInfo
find_info eoa (err e) = none
find_info eoa (ok nodes) = get eoa nodes

-- fetchNodeInfo
unfoldable pub fetch_node_info : Bytes → Leader → Option NodeInfo × Leader
unfolding find_info
fetch_node_info eoa s =
    let (r, file) = load_registered_nodes s.registered_nodes in
    (find_info eoa r, record s { registered_nodes = file })

-- After strconv.ParseUint of v.
unfoldable pub submitted_with : Bytes → Bytes → Bytes → Option ℕ → Judged
submitted_with secret r s none = bad_v
submitted_with secret r s (some v) = ready (record { secret = secret; v = v; r = r; s = s })

module _ (eth : Ethereum) where
  unfoldable pub judge_entry : Option LeaderCommitData → Judged
  unfolding text_at submitted_with
  judge_entry none = no_secret
  judge_entry (some d) =
      let v = text_at (codes "v") d.sign in
      let r = text_at (codes "r") d.sign in
      let s = text_at (codes "s") d.sign in
      if d.secret_value == zero32
      then no_secret
      else if v == [] || r == [] || s == []
      then incomplete_signature
      else submitted_with d.secret_value (eth.hex_to_hash r) (eth.hex_to_hash s) (parse_uint8 v)

  unfoldable pub judge : Bytes → Map Bytes LeaderCommitData → Bytes → Judged
  unfolding judge_entry
  judge round commits operator =
      judge_entry (get (commit_key round (eth.address_hex operator)) commits)

  module _ (setup : Setup) (replies : Replies) where
    -- `next` is the rest of the loop.
    unfoldable pub with_info :
        Bytes → Bytes → Option NodeInfo → (Revealed → Leader → Ended) → Revealed → Leader → Ended
    with_info round eoa none next acc s = next acc s
    with_info round eoa (some node) next acc s = record {
      leader = send_secret_value_request_to_node eth setup replies round eoa node s;
      all_submitted = false;
      revealed = acc;
    }

    -- The body of the loop: an operator without a secret value is asked for it where its node is
    -- known, and is passed over where it is not.
    unfoldable pub with_judged :
        Bytes → Bytes → Judged → (Revealed → Leader → Ended) → Revealed → Leader → Ended
    unfolding with_info fetch_node_info
    with_judged round eoa no_secret next acc s =
        let (info, s1) = fetch_node_info eoa s in with_info round eoa info next acc s1
    with_judged round eoa incomplete_signature next acc s = record {
      leader = s;
      all_submitted = false;
      revealed = acc;
    }
    with_judged round eoa bad_v next acc s = record {
      leader = s;
      all_submitted = false;
      revealed = acc;
    }
    with_judged round eoa (ready x) next acc s = next (append_submitted acc x) s

    -- The loop over the operators.
    unfoldable pub collect_secrets :
        Bytes → Map Bytes LeaderCommitData → List Bytes → Revealed → Leader → Ended
    unfolding judge with_judged
    collect_secrets round commits [] acc s = record {
      leader = s;
      all_submitted = true;
      revealed = acc;
    }
    collect_secrets round commits (operator ∷ operators) acc s =
        with_judged round (eth.address_hex operator) (judge round commits operator)
          (collect_secrets round commits operators) acc s
