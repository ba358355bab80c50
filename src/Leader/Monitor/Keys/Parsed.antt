-- ===== src/Leader/Monitor/Keys/Parsed.antt =====
-- nodes/leaderNode_helper/monitor_commits.go: keys that are made, and taken apart again.
use drb_node.Base.{
  ℕ, zero, suc, ◌+◌, ◌≡◌, ◌≢◌, refl, ap, ◌∙◌, Bytes, nat_eq, false, [], ◌∷◌, ◌++◌, ◌==◌, ==_false,
  length, length-append, get_or-append, take-append, drop, get_or, All, arith,
}
use drb_node.Utils.LeaderNodeData.{commit_key}
use drb_node.Leader.Monitor.Keys.{plus, last_plus, parse_leader_commit_key}

get_or_ne : (eoa : Bytes) (j : ℕ) → All (λ c. c ≢ plus) eoa → get_or eoa j 0 ≢ plus
get_or_ne [] j none_there e = omega arith
get_or_ne (c ∷ cs) zero (first, _) e = first e
get_or_ne (c ∷ cs) (suc j) (_, later) e = get_or_ne cs j later e

drop-append_suc : (xs : Bytes) (y : ℕ) (ys : Bytes) → drop (suc (length xs)) (xs ++ y ∷ ys) ≡ ys
drop-append_suc [] y ys = refl
drop-append_suc (x ∷ xs) y ys = drop-append_suc xs y ys

-- The loop stops at the + before a text without one.
last_plus-key :
    (round eoa : Bytes) (k : ℕ)
    → All (λ c. c ≢ plus) eoa
    → last_plus (round ++ plus ∷ eoa) (suc (length round + k)) ≡ length round
unfolding last_plus
last_plus-key round eoa zero clean =
    let at : get_or (round ++ plus ∷ eoa) (length round + 0) 0 ≡ plus =
      get_or-append round (plus ∷ eoa) 0 0 in
    rw (at, last_plus) (omega arith)
last_plus-key round eoa (suc k) clean =
    let at : get_or (round ++ plus ∷ eoa) (length round + suc k) 0 ≡ get_or eoa k 0 =
      get_or-append round (plus ∷ eoa) (suc k) 0 in
    let other : (get_or eoa k 0 == plus) ≡ false = ==_false _ plus (get_or_ne eoa k clean) in
    let before : length round + suc k ≡ suc (length round + k) = omega arith in
    rw (at, other, last_plus)
      (ap (last_plus (round ++ plus ∷ eoa)) before ∙ last_plus-key round eoa k clean)

-- The key of a round and an address that has no + is taken apart into that round and that address,
-- whatever the round is.
pub parse_leader_commit_key-commit_key :
    (round eoa : Bytes)
    → All (λ c. c ≢ plus) eoa
    → parse_leader_commit_key (commit_key round eoa) ≡ (round, eoa)
unfolding parse_leader_commit_key
parse_leader_commit_key-commit_key round eoa clean =
    let size : length (round ++ plus ∷ eoa) ≡ suc (length round + length eoa) =
      omega (arith, length-append round (plus ∷ eoa)) in
    let split : last_plus (round ++ plus ∷ eoa) (length (round ++ plus ∷ eoa)) ≡ length round =
      ap (last_plus (round ++ plus ∷ eoa)) size ∙ last_plus-key round eoa (length eoa) clean in
    let inside : (length round == length (round ++ plus ∷ eoa)) ≡ false =
      ==_false (length round) _ (λ e. omega arith) in
    rw (split, inside, take-append, drop-append_suc) refl
