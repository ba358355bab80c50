-- ===== src/Leader/Memory/Growth.antt =====
-- nodes/leaderNode.go: how an entry of committedNodes may grow.
use drb_node.Base.{
  ◌≡◌, refl, sym, ap, ◌∙◌, subst₂, ◌⊎◌, inl, inr, Bytes, bytes_eq, true, Option, some, ◌==◌, ◌&&◌,
  if◌then◌else◌, Bool-cases, zero32, arith,
}
use drb_node.Base.Maps.{Map, get, put, get-put}
use drb_node.Utils.Requests.{CommitRequest}
use drb_node.Utils.LeaderNodeData.{LeaderCommitData}
use drb_node.Leader.State.{Leader, round_map, or_nil, update_in_memory}
use drb_node.Leader.Handlers.{take_cvs}

-- committedNodes[round][addr]
abbrev pub lookup : Bytes → Bytes → Leader → Option LeaderCommitData
lookup round addr s = get addr (round_map round s)

-- A CVS that is there stays with its signature, and so do a COS and the mark of the submitted root.
pub record Extends (d d' : LeaderCommitData) : Type 0 where
  pub keeps_cvs : (d.cvs ≡ zero32) ⊎ ((d'.cvs ≡ d.cvs) × (d'.sign ≡ d.sign))
  pub keeps_cos : (d.cos ≡ zero32) ⊎ (d'.cos ≡ d.cos)
  pub keeps_done : d.submit_merkle_root_done ≡ true → d'.submit_merkle_root_done ≡ true

pub Extends-refl : (d : LeaderCommitData) → Extends d d
Extends-refl d = record { keeps_cvs = inr (refl, refl); keeps_cos = inr refl; keeps_done = λ h. h }

pub Extends-trans : (a b c : LeaderCommitData) → Extends a b → Extends b c → Extends a c
Extends-trans a b c p q = record {
  keeps_cvs = ground (arith, p.keeps_cvs, q.keeps_cvs);
  keeps_cos = ground (arith, p.keeps_cos, q.keeps_cos);
  keeps_done = λ h. q.keeps_done (p.keeps_done h);
}

abbrev pub Grows : Leader → Leader → Type 0
Grows s s' =
    (round addr : Bytes) (d : LeaderCommitData)
    → lookup round addr s ≡ some d
    → (d' : LeaderCommitData) × (lookup round addr s' ≡ some d') × Extends d d'

pub Grows-refl : (s s' : Leader) → s'.committed_nodes ≡ s.committed_nodes → Grows s s'
Grows-refl s s' same round addr d e = (
  d,
  ap (λ (m : Map Bytes (Map Bytes LeaderCommitData)). get addr (or_nil (get round m))) same ∙ e,
  Extends-refl d,
)

pub Grows-trans : (s t u : Leader) → Grows s t → Grows t u → Grows s u
Grows-trans s t u p q round addr d e =
    let (d', e', x) = p round addr d e in
    let (d'', e'', y) = q round addr d' e' in (d'', e'', Extends-trans d d' d'' x y)

-- A lookup after a write to a map of maps.
get-put_nested :
    (round addr r a : Bytes) (d : LeaderCommitData) (m : Map Bytes (Map Bytes LeaderCommitData))
    → get a (or_nil (get r (put round (put addr d (or_nil (get round m))) m)))
      ≡ (if round == r && addr == a then some d else get a (or_nil (get r m)))
unfolding or_nil
get-put_nested round addr r a d m = elim (Bool-cases (round == r)) [
  | inl same ↦
      let here : round ≡ r = (bytes_eq.equals_iff round r).0 same in
      rw (get-put, same, or_nil, get-put, here)
  | inr other ↦ rw (get-put, other)
]

pub lookup-update :
    (round addr r a : Bytes) (d : LeaderCommitData) (s : Leader)
    → lookup r a (update_in_memory round addr d s)
      ≡ (if round == r && addr == a then some d else lookup r a s)
unfolding update_in_memory
lookup-update round addr r a d s = get-put_nested round addr r a d s.committed_nodes

pub update-Grows :
    (round addr : Bytes) (d : LeaderCommitData) (s : Leader)
    → ((old : LeaderCommitData) → lookup round addr s ≡ some old → Extends old d)
    → Grows s (update_in_memory round addr d s)
update-Grows round addr d s ext r a old e = elim (Bool-cases (round == r && addr == a)) [
  | inl here ↦
      let rounds : round ≡ r = ground (arith, bytes_eq.equals_iff round r) in
      let addrs : addr ≡ a = ground (arith, bytes_eq.equals_iff addr a) in
      (
        d,
        lookup-update round addr r a d s ∙ rw here,
        ext old (subst₂ (λ x y. lookup x y s ≡ some old) (sym rounds) (sym addrs) e),
      )
  | inr elsewhere ↦ (old, lookup-update round addr r a d s ∙ rw elsewhere e, Extends-refl old)
]

pub take_cvs-Extends : (req : CommitRequest) (d : LeaderCommitData) → Extends d (take_cvs req d)
unfolding take_cvs
take_cvs-Extends req d = record {
  keeps_cvs = ground (arith, bytes_eq.equals_iff d.cvs zero32);
  keeps_cos = ground arith;
  keeps_done = λ h. ground arith;
}
