-- ===== src/Leader/Monitor/Secrets/Ready.antt =====
-- nodes/leaderNode_helper/monitor_commits.go: an operator whose secret value and signature are whole.
use drb_node.Base.{
  ◌≡◌, ◌≢◌, refl, sym, ap, ◌∙◌, ℕ, Bytes, bytes_eq, Bool, true, false, Option, none, some, [], ◌==◌,
  ==_false, ◌||◌, codes, if◌then◌else◌, zero32,
}
use drb_node.Base.Maps.{Map, get}
use drb_node.Crypto.{Ethereum}
use drb_node.Go.Number.{parse_uint8}
use drb_node.Utils.LeaderNodeData.{LeaderCommitData, commit_key}
use drb_node.Leader.Monitor.Secrets.{
  Submitted, Judged, no_secret, incomplete_signature, ready, text_at, submitted_with, judge_entry,
  judge,
}

-- A part of a signature is there, and is not empty.
abbrev pub IsPart : Bytes → LeaderCommitData → Bytes → Type 0
IsPart key d text = (get key d.sign ≡ some text) × (text ≢ [])

true-false : true ≡ false → ⊥
true-false e = cc

differs : (a b : Bytes) → (a == b) ≡ false → a ≢ b
differs a b h e = true-false (sym ((bytes_eq.equals_iff a b).1 e) ∙ h)

some_text :
    (key : Bytes) (m : Map Bytes Bytes) → text_at key m ≢ [] → get key m ≡ some (text_at key m)
unfolding text_at
some_text key m = of_found (get key m)
  where
    of_found :
        (o : Option Bytes)
        → elim o [ none ↦ [] | some text ↦ text ] ≢ []
        → o ≡ some (elim o [ none ↦ [] | some text ↦ text ])
    of_found none h = absurd (h refl)
    of_found (some text) h = refl

text_at-found :
    (key : Bytes) (m : Map Bytes Bytes) (text : Bytes)
    → get key m ≡ some text
    → text_at key m ≡ text
unfolding text_at
text_at-found key m text h = ap (λ (o : Option Bytes). elim o [ none ↦ [] | some found ↦ found ]) h

tests-ready :
    (b c : Bool) (j : Judged) (x : Submitted)
    → (if b then no_secret else if c then incomplete_signature else j) ≡ ready x
    → (b ≡ false) × (c ≡ false) × (j ≡ ready x)
tests-ready true c j x h = cc
tests-ready false true j x h = cc
tests-ready false false j x h = (refl, refl, h)

or-false : (a b c : Bool) → (a || b || c) ≡ false → (a ≡ false) × (b ≡ false) × (c ≡ false)
or-false true b c h = cc
or-false false true c h = cc
or-false false false true h = cc
or-false false false false h = (refl, refl, refl)

ready-inj : (x y : Submitted) → ready x ≡ ready y → x ≡ y
ready-inj x y e = cc

submitted_with-ready :
    (secret r s : Bytes) (o : Option ℕ) (x : Submitted)
    → submitted_with secret r s o ≡ ready x
    → (o ≡ some x.v) × (x.secret ≡ secret) × (x.r ≡ r) × (x.s ≡ s)
unfolding submitted_with
submitted_with-ready secret r s none x h = cc
submitted_with-ready secret r s (some v) x h =
    let e = sym (ready-inj (record { secret = secret; v = v; r = r; s = s }) x h) in
    (
      ap (λ (y : Submitted). some y.v) (sym e),
      ap (λ (y : Submitted). y.secret) e,
      ap (λ (y : Submitted). y.r) e,
      ap (λ (y : Submitted). y.s) e,
    )

module _ (eth : Ethereum) (round : Bytes) (commits : Map Bytes LeaderCommitData) where
  -- What an operator has submitted: its entry has a secret value that is not zero, and the three
  -- parts of a signature, v being the decimal text of a number of eight bits.
  pub record IsReady (op : Bytes) (x : Submitted) : Type 0 where
    pub entry : LeaderCommitData
    pub v_text : Bytes
    pub r_text : Bytes
    pub s_text : Bytes
    pub stored : get (commit_key round (eth.address_hex op)) commits ≡ some entry
    pub shown : entry.secret_value ≢ zero32
    pub has_v : IsPart (codes "v") entry v_text
    pub has_r : IsPart (codes "r") entry r_text
    pub has_s : IsPart (codes "s") entry s_text
    pub parsed : parse_uint8 v_text ≡ some x.v
    pub same_secret : x.secret ≡ entry.secret_value
    pub same_r : x.r ≡ eth.hex_to_hash r_text
    pub same_s : x.s ≡ eth.hex_to_hash s_text

  entry-IsReady :
      (op : Bytes) (x : Submitted) (o : Option LeaderCommitData)
      → get (commit_key round (eth.address_hex op)) commits ≡ o
      → judge_entry eth o ≡ ready x
      → IsReady op x
  unfolding judge_entry
  entry-IsReady op x none e h = cc
  entry-IsReady op x (some d) e h =
      let v = text_at (codes "v") d.sign in
      let r = text_at (codes "r") d.sign in
      let s = text_at (codes "s") d.sign in
      let (shown, whole, last) =
        tests-ready (d.secret_value == zero32) (v == [] || r == [] || s == []) _ x h in
      let (some_v, some_r, some_s) = or-false (v == []) (r == []) (s == []) whole in
      let (parsed, secret, same_r, same_s) =
        submitted_with-ready d.secret_value (eth.hex_to_hash r) (eth.hex_to_hash s) (parse_uint8 v)
          x last in
      record {
        entry = d;
        v_text = v;
        r_text = r;
        s_text = s;
        stored = e;
        shown = differs d.secret_value zero32 shown;
        has_v = (some_text (codes "v") d.sign (differs v [] some_v), differs v [] some_v);
        has_r = (some_text (codes "r") d.sign (differs r [] some_r), differs r [] some_r);
        has_s = (some_text (codes "s") d.sign (differs s [] some_s), differs s [] some_s);
        parsed = parsed;
        same_secret = secret;
        same_r = same_r;
        same_s = same_s;
      }

  -- The code's judgement is that one, in both directions.
  pub judge-IsReady :
      (op : Bytes) (x : Submitted) → judge eth round commits op ≡ ready x → IsReady op x
  unfolding judge
  judge-IsReady op x h = entry-IsReady op x _ refl h

  pub IsReady-judge :
      (op : Bytes) (x : Submitted) → IsReady op x → judge eth round commits op ≡ ready x
  unfolding judge judge_entry submitted_with
  IsReady-judge op x p = rw (
    p.stored,
    ==_false p.entry.secret_value zero32 p.shown,
    text_at-found (codes "v") p.entry.sign p.v_text p.has_v.0,
    text_at-found (codes "r") p.entry.sign p.r_text p.has_r.0,
    text_at-found (codes "s") p.entry.sign p.s_text p.has_s.0,
    ==_false p.v_text [] p.has_v.1,
    ==_false p.r_text [] p.has_r.1,
    ==_false p.s_text [] p.has_s.1,
    p.parsed,
    sym p.same_secret,
    sym p.same_r,
    sym p.same_s,
  )
