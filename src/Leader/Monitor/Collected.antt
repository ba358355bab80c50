-- ===== src/Leader/Monitor/Collected.antt =====
-- nodes/leaderNode_helper/monitor_commits.go: the form of what the monitor collects of a round.
use drb_node.Base.{
  ℕ, ◌<◌, ◌≡◌, ◌≢◌, refl, sym, ◌∙◌, Bytes, bytes_eq, Bool, true, false, Option, none, some, List,
  [], ◌∷◌, ◌==◌, ◌||◌, if◌then◌else◌, zero32, length, length-append, length-copy_into, All,
  All-append, arith, >>=-eq-some, codes, ltb,
}
use drb_node.Crypto.{Ethereum}
use drb_node.Go.Number.{parse_uint8, unsigned_value}
use drb_node.Utils.LeaderNodeData.{LeaderCommitData}
use drb_node.CommitReveal.Merkle.Binding.{Is32}
use drb_node.Leader.State.{Setup}
use drb_node.Leader.Outputs.{IsRow}
use drb_node.Leader.Monitor.Secrets.{
  Submitted, Judged, no_secret, incomplete_signature, ready, Revealed, no_secrets, submitted_with,
  text_at, judge_entry, append_submitted,
}
use drb_node.Leader.Monitor.Transaction.{is_empty, secret_hashes, any_empty}

parse_uint8-bound : (text : Bytes) (v : ℕ) → parse_uint8 text ≡ some v → v < 256
unfolding parse_uint8
parse_uint8-bound text v h =
    let (n, _, h1) =
      >>=-eq-some (unsigned_value text) (λ n. if ltb n 256 then some n else none) h in
    ground arith

-- What one operator has submitted.
pub record IsSubmitted (x : Submitted) : Type 0 where
  pub v_bound : x.v < 256
  pub r_size : Is32 x.r
  pub s_size : Is32 x.s

abbrev pub IsJudged : Judged → Type 0
IsJudged (ready x) = IsSubmitted x
IsJudged _ = Unit

pub if-IsJudged :
    (b : Bool) (j k : Judged) → IsJudged j → IsJudged k → IsJudged (if b then j else k)
if-IsJudged true j k p q = p
if-IsJudged false j k p q = q

pub submitted_with-IsJudged :
    (secret r s : Bytes) (o : Option ℕ)
    → Is32 r
    → Is32 s
    → ((v : ℕ) → o ≡ some v → v < 256)
    → IsJudged (submitted_with secret r s o)
unfolding submitted_with
submitted_with-IsJudged secret r s none r_size s_size bound = tt
submitted_with-IsJudged secret r s (some v) r_size s_size bound = record {
  v_bound = bound v refl;
  r_size = r_size;
  s_size = s_size;
}

-- The four lists, with the secrets as they are in the file.
pub record IsCollected (x : Revealed) : Type 0 where
  pub v_bounds : All (λ v. v < 256) x.vs
  pub r_sizes : All Is32 x.rs
  pub s_sizes : All Is32 x.ss
  pub as_many_vs : length x.vs ≡ length x.secrets
  pub as_many_rs : length x.rs ≡ length x.secrets
  pub as_many_ss : length x.ss ≡ length x.secrets

pub append_submitted-IsCollected :
    (acc : Revealed) (x : Submitted)
    → IsCollected acc
    → IsSubmitted x
    → IsCollected (append_submitted acc x)
unfolding append_submitted
append_submitted-IsCollected acc x c i = record {
  v_bounds = All-append (λ v. v < 256) acc.vs (x.v ∷ []) c.v_bounds (i.v_bound, tt);
  r_sizes = All-append Is32 acc.rs (x.r ∷ []) c.r_sizes (i.r_size, tt);
  s_sizes = All-append Is32 acc.ss (x.s ∷ []) c.s_sizes (i.s_size, tt);
  as_many_vs = omega (
    arith,
    c.as_many_vs,
    length-append acc.vs (x.v ∷ []),
    length-append acc.secrets (x.secret ∷ []),
  );
  as_many_rs = omega (
    arith,
    c.as_many_rs,
    length-append acc.rs (x.r ∷ []),
    length-append acc.secrets (x.secret ∷ []),
  );
  as_many_ss = omega (
    arith,
    c.as_many_ss,
    length-append acc.ss (x.s ∷ []),
    length-append acc.secrets (x.secret ∷ []),
  );
}

pub secret_hashes-sizes : (secrets : List Bytes) → All Is32 (secret_hashes secrets)
unfolding secret_hashes
secret_hashes-sizes [] = tt
secret_hashes-sizes (x ∷ xs) = (length-copy_into zero32 x, secret_hashes-sizes xs)

pub length-secret_hashes : (secrets : List Bytes) → length (secret_hashes secrets) ≡ length secrets
unfolding secret_hashes
length-secret_hashes [] = refl
length-secret_hashes (x ∷ xs) = omega (arith, length-secret_hashes xs)

pub no_secrets-IsCollected : IsCollected no_secrets
no_secrets-IsCollected = record {
  v_bounds = tt;
  r_sizes = tt;
  s_sizes = tt;
  as_many_vs = refl;
  as_many_rs = refl;
  as_many_ss = refl;
}

if-false : (b c : Bool) → (if b then true else c) ≡ false → b ≡ false
if-false true c h = h
if-false false c h = refl

some_of : (xs : List Bytes) → is_empty xs ≡ false → xs ≢ []
unfolding is_empty
some_of [] h e = cc
some_of (x ∷ xs) h e = cc

pub not_empty : (x : Revealed) → any_empty x ≡ false → secret_hashes x.secrets ≢ []
unfolding any_empty
not_empty x h =
    some_of (secret_hashes x.secrets) (if-false (is_empty (secret_hashes x.secrets)) _ h)

module _ (eth : Ethereum) (setup : Setup) where
  pub judge_entry-IsJudged : (o : Option LeaderCommitData) → IsJudged (judge_entry eth o)
  unfolding judge_entry
  judge_entry-IsJudged none = tt
  judge_entry-IsJudged (some d) =
      let v = text_at (codes "v") d.sign in
      let r = text_at (codes "r") d.sign in
      let s = text_at (codes "s") d.sign in
      if-IsJudged (d.secret_value == zero32) no_secret _ tt (
        if-IsJudged (v == [] || r == [] || s == []) incomplete_signature _ tt (
          submitted_with-IsJudged d.secret_value (eth.hex_to_hash r) (eth.hex_to_hash s)
            (parse_uint8 v) (eth.length-hex_to_hash r) (eth.length-hex_to_hash s)
            (parse_uint8-bound v)))

  pub secret_hashes-IsRow :
      (x : Revealed) → IsCollected x → IsRow eth setup (secret_hashes x.secrets) x.vs x.rs x.ss
  secret_hashes-IsRow x c = record {
    secret_sizes = secret_hashes-sizes x.secrets;
    v_bounds = c.v_bounds;
    r_sizes = c.r_sizes;
    s_sizes = c.s_sizes;
    as_many_vs = c.as_many_vs ∙ sym (length-secret_hashes x.secrets);
    as_many_rs = c.as_many_rs ∙ sym (length-secret_hashes x.secrets);
    as_many_ss = c.as_many_ss ∙ sym (length-secret_hashes x.secrets);
  }
