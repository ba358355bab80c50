-- ===== src/Regular/CvsSignature/Judged.antt =====
-- generateCvsSignature.go and nodes/leaderNode_helper/monitor_commits.go: a signature that a regular
-- node splits, and what the leader's monitor reads from it.
use drb_node.Base.{
  ℕ, zero, suc, list_equals, ◌+◌, ◌<◌, ◌%◌, ◌≡◌, ◌≢◌, ◌⊎◌, ap, ◌∙◌, Bytes, bytes_eq, codes, false,
  some, [], ◌∷◌, ◌==◌, ==_false, length, length-take, length-drop, take, drop, get_or, All, zero32,
  arith, nat_eq,
}
use drb_node.Base.Maps.{get}
use drb_node.Crypto.{Ethereum}
use drb_node.Go.Hex.{IsByte, encode_to_string, length-encode}
use drb_node.Go.Number.{print_uint8, parse_uint8-print_uint8}
use drb_node.Utils.LeaderNodeData.{LeaderCommitData}
use drb_node.Leader.Monitor.Secrets.{ready, judge_entry, text_at}
use drb_node.Regular.CvsSignature.{split_signature, sign_map}

abbrev pub r_of : Bytes → Bytes
r_of signature = take 32 signature

abbrev pub s_of : Bytes → Bytes
s_of signature = take 32 (drop 32 signature)

All-take : (P : ℕ → Type 0) (n : ℕ) (xs : Bytes) → All P xs → All P (take n xs)
All-take P zero xs a = tt
All-take P (suc n) [] a = tt
All-take P (suc n) (x ∷ xs) (p, a) = (p, All-take P n xs a)

All-drop : (P : ℕ → Type 0) (n : ℕ) (xs : Bytes) → All P xs → All P (drop n xs)
All-drop P zero xs a = a
All-drop P (suc n) [] a = a
All-drop P (suc n) (x ∷ xs) (p, a) = All-drop P n xs a

text_not_empty : (b : Bytes) → length b ≡ 32 → (encode_to_string b == []) ≡ false
text_not_empty b len =
    ==_false (encode_to_string b) [] (λ e. omega (arith, ap length e, length-encode b))

print_not_empty : (v : ℕ) → (print_uint8 v == []) ≡ false
unfolding print_uint8 list_equals
print_not_empty v = ground arith

module _ (eth : Ethereum) where
  -- An entry whose map has the texts of v, r and s.
  judge_texts :
      (d : LeaderCommitData) (v : ℕ) (r s : Bytes)
      → d.secret_value ≢ zero32
      → v < 256
      → length r ≡ 32
      → length s ≡ 32
      → All IsByte r
      → All IsByte s
      → text_at (codes "v") d.sign ≡ print_uint8 v
      → text_at (codes "r") d.sign ≡ encode_to_string r
      → text_at (codes "s") d.sign ≡ encode_to_string s
      → judge_entry eth (some d) ≡ ready (record { secret = d.secret_value; v = v; r = r; s = s })
  unfolding judge_entry
  judge_texts d v r s there small lr ls br bs ev er es = rw (
    ==_false d.secret_value zero32 there,
    ev,
    er,
    es,
    print_not_empty v,
    text_not_empty r lr,
    text_not_empty s ls,
    parse_uint8-print_uint8 v small,
    eth.hex_to_hash-encode r lr br,
    eth.hex_to_hash-encode s ls bs,
  )

  -- A signature that crypto.Sign made, as a byte string, comes out of the node's texts and the
  -- monitor's parsing as it went in: r and s are its first two words, and v is its recovery
  -- identifier plus 27, without overflow.
  pub judge_entry-sign_map :
      (hash key signature : Bytes) (d : LeaderCommitData)
      → eth.sign hash key ≡ some signature
      → All IsByte signature
      → d.secret_value ≢ zero32
      → d.sign ≡ sign_map (split_signature signature)
      → (judge_entry eth (some d)
          ≡ ready (record {
            secret = d.secret_value;
            v = get_or signature 64 0 + 27;
            r = r_of signature;
            s = s_of signature;
          }))
        × ((get_or signature 64 0 + 27 ≡ 27) ⊎ (get_or signature 64 0 + 27 ≡ 28))
  unfolding split_signature sign_map text_at get list_equals
  judge_entry-sign_map hash key signature d signed bytes there e =
      let len = eth.length-sign hash key signature signed in
      let low = eth.sign-recovery_id hash key signature signed in
      let whole : (get_or signature 64 0 + 27) % 256 ≡ get_or signature 64 0 + 27 = omega arith in
      (
        judge_texts d (get_or signature 64 0 + 27) (r_of signature) (s_of signature) there
            (omega arith) (omega (arith, length-take {A = ℕ} 32 signature))
            (omega
              (arith, length-take {A = ℕ} 32 (drop 32 signature), length-drop {A = ℕ} 32 signature))
            (All-take IsByte 32 signature bytes)
            (All-take IsByte 32 (drop 32 signature) (All-drop IsByte 32 signature bytes))
            (ap (text_at (codes "v")) e ∙ ap print_uint8 whole) (ap (text_at (codes "r")) e)
            (ap (text_at (codes "s")) e),
        ground arith,
      )
