-- ===== src/Examples/Signing.antt =====
-- nodes/regularNode_helper/generateCvsSignature.go: hashes and signatures on concrete inputs.
use drb_node.Base.{
  ℕ, ◌+◌, ◌<◌, ◌≡◌, ◌⊎◌, refl, ap, get_or, Bytes, some, replicate, All, zero32, arith,
}
use drb_node.Crypto.{Collision}
use drb_node.Go.Hex.{IsByte}
use drb_node.Go.Number.{pos, magnitude}
use drb_node.Utils.LeaderNodeData.{LeaderCommitData}
use drb_node.Leader.Monitor.Secrets.{ready, judge_entry}
use drb_node.Regular.CvsSignature.{split_signature, sign_map}
use drb_node.Regular.CvsSignature.Binding.{Wide, typed_data_hash-inj}
use drb_node.Regular.CvsSignature.Judged.{r_of, s_of, judge_entry-sign_map}
use drb_node.Examples.Toy.{toy_ethereum, toy_hasher, toy_digest, checksum, toy_sign}
use drb_node.Examples.Files.{key1, secret_key1, signature1, commit7}

wide : (n : ℕ) → n < 1000 → Wide (pos n)
unfolding magnitude
wide n h = omega arith

same_message :
    ((magnitude (pos 1) ≡ magnitude (pos 1))
      × (key1 ≡ key1)
      × (magnitude (pos 7) ≡ magnitude (pos 7))
      × (zero32 ≡ zero32))
    ⊎ Collision toy_hasher
same_message =
    typed_data_hash-inj toy_ethereum (pos 1) (pos 1) key1 key1 (pos 7) (pos 7) zero32 zero32
      (wide 1 (omega arith)) (wide 1 (omega arith)) (wide 7 (omega arith)) (wide 7 (omega arith))
      refl refl refl refl refl

abbrev revealed7 : LeaderCommitData
revealed7 = record commit7 {
  secret_value = replicate 32 5;
  sign = sign_map (split_signature signature1);
}

signature1-bytes : All IsByte signature1
unfolding toy_digest checksum
signature1-bytes = omega arith

signed_digest : toy_sign (toy_digest key1) secret_key1 ≡ some signature1
unfolding toy_sign toy_digest
signed_digest = refl

signature1_judged :
    (judge_entry toy_ethereum (some revealed7)
      ≡ ready (record {
        secret = replicate 32 5;
        v = get_or signature1 64 0 + 27;
        r = r_of signature1;
        s = s_of signature1;
      }))
    × ((get_or signature1 64 0 + 27 ≡ 27) ⊎ (get_or signature1 64 0 + 27 ≡ 28))
signature1_judged =
    judge_entry-sign_map toy_ethereum (toy_digest key1) secret_key1 signature1 revealed7
      signed_digest signature1-bytes (λ e. omega (arith, ap (λ (l : Bytes). get_or l 0 0) e)) refl
