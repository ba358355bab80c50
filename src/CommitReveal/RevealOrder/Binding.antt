-- ===== src/CommitReveal/RevealOrder/Binding.antt =====
-- commit-reveal2/reveal_order.go: what RV says of the COS values, and of their order.
use drb_node.Base.{
  ◌≡◌, ◌⊎◌, inl, inr, refl, sym, ◌∙◌, Bytes, List, [], ◌∷◌, length, arith, All, append-inj,
}
use drb_node.Crypto.{Ethereum, Collision, digest-inj}
use drb_node.CommitReveal.Commit.{keccak256}
use drb_node.CommitReveal.Commit.Chain.{copy_digest}
use drb_node.CommitReveal.Merkle.Binding.{Is32}
use drb_node.CommitReveal.RevealOrder.{concat, calculate_rv}

concat-inj :
    (xs ys : List Bytes)
    → length xs ≡ length ys
    → All Is32 xs
    → All Is32 ys
    → concat xs ≡ concat ys
    → xs ≡ ys
unfolding concat
concat-inj [] [] len all_x all_y e = refl
concat-inj [] (y ∷ ys) len all_x all_y e = absurd (omega arith)
concat-inj (x ∷ xs) [] len all_x all_y e = absurd (omega arith)
concat-inj (x ∷ xs) (y ∷ ys) len all_x all_y e =
    let (heads, tails) = append-inj x (concat xs) y (concat ys) (all_x.0 ∙ sym all_y.0) e in
    let rest = concat-inj xs ys (omega arith) all_x.1 all_y.1 tails in cc

-- Two lists of as many 32-byte COS values with one RV are the same list in the same order, unless they
-- show two messages with one digest.
pub calculate_rv-inj :
    (eth : Ethereum) (xs ys : List Bytes)
    → length xs ≡ length ys
    → All Is32 xs
    → All Is32 ys
    → calculate_rv eth xs ≡ calculate_rv eth ys
    → (xs ≡ ys) ⊎ Collision eth.hasher
unfolding calculate_rv keccak256
calculate_rv-inj eth xs ys len all_x all_y e =
    elim (digest-inj eth.hasher (concat xs) (concat ys)
      (sym (copy_digest eth (concat xs)) ∙ e ∙ copy_digest eth (concat ys))) [
        | inl same ↦ inl (concat-inj xs ys len all_x all_y same)
        | inr clash ↦ inr clash
      ]
