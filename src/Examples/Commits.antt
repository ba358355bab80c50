-- ===== src/Examples/Commits.antt =====
-- commit-reveal2/: commitments, the Merkle root and the reveal order, on concrete inputs.
use drb_node.Base.{
  ℕ, ◌<◌, ◌-◌, ◌^◌, ◌≡◌, ◌⊎◌, refl, Bytes, bytes_eq, codes, Bool, true, some, none, List, [], ◌∷◌,
  map, length, replicate, All, indices, arith,
}
use mathlib.Core.List.{Perm}
use drb_node.Base.Maps.{Map, put}
use drb_node.Crypto.{Collision}
use drb_node.Go.File.{holds, absent}
use drb_node.Go.Number.{pos, magnitude, set_string, set_bytes}
use drb_node.Go.Sort.{IsAscending}
use drb_node.CommitReveal.Commit.{Commitment, generate_commit}
use drb_node.CommitReveal.Commit.Chain.{IsChain, generate_commit-IsChain}
use drb_node.CommitReveal.Commit.Inputs.{commitment_of-inj}
use drb_node.CommitReveal.Merkle.{
  merkle_root, pad_leaf, create_merkle_tree, efficient_keccak256, hash_loop, merkle_of, take_node,
}
use drb_node.CommitReveal.Merkle.Queue.{reduce, create_merkle_tree-reduce}
use drb_node.CommitReveal.Merkle.Binding.{Is32, create_merkle_tree-inj}
use drb_node.CommitReveal.RevealOrder.{
  determine_order, entries_from, RevealData, reveal_data, Files, determine_reveal_order,
}
use drb_node.CommitReveal.RevealOrder.Order.{
  distance, determine_order_lem, IsRevealData, reveal_data_lem,
}
use drb_node.CommitReveal.RevealOrder.Binding.{calculate_rv-inj}
use drb_node.CommitReveal.RevealOrder.Stored.{Outcome, determine_reveal_order-Outcome}
use drb_node.Utils.LeaderNodeData.{LeaderCommitData, commit_key}
use drb_node.Examples.Insertion.{insert, sort}
use drb_node.Examples.Toy.{toy_ethereum, toy_hasher, toy_sort}
use drb_node.Examples.Files.{key1, commit7}

abbrev time7 : ℕ
time7 = 1700000000

generate_commit7 :
    ((set_string (codes "7") ≡ none) × (generate_commit toy_ethereum time7 (codes "7") key1 ≡ none))
    ⊎ ((c : Commitment) × (generate_commit toy_ethereum time7 (codes "7") key1 ≡ some c)
        × IsChain toy_ethereum c)
generate_commit7 = generate_commit-IsChain toy_ethereum time7 (codes "7") key1

same_commitment :
    ((magnitude (pos 7) ≡ magnitude (pos 7)) × (key1 ≡ key1) × (time7 ≡ time7))
    ⊎ Collision toy_hasher
unfolding magnitude
same_commitment =
    commitment_of-inj toy_ethereum (pos 7) (pos 7) key1 key1 time7 time7 small small soon soon refl
      refl
  where
    small : magnitude (pos 7) < 256 ^ 32
    small = omega arith

    soon : 1700000000 < 256 ^ 32
    soon = omega arith

abbrev three_leaves : List Bytes
three_leaves = replicate 32 1 ∷ replicate 32 2 ∷ replicate 32 3 ∷ []

-- The third leaf is hashed with the hash of the first two.
root_of_three :
    create_merkle_tree toy_hasher three_leaves
    ≡ merkle_root (
        efficient_keccak256 toy_hasher
          (replicate 32 3)
          (efficient_keccak256 toy_hasher (replicate 32 1) (replicate 32 2)))
unfolding create_merkle_tree hash_loop merkle_of take_node pad_leaf
root_of_three = refl

three_leaves-reduce :
    (root : Bytes) × (create_merkle_tree toy_hasher three_leaves ≡ merkle_root root)
    × (reduce toy_hasher (length three_leaves - 1) (map pad_leaf three_leaves) ≡ root ∷ [])
three_leaves-reduce = create_merkle_tree-reduce toy_hasher three_leaves (omega arith)

sizes : All Is32 three_leaves
sizes = (refl, (refl, (refl, tt)))

three_leaves-inj : (three_leaves ≡ three_leaves) ⊎ Collision toy_hasher
three_leaves-inj =
    create_merkle_tree-inj toy_hasher three_leaves three_leaves
      (efficient_keccak256 toy_hasher (replicate 32 3)
        (efficient_keccak256 toy_hasher (replicate 32 1) (replicate 32 2)))
      (omega arith) refl sizes sizes root_of_three root_of_three

abbrev two_cos : List Bytes
two_cos = replicate 32 9 ∷ replicate 32 5 ∷ []

abbrev two_operators : List Bytes
two_operators = key1 ∷ replicate 20 4 ∷ []

two_sizes : All Is32 two_cos
two_sizes = (refl, (refl, tt))

two_cos-inj : (two_cos ≡ two_cos) ⊎ Collision toy_hasher
two_cos-inj = calculate_rv-inj toy_ethereum two_cos two_cos refl two_sizes two_sizes refl

two_cos-order :
    Perm (determine_order toy_sort (replicate 32 6) two_cos) (indices 0 (length two_cos))
    × IsAscending
        (distance (replicate 32 6) two_cos)
        (determine_order toy_sort (replicate 32 6) two_cos)
two_cos-order = determine_order_lem toy_sort (replicate 32 6) two_cos

-- The second value is the nearer one.
second_first : determine_order toy_sort (replicate 32 6) two_cos ≡ 1 ∷ 0 ∷ []
unfolding determine_order entries_from sort insert set_bytes
second_first = refl

two_cos-reveal_data :
    (d : RevealData) × (reveal_data toy_ethereum toy_sort two_cos two_operators ≡ some d)
    × IsRevealData toy_ethereum toy_sort two_cos two_operators d
two_cos-reveal_data = reveal_data_lem toy_ethereum toy_sort two_cos two_operators refl

abbrev opened7 : LeaderCommitData
opened7 = record commit7 { cos = replicate 32 9 }

abbrev files7 : Files
files7 = record {
  reveal_orders = record { content = absent; faults = [] };
  leader_commits = record {
    content = holds (put (commit_key (codes "7") key1) opened7 []);
    faults = [];
  };
}

abbrev activated7 : Map Bytes (Map Bytes Bool)
activated7 = put (codes "7") (put key1 true []) []

order7-Outcome :
    Outcome toy_ethereum toy_sort
      (codes "7")
      activated7
      files7
      (determine_reveal_order toy_ethereum toy_sort (codes "7") activated7 files7)
order7-Outcome = determine_reveal_order-Outcome toy_ethereum toy_sort (codes "7") activated7 files7
