-- ===== src/CommitReveal/RevealOrder/Order.antt =====
-- commit-reveal2/reveal_order.go: the order and the distances from RV.
use drb_node.Base.{
  ℕ, suc, ◌+◌, ◌<◌, ◌≡◌, refl, ap, subst, ◌∙◌, Bytes, some, List, [], ◌∷◌, map, length, get_or,
  get_elem?-get_or, indices, mem-indices, map-get_or, arith,
}
use mathlib.Core.List.{Perm, Mem, mem-cons_self, mem-cons_of_mem}
use mathlib.Core.List.Perm
use mathlib.Core.List.{not-mem-nil, mem-cons}
use mathlib.Core.Logic.Or
use native.Mathlib.Numerals.{add-one}
use native.Mathlib.Nat.{ℕ_set, add-zero, zero-add}
use drb_node.Go.Hex.{encode_to_string}
use drb_node.Go.Number.{set_bytes}
use drb_node.Go.Sort.{IsAscending}
use drb_node.Crypto.{Ethereum}
use drb_node.CommitReveal.RevealOrder.{
  RevealOrderEntry, RevealSort, RevealData, abs_diff, entries_from, determine_order, pick_all,
  calculate_rv, reveal_data,
}

-- The distance of the value at an index from RV.
abbrev pub distance : Bytes → List Bytes → ℕ → ℕ
distance rv cos_values i = abs_diff (set_bytes 0 rv) (set_bytes 0 (get_or cos_values i []))

map-index-entries_from :
    (i : ℕ) (rv : Bytes) (cs : List Bytes)
    → map (λ (e : RevealOrderEntry). e.index) (entries_from i rv cs) ≡ indices i (length cs)
unfolding entries_from
map-index-entries_from i rv [] = refl
map-index-entries_from i rv (c ∷ cs) =
    rw add-one (ap (◌∷◌ i) (map-index-entries_from (suc i) rv cs))

IsAscending-map :
    {A B : Type 0} (f : A → B) (key : A → ℕ) (other : B → ℕ) (xs : List A)
    → ((x : A) → Mem x xs → key x ≡ other (f x))
    → IsAscending key xs
    → IsAscending other (map f xs)
IsAscending-map f key other [] same a = tt
IsAscending-map f key other (x ∷ []) same a = tt
IsAscending-map f key other (x ∷ y ∷ rest) same a = (
  omega (arith, a.0, same x mem-cons_self, same y (mem-cons_of_mem x mem-cons_self)),
  IsAscending-map f key other (y ∷ rest) (λ z m. same z (mem-cons_of_mem x m)) a.1,
)

value_of_mem :
    (i : ℕ) (rv : Bytes) (cs : List Bytes) (at : ℕ → Bytes)
    → ((k : ℕ) → at (i + k) ≡ get_or cs k [])
    → (e : RevealOrderEntry) → Mem e (entries_from i rv cs)
    → e.value ≡ abs_diff (set_bytes 0 rv) (set_bytes 0 (at e.index))
unfolding entries_from
value_of_mem i rv [] at same e m = absurd (not-mem-nil m)
value_of_mem i rv (c ∷ cs) at same e m =
    Or.elim (ℕ_set _ _) (mem-cons.0 m) (λ here. rw here (rw (rw add-zero at (same 0)) refl))
      (value_of_mem (i + 1) rv cs at (λ k. ap at (shift i k) ∙ same (suc k)) e)
  where
    shift : (i k : ℕ) → i + 1 + k ≡ i + suc k
    shift i k = omega arith

module _ (sorter : RevealSort) (rv : Bytes) (cs : List Bytes) where
  -- The order holds each index of the values once, and goes by ascending distance from RV.
  pub determine_order_lem :
      Perm (determine_order sorter rv cs) (indices 0 (length cs))
      × IsAscending (distance rv cs) (determine_order sorter rv cs)
  unfolding determine_order
  determine_order_lem =
      let entries = entries_from 0 rv cs in
      (
        subst (λ is. Perm (map (λ e. e.index) (sorter.sort_slice entries)) is)
            (map-index-entries_from 0 rv cs)
            (Perm.map (λ (e : RevealOrderEntry). e.index) (sorter.sort_slice-perm entries)),
        IsAscending-map (λ e. e.index) (λ e. e.value) (distance rv cs) (sorter.sort_slice entries)
            (λ e m.
              value_of_mem 0 rv cs (λ i. get_or cs i []) (λ k. rw zero-add) e
                ((Perm.mem_iff (sorter.sort_slice-perm entries)).0 m))
            (sorter.sort_slice-IsAscending entries),
      )

pick_all_lem :
    (addresses : List Bytes) (order : List ℕ)
    → ((i : ℕ) → Mem i order → i < length addresses)
    → pick_all addresses order ≡ some (map (λ i. get_or addresses i []) order)
unfolding pick_all
pick_all_lem addresses [] within = refl
pick_all_lem addresses (i ∷ order) within = rw (
  get_elem?-get_or addresses i [] (within i mem-cons_self),
  pick_all_lem addresses order (λ j m. within j (mem-cons_of_mem i m)),
)

module _ (eth : Ethereum) (sorter : RevealSort) where
  -- What the record that is stored says of the COS values and of the addresses in the same order:
  -- RV is the digest of all the values, the order is ascending in the distance from RV, and the
  -- nodes are the addresses, each as often, in that order.
  pub record IsRevealData (cs addresses : List Bytes) (d : RevealData) : Type 0 where
    pub rv_hex : d.rv ≡ encode_to_string (calculate_rv eth cs)
    pub order_perm : Perm d.reveal_order (indices 0 (length cs))
    pub ascending : IsAscending (distance (calculate_rv eth cs) cs) d.reveal_order
    pub nodes_in_order : d.ordered_nodes ≡ map (λ i. get_or addresses i []) d.reveal_order
    pub nodes_perm : Perm d.ordered_nodes addresses

  -- With as many addresses as COS values no index is out of range.
  pub reveal_data_lem :
      (cs addresses : List Bytes)
      → length cs ≡ length addresses
      → (d : RevealData) × (reveal_data eth sorter cs addresses ≡ some d)
        × IsRevealData cs addresses d
  unfolding reveal_data
  reveal_data_lem cs addresses same =
      let rv = calculate_rv eth cs in
      let (perm, ascending) = determine_order_lem sorter rv cs in
      let within = λ (i : ℕ) (m : Mem i (determine_order sorter rv cs)).
        subst (λ n. i < n) (zero-add (length cs) ∙ same)
          (mem-indices 0 (length cs) i ((Perm.mem_iff perm).0 m)).1 in
      let nodes = map (λ i. get_or addresses i []) (determine_order sorter rv cs) in
      (
        record {
          rv = encode_to_string rv;
          reveal_order = determine_order sorter rv cs;
          ordered_nodes = nodes;
        },
        rw (pick_all_lem addresses (determine_order sorter rv cs) within),
        record {
          rv_hex = refl;
          order_perm = perm;
          ascending = ascending;
          nodes_in_order = refl;
          nodes_perm =
              subst (Perm nodes)
                (ap (λ n. map (λ i. get_or addresses i []) (indices 0 n)) same
                  ∙ map-get_or addresses [])
                (Perm.map (λ i. get_or addresses i []) perm);
        },
      )
