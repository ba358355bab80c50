-- ===== src/CommitReveal/RevealOrder.antt =====
-- commit-reveal2/reveal_order.go: the order in which the operators reveal their secrets, and the
-- file reveal_orders.json.
pub mod Order
pub mod Collect
pub mod Stored
pub mod Binding
use drb_node.Base.{
  ℕ, ◌+◌, ◌-◌, Bytes, bytes_eq, Bool, Option, none, some, List, [], ◌∷◌, ◌++◌, map, leb, ◌==◌,
  if◌then◌else◌, ◌>>=◌, get_elem?, copy_into, zero32,
}
use drb_node.Base.Maps.{Map, get, put}
use drb_node.Go.File.{JsonFile, Error, not_exist, Result, ok, err, read_file, create_file}
use drb_node.Go.Hex.{encode_to_string}
use drb_node.Go.Number.{set_bytes}
use drb_node.Go.Sort.{SliceSort}
use drb_node.Crypto.{Ethereum}
use drb_node.Utils.LeaderNodeData.{
  LeaderCommitData, LoadError, Loaded, loaded, load_failed, load_leader_commit_data,
}
use drb_node.CommitReveal.Commit.{keccak256}

-- The concatenation that the loop of calculateRV builds.
unfoldable pub concat : List Bytes → Bytes
concat [] = []
concat (c ∷ cs) = c ++ concat cs

pub record RevealOrderEntry : Type 0 where
  pub index : ℕ
  pub value : ℕ

-- Abs(a - b) of two natural numbers
unfoldable pub abs_diff : ℕ → ℕ → ℕ
abs_diff a b = if leb b a then a - b else b - a

-- The loop over `cosValues`, from index `i` on.
unfoldable pub entries_from : ℕ → Bytes → List Bytes → List RevealOrderEntry
unfolding abs_diff
entries_from i rv [] = []
entries_from i rv (cos ∷ rest) =
    record { index = i; value = abs_diff (set_bytes 0 rv) (set_bytes 0 cos) }
    ∷ entries_from (i + 1) rv rest

abbrev pub RevealSort : Type 0
RevealSort = SliceSort RevealOrderEntry (λ e. e.value)

unfoldable pub determine_order : RevealSort → Bytes → List Bytes → List ℕ
determine_order sorter rv cos_values =
    map (λ e. e.index) (sorter.sort_slice (entries_from 0 rv cos_values))

-- addresses[index] for each index of the order; `none` is an index panic.
unfoldable pub pick_all : List Bytes → List ℕ → Option (List Bytes)
pick_all addresses [] = some []
pick_all addresses (index ∷ rest) = do
  address ← get_elem? addresses index
  others ← pick_all addresses rest
  some (address ∷ others)

-- The value under a round in reveal_orders.json.
pub record RevealData : Type 0 where
  pub rv : Bytes
  pub reveal_order : List ℕ
  pub ordered_nodes : List Bytes

pub data RevealError : Type 0 where
  orders_unreadable : Error → RevealError
  no_activated_operators : RevealError
  cos_unreadable : LoadError → RevealError
  missing_cos : RevealError
  index_panic : RevealError
  orders_not_saved : Error → RevealError

-- A missing file is an empty map.
unfoldable pub or_empty : Result (Map Bytes RevealData) → Result (Map Bytes RevealData)
or_empty (err not_exist) = ok []
or_empty (err e) = err e
or_empty (ok m) = ok m

unfoldable pub load_reveal_orders :
    JsonFile RevealData → Result (Map Bytes RevealData) × JsonFile RevealData
unfolding or_empty
load_reveal_orders file = let (r, file') = read_file file in (or_empty r, file')

unfoldable pub save_reveal_orders :
    Map Bytes RevealData → JsonFile RevealData → Option Error × JsonFile RevealData
save_reveal_orders orders file = create_file orders file

pub data Collected : Type 0 where
  collected : List Bytes → Collected
  not_collected : RevealError → Collected

abbrev pub add_cos : Bytes → Collected → Collected
add_cos cos (collected rest) = collected (cos ∷ rest)
add_cos cos (not_collected e) = not_collected e

-- The two files that the function reads or writes, and its error.
pub record Files : Type 0 where
  pub reveal_orders : JsonFile RevealData
  pub leader_commits : JsonFile LeaderCommitData

abbrev saved_or : Option Error → Option RevealError
saved_or none = none
saved_or (some e) = some (orders_not_saved e)

-- One turn of the loop over the operators, with what the other turns give.
after_load :
    Loaded
    → JsonFile LeaderCommitData
    → Collected × JsonFile LeaderCommitData
    → Collected × JsonFile LeaderCommitData
after_load (load_failed e) file rest = (not_collected (cos_unreadable e), file)
after_load (loaded d) file rest =
    if d.cos == zero32 then (not_collected missing_cos, file) else (add_cos d.cos rest.0, rest.1)

module _ (eth : Ethereum) where
  -- calculateRV
  unfoldable pub calculate_rv : List Bytes → Bytes
  unfolding concat keccak256
  calculate_rv cos_values = copy_into zero32 (keccak256 eth (concat cos_values))

  -- The loop over the operators of the round, in the order in which `range` meets them.
  unfoldable pub collect_cos :
      Bytes → List Bytes → JsonFile LeaderCommitData → Collected × JsonFile LeaderCommitData
  unfolding after_load
  collect_cos round [] file = (collected [], file)
  collect_cos round (operator ∷ operators) file =
      let (r, file') = load_leader_commit_data round (eth.address_hex operator) file in
      let rest = collect_cos round operators file' in after_load r file' rest

module _ (eth : Ethereum) (sorter : RevealSort) where
  -- What is stored for the round, from the COS values and the addresses in one order.
  unfoldable pub reveal_data : List Bytes → List Bytes → Option RevealData
  unfolding calculate_rv determine_order pick_all
  reveal_data cos_values addresses =
      let rv = calculate_rv eth cos_values in
      let order = determine_order sorter rv cos_values in
      (do
        ordered ← pick_all addresses order
        some (record { rv = encode_to_string rv; reveal_order = order; ordered_nodes = ordered }))

  store_order :
      Bytes → Map Bytes RevealData → Option RevealData → Files → Option RevealError × Files
  store_order round orders none files = (some index_panic, files)
  store_order round orders (some d) files =
      let (e, file) = save_reveal_orders (put round d orders) files.reveal_orders in
      (saved_or e, record files { reveal_orders = file })

  with_cos :
      Bytes → List Bytes → Map Bytes RevealData → Collected → Files → Option RevealError × Files
  unfolding store_order
  with_cos round operators orders (not_collected e) files = (some e, files)
  with_cos round operators orders (collected cos_values) files =
      store_order round orders (reveal_data cos_values (map eth.address_hex operators)) files

  with_operators :
      Bytes → Option (Map Bytes Bool) → Map Bytes RevealData → Files → Option RevealError × Files
  unfolding with_cos
  with_operators round none orders files = (some no_activated_operators, files)
  with_operators round (some []) orders files = (some no_activated_operators, files)
  with_operators round (some (op ∷ ops)) orders files =
      let operators = map (λ (entry : Bytes × Bool). entry.0) (op ∷ ops) in
      let (cos, commits) = collect_cos eth round operators files.leader_commits in
      with_cos round operators orders cos (record files { leader_commits = commits })

  with_orders :
      Bytes
      → Map Bytes (Map Bytes Bool)
      → Result (Map Bytes RevealData)
      → Files
      → Option RevealError × Files
  unfolding with_operators
  with_orders round activated (err e) files = (some (orders_unreadable e), files)
  with_orders round activated (ok orders) files = elim (get round orders) [
    | some _ ↦ (none, files)
    | none ↦ with_operators round (get round activated) orders files
  ]

  -- DetermineRevealOrder; the error is `none` where the function returns nil.
  unfoldable pub determine_reveal_order :
      Bytes → Map Bytes (Map Bytes Bool) → Files → Option RevealError × Files
  unfolding with_orders
  determine_reveal_order round activated files =
      let (orders, file) = load_reveal_orders files.reveal_orders in
      with_orders round activated orders (record files { reveal_orders = file })
