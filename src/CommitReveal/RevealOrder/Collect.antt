-- ===== src/CommitReveal/RevealOrder/Collect.antt =====
-- commit-reveal2/reveal_order.go: the COS values of the operators, as they are in the file.
use drb_node.Base.{
  ◌≡◌, ◌≢◌, refl, subst, inl, inr, Bytes, bytes_eq, Bool, List, [], ◌∷◌, map, length, ◌==◌,
  Bool-cases, zero32, arith,
}
use drb_node.Base.Maps.{Map}
use drb_node.Go.File.{
  JsonFile, Content, Fault, no_fault, open_fails, transfer_fails, first_fault, decode, read_file,
  read_result,
}
use drb_node.Crypto.{Ethereum}
use drb_node.Utils.LeaderNodeData.{
  LeaderCommitData, Loaded, loaded, load_failed, commit_key, find_commit, load_leader_commit_data,
}
use drb_node.CommitReveal.RevealOrder.{Collected, collected, not_collected, collect_cos, after_load}

abbrev pub operators_of : Map Bytes Bool → List Bytes
operators_of = map (λ entry. entry.0)

-- A read changes no content, and what it reads is the content, where it meets no fault.
load-content :
    (round eoa : Bytes) (file : JsonFile LeaderCommitData)
    → (load_leader_commit_data round eoa file).1.content ≡ file.content
unfolding load_leader_commit_data read_file
load-content round eoa file = refl

read_fault :
    (key : Bytes) (f : Fault LeaderCommitData) (c : Content LeaderCommitData) (d : LeaderCommitData)
    → find_commit key (read_result f c) ≡ loaded d
    → find_commit key (decode c) ≡ loaded d
unfolding find_commit
read_fault key no_fault c d e = e
read_fault key open_fails c d e = absurd (cc)
read_fault key (transfer_fails _) c d e = absurd (cc)

load-eq-find :
    (round eoa : Bytes) (file : JsonFile LeaderCommitData) (d : LeaderCommitData)
    → (load_leader_commit_data round eoa file).0 ≡ loaded d
    → find_commit (commit_key round eoa) (decode file.content) ≡ loaded d
unfolding load_leader_commit_data read_file
load-eq-find round eoa file d e =
    read_fault (commit_key round eoa) (first_fault file.faults) file.content d e

module _ (eth : Ethereum) where
  -- The file has an entry with a COS other than zero for each operator, and these are the values.
  abbrev pub HasCos : Bytes → List Bytes → Content LeaderCommitData → List Bytes → Type 0
  HasCos round [] c [] = Unit
  HasCos round [] c (cos ∷ rest) = ⊥
  HasCos round (op ∷ ops) c [] = ⊥
  HasCos round (op ∷ ops) c (cos ∷ rest) =
      ((d : LeaderCommitData) × (find_commit (commit_key round (eth.address_hex op)) (decode c)
          ≡ loaded d)
        × (d.cos ≡ cos)
        × (cos ≢ zero32))
      × HasCos round ops c rest

  pub HasCos-length :
      (round : Bytes) (ops : List Bytes) (c : Content LeaderCommitData) (cs : List Bytes)
      → HasCos round ops c cs
      → length cs ≡ length (map eth.address_hex ops)
  HasCos-length round [] c [] h = refl
  HasCos-length round [] c (cos ∷ cs) h = absurd h
  HasCos-length round (op ∷ ops) c [] h = absurd h
  HasCos-length round (op ∷ ops) c (cos ∷ cs) h = omega (arith, HasCos-length round ops c cs h.1)

  abbrev pub Collects : Bytes → List Bytes → Content LeaderCommitData → Collected → Type 0
  Collects round ops c (collected cs) = HasCos round ops c cs
  Collects round ops c (not_collected e) = Unit

  after_load-Collects :
      (round op : Bytes) (ops : List Bytes) (c : Content LeaderCommitData) (r : Loaded)
      → (file : JsonFile LeaderCommitData) (rest : Collected × JsonFile LeaderCommitData)
      → ((d : LeaderCommitData)
          → r ≡ loaded d
          → find_commit (commit_key round (eth.address_hex op)) (decode c) ≡ loaded d)
      → Collects round ops c rest.0
      → Collects round (op ∷ ops) c (after_load r file rest).0
  unfolding after_load
  after_load-Collects round op ops c (load_failed e) file rest found others = tt
  after_load-Collects round op ops c (loaded d) file (collected cs, file') found others =
      elim (Bool-cases (d.cos == zero32)) [
        | inl missing ↦ rw (missing, after_load) tt
        | inr there ↦
            rw (there, after_load)
              (
                (d, found d refl, refl, λ e. ground (arith, bytes_eq.equals_iff d.cos zero32)),
                others,
              )
      ]
  after_load-Collects round op ops c (loaded d) file (not_collected e, file') found others =
      elim (Bool-cases (d.cos == zero32)) [
        | inl missing ↦ rw (missing, after_load) tt
        | inr there ↦ rw (there, after_load) tt
      ]

  pub collect_cos-Collects :
      (round : Bytes) (ops : List Bytes) (file : JsonFile LeaderCommitData)
      → Collects round ops file.content (collect_cos eth round ops file).0
  unfolding collect_cos
  collect_cos-Collects round [] file = tt
  collect_cos-Collects round (op ∷ ops) file =
      let (r, file') = load_leader_commit_data round (eth.address_hex op) file in
      after_load-Collects round op ops file.content r file' (collect_cos eth round ops file')
        (load-eq-find round (eth.address_hex op) file)
        (subst (λ c. Collects round ops c (collect_cos eth round ops file').0)
          (load-content round (eth.address_hex op) file) (collect_cos-Collects round ops file'))
