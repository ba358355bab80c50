-- ===== src/Leader/Memory/Entries.antt =====
-- nodes/leaderNode.go: the entries of committedNodes.
use drb_node.Base.{
  ◌≡◌, ◌≢◌, refl, ◌⊎◌, inl, inr, Bytes, bytes_eq, Option, none, some, [], ◌==◌, Bool-cases, zero32,
  length,
}
use drb_node.Base.Maps.{Map, get, put, AllEntries, AllEntries-get, AllEntries-put}
use drb_node.Crypto.{Ethereum}
use drb_node.Go.Hex.{encode_to_string}
use drb_node.Utils.Requests.{CommitRequest}
use drb_node.Utils.LeaderNodeData.{LeaderCommitData, new_commit_data}
use drb_node.CommitReveal.Commit.{keccak256}
use drb_node.Leader.State.{Leader, round_map, or_nil, update_in_memory, get_or_create, created}
use drb_node.Leader.Handlers.{take_cvs}

module _ (eth : Ethereum) where
  -- An entry stands under its own round and address; its COS is there only after its CVS, and
  -- opens it; its secret value is not in memory.
  pub record IsEntry (round addr : Bytes) (d : LeaderCommitData) : Type 0 where
    pub of_round : d.round ≡ round
    pub of_eoa : d.eoa_address ≡ eth.address_hex addr
    pub cvs_size : length d.cvs ≡ 32
    pub hex_text : (d.cvs_hex ≡ []) ⊎ (d.cvs_hex ≡ encode_to_string d.cvs)
    pub cos_after_cvs : d.cvs ≡ zero32 → d.cos ≡ zero32
    pub cos_opens : (d.cos ≡ zero32) ⊎ (keccak256 eth d.cos ≡ d.cvs)
    pub no_secret : d.secret_value ≡ zero32

  abbrev pub IsRound : Bytes → Map Bytes LeaderCommitData → Type 0
  IsRound round m = AllEntries (IsEntry round) m

  abbrev pub IsConsistent : Leader → Type 0
  IsConsistent s = AllEntries IsRound s.committed_nodes

  pub new-IsEntry :
      (round addr : Bytes) → IsEntry round addr (new_commit_data round (eth.address_hex addr))
  unfolding new_commit_data
  new-IsEntry round addr = record {
    of_round = refl;
    of_eoa = refl;
    cvs_size = refl;
    hex_text = inl refl;
    cos_after_cvs = λ _. refl;
    cos_opens = inl refl;
    no_secret = refl;
  }

  pub take_cvs-IsEntry :
      (req : CommitRequest) (round addr : Bytes) (d : LeaderCommitData)
      → length req.cvs ≡ 32
      → IsEntry round addr d
      → IsEntry round addr (take_cvs req d)
  unfolding take_cvs
  take_cvs-IsEntry req round addr d len i = elim (Bool-cases (d.cvs == zero32)) [
    | inl zero ↦
        let no_cos : d.cos ≡ zero32 = i.cos_after_cvs ((bytes_eq.equals_iff d.cvs zero32).0 zero) in
        rw (zero, take_cvs)
          (record {
            of_round = i.of_round;
            of_eoa = i.of_eoa;
            cvs_size = len;
            hex_text = inr refl;
            cos_after_cvs = λ _. no_cos;
            cos_opens = inl no_cos;
            no_secret = i.no_secret;
          })
    | inr there ↦ rw (there, take_cvs) i
  ]

  pub with_cos-IsEntry :
      (cos hex round addr : Bytes) (d : LeaderCommitData)
      → d.cvs ≢ zero32
      → keccak256 eth cos ≡ d.cvs
      → IsEntry round addr d
      → IsEntry round addr (record d { cos = cos; cos_hex = hex })
  with_cos-IsEntry cos hex round addr d some_cvs opens i = record {
    of_round = i.of_round;
    of_eoa = i.of_eoa;
    cvs_size = i.cvs_size;
    hex_text = i.hex_text;
    cos_after_cvs = λ zero. absurd (some_cvs zero);
    cos_opens = inr opens;
    no_secret = i.no_secret;
  }

  round_map-IsRound :
      (round : Bytes) (s : Leader) → IsConsistent s → IsRound round (round_map round s)
  unfolding or_nil
  round_map-IsRound round s c = of_get (get round s.committed_nodes) refl
    where
      of_get :
          (o : Option (Map Bytes LeaderCommitData))
          → get round s.committed_nodes ≡ o
          → IsRound round (or_nil o)
      of_get none e = tt
      of_get (some m) e = AllEntries-get IsRound round m s.committed_nodes c e

  -- An entry that is found is consistent.
  pub lookup-IsEntry :
      (round addr : Bytes) (d : LeaderCommitData) (s : Leader)
      → IsConsistent s
      → get addr (round_map round s) ≡ some d
      → IsEntry round addr d
  lookup-IsEntry round addr d s c e =
      AllEntries-get (IsEntry round) addr d (round_map round s) (round_map-IsRound round s c) e

  pub update_in_memory-IsConsistent :
      (round addr : Bytes) (d : LeaderCommitData) (s : Leader)
      → IsConsistent s
      → IsEntry round addr d
      → IsConsistent (update_in_memory round addr d s)
  unfolding update_in_memory
  update_in_memory-IsConsistent round addr d s c i =
      AllEntries-put IsRound round (put addr d (round_map round s)) s.committed_nodes c
        (AllEntries-put (IsEntry round) addr d (round_map round s) (round_map-IsRound round s c) i)

  created-IsConsistent :
      (round addr : Bytes) (o : Option LeaderCommitData) (s : Leader)
      → IsConsistent s
      → ((d : LeaderCommitData) → o ≡ some d → IsEntry round addr d)
      → IsConsistent (created eth round addr o s).0
        × IsEntry round addr (created eth round addr o s).1
  unfolding created
  created-IsConsistent round addr (some d) s c has = (c, has d refl)
  created-IsConsistent round addr none s c has =
      let d = new_commit_data round (eth.address_hex addr) in
      (
        update_in_memory-IsConsistent round addr d s c (new-IsEntry round addr),
        new-IsEntry round addr,
      )

  pub get_or_create-IsConsistent :
      (round addr : Bytes) (s : Leader)
      → IsConsistent s
      → IsConsistent (get_or_create eth round addr s).0
        × IsEntry round addr (get_or_create eth round addr s).1
  unfolding get_or_create
  get_or_create-IsConsistent round addr s c =
      created-IsConsistent round addr (get addr (round_map round s)) s c λ d e.
        AllEntries-get (IsEntry round) addr d (round_map round s) (round_map-IsRound round s c) e
