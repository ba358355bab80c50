-- ===== src/Protocol/Honest.antt =====
-- nodes/leaderNode.go with nodes/regularNode.go: the CVS and the COS of an honest regular node.
use drb_node.Base.{
  ◌≡◌, ◌≢◌, ◌⊎◌, inl, inr, refl, sym, ap, ◌∙◌, Bytes, bytes_eq, Bool, true, arith, none, some, ◌==◌,
  ==_refl, Bool-cases, zero32,
}
use drb_node.Base.Maps.{Map}
use drb_node.Crypto.{Ethereum}
use drb_node.Go.Hex.{encode_to_string}
use drb_node.Utils.Requests.{CommitRequest, CosRequest}
use drb_node.Utils.Signature.{key_eoa}
use drb_node.Utils.LeaderNodeData.{LeaderCommitData, new_commit_data}
use drb_node.CommitReveal.Commit.{Commitment, keccak256}
use drb_node.CommitReveal.Commit.Chain.{IsChain}
use drb_node.Leader.State.{Leader, get_or_create, created}
use drb_node.Leader.Handlers.{take_cvs, commit_locked, cos_locked}
use drb_node.Leader.Handlers.Stored.{
  Written, kept, unwritten, commit_locked-Written, cos_locked-Written,
}
use drb_node.Leader.Memory.Entries.{IsConsistent, lookup-IsEntry}
use drb_node.Leader.Memory.Growth.{lookup}
use drb_node.Leader.Memory.Steps.{commits, Reach, Step-IsConsistent, Reach-IsConsistent}
use drb_node.Leader.Memory.WriteOnce.{Reach-Grows}

take_cvs-new :
    (req : CommitRequest) (round eoa : Bytes)
    → (take_cvs req (new_commit_data round eoa)).cvs ≡ req.cvs
unfolding take_cvs new_commit_data
take_cvs-new req round eoa = rw (==_refl zero32) refl

-- An entry that the locked part of the handler kept.
kept_entry :
    (round addr : Bytes) (d : LeaderCommitData) (s : Leader) (r : Leader × Bool)
    → Written round addr d s r
    → r.1 ≡ true
    → lookup round addr r.0 ≡ some d
kept_entry round addr d s r (kept _ k) on = k.in_memory
kept_entry round addr d s r (unwritten e _ off _) on = absurd (cc)

module _ (eth : Ethereum) (round key signature : Bytes) (sign : Map Bytes Bytes)
    (c : Commitment) where
  -- The address of the node's key, and the node's two requests.
  abbrev pub node_address : Bytes
  node_address = eth.hex_to_address (key_eoa eth key)

  abbrev pub commit_request : CommitRequest
  commit_request = record {
    round = round;
    cvs = c.cvs;
    eoa_address = key_eoa eth key;
    signature = signature;
    sign = sign;
  }

  abbrev pub cos_request : CosRequest
  cos_request = record {
    round = round;
    cos = c.cos;
    eoa_address = key_eoa eth key;
    signature = signature;
  }

  -- The entry after the first commit request.
  committed :
      (s : Leader)
      → lookup round node_address s ≡ none
      → (commit_locked eth commit_request s).1 ≡ true
      → (d : LeaderCommitData) × (lookup round node_address (commit_locked eth commit_request s).0
          ≡ some d)
        × (d.cvs ≡ c.cvs)
  unfolding get_or_create created
  committed s new on =
      let d = (get_or_create eth round node_address s).1 in
      let fresh : d ≡ new_commit_data round (eth.address_hex node_address) =
        rw (new, created) refl in
      (
        take_cvs commit_request d,
        kept_entry round node_address (take_cvs commit_request d)
            (get_or_create eth round node_address s).0 (commit_locked eth commit_request s)
            (commit_locked-Written eth commit_request s) on,
        ap (λ (x : LeaderCommitData). (take_cvs commit_request x).cvs) fresh
            ∙ take_cvs-new commit_request round (eth.address_hex node_address),
      )

  -- What the leader does with the COS of the node.
  pub data Accepted (s : Leader) : Type 0 where
    opened_before :
        (d : LeaderCommitData)
        → lookup round node_address s ≡ some d
        → d.cos ≢ zero32
        → keccak256 eth d.cos ≡ c.cvs
        → Accepted s
    opens_now :
        (d : LeaderCommitData)
        → lookup round node_address s ≡ some d
        → d.cvs ≡ c.cvs
        → Written round node_address
            (record d { cos = c.cos; cos_hex = encode_to_string c.cos })
            s
            (cos_locked eth cos_request s)
        → Accepted s

  accepted :
      (s : Leader) (d : LeaderCommitData)
      → IsChain eth c
      → c.cvs ≢ zero32
      → IsConsistent eth s
      → lookup round node_address s ≡ some d
      → d.cvs ≡ c.cvs
      → Accepted s
  accepted s d chain some_cvs consistent there same = elim (Bool-cases (d.cos == zero32)) [
    | inl first ↦ opens_now d there same (
        cos_locked-Written eth cos_request d s there (λ e. some_cvs (sym same ∙ e))
          (chain.cvs_of_cos ∙ sym same) ((bytes_eq.equals_iff d.cos zero32).0 first))
    | inr again ↦
        let not_zero : d.cos ≢ zero32 = λ e. ground (arith, bytes_eq.equals_iff d.cos zero32) in
        elim (lookup-IsEntry eth round node_address d s consistent there).cos_opens [
          | inl e ↦ absurd (not_zero e)
          | inr opens ↦ opened_before d there not_zero (opens ∙ same)
        ]
  ]

  -- Once the leader, in a consistent state without an entry for a node, has kept the node's commit
  -- request, the COS of that commitment opens the node's entry in every state that the leader can
  -- reach, whatever other requests come between: it is kept, unless the file cannot be written or a
  -- COS that opens the CVS is there already. The CVS is that of a chain, has 32 bytes and is not zero.
  pub cos_locked-Accepted :
      (s t : Leader)
      → IsChain eth c
      → c.cvs ≢ zero32
      → IsConsistent eth s
      → lookup round node_address s ≡ none
      → (commit_locked eth commit_request s).1 ≡ true
      → Reach eth (commit_locked eth commit_request s).0 t
      → Accepted t
  cos_locked-Accepted s t chain some_cvs consistent new on reach =
      let s1 = (commit_locked eth commit_request s).0 in
      let (d, there, same) = committed s new on in
      let consistent1 : IsConsistent eth s1 =
        Step-IsConsistent eth (commits commit_request s chain.cvs_size) consistent in
      let (d', there', grown) = Reach-Grows eth reach round node_address d there in
      accepted t d' chain some_cvs (Reach-IsConsistent eth reach consistent1) there'
        (keeps d d' same grown.keeps_cvs ∙ same)
    where
      keeps :
          (d d' : LeaderCommitData)
          → d.cvs ≡ c.cvs
          → (d.cvs ≡ zero32) ⊎ ((d'.cvs ≡ d.cvs) × (d'.sign ≡ d.sign))
          → d'.cvs ≡ d.cvs
      keeps d d' same (inl zero) = absurd (some_cvs (sym same ∙ zero))
      keeps d d' same (inr (e, _)) = e
