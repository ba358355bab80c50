-- ===== src/Leader/Requests/Next.antt =====
-- nodes/leaderNode_helper/reveal_requests.go: which operator is asked next.
use drb_node.Base.{◌≡◌, ◌⊎◌, Bytes, bytes_eq, Option, none, some, List, ◌∷◌, ◌++◌, All, Mem}
use drb_node.Base.Maps.{Map, get}
use drb_node.Crypto.{Ethereum}
use drb_node.Leader.State.{NodeInfo, Leader, Setup, Replies}
use drb_node.Leader.Requests.{send_secret_value_request_to_node}

module _ (asked : List Bytes) (nodes : Map Bytes NodeInfo) where
  -- An operator that was asked, or whose node is not registered.
  abbrev pub IsPassed : Bytes → Type 0
  IsPassed eoa = Mem eoa asked ⊎ (get eoa nodes ≡ none)

  -- The operator of the list that is next, or that there is none.
  data Next (ordered : List Bytes) (r : Option (Bytes × NodeInfo)) : Type 0 where
    next_is :
        (before : List Bytes) (eoa : Bytes) (after : List Bytes) (info : NodeInfo)
        → ordered ≡ before ++ eoa ∷ after
        → All IsPassed before
        → ¬ Mem eoa asked
        → get eoa nodes ≡ some info
        → r ≡ some (eoa, info)
        → Next ordered r
    none_is : All IsPassed ordered → r ≡ none → Next ordered r

module _ (eth : Ethereum) (setup : Setup) (replies : Replies) (round : Bytes) where
  -- From the leader `s`, with the operators that were asked, the registered nodes and the reveal
  -- order: the request to the first operator that is not passed over, or nothing where all are.
  pub data Asks (asked : List Bytes) (nodes : Map Bytes NodeInfo) (ordered : List Bytes)
      (s : Leader) : Leader → Type 0 where
    asks :
        (before : List Bytes) (eoa : Bytes) (after : List Bytes) (info : NodeInfo)
        → ordered ≡ before ++ eoa ∷ after
        → All (IsPassed asked nodes) before
        → ¬ Mem eoa asked
        → get eoa nodes ≡ some info
        → Asks asked nodes ordered s
            (send_secret_value_request_to_node eth setup replies round eoa info s)
    asks_none : All (IsPassed asked nodes) ordered → Asks asked nodes ordered s s
