-- ===== src/Leader/Requests.antt =====
-- nodes/leaderNode_helper/reveal_requests.go: the requests for secret values, one operator after
-- another in the reveal order.
pub mod Next
pub mod Quiet
pub mod Formed
use drb_node.Base.{
  Bytes, bytes_eq, Bool, true, false, Option, none, some, List, [], ◌∷◌, ◌++◌, ◌==◌, ◌||◌,
  if◌then◌else◌, codes,
}
use drb_node.Base.Maps.{Map, get, put}
use drb_node.Crypto.{Ethereum}
use drb_node.Go.File.{Result, ok, err}
use drb_node.Utils.Network.{Network, Stream, create_stream, send_data_over_stream}
use drb_node.Utils.Requests.{SecretValueRequest}
use drb_node.Utils.Signature.{sign_data, key_eoa}
use drb_node.CommitReveal.RevealOrder.{RevealData, load_reveal_orders}
use drb_node.Leader.State.{NodeInfo, requests_secret, Leader, Setup, Replies, fatal}
use drb_node.Leader.Nodes.{load_registered_nodes}

unfoldable pub contains : List Bytes → Bytes → Bool
contains [] item = false
contains (v ∷ slice) item = v == item || contains slice item

-- revealRequestStatus[roundNum], which is nil where the round is missing
abbrev pub requested : Bytes → Leader → List Bytes
requested round s = elim (get round s.reveal_request_status) [ none ↦ [] | some eoas ↦ eoas ]

-- The loop of StartSecretValueRequests: the first operator that is registered.
unfoldable pub first_registered : Map Bytes NodeInfo → List Bytes → Option (Bytes × NodeInfo)
first_registered nodes [] = none
first_registered nodes (eoa ∷ rest) = elim (get eoa nodes) [
  | none ↦ first_registered nodes rest
  | some info ↦ some (eoa, info)
]

-- The loop of HandleSecretValueResponse: the first that is registered and was not asked.
unfoldable pub next_unrequested :
    List Bytes → Map Bytes NodeInfo → List Bytes → Option (Bytes × NodeInfo)
unfolding contains
next_unrequested asked nodes [] = none
next_unrequested asked nodes (eoa ∷ rest) =
    let later = next_unrequested asked nodes rest in
    if contains asked eoa
    then later
    else elim (get eoa nodes) [ none ↦ later | some info ↦ some (eoa, info) ]

sent_over : Network → Option Stream → Bool
sent_over network none = false
sent_over network (some stream) = send_data_over_stream network stream

-- sendToRegularNode; the flag is false for an error.
unfoldable pub send_to_regular_node : Network → NodeInfo → Bytes → Bool
unfolding sent_over
send_to_regular_node network info protocol =
    sent_over network (create_stream network info.ip info.port info.peer_id protocol)

module _ (eth : Ethereum) (setup : Setup) (replies : Replies) where
  sent_to : Bytes → Bytes → NodeInfo → SecretValueRequest → Leader → Leader
  sent_to round eoa info req s =
      if send_to_regular_node replies.network info (codes "/sendSecretValue")
      then record s {
        outputs = s.outputs ++ requests_secret eoa info req ∷ [];
        reveal_request_status = put round (requested round s ++ eoa ∷ []) s.reveal_request_status;
      }
      else s

  with_signature : Bytes → Bytes → NodeInfo → Bytes → Option Bytes → Leader → Leader
  unfolding sent_to
  with_signature round eoa info key none s = fatal s
  with_signature round eoa info key (some signature) s =
      sent_to round eoa info
        (record {
          eoa_address = key_eoa eth key;
          round = round;
          signature = signature;
          secret_value = [];
        })
        s

  with_key : Bytes → Bytes → NodeInfo → Option Bytes → Leader → Leader
  unfolding with_signature
  with_key round eoa info none s = s
  with_key round eoa info (some key) s =
      with_signature round eoa info key (sign_data eth (key_eoa eth key) key) s

  -- sendSecretValueRequestToNode
  unfoldable pub send_secret_value_request_to_node : Bytes → Bytes → NodeInfo → Leader → Leader
  unfolding with_key
  send_secret_value_request_to_node round eoa info s =
      if setup.leader_private_key == []
      then fatal s
      else with_key round eoa info (setup.hex_to_ecdsa setup.leader_private_key) s

  send_to : Bytes → Option (Bytes × NodeInfo) → Leader → Leader
  send_to round none s = s
  send_to round (some (eoa, info)) s = send_secret_value_request_to_node round eoa info s

  -- Makes the entry of the round where it is missing.
  abbrev init_status : Bytes → Leader → Leader
  init_status round s = record s {
    reveal_request_status = elim (get round s.reveal_request_status) [
      | none ↦ put round [] s.reveal_request_status
      | some _ ↦ s.reveal_request_status
    ];
  }

  with_nodes : Bytes → List Bytes → Result (Map Bytes NodeInfo) → Leader → Leader
  unfolding send_to first_registered
  with_nodes round ordered (err e) s = s
  with_nodes round ordered (ok nodes) s =
      send_to round (first_registered nodes ordered) (init_status round s)

  next_with_nodes : Bytes → List Bytes → Result (Map Bytes NodeInfo) → Leader → Leader
  unfolding send_to next_unrequested
  next_with_nodes round ordered (err e) s = s
  next_with_nodes round ordered (ok nodes) s =
      send_to round (next_unrequested (requested round s) nodes ordered) s

  continue_with :
      (List Bytes → Result (Map Bytes NodeInfo) → Leader → Leader)
      → Option RevealData
      → Leader
      → Leader
  continue_with continue none s = s
  continue_with continue (some d) s =
      let (nodes, nodes_file) = load_registered_nodes s.registered_nodes in
      continue d.ordered_nodes nodes (record s { registered_nodes = nodes_file })

  with_loaded_orders :
      Bytes
      → (List Bytes → Result (Map Bytes NodeInfo) → Leader → Leader)
      → Result (Map Bytes RevealData)
      → Leader
      → Leader
  unfolding continue_with
  with_loaded_orders round continue (err e) s = s
  with_loaded_orders round continue (ok m) s = continue_with continue (get round m) s

  -- Both functions load the reveal order of the round and the registered nodes, or stop.
  load_for_round :
      Bytes → (List Bytes → Result (Map Bytes NodeInfo) → Leader → Leader) → Leader → Leader
  unfolding with_loaded_orders
  load_for_round round continue s =
      let (orders, file) = load_reveal_orders s.reveal_orders in
      with_loaded_orders round continue orders (record s { reveal_orders = file })

  -- StartSecretValueRequests
  unfoldable pub start_secret_value_requests : Bytes → Leader → Leader
  unfolding load_for_round with_nodes
  start_secret_value_requests round = load_for_round round (with_nodes round)

  -- HandleSecretValueResponse
  unfoldable pub handle_secret_value_response : Bytes → Leader → Leader
  unfolding load_for_round next_with_nodes
  handle_secret_value_response round = load_for_round round (next_with_nodes round)
