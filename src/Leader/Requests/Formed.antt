-- ===== src/Leader/Requests/Formed.antt =====
-- nodes/leaderNode_helper/reveal_requests.go: the requests for secret values are the leader's own.
use drb_node.Base.{◌≡◌, refl, Bytes, bytes_eq, Option, none, some, List, [], ◌==◌, codes}
use drb_node.Base.Maps.{Map, get}
use drb_node.Crypto.{Ethereum}
use drb_node.Go.File.{Result, ok, err}
use drb_node.Utils.Signature.{sign_data, key_eoa, verify_signature-sign_data}
use drb_node.CommitReveal.RevealOrder.{RevealData, load_reveal_orders}
use drb_node.Leader.State.{NodeInfo, Leader, Setup, Replies, fatal}
use drb_node.Leader.Nodes.{load_registered_nodes}
use drb_node.Leader.Outputs.{Keeps, if-AllWellFormed, add-AllWellFormed}
use drb_node.Leader.Requests.{
  sent_to, with_signature, with_key, send_secret_value_request_to_node, send_to, with_nodes,
  next_with_nodes, send_to_regular_node, first_registered, next_unrequested, requested,
  start_secret_value_requests, handle_secret_value_response, load_for_round, continue_with,
  with_loaded_orders,
}

module _ (eth : Ethereum) (setup : Setup) (replies : Replies) where
  with_signature-Keeps :
      (round eoa : Bytes) (info : NodeInfo) (key : Bytes) (o : Option Bytes)
      → setup.hex_to_ecdsa setup.leader_private_key ≡ some key
      → sign_data eth (key_eoa eth key) key ≡ o
      → Keeps eth setup (with_signature eth setup replies round eoa info key o)
  unfolding with_signature sent_to
  with_signature-Keeps round eoa info key none own made s all = all
  with_signature-Keeps round eoa info key (some signature) own made s all =
      if-AllWellFormed eth setup
        (send_to_regular_node replies.network info (codes "/sendSecretValue")) _ s
        (add-AllWellFormed eth setup _ s
          (record {
            key = key;
            key_decoded = own;
            sender = refl;
            accepted = verify_signature-sign_data eth key signature [] made;
          })
          all)
        all

  with_key-Keeps :
      (round eoa : Bytes) (info : NodeInfo) (o : Option Bytes)
      → setup.hex_to_ecdsa setup.leader_private_key ≡ o
      → Keeps eth setup (with_key eth setup replies round eoa info o)
  unfolding with_key
  with_key-Keeps round eoa info none own s all = all
  with_key-Keeps round eoa info (some key) own s all =
      with_signature-Keeps round eoa info key (sign_data eth (key_eoa eth key) key) own refl s all

  pub send-Keeps :
      (round eoa : Bytes) (info : NodeInfo)
      → Keeps eth setup (send_secret_value_request_to_node eth setup replies round eoa info)
  unfolding send_secret_value_request_to_node
  send-Keeps round eoa info s all =
      if-AllWellFormed eth setup (setup.leader_private_key == []) (fatal s) _ all
        (with_key-Keeps round eoa info (setup.hex_to_ecdsa setup.leader_private_key) refl s all)

  send_to-Keeps :
      (round : Bytes) (o : Option (Bytes × NodeInfo))
      → Keeps eth setup (send_to eth setup replies round o)
  unfolding send_to
  send_to-Keeps round none s all = all
  send_to-Keeps round (some (eoa, info)) s all = send-Keeps round eoa info s all

  with_nodes-Keeps :
      (round : Bytes) (ordered : List Bytes) (r : Result (Map Bytes NodeInfo))
      → Keeps eth setup (with_nodes eth setup replies round ordered r)
  unfolding with_nodes
  with_nodes-Keeps round ordered (err e) s all = all
  with_nodes-Keeps round ordered (ok nodes) s all =
      send_to-Keeps round (first_registered nodes ordered) _ all

  next_with_nodes-Keeps :
      (round : Bytes) (ordered : List Bytes) (r : Result (Map Bytes NodeInfo))
      → Keeps eth setup (next_with_nodes eth setup replies round ordered r)
  unfolding next_with_nodes
  next_with_nodes-Keeps round ordered (err e) s all = all
  next_with_nodes-Keeps round ordered (ok nodes) s all =
      send_to-Keeps round (next_unrequested (requested round s) nodes ordered) s all

  module _ (round : Bytes) (continue : List Bytes → Result (Map Bytes NodeInfo) → Leader → Leader)
      (keeps : (ordered : List Bytes) (r : Result (Map Bytes NodeInfo))
        → Keeps eth setup (continue ordered r)) where
    continue_with-Keeps :
        (d : Option RevealData) → Keeps eth setup (continue_with eth setup replies continue d)
    unfolding continue_with
    continue_with-Keeps none s all = all
    continue_with-Keeps (some d) s all =
        let (nodes, nodes_file) = load_registered_nodes s.registered_nodes in
        keeps d.ordered_nodes nodes (record s { registered_nodes = nodes_file }) all

    with_loaded_orders-Keeps :
        (orders : Result (Map Bytes RevealData))
        → Keeps eth setup (with_loaded_orders eth setup replies round continue orders)
    unfolding with_loaded_orders
    with_loaded_orders-Keeps (err e) s all = all
    with_loaded_orders-Keeps (ok m) s all = continue_with-Keeps (get round m) s all

    load_for_round-Keeps : Keeps eth setup (load_for_round eth setup replies round continue)
    unfolding load_for_round
    load_for_round-Keeps s all =
        let (orders, file) = load_reveal_orders s.reveal_orders in
        with_loaded_orders-Keeps orders (record s { reveal_orders = file }) all

  pub start-Keeps :
      (round : Bytes) → Keeps eth setup (start_secret_value_requests eth setup replies round)
  unfolding start_secret_value_requests
  start-Keeps round =
      load_for_round-Keeps round (with_nodes eth setup replies round) (with_nodes-Keeps round)

  pub response-Keeps :
      (round : Bytes) → Keeps eth setup (handle_secret_value_response eth setup replies round)
  unfolding handle_secret_value_response
  response-Keeps round =
      load_for_round-Keeps round (next_with_nodes eth setup replies round)
        (next_with_nodes-Keeps round)
