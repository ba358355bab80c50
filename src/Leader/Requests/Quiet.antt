-- ===== src/Leader/Requests/Quiet.antt =====
-- nodes/leaderNode_helper/reveal_requests.go: requests for secrets, and the commits in memory.
use drb_node.Base.{
  ◌≡◌, refl, Bytes, Bool, true, false, Option, none, some, List, [], ◌==◌, bytes_eq, if◌then◌else◌,
  codes,
}
use drb_node.Base.Maps.{Map, get}
use drb_node.Crypto.{Ethereum}
use drb_node.Utils.LeaderNodeData.{LeaderCommitData}
use drb_node.Go.File.{JsonFile, Result, ok, err}
use drb_node.Utils.Signature.{sign_data, key_eoa}
use drb_node.CommitReveal.RevealOrder.{RevealData, load_reveal_orders}
use drb_node.Leader.State.{NodeInfo, Leader, Setup, Replies}
use drb_node.Leader.Nodes.{load_registered_nodes}
use drb_node.Leader.Requests.{
  with_signature, with_key, send_secret_value_request_to_node, send_to_regular_node, send_to,
  with_nodes, next_with_nodes, first_registered, next_unrequested, requested,
  start_secret_value_requests, handle_secret_value_response, load_for_round, continue_with,
  with_loaded_orders,
}

module _ (eth : Ethereum) (setup : Setup) (replies : Replies) where
  -- The commits in memory and in the file.
  abbrev pub kept : Leader → Map Bytes (Map Bytes LeaderCommitData) × JsonFile LeaderCommitData
  kept s = (s.committed_nodes, s.leader_commits)

  abbrev pub Quiet : (Leader → Leader) → Type 0
  Quiet f = (s : Leader) → kept (f s) ≡ kept s

  if-kept :
      (b : Bool) (s t u : Leader)
      → kept t ≡ kept s
      → kept u ≡ kept s
      → kept (if b then t else u) ≡ kept s
  if-kept true s t u p q = p
  if-kept false s t u p q = q

  pub if-committed :
      (b : Bool) (s t u : Leader)
      → t.committed_nodes ≡ s.committed_nodes
      → u.committed_nodes ≡ s.committed_nodes
      → (if b then t else u).committed_nodes ≡ s.committed_nodes
  if-committed true s t u p q = p
  if-committed false s t u p q = q

  with_signature-Quiet :
      (round eoa : Bytes) (info : NodeInfo) (key : Bytes) (o : Option Bytes)
      → Quiet (with_signature eth setup replies round eoa info key o)
  unfolding with_signature
  with_signature-Quiet round eoa info key none s = refl
  with_signature-Quiet round eoa info key (some signature) s =
      if-kept (send_to_regular_node replies.network info (codes "/sendSecretValue")) s _ s refl refl

  with_key-Quiet :
      (round eoa : Bytes) (info : NodeInfo) (o : Option Bytes)
      → Quiet (with_key eth setup replies round eoa info o)
  unfolding with_key
  with_key-Quiet round eoa info none s = refl
  with_key-Quiet round eoa info (some key) s =
      with_signature-Quiet round eoa info key (sign_data eth (key_eoa eth key) key) s

  pub send-Quiet :
      (round eoa : Bytes) (info : NodeInfo)
      → Quiet (send_secret_value_request_to_node eth setup replies round eoa info)
  unfolding send_secret_value_request_to_node
  send-Quiet round eoa info s =
      if-kept (setup.leader_private_key == []) s _ _ refl
        (with_key-Quiet round eoa info (setup.hex_to_ecdsa setup.leader_private_key) s)

  send_to-Quiet :
      (round : Bytes) (o : Option (Bytes × NodeInfo)) → Quiet (send_to eth setup replies round o)
  unfolding send_to
  send_to-Quiet round none s = refl
  send_to-Quiet round (some (eoa, info)) s = send-Quiet round eoa info s

  with_nodes-Quiet :
      (round : Bytes) (ordered : List Bytes) (r : Result (Map Bytes NodeInfo))
      → Quiet (with_nodes eth setup replies round ordered r)
  unfolding with_nodes
  with_nodes-Quiet round ordered (err e) s = refl
  with_nodes-Quiet round ordered (ok nodes) s =
      send_to-Quiet round (first_registered nodes ordered) _

  next_with_nodes-Quiet :
      (round : Bytes) (ordered : List Bytes) (r : Result (Map Bytes NodeInfo))
      → Quiet (next_with_nodes eth setup replies round ordered r)
  unfolding next_with_nodes
  next_with_nodes-Quiet round ordered (err e) s = refl
  next_with_nodes-Quiet round ordered (ok nodes) s =
      send_to-Quiet round (next_unrequested (requested round s) nodes ordered) s

  continue_with-Quiet :
      (continue : List Bytes → Result (Map Bytes NodeInfo) → Leader → Leader)
      → ((ordered : List Bytes) (r : Result (Map Bytes NodeInfo)) → Quiet (continue ordered r))
      → (d : Option RevealData) → Quiet (continue_with eth setup replies continue d)
  unfolding continue_with
  continue_with-Quiet continue quiet none s = refl
  continue_with-Quiet continue quiet (some d) s =
      let (nodes, nodes_file) = load_registered_nodes s.registered_nodes in
      quiet d.ordered_nodes nodes (record s { registered_nodes = nodes_file })

  with_loaded_orders-Quiet :
      (round : Bytes) (continue : List Bytes → Result (Map Bytes NodeInfo) → Leader → Leader)
      → ((ordered : List Bytes) (r : Result (Map Bytes NodeInfo)) → Quiet (continue ordered r))
      → (orders : Result (Map Bytes RevealData))
      → Quiet (with_loaded_orders eth setup replies round continue orders)
  unfolding with_loaded_orders
  with_loaded_orders-Quiet round continue quiet (err e) s = refl
  with_loaded_orders-Quiet round continue quiet (ok m) s =
      continue_with-Quiet continue quiet (get round m) s

  load_for_round-Quiet :
      (round : Bytes) (continue : List Bytes → Result (Map Bytes NodeInfo) → Leader → Leader)
      → ((ordered : List Bytes) (r : Result (Map Bytes NodeInfo)) → Quiet (continue ordered r))
      → Quiet (load_for_round eth setup replies round continue)
  unfolding load_for_round
  load_for_round-Quiet round continue quiet s =
      let (orders, file) = load_reveal_orders s.reveal_orders in
      with_loaded_orders-Quiet round continue quiet orders (record s { reveal_orders = file })

  pub start-Quiet : (round : Bytes) → Quiet (start_secret_value_requests eth setup replies round)
  unfolding start_secret_value_requests
  start-Quiet round =
      load_for_round-Quiet round (with_nodes eth setup replies round) (with_nodes-Quiet round)

  pub response-Quiet :
      (round : Bytes) → Quiet (handle_secret_value_response eth setup replies round)
  unfolding handle_secret_value_response
  response-Quiet round =
      load_for_round-Quiet round (next_with_nodes eth setup replies round)
        (next_with_nodes-Quiet round)
