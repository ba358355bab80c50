-- ===== src/Examples/Rounds.antt =====
-- nodes/leaderNode.go and secret_value_handler.go: rounds and a secret value on a leader.
use drb_node.Base.{◌≡◌, refl, bytes_eq, list_equals, codes, false, some, [], ◌∷◌, replicate}
use drb_node.Base.Maps.{get, put}
use drb_node.Leader.State.{Leader, Setup}
use drb_node.Go.File.{holds, read_file}
use drb_node.CommitReveal.RevealOrder.{RevealData, load_reveal_orders}
use drb_node.Utils.Signature.{sign_data}
use drb_node.Utils.Network.{p2p_address, create_stream, send_data_over_stream}
use drb_node.Leader.Nodes.{nodes_or_empty, load_registered_nodes}
use drb_node.Leader.Requests.{
  contains, requested, next_unrequested, send_to_regular_node, send_secret_value_request_to_node,
  handle_secret_value_response,
}
use drb_node.Examples.Monitor.{leader1}
use drb_node.Leader.Rounds.{RoundData}
use drb_node.Examples.Toy.{toy_ethereum, toy_sign, toy_digest}
use drb_node.Examples.Files.{key1, secret_key1}
use drb_node.Examples.Memory.{setup1, replies1}

abbrev pub round7 : RoundData
round7 = record {
  merkle_root_set = false;
  round = some (codes "7");
  random_number_set = false;
  activated_operators = key1 ∷ [];
}

abbrev order7 : RevealData
order7 = record { rv = []; reveal_order = 1 ∷ 0 ∷ []; ordered_nodes = replicate 20 4 ∷ key1 ∷ [] }

-- A leader that has asked the first of two operators.
abbrev asking : Leader
asking = record leader1 {
  reveal_orders = record { content = holds (put (codes "7") order7 []); faults = [] };
  reveal_request_status = put (codes "7") (replicate 20 4 ∷ []) [];
}

abbrev setup2 : Setup
setup2 = record setup1 { hex_to_ecdsa = λ _. some secret_key1 }

-- The first operator was asked, so the second is next.
next_is_key1 :
    requested
      (codes "7")
      (handle_secret_value_response toy_ethereum setup2 replies1 (codes "7") asking)
    ≡ replicate 20 4 ∷ key1 ∷ []
unfolding handle_secret_value_response next_unrequested contains load_reveal_orders
    load_registered_nodes nodes_or_empty read_file send_secret_value_request_to_node
    send_to_regular_node create_stream send_data_over_stream p2p_address sign_data toy_sign
    toy_digest get put list_equals
next_is_key1 = refl
