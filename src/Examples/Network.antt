-- ===== src/Examples/Network.antt =====
-- utils/streamHandler.go, utils/clients.go and RunRegularNode's start: a network that takes every
-- address, an ABI that loads, and a machine.
use drb_node.Base.{◌≡◌, refl, bytes_eq, list_equals, codes, true, false, none, some, [], ◌∷◌}
use drb_node.Base.Maps.{get}
use drb_node.Utils.Network.{Network}
use drb_node.Utils.NodeInfo.{get_local_ip}
use drb_node.Utils.Clients.{AbiPackages}
use drb_node.Utils.PeerId.{create_host}
use drb_node.Go.Attempt.{value}
use drb_node.Regular.Node.{Machine}
use drb_node.Examples.Identity.{identities1, start1}

abbrev pub network1 : Network
network1 = record {
  new_multiaddr = λ address. some address;
  addr_info_from_p2p_addr = λ maddr. some (record { id = maddr; addrs = maddr ∷ [] });
  connects = λ _. true;
  new_stream = λ _. true;
  encodes = λ _. true;
}

abbrev pub abi1 : AbiPackages
abi1 = record { read_file = λ name. some name; abi_field = λ text. some text; parses = λ _. true }

-- The loopback interface comes first.
abbrev pub machine1 : Machine
machine1 = record {
  identities = identities1;
  host = record start1 { node_type = codes "regular" };
  interfaces = some (
      none
      ∷ some (
          record { is_ip_net = true; is_loopback = true; is_v4 = true; text = codes "127.0.0.1" }
          ∷ [])
      ∷ some (
          record { is_ip_net = true; is_loopback = false; is_v4 = true; text = codes "10.0.0.7" }
          ∷ [])
      ∷ []);
  marshal_indent = λ infos. some (codes "[]");
  node_info_fails = none;
  asked_early = [];
}

local_ip : get_local_ip machine1.interfaces ≡ value (codes "10.0.0.7")
unfolding get_local_ip
local_ip = refl

pub made1 :
    (create_host machine1.identities machine1.host (codes "4001") []).0
    ≡ some (codes "key", codes "key")
unfolding create_host get list_equals
made1 = refl
