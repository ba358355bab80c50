-- ===== src/Utils/NodeInfo.antt =====
-- utils/node_info.go and utils/ip_retriever.go: what a node writes down about itself.
use drb_node.Base.{
  Bytes, Bool, false, not, Option, none, some, List, [], ◌∷◌, ◌&&◌, codes, if◌then◌else◌,
}
use drb_node.Go.Attempt.{Attempt, value, process_exit}
use drb_node.Utils.PeerId.{Files, write_file}

pub record NodeInfo : Type 0 where
  pub ip : Bytes
  pub port : Bytes
  pub peer_id : Bytes
  pub eoa_address : Bytes

unfoldable pub saved_text : Option Files → Option Bytes → Files → Bool × Files
unfolding write_file
saved_text fails none files = (false, files)
saved_text fails (some text) files = write_file fails (codes "node_info.json") text files

-- SaveNodeInfo, by json.MarshalIndent and by what a failing write leaves; the flag is false for an
-- error.
unfoldable pub save_node_info :
    (List NodeInfo → Option Bytes) → Option Files → List NodeInfo → Files → Bool × Files
unfolding saved_text
save_node_info marshal_indent fails node_infos files =
    saved_text fails (marshal_indent node_infos) files

-- An address of an interface: whether it is a *net.IPNet, and what package net says of its IP.
pub record Addr : Type 0 where
  pub is_ip_net : Bool
  pub is_loopback : Bool
  pub is_v4 : Bool
  pub text : Bytes

unfoldable pub first_v4 : List Addr → Option Bytes
first_v4 [] = none
first_v4 (addr ∷ addrs) =
    let rest = first_v4 addrs in
    if addr.is_ip_net && not addr.is_loopback && addr.is_v4 then some addr.text else rest

-- Each interface with its addresses, `none` where they cannot be had.
unfoldable pub local_ip_of : List (Option (List Addr)) → Bytes
unfolding first_v4
local_ip_of [] = codes "0.0.0.0"
local_ip_of (none ∷ interfaces) = local_ip_of interfaces
local_ip_of (some addrs ∷ interfaces) = elim (first_v4 addrs) [
  | none ↦ local_ip_of interfaces
  | some ip ↦ ip
]

-- GetLocalIP, by net.Interfaces
unfoldable pub get_local_ip : Option (List (Option (List Addr))) → Attempt Bytes
unfolding local_ip_of
get_local_ip none = process_exit
get_local_ip (some interfaces) = value (local_ip_of interfaces)

-- GetPublicIP, by the reply of the service: no reply, or a reply whose text cannot be read, or the
-- text.
unfoldable pub get_public_ip : Option (Option Bytes) → Bytes
get_public_ip none = codes "0.0.0.0"
get_public_ip (some none) = codes "0.0.0.0"
get_public_ip (some (some public_ip)) = public_ip
