-- ===== src/Utils/Network.antt =====
-- utils/streamHandler.go, and ConnectToPeer of libp2putils/libp2putils.go: the streams to a peer.
use drb_node.Base.{Bytes, Bool, Option, none, some, List, ◌++◌, codes, ◌>>=◌, if◌then◌else◌}

-- peer.AddrInfo
pub record AddrInfo : Type 0 where
  pub id : Bytes
  pub addrs : List Bytes

-- A stream, by the peer and the protocol that it was opened for.
pub record Stream : Type 0 where
  pub peer : AddrInfo
  pub protocol : Bytes

-- What the packages libp2p and go-multiaddr do; `none` and `false` are errors.
pub record Network : Type 0 where
  -- multiaddr.NewMultiaddr and peer.AddrInfoFromP2pAddr
  pub new_multiaddr : Bytes → Option Bytes
  pub addr_info_from_p2p_addr : Bytes → Option AddrInfo
  -- h.Connect and h.NewStream, the peer's addresses being in the peerstore
  pub connects : AddrInfo → Bool
  pub new_stream : Stream → Bool
  -- json.NewEncoder(stream).Encode
  pub encodes : Stream → Bool

-- The address that CreateStream and ConnectToPeer format.
unfoldable pub p2p_address : Bytes → Bytes → Bytes → Bytes
p2p_address ip port peer_id =
    codes "/ip4/" ++ (ip ++ (codes "/tcp/" ++ (port ++ (codes "/p2p/" ++ peer_id))))

module _ (network : Network) where
  peer_info : Bytes → Option AddrInfo
  peer_info address = do
    maddr ← network.new_multiaddr address
    network.addr_info_from_p2p_addr maddr

  -- CreateStream
  unfoldable pub create_stream : Bytes → Bytes → Bytes → Bytes → Option Stream
  unfolding p2p_address peer_info
  create_stream ip port peer_id protocol = do
    info ← peer_info (p2p_address ip port peer_id)
    let stream : Stream = record { peer = info; protocol = protocol }
    if network.new_stream stream then some stream else none

  -- SendDataOverStream; the flag is false for an error.
  unfoldable pub send_data_over_stream : Stream → Bool
  send_data_over_stream stream = network.encodes stream

  -- ConnectToPeer; `none` is an error.
  unfoldable pub connect_to_peer : Bytes → Bytes → Bytes → Option AddrInfo
  unfolding p2p_address peer_info
  connect_to_peer leader_ip leader_port leader_peer_id = do
    info ← peer_info (p2p_address leader_ip leader_port leader_peer_id)
    if network.connects info then some info else none
