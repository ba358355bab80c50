-- ===== src/Utils/PeerId.antt =====
-- utils/peer_id_storage.go, and CreateHost of libp2putils/libp2putils.go: the identity of a node.
pub mod Restart
use drb_node.Base.{
  Bytes, bytes_eq, Bool, true, false, ◌≡◌, Option, none, some, [], ◌==◌, if◌then◌else◌, codes,
  ◌>>=◌,
}
use drb_node.Base.Maps.{Map, get, put}

-- What the packages libp2p and encoding/json do with a private key; `none` is an error. The
-- equations are what their documentation promises.
pub record Identities : Type 0 where
  -- crypto.MarshalPrivateKey and crypto.UnmarshalPrivateKey
  pub marshal_private_key : Bytes → Option Bytes
  pub unmarshal_private_key : Bytes → Option Bytes
  pub unmarshal-marshal :
      (key text : Bytes)
      → marshal_private_key key ≡ some text
      → unmarshal_private_key text ≡ some key
  -- peer.IDFromPrivateKey
  pub id_from_private_key : Bytes → Option Bytes
  -- json.MarshalIndent and json.Unmarshal of a PeerIDStorage; the inner `none` is a nil slice.
  pub encode_storage : Bytes → Option Bytes
  pub decode_storage : Bytes → Option (Option Bytes)
  pub decode-encode :
      (key_bytes text : Bytes)
      → encode_storage key_bytes ≡ some text
      → decode_storage text ≡ some (some key_bytes)

-- What a start of the node meets: NODE_TYPE, the key that crypto.GenerateKeyPair makes, what a write
-- that fails leaves of the files (`none` where it does not fail), and whether libp2p.New succeeds.
pub record Start : Type 0 where
  pub node_type : Bytes
  pub generated : Option Bytes
  pub write_fails : Option (Map Bytes Bytes)
  pub host_starts : Bytes → Bytes → Bool

-- The files of the working directory, by their names.
abbrev pub Files : Type 0
Files = Map Bytes Bytes

-- getPeerIDFileName
unfoldable pub get_peer_id_file_name : Bytes → Bytes
get_peer_id_file_name node_type =
    if node_type == []
    then codes "regular_peer_id.json"
    else if node_type == codes "leader"
    then codes "leader_peer_id.json"
    else codes "regular_peer_id.json"

-- ioutil.WriteFile, by what a failing write leaves; the flag is false for an error.
unfoldable pub write_file : Option Files → Bytes → Bytes → Files → Bool × Files
write_file none name text files = (true, put name text files)
write_file (some left) name text files = (false, left)

module _ (ids : Identities) (start : Start) where
  storage_text : Bytes → Option Bytes
  storage_text key = do key_bytes ← ids.marshal_private_key key; ids.encode_storage key_bytes

  with_text : Option Bytes → Files → Bool × Files
  unfolding write_file
  with_text none files = (false, files)
  with_text (some text) files =
      write_file start.write_fails (get_peer_id_file_name start.node_type) text files

  -- SavePeerID
  unfoldable pub save_peer_id : Bytes → Files → Bool × Files
  unfolding with_text storage_text
  save_peer_id key files = with_text (storage_text key) files

  -- The key of a file's text, and its identity.
  key_of : Bytes → Option (Bytes × Bytes)
  key_of text = do
    stored ← ids.decode_storage text
    key_bytes ← stored
    key ← ids.unmarshal_private_key key_bytes
    id ← ids.id_from_private_key key
    some (key, id)

  -- LoadPeerID
  unfoldable pub load_peer_id : Files → Option (Bytes × Bytes)
  unfolding key_of
  load_peer_id files = do text ← get (get_peer_id_file_name start.node_type) files; key_of text

  with_identity : Bytes → Bytes → Option Bytes → Files → Option (Bytes × Bytes) × Files
  with_identity port key none files = (none, files)
  with_identity port key (some id) files =
      (if start.host_starts port key then some (key, id) else none, files)

  after_save : Bytes → Bytes → Bool → Files → Option (Bytes × Bytes) × Files
  unfolding with_identity
  after_save port key false files = (none, files)
  after_save port key true files = with_identity port key (ids.id_from_private_key key) files

  with_generated : Bytes → Option Bytes → Files → Option (Bytes × Bytes) × Files
  unfolding after_save save_peer_id
  with_generated port none files = (none, files)
  with_generated port (some key) files =
      let (saved, files') = save_peer_id key files in after_save port key saved files'

  with_loaded : Bytes → Option (Bytes × Bytes) → Files → Option (Bytes × Bytes) × Files
  unfolding with_generated
  with_loaded port none files = with_generated port start.generated files
  with_loaded port (some (key, id)) files =
      (if start.host_starts port key then some (key, id) else none, files)

  -- CreateHost: the key and the identity of the host.
  unfoldable pub create_host : Bytes → Files → Option (Bytes × Bytes) × Files
  unfolding load_peer_id with_loaded
  create_host port files = with_loaded port (load_peer_id files) files
