-- ===== src/Examples/Identity.antt =====
-- utils/peer_id_storage.go and libp2putils/libp2putils.go: packages for the identity of a node.
use drb_node.Base.{◌≡◌, Bytes, bytes_eq, codes, true, Option, none, some, [], ◌∷◌, arith}
use drb_node.Utils.PeerId.{Identities, Start}

-- A key's bytes are itself after a zero, its identity is itself, and a file's text is after a one.
unfoldable pub tail : Bytes → Option Bytes
tail [] = none
tail (b ∷ bs) = some bs

unfoldable pub storage : Bytes → Option (Option Bytes)
storage [] = none
storage (b ∷ bs) = some (some bs)

pub tail-marshal : (key text : Bytes) → some (0 ∷ key) ≡ some text → tail text ≡ some key
unfolding tail
tail-marshal key [] e = cc
tail-marshal key (b ∷ bs) e = ground arith

pub storage-encode :
    (key text : Bytes) → some (1 ∷ key) ≡ some text → storage text ≡ some (some key)
unfolding storage
storage-encode key [] e = cc
storage-encode key (b ∷ bs) e = ground arith

abbrev pub identities1 : Identities
identities1 = record {
  marshal_private_key = λ key. some (0 ∷ key);
  unmarshal_private_key = tail;
  unmarshal-marshal = tail-marshal;
  id_from_private_key = λ key. some key;
  encode_storage = λ key. some (1 ∷ key);
  decode_storage = storage;
  decode-encode = storage-encode;
}

abbrev pub start1 : Start
start1 = record {
  node_type = codes "leader";
  generated = some (codes "key");
  write_fails = none;
  host_starts = λ port key. true;
}
