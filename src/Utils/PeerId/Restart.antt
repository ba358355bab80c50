-- ===== src/Utils/PeerId/Restart.antt =====
-- utils/peer_id_storage.go and libp2putils/libp2putils.go: a node that is started again.
use drb_node.Base.{
  >>=-eq-some, Bytes, bytes_eq, Bool, true, false, ◌≡◌, refl, sym, ap, ◌∙◌, Option, none, some,
  if◌then◌else◌,
}
use drb_node.Base.Maps.{put, get-put_self}
use drb_node.Utils.PeerId.{
  Identities, Start, Files, get_peer_id_file_name, write_file, storage_text, with_text,
  save_peer_id, key_of, load_peer_id, with_identity, after_save, with_generated, with_loaded,
  create_host,
}

if-some : {A : Type 0} (b : Bool) (x y : A) → (if b then some x else none) ≡ some y → x ≡ y
if-some true x y h = cc
if-some false x y h = cc

module _ (ids : Identities) (start : Start) where
  -- The identity that a text gives back is that of the key it was made from.
  key_of-storage_text :
      (key text id : Bytes)
      → storage_text ids start key ≡ some text
      → ids.id_from_private_key key ≡ some id
      → key_of ids start text ≡ some (key, id)
  unfolding storage_text key_of
  key_of-storage_text key text id h named =
      let (key_bytes, marshalled, encoded) =
        >>=-eq-some (ids.marshal_private_key key) ids.encode_storage h in
      rw (ids.decode-encode key_bytes text encoded)
        (rw (ids.unmarshal-marshal key key_bytes marshalled) (rw named refl))

  load-put :
      (key text id : Bytes) (files : Files)
      → storage_text ids start key ≡ some text
      → ids.id_from_private_key key ≡ some id
      → load_peer_id ids start (put (get_peer_id_file_name start.node_type) text files)
        ≡ some (key, id)
  unfolding load_peer_id
  load-put key text id files h named =
      rw (get-put_self (get_peer_id_file_name start.node_type) text files)
        (key_of-storage_text key text id h named)

  load-write_file :
      (key text id : Bytes) (files : Files) (fails : Option Files)
      → storage_text ids start key ≡ some text
      → (write_file fails (get_peer_id_file_name start.node_type) text files).0 ≡ true
      → ids.id_from_private_key key ≡ some id
      → load_peer_id ids start
          (write_file fails (get_peer_id_file_name start.node_type) text files).1
        ≡ some (key, id)
  unfolding write_file
  load-write_file key text id files none h done named = load-put key text id files h named
  load-write_file key text id files (some left) h done named = absurd (cc)

  load-with_text :
      (key id : Bytes) (files : Files) (o : Option Bytes)
      → storage_text ids start key ≡ o
      → (with_text ids start o files).0 ≡ true
      → ids.id_from_private_key key ≡ some id
      → load_peer_id ids start (with_text ids start o files).1 ≡ some (key, id)
  unfolding with_text
  load-with_text key id files none h done named = absurd (cc)
  load-with_text key id files (some text) h done named =
      load-write_file key text id files start.write_fails h done named

  with_identity-names :
      (port key : Bytes) (o : Option Bytes) (files : Files) (key' id : Bytes)
      → (with_identity ids start port key o files).0 ≡ some (key', id)
      → (o ≡ some id) × (key' ≡ key)
  unfolding with_identity
  with_identity-names port key none files key' id h = cc
  with_identity-names port key (some id') files key' id h =
      let same : (key, id') ≡ (key', id) = if-some (start.host_starts port key) _ _ h in
      (ap (λ p. some p.1) same, ap (λ p. p.0) (sym same))

  with_identity-files :
      (port key : Bytes) (o : Option Bytes) (files : Files)
      → (with_identity ids start port key o files).1 ≡ files
  unfolding with_identity
  with_identity-files port key none files = refl
  with_identity-files port key (some id) files = refl

  after_save-loads :
      (port key key' id : Bytes) (saved : Bool) (files : Files)
      → (saved ≡ true
          → (i : Bytes) → ids.id_from_private_key key ≡ some i
          → load_peer_id ids start files ≡ some (key, i))
      → (after_save ids start port key saved files).0 ≡ some (key', id)
      → load_peer_id ids start (after_save ids start port key saved files).1 ≡ some (key', id)
  unfolding after_save
  after_save-loads port key key' id false files load h = absurd (cc)
  after_save-loads port key key' id true files load h =
      let (named, same) =
        with_identity-names port key (ids.id_from_private_key key) files key' id h in
      ap (load_peer_id ids start) (with_identity-files port key (ids.id_from_private_key key) files)
      ∙ load refl id named
      ∙ ap (λ k. some (k, id)) (sym same)

  with_generated-loads :
      (port key' id : Bytes) (o : Option Bytes) (files : Files)
      → (with_generated ids start port o files).0 ≡ some (key', id)
      → load_peer_id ids start (with_generated ids start port o files).1 ≡ some (key', id)
  unfolding with_generated save_peer_id
  with_generated-loads port key' id none files h = absurd (cc)
  with_generated-loads port key' id (some key) files h =
      let (saved, files') = save_peer_id ids start key files in
      after_save-loads port key key' id saved files'
        (λ done i named. load-with_text key i files (storage_text ids start key) refl done named) h

  with_loaded-loads :
      (port key' id : Bytes) (o : Option (Bytes × Bytes)) (files : Files)
      → load_peer_id ids start files ≡ o
      → (with_loaded ids start port o files).0 ≡ some (key', id)
      → load_peer_id ids start (with_loaded ids start port o files).1 ≡ some (key', id)
  unfolding with_loaded
  with_loaded-loads port key' id none files e h =
      with_generated-loads port key' id start.generated files h
  with_loaded-loads port key' id (some (key, i)) files e h =
      e ∙ ap some (if-some (start.host_starts port key) _ _ h)

-- What a start that makes a host has left is loaded again.
pub create_host-loads :
    (ids : Identities) (start : Start) (port key id : Bytes) (files : Files)
    → (create_host ids start port files).0 ≡ some (key, id)
    → load_peer_id ids start (create_host ids start port files).1 ≡ some (key, id)
unfolding create_host
create_host-loads ids start port key id files h =
    with_loaded-loads ids start port key id (load_peer_id ids start files) files refl h

-- A start that finds a key takes it, and changes no file.
pub create_host-loaded :
    (ids : Identities) (start : Start) (port key id : Bytes) (files : Files)
    → load_peer_id ids start files ≡ some (key, id)
    → create_host ids start port files
      ≡ (if start.host_starts port key then some (key, id) else none, files)
unfolding create_host
create_host-loaded ids start port key id files loads = rw loads (unfold with_loaded in refl)

pub create_host-named :
    (ids : Identities) (start : Start) (port key id k i : Bytes) (files : Files)
    → load_peer_id ids start files ≡ some (key, id)
    → (create_host ids start port files).0 ≡ some (k, i)
    → i ≡ id
create_host-named ids start port key id k i files loads h =
    let found = ap (λ r. r.0) (create_host-loaded ids start port key id files loads) in
    ap (λ p. p.1) (sym (if-some (start.host_starts port key) (key, id) (k, i) (sym found ∙ h)))

pub load_type :
    (ids : Identities) (start later : Start) (files : Files)
    → later.node_type ≡ start.node_type
    → load_peer_id ids later files ≡ load_peer_id ids start files
unfolding load_peer_id key_of
load_type ids start later files same = rw same
