-- ===== src/Regular/Node/Again.antt =====
-- nodes/regularNode.go with utils/peer_id_storage.go: a regular node that is started again.
use drb_node.Base.{
  ◌≡◌, ◌≢◌, refl, sym, ap, ◌∙◌, inl, inr, Bytes, bytes_eq, list_equals, Bool, true, false,
  Bool-cases, Option, none, some, List, [], ◌==◌, ==_false, All, some-inj, codes,
}
use drb_node.Base.Maps.{get, get-put}
use drb_node.Crypto.{Ethereum}
use drb_node.Go.Attempt.{Attempt, value, error, process_exit}
use drb_node.Utils.PeerId.{
  Identities, Start, Files, get_peer_id_file_name, write_file, load_peer_id, create_host,
}
use drb_node.Utils.PeerId.Restart.{create_host-loads, create_host-named, load_type}
use drb_node.Utils.NodeInfo.{NodeInfo, saved_text, save_node_info, get_local_ip}
use drb_node.Utils.Signature.{key_eoa}
use drb_node.Regular.State.{RegularNode, Env}
use drb_node.Regular.Sends.Signed.{IsSigned}
use drb_node.Regular.Node.{
  Machine, node_key, with_ip, with_own_key, with_host, make_host, serve_early, NodeEvent,
  start_node, run_regular_node,
}
use drb_node.Regular.Node.Signed.{run_regular_node-AllSigned}

-- The two files have different names.
name_other :
    (node_type : Bytes) → (codes "node_info.json" == get_peer_id_file_name node_type) ≡ false
unfolding get_peer_id_file_name list_equals
name_other node_type = elim (Bool-cases (node_type == [])) [
  | inl unset ↦ rw unset refl
  | inr set ↦ rw set (elim (Bool-cases (node_type == codes "leader")) [
    | inl leads ↦ rw leads refl
    | inr follows ↦ rw follows refl
  ])
]

module _ (node_type : Bytes) where
  abbrev kept : Files → Option Bytes
  kept files = get (get_peer_id_file_name node_type) files

  saved_text-kept :
      (o : Option Bytes) (files : Files) → kept (saved_text none o files).1 ≡ kept files
  unfolding saved_text write_file
  saved_text-kept none files = refl
  saved_text-kept (some text) files = rw (get-put, name_other node_type) refl

  save-kept :
      (marshal_indent : List NodeInfo → Option Bytes) (fails : Option Files) (infos : List NodeInfo)
      (files : Files)
      → fails ≡ none
      → kept (save_node_info marshal_indent fails infos files).1 ≡ kept files
  unfolding save_node_info
  save-kept marshal_indent fails infos files works =
      rw works (saved_text-kept (marshal_indent infos) files)

  module _ (eth : Ethereum) (machine : Machine) (env : Env)
      (works : machine.node_info_fails ≡ none) where
    with_ip-kept :
        (id key : Bytes) (a : Attempt Bytes) (files : Files)
        → kept (with_ip eth machine env id key a files).1 ≡ kept files
    unfolding with_ip
    with_ip-kept id key process_exit files = refl
    with_ip-kept id key error files = refl
    with_ip-kept id key (value ip) files =
        save-kept machine.marshal_indent machine.node_info_fails _ files works

    with_own_key-kept :
        (id : Bytes) (a : Attempt Bytes) (files : Files)
        → kept (with_own_key eth machine env id a files).1 ≡ kept files
    unfolding with_own_key
    with_own_key-kept id process_exit files = refl
    with_own_key-kept id error files = refl
    with_own_key-kept id (value key) files =
        with_ip-kept id key (get_local_ip machine.interfaces) files

    with_host-kept :
        (stopped : Bool) (h : Option (Bytes × Bytes) × Files)
        → kept (with_host eth machine env stopped h).1 ≡ kept h.1
    unfolding with_host
    with_host-kept stopped (none, files) = refl
    with_host-kept true (some (host_key, id), files) = refl
    with_host-kept false (some (host_key, id), files) = with_own_key-kept id (node_key env) files

    start_node-kept :
        (files : Files) (s : RegularNode)
        → env.port ≢ []
        → kept (start_node eth machine env files s).1
          ≡ kept (create_host machine.identities machine.host env.port files).1
    unfolding start_node make_host
    start_node-kept files s set =
        let host = make_host eth machine env files in
        with_host-kept (serve_early eth machine env host.0 s).exited host
        ∙ rw (==_false env.port [] set)

load-kept :
    (ids : Identities) (start : Start) (files files' : Files)
    → kept start.node_type files ≡ kept start.node_type files'
    → load_peer_id ids start files ≡ load_peer_id ids start files'
unfolding load_peer_id
load-kept ids start files files' same = rw same refl

-- A regular node keeps its identity. Where a run has made a host with an identity, and writing
-- node_info.json has not failed, take any later run of the same type of node on the files that it has
-- left, with the same private key, on any port, whatever is answered and whatever secret values it is
-- asked for. Where the requests before
-- the two runs are such, so are all requests after them: they name the address of that key with a
-- signature that the leader accepts, and each registration names that identity.
pub run_regular_node-again :
    (eth : Ethereum) (machine later : Machine) (env env' : Env) (key host_key id : Bytes)
    (events events' : List NodeEvent) (files : Files) (s : RegularNode)
    → later.identities ≡ machine.identities
    → later.host.node_type ≡ machine.host.node_type
    → machine.node_info_fails ≡ none
    → env.port ≢ []
    → env.hex_to_ecdsa env.eoa_private_key ≡ some key
    → env'.hex_to_ecdsa env'.eoa_private_key ≡ some key
    → (create_host machine.identities machine.host env.port files).0 ≡ some (host_key, id)
    → All (IsSigned eth (key_eoa eth key) id) s.outputs
    → let (t, files') = run_regular_node eth machine env events files s in
      let t' = record t { exited = false } in
      All
        (IsSigned eth (key_eoa eth key) id)
        (run_regular_node eth later env' events' files' t').0.outputs
run_regular_node-again eth machine later env env' key host_key id events events' files s ids type
      works set own_key own_key' made all =
    let (t, files') = run_regular_node eth machine env events files s in
    let first =
      run_regular_node-AllSigned eth machine env key id events files s own_key
        (λ k i e. ap (λ p. p.1) (some-inj (k, i) (host_key, id) (sym e ∙ made))) all in
    let loads : load_peer_id machine.identities later.host files' ≡ some (host_key, id) =
      load_type machine.identities machine.host later.host files' type
      ∙ load-kept machine.identities machine.host files'
          (create_host machine.identities machine.host env.port files).1
          (unfold run_regular_node in
            start_node-kept machine.host.node_type eth machine env works files s set)
      ∙ create_host-loads machine.identities machine.host env.port host_key id files made in
    run_regular_node-AllSigned eth later env' key id events' files' (record t { exited = false })
      own_key'
      (λ k i e.
        create_host-named machine.identities later.host env'.port host_key id k i files' loads
          (ap (λ x. (create_host x later.host env'.port files').0) (sym ids) ∙ e))
      first
