-- ===== src/Regular/Node/Started.antt =====
-- nodes/regularNode.go: the key and the identity of a node that has started.
use drb_node.Base.{
  ◌≡◌, refl, sym, ap, ◌∙◌, Bytes, bytes_eq, Bool, true, false, Option, none, some, [], ◌==◌,
  if◌then◌else◌,
}
use drb_node.Crypto.{Ethereum}
use drb_node.Go.Attempt.{Attempt, value, error, process_exit, required, >>=-eq-value, value-inj}
use drb_node.Utils.PeerId.{Files, create_host}
use drb_node.Utils.NodeInfo.{get_local_ip}
use drb_node.Regular.State.{RegularNode, Env}
use drb_node.Regular.Node.{
  or_exit, Machine, node_key, connected, with_ip, with_own_key, with_host, make_host, serve_early,
  start_node,
}

or_exit-eq-value : {A : Type 0} (o : Option A) {a : A} → or_exit o ≡ value a → o ≡ some a
or_exit-eq-value none h = cc
or_exit-eq-value (some b) h = cc

if-eq-value :
    (b : Bool) (text found : Bytes)
    → (if b then process_exit else value text) ≡ value found
    → found ≡ text
if-eq-value true text found h = cc
if-eq-value false text found h = cc

required-eq-value : (text found : Bytes) → required text ≡ value found → found ≡ text
required-eq-value text found h = if-eq-value (text == []) text found h

node_key-eq-value :
    (env : Env) (key : Bytes)
    → node_key env ≡ value key
    → env.hex_to_ecdsa env.eoa_private_key ≡ some key
unfolding node_key
node_key-eq-value env key h =
    let (_, _, h1) = >>=-eq-value (required env.leader_ip) _ h in
    let (_, _, h2) = >>=-eq-value (required env.leader_port) _ h1 in
    let (_, _, h3) = >>=-eq-value (required env.leader_peer_id) _ h2 in
    let (text, from, h4) = >>=-eq-value (required env.eoa_private_key) _ h3 in
    let same : text ≡ env.eoa_private_key = required-eq-value env.eoa_private_key text from in
    ap env.hex_to_ecdsa (sym same) ∙ or_exit-eq-value (env.hex_to_ecdsa text) h4

module _ (eth : Ethereum) (machine : Machine) (env : Env) (k i : Bytes) where
  with_ip-started :
      (id key : Bytes) (a : Attempt Bytes) (files : Files)
      → (with_ip eth machine env id key a files).0 ≡ value (k, i)
      → (k ≡ key) × (i ≡ id)
  unfolding with_ip
  with_ip-started id key process_exit files h = cc
  with_ip-started id key error files h = cc
  with_ip-started id key (value ip) files h =
      let (_, _, h1) = >>=-eq-value (connected env) (λ _. value (key, id)) h in
      let same : (key, id) ≡ (k, i) = value-inj (key, id) (k, i) h1 in
      (ap (λ p. p.0) (sym same), ap (λ p. p.1) (sym same))

  with_own_key-started :
      (id : Bytes) (a : Attempt Bytes) (files : Files)
      → (with_own_key eth machine env id a files).0 ≡ value (k, i)
      → (a ≡ value k) × (i ≡ id)
  unfolding with_own_key
  with_own_key-started id process_exit files h = cc
  with_own_key-started id error files h = cc
  with_own_key-started id (value key) files h =
      let (same, named) = with_ip-started id key (get_local_ip machine.interfaces) files h in
      (ap value (sym same), named)

  with_host-started :
      (stopped : Bool) (h : Option (Bytes × Bytes) × Files)
      → (with_host eth machine env stopped h).0 ≡ value (k, i)
      → (node_key env ≡ value k) × (host_key : Bytes) × (h.0 ≡ some (host_key, i))
  unfolding with_host
  with_host-started stopped (none, files) e = cc
  with_host-started true (some (host_key, id), files) e = cc
  with_host-started false (some (host_key, id), files) e =
      let (own, named) = with_own_key-started id (node_key env) files e in
      (own, host_key, rw named refl)

  if-made :
      (b : Bool) (files : Files) (h : Option (Bytes × Bytes) × Files) (x : Bytes × Bytes)
      → (if b then (none, files) else h).0 ≡ some x
      → h.0 ≡ some x
  if-made true files h x e = cc
  if-made false files h x e = e

  -- The key of a node that has started, and the identity of its host.
  pub start_node-started :
      (files : Files) (s : RegularNode)
      → (start_node eth machine env files s).0 ≡ value (k, i)
      → (env.hex_to_ecdsa env.eoa_private_key ≡ some k)
        × (host_key : Bytes) × ((create_host machine.identities machine.host env.port files).0
            ≡ some (host_key, i))
  unfolding start_node make_host
  start_node-started files s h =
      let host = make_host eth machine env files in
      let (own, host_key, found) =
        with_host-started (serve_early eth machine env host.0 s).exited host h in
      (
        node_key-eq-value env k own,
        host_key,
        if-made (env.port == []) files (create_host machine.identities machine.host env.port files)
            (host_key, i) found,
      )
