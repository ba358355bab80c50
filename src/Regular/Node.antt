-- ===== src/Regular/Node.antt =====
-- nodes/regularNode.go: RunRegularNode, its start, its loop and its handler of the stream
-- /sendSecretValue. The handler runs in goroutines of its own from when the host is made; what
-- happens is a list of events, in any order, each of which ends before the next. Requests that come
-- during the start are handled before the rest of it.
pub mod WriteOnce
pub mod Started
pub mod Signed
pub mod Again
use drb_node.Base.{
  Bytes, bytes_eq, Bool, true, false, Option, none, some, List, [], ◌∷◌, ◌==◌, if◌then◌else◌,
}
use drb_node.Utils.Clients.{abi_loads}
use drb_node.Crypto.{Ethereum}
use drb_node.Go.Attempt.{Attempt, value, error, process_exit, ◌>>=◌, ◌>>◌, required}
use drb_node.Utils.PeerId.{Identities, Start, Files, create_host}
use drb_node.Utils.NodeInfo.{NodeInfo, save_node_info, Addr, get_local_ip}
use drb_node.Utils.Network.{connect_to_peer}
use drb_node.Utils.Signature.{key_eoa}
use drb_node.Utils.Requests.{SecretValueRequest}
use drb_node.Leader.Rounds.{RoundData}
use drb_node.Regular.State.{RegularNode, Env, fatal, if_running}
use drb_node.Regular.Sends.{send_registration_request_to_leader}
use drb_node.Regular.Deposit.{
  Chain, check_activation_status, check_deposit_amount, deposit_and_check_activation,
}
use drb_node.Regular.Rounds.{Pass, node_rounds}
use drb_node.Regular.Secrets.{handle_secret_value_request}

-- log.Fatalf where a call fails
abbrev or_exit : {A : Type 0} → Option A → Attempt A
or_exit none = process_exit
or_exit (some a) = value a

abbrev must : Bool → Attempt (Unit {0})
must b = if b then value tt else process_exit

-- A stream /sendSecretValue, with its request where it can be decoded, and whether the leader is
-- reached by the answer.
pub record Incoming : Type 0 where
  pub request : Option SecretValueRequest
  pub reached : Bool

handle_incoming : Ethereum → Env → Incoming → RegularNode → RegularNode
handle_incoming eth env i s = handle_secret_value_request eth env i.reached i.request s

-- What a start finds beside the environment variables: the identities of peers, what CreateHost
-- meets, the interfaces of the machine, what becomes of node_info.json, and the streams opened to it.
pub record Machine : Type 0 where
  pub identities : Identities
  pub host : Start
  pub interfaces : Option (List (Option (List Addr)))
  pub marshal_indent : List NodeInfo → Option Bytes
  pub node_info_fails : Option Files
  -- the requests for secret values that come before the loop
  pub asked_early : List Incoming

-- The private key, after the tests of the environment variables.
node_key : Env → Attempt Bytes
node_key env = do
  ip ← required env.leader_ip
  leader_port ← required env.leader_port
  leader ← required env.leader_peer_id
  key_text ← required env.eoa_private_key
  or_exit (env.hex_to_ecdsa key_text)

-- The connections to the leader and to the chain.
connected : Env → Attempt (Unit {0})
connected env = do
  leader_info ←
      or_exit (connect_to_peer env.network env.leader_ip env.leader_port env.leader_peer_id)
  url ← required env.eth_rpc_url
  must (env.dials url)
  contract ← required env.contract_address
  must (abi_loads env.abi)

module _ (eth : Ethereum) (machine : Machine) (env : Env) where
  with_ip : Bytes → Bytes → Attempt Bytes → Files → Attempt (Bytes × Bytes) × Files
  unfolding connected
  with_ip id key process_exit files = (process_exit, files)
  with_ip id key error files = (error, files)
  with_ip id key (value ip) files =
      let info : NodeInfo = record {
        ip = ip;
        port = env.port;
        peer_id = id;
        eoa_address = key_eoa eth key;
      } in
      let (saved, files') =
        save_node_info machine.marshal_indent machine.node_info_fails (info ∷ []) files in
      (connected env >>= λ _. value (key, id), files')

  with_own_key : Bytes → Attempt Bytes → Files → Attempt (Bytes × Bytes) × Files
  unfolding with_ip
  with_own_key id process_exit files = (process_exit, files)
  with_own_key id error files = (error, files)
  with_own_key id (value key) files = with_ip id key (get_local_ip machine.interfaces) files

  -- What follows SetStreamHandler, unless the handler has ended the process.
  with_host : Bool → Option (Bytes × Bytes) × Files → Attempt (Bytes × Bytes) × Files
  unfolding with_own_key node_key
  with_host stopped (none, files) = (process_exit, files)
  with_host stopped (some (host_key, id), files) =
      if stopped then (process_exit, files) else with_own_key id (node_key env) files

  make_host : Files → Option (Bytes × Bytes) × Files
  make_host files =
      if env.port == []
      then (none, files)
      else create_host machine.identities machine.host env.port files

  serve : List Incoming → RegularNode → RegularNode
  unfolding handle_incoming
  serve [] s = s
  serve (i ∷ is) s = serve is (if_running (handle_incoming eth env i) s)

  -- The handler is set where there is a host.
  serve_early : Option (Bytes × Bytes) → RegularNode → RegularNode
  unfolding serve
  serve_early none s = s
  serve_early (some _) s = serve machine.asked_early s

  -- RunRegularNode before its loop: the private key of the node, and the identity of its host.
  unfoldable pub start_node : Files → RegularNode → Attempt (Bytes × Bytes) × Files × RegularNode
  unfolding with_host make_host serve_early
  start_node files s =
      let host = make_host files in
      let s1 = serve_early host.0 s in
      let (started, files') = with_host s1.exited host in (started, files', s1)

-- What the outside gives to one turn of the loop; `none` is a failed query, after which
-- fetchRoundsData ends the process.
pub record Turn : Type 0 where
  pub rounds : Option (List RoundData)
  pub chain : Chain
  -- the chain as depositAndCheckActivation finds it
  pub chain_later : Chain
  pub reached_register : Bool
  pub pass : Pass

-- What happens after the start: a turn of the loop, or a stream that is opened to the node.
pub data NodeEvent : Type 0 where
  turns : Turn → NodeEvent
  asks : Incoming → NodeEvent

module _ (eth : Ethereum) (env : Env) (key : Bytes) where
  register : Turn → (RegularNode → RegularNode) → RegularNode → RegularNode
  unfolding send_registration_request_to_leader
  register t next s =
      if_running next
        (send_registration_request_to_leader eth env t.reached_register (key_eoa eth key) key s)

  after_deposit : Turn → (RegularNode → RegularNode) → Attempt Bool × RegularNode → RegularNode
  unfolding register
  after_deposit t next (process_exit, s) = s
  after_deposit t next (error, s) = s
  after_deposit t next (value true, s) = s
  after_deposit t next (value false, s) = register t next s

  with_deposit : Turn → (RegularNode → RegularNode) → Option Bool → RegularNode → RegularNode
  unfolding after_deposit deposit_and_check_activation
  with_deposit t next none s = s
  with_deposit t next (some true) s = register t next s
  with_deposit t next (some false) s =
      after_deposit t next (deposit_and_check_activation eth env t.chain_later (key_eoa eth key) s)

  -- The part of the loop before the rounds, which are reached unless it turns back.
  unfoldable pub ensure_activated : Turn → (RegularNode → RegularNode) → RegularNode → RegularNode
  unfolding with_deposit check_activation_status check_deposit_amount
  ensure_activated t next s =
      if check_activation_status eth t.chain (key_eoa eth key)
      then next s
      else with_deposit t next (check_deposit_amount eth t.chain (key_eoa eth key)) s

  with_rounds : Turn → Option (List RoundData) → RegularNode → RegularNode
  unfolding ensure_activated node_rounds
  with_rounds t none s = fatal s
  with_rounds t (some rounds) s =
      ensure_activated t (node_rounds eth env (key_eoa eth key) key t.pass rounds) s

  -- One turn of the loop, with fetchRoundsData.
  unfoldable pub node_turn : Turn → RegularNode → RegularNode
  unfolding with_rounds
  node_turn t s = if env.subgraph_url == [] then fatal s else with_rounds t t.rounds s

  node_event : NodeEvent → RegularNode → RegularNode
  unfolding node_turn handle_incoming
  node_event (turns t) s = node_turn t s
  node_event (asks i) s = handle_incoming eth env i s

  unfoldable pub node_events : List NodeEvent → RegularNode → RegularNode
  unfolding node_event
  node_events [] s = s
  node_events (e ∷ es) s = node_events es (if_running (node_event e) s)

run_started : Ethereum → Env → List NodeEvent → Attempt (Bytes × Bytes) → RegularNode → RegularNode
unfolding node_events
run_started eth env events (value (key, id)) s =
    node_events eth (record env { peer_id = id }) key events s
run_started eth env events error s = s
run_started eth env events process_exit s = fatal s

-- RunRegularNode, for as many events as are given, with the other files of its working directory.
unfoldable pub run_regular_node :
    Ethereum → Machine → Env → List NodeEvent → Files → RegularNode → RegularNode × Files
unfolding start_node run_started
run_regular_node eth machine env events files s =
    let (started, files', s1) = start_node eth machine env files s in
    (run_started eth env events started s1, files')
