-- ===== src/Leader/Registration.antt =====
-- nodes/leaderNode_helper/registration_helper.go: the registration of a regular node and its
-- activation on the chain.
pub mod Activation
pub mod Outcome
pub mod Dialled
use drb_node.Base.{
  ℕ, Bytes, bytes_eq, Bool, true, false, not, Option, none, some, List, [], ◌∷◌, ◌++◌, ◌==◌, ◌||◌,
  ltb, length, get_or, if◌then◌else◌,
}
use drb_node.Base.Maps.{Map, put}
use drb_node.Utils.Clients.{abi_loads}
use drb_node.Crypto.{Ethereum}
use drb_node.Go.Attempt.{
  Attempt, value, error, process_exit, ◌>>=◌, ◌>>◌, or_error, ensure, required,
}
use drb_node.Go.File.{Error, Result, ok, err}
use drb_node.Go.Text.{split}
use drb_node.Utils.Requests.{RegistrationRequest}
use drb_node.Utils.Signature.{verify_signature}
use drb_node.Leader.State.{NodeInfo, activates, Leader, Setup, fatal}
use drb_node.Leader.Nodes.{load_registered_nodes, save_registered_nodes}

-- What the contract answers; `none` is an error. Amounts are of type uint256 there.
pub record Contract : Type 0 where
  -- getActivatedOperators, s_depositAmount and s_activationThreshold, by eth.CallSmartContract
  pub activated_operators : Option (List Bytes)
  pub deposit_amount : Bytes → Option ℕ
  pub activation_threshold : Option ℕ
  -- eth.ExecuteTransaction of activate
  pub activation_accepted : Bytes → Bool

-- The loop over the activated operators.
unfoldable pub lists_operator : Bytes → List Bytes → Bool
lists_operator operator [] = false
lists_operator operator (op ∷ ops) = op == operator || lists_operator operator ops

-- The node of a remote address such as /ip4/<ip>/tcp/<port>.
unfoldable pub node_info : Bytes → Bytes → Option NodeInfo
unfolding split
node_info remote_addr peer_id =
    let parts = split b'/' remote_addr in
    if ltb (length parts) 5
    then none
    else some (record { ip = get_or parts 2 []; port = get_or parts 4 []; peer_id = peer_id })

module _ (setup : Setup) (contract : Contract) (operator : Bytes) where
  -- ActivateOnChain for an operator that is not activated, up to the transaction
  unfoldable pub check_deposit : Attempt Bool
  check_deposit = do
    deposit ← or_error (contract.deposit_amount operator)
    threshold ← or_error contract.activation_threshold
    ensure (not (ltb deposit threshold))
    private_key_hex ← required setup.leader_private_key
    private_key ← or_error (setup.hex_to_ecdsa private_key_hex)
    value true

  -- ActivateOnChain up to the transaction: whether one is to be sent.
  unfoldable pub needs_activation : Attempt Bool
  unfolding lists_operator check_deposit
  needs_activation = do
    url ← required setup.eth_rpc_url
    ensure (setup.dials url)
    address ← required setup.contract_address
    ensure (abi_loads setup.abi)
    operators ← or_error contract.activated_operators
    if lists_operator operator operators then value false else check_deposit

  unfoldable pub activate : Attempt Bool → Leader → Attempt (Unit {0}) × Leader
  activate process_exit s = (process_exit, fatal s)
  activate error s = (error, s)
  activate (value false) s = (value tt, s)
  activate (value true) s = (
    if contract.activation_accepted operator then value tt else error,
    record s { outputs = s.outputs ++ activates operator ∷ [] },
  )

module _ (eth : Ethereum) (setup : Setup) (contract : Contract) where
  -- ActivateOnChain
  unfoldable pub activate_on_chain : Bytes → Leader → Attempt (Unit {0}) × Leader
  unfolding needs_activation activate
  activate_on_chain eoa s =
      let operator = eth.hex_to_address eoa in
      activate setup contract operator (needs_activation setup contract operator) s

  after_save : Bytes → Option Error → Leader → Attempt (Unit {0}) × Leader
  unfolding activate_on_chain
  after_save eoa (some e) s = (error, s)
  after_save eoa none s = activate_on_chain eoa s

  with_nodes : Bytes → NodeInfo → Result (Map Bytes NodeInfo) → Leader → Attempt (Unit {0}) × Leader
  unfolding after_save
  with_nodes eoa info (err e) s = (error, s)
  with_nodes eoa info (ok nodes) s =
      let (e, file) = save_registered_nodes (put eoa info nodes) s.registered_nodes in
      after_save eoa e (record s { registered_nodes = file })

  with_info : Bytes → Option NodeInfo → Leader → Attempt (Unit {0}) × Leader
  unfolding with_nodes
  with_info eoa none s = (error, s)
  with_info eoa (some info) s =
      let (nodes, file) = load_registered_nodes s.registered_nodes in
      with_nodes eoa info nodes (record s { registered_nodes = file })

  -- RegisterNode; `none` is a request that cannot be decoded.
  unfoldable pub register_node :
      Option RegistrationRequest → Bytes → Leader → Attempt (Unit {0}) × Leader
  unfolding with_info node_info
  register_node none remote_addr s = (error, s)
  register_node (some req) remote_addr s =
      if not (verify_signature eth req)
      then (error, s)
      else with_info req.eoa_address (node_info remote_addr req.peer_id) s

  -- handleRegistrationRequest
  unfoldable pub handle_registration_request : Option RegistrationRequest → Bytes → Leader → Leader
  unfolding register_node
  handle_registration_request request remote_addr s = (register_node request remote_addr s).1
