-- ===== src/Regular/Deposit.antt =====
-- nodes/regularNode.go: the activation and the deposit of a regular node.
pub mod Bounds
use drb_node.Base.{
  ℕ, ◌-◌, Bytes, bytes_eq, Bool, true, false, not, Option, none, some, List, [], ◌∷◌, ◌++◌, ◌==◌,
  ◌||◌, ltb, if◌then◌else◌,
}
use drb_node.Utils.Clients.{abi_loads}
use drb_node.Crypto.{Ethereum}
use drb_node.Go.Attempt.{
  Attempt, value, error, process_exit, ◌>>=◌, ◌>>◌, or_error, ensure, required,
}
use drb_node.Regular.State.{deposits, RegularNode, Env, fatal}

-- What the contract and the chain answer; `none` is an error. Amounts are of type uint256 there, so
-- they are not negative.
pub record Chain : Type 0 where
  -- getActivatedOperators, s_depositAmount and s_activationThreshold, by eth.CallSmartContract
  pub activated_operators : Option (List Bytes)
  pub deposit_amount : Bytes → Option ℕ
  pub activation_threshold : Option ℕ
  -- client.BalanceAt
  pub balance : Bytes → Option ℕ
  -- eth.ExecuteTransaction of a deposit
  pub deposit_accepted : ℕ → Bool

-- checkDepositAmount: an error is `none`.
unfoldable pub is_sufficient : Option ℕ → Option ℕ → Option Bool
is_sufficient none threshold = none
is_sufficient (some deposit) none = none
is_sufficient (some deposit) (some threshold) = some (not (ltb deposit threshold))

-- The result says whether a transaction was sent.
unfoldable pub deposit_of : Chain → Attempt (Option ℕ) → RegularNode → Attempt Bool × RegularNode
deposit_of chain process_exit s = (process_exit, fatal s)
deposit_of chain error s = (error, s)
deposit_of chain (value none) s = (value false, s)
deposit_of chain (value (some remaining)) s = (
  if chain.deposit_accepted remaining then value true else error,
  record s { outputs = s.outputs ++ deposits remaining ∷ [] },
)

module _ (eth : Ethereum) where
  unfoldable pub lists_hex : Bytes → List Bytes → Bool
  lists_hex eoa [] = false
  lists_hex eoa (operator ∷ operators) = eth.address_hex operator == eoa || lists_hex eoa operators

  status_of : Bytes → Option (List Bytes) → Bool
  unfolding lists_hex
  status_of eoa none = false
  status_of eoa (some operators) = lists_hex eoa operators

  -- checkActivationStatus
  unfoldable pub check_activation_status : Chain → Bytes → Bool
  unfolding status_of
  check_activation_status chain eoa = status_of eoa chain.activated_operators

  unfoldable pub check_deposit_amount : Chain → Bytes → Option Bool
  unfolding is_sufficient
  check_deposit_amount chain eoa =
      is_sufficient (chain.deposit_amount (eth.hex_to_address eoa)) chain.activation_threshold

  affordable : Chain → Bytes → ℕ → Attempt (Option ℕ)
  affordable chain eoa remaining = do
    balance ← or_error (chain.balance (eth.hex_to_address eoa))
    ensure (not (ltb balance remaining))
    value (some remaining)

  -- depositAndCheckActivation up to the transaction: what is to be deposited, or `none` where the
  -- deposit is sufficient.
  unfoldable pub missing_deposit : Env → Chain → Bytes → Attempt (Option ℕ)
  unfolding affordable
  missing_deposit env chain eoa = do
    url ← required env.eth_rpc_url
    ensure (env.dials url)
    contract ← required env.contract_address
    ensure (abi_loads env.abi)
    deposit ← or_error (chain.deposit_amount (eth.hex_to_address eoa))
    threshold ← or_error chain.activation_threshold
    if ltb deposit threshold then affordable chain eoa (threshold - deposit) else value none

  -- depositAndCheckActivation
  unfoldable pub deposit_and_check_activation :
      Env → Chain → Bytes → RegularNode → Attempt Bool × RegularNode
  unfolding missing_deposit deposit_of
  deposit_and_check_activation env chain eoa s = deposit_of chain (missing_deposit env chain eoa) s
