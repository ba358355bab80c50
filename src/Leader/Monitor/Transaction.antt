-- ===== src/Leader/Monitor/Transaction.antt =====
-- nodes/leaderNode_helper/monitor_commits.go: the transaction generateRandomNumber.
use drb_node.Base.{
  Bytes, bytes_eq, Bool, true, false, not, Option, none, some, List, [], ◌∷◌, ◌++◌, ◌==◌,
  if◌then◌else◌, map, zero32, copy_into,
}
use drb_node.Utils.Clients.{abi_loads}
use drb_node.Go.Number.{ℤ, set_string}
use drb_node.Leader.State.{generates_random_number, Leader, Setup, Replies, fatal}
use drb_node.Leader.Monitor.Secrets.{Revealed}

unfoldable pub is_empty : {A : Type 0} → List A → Bool
is_empty [] = true
is_empty (_ ∷ _) = false

unfoldable pub secret_hashes : List Bytes → List Bytes
secret_hashes = map (copy_into zero32)

unfoldable pub any_empty : Revealed → Bool
unfolding is_empty secret_hashes
any_empty x =
    if is_empty (secret_hashes x.secrets)
    then true
    else if is_empty x.vs
    then true
    else if is_empty x.rs
    then true
    else is_empty x.ss

module _ (setup : Setup) (replies : Replies) where
  unfoldable pub send : ℤ → Revealed → Leader → Leader × Bool
  unfolding secret_hashes
  send z x s = (
    record s {
      outputs =
          s.outputs ++ generates_random_number z (secret_hashes x.secrets) x.vs x.rs x.ss ∷ [];
    },
    replies.random_number_accepted z,
  )

  unfoldable pub with_key : ℤ → Revealed → Option Bytes → Leader → Leader × Bool
  unfolding send
  with_key z x none s = (s, false)
  with_key z x (some key) s =
      if setup.contract_address == []
      then (fatal s, false)
      else if not (abi_loads setup.abi)
      then (s, false)
      else send z x s

  unfoldable pub with_number : Option ℤ → Revealed → Leader → Leader × Bool
  unfolding with_key
  with_number none x s = (s, false)
  with_number (some z) x s =
      if setup.eth_rpc_url == []
      then (fatal s, false)
      else if not (setup.dials setup.eth_rpc_url)
      then (s, false)
      else if setup.leader_private_key == []
      then (fatal s, false)
      else with_key z x (setup.hex_to_ecdsa setup.leader_private_key) s

  -- generateRandomNumberTransaction; the flag is false for an error.
  unfoldable pub generate_random_number_transaction : Bytes → Revealed → Leader → Leader × Bool
  unfolding any_empty with_number
  generate_random_number_transaction round x s =
      if any_empty x then (s, false) else with_number (set_string round) x s
