-- ===== src/Eth.antt =====
-- eth/eth.go: transactions that the nodes send to the contract, and calls of it.
pub mod Receipts
pub mod Estimates
pub mod Preparation
pub mod Execution
pub mod Termination
use drb_node.Base.{
  ℕ, suc, zero, ◌-◌, ◌^◌, Bytes, Bool, Option, none, some, List, [], ◌∷◌, ltb, if◌then◌else◌, ◌==◌,
  nat_eq,
}

pub record Transaction : Type 0 where
  pub nonce : ℕ
  pub to : Bytes
  pub amount : ℕ
  pub gas : ℕ
  pub gas_price : ℕ
  pub payload : Bytes

pub record SignedTransaction : Type 0 where
  pub body : Transaction
  pub signature : Bytes

-- ethereum.CallMsg; the fields that the source leaves out are not there.
pub record CallMsg : Type 0 where
  pub from : Bytes
  pub to : Bytes
  pub payload : Bytes

-- What TransactionReceipt answers.
pub data ReceiptReply : Type 0 where
  receipt : ℕ → ReceiptReply
  not_found : ReceiptReply
  receipt_error : ReceiptReply

-- What fails, with the status of a transaction that has failed.
pub data Failure : Type 0 where
  network_id_failed : Failure
  transactor_failed : Failure
  nonce_failed : Failure
  gas_price_failed : Failure
  pack_failed : Failure
  sign_failed : Failure
  send_failed : Failure
  estimate_failed : Failure
  receipt_failed : Failure
  reverted : ℕ → Failure
  call_failed : Failure
  unpack_failed : Failure

pub data Outcome (A : Type 0) : Type 0 where
  done : A → Outcome A
  failed : Failure → Outcome A

infixl 5 ◌>>=◌
abbrev pub ◌>>=◌ : {A B : Type 0} → Outcome A → (A → Outcome B) → Outcome B
done a >>= f = f a
failed e >>= f = failed e

abbrev pub or_failed : {A : Type 0} → Failure → Option A → Outcome A
or_failed e none = failed e
or_failed e (some a) = done a

-- utils.Client and the chain behind it. Of the replies to EstimateGas and TransactionReceipt, which
-- are asked for again, the number says which call is answered.
pub record Client : Type 0 where
  pub contract_address : Bytes
  -- NetworkID
  pub network_id : Option ℕ
  -- bind.NewKeyedTransactorWithChainID, by the address that it acts for
  pub transactor : ℕ → Option Bytes
  pub pending_nonce_at : Bytes → Option ℕ
  pub suggest_gas_price : Option ℕ
  -- abi.Pack
  pub pack : Bytes → List Bytes → Option Bytes
  -- big.Int.Uint64 of a negative number, given without its sign, where the result is undefined
  pub uint64_of_negative : ℕ → ℕ
  -- types.SignTx by the signer of a chain: the signature
  pub sign_tx : ℕ → Transaction → Option Bytes
  -- whether SendTransaction succeeds
  pub send_transaction : SignedTransaction → Bool
  pub estimate_gas : CallMsg → ℕ → Option ℕ
  pub transaction_receipt : SignedTransaction → ℕ → ReceiptReply
  -- CallContract
  pub call_contract : Bytes → Bytes → Option Bytes
  -- abi.UnpackIntoInterface
  pub unpack : Bytes → Bytes → Option Bytes

-- CallSmartContract
unfoldable pub call_smart_contract : Client → Bytes → Bytes → List Bytes → Outcome Bytes
call_smart_contract client method contract_address params = do
  payload ← or_failed pack_failed (client.pack method params)
  reply ← or_failed call_failed (client.call_contract contract_address payload)
  or_failed unpack_failed (client.unpack method reply)

-- big.NewInt(int64(nonce)).Uint64()
unfoldable pub nonce_field : Client → ℕ → ℕ
nonce_field client nonce =
    if ltb nonce (2 ^ 63) then nonce else client.uint64_of_negative (2 ^ 64 - nonce)

-- What ExecuteTransaction has before it sends.
pub record Prepared : Type 0 where
  pub from : Bytes
  pub signed : SignedTransaction

unfoldable pub call_msg : Client → Prepared → CallMsg
call_msg client p = record {
  from = p.from;
  to = client.contract_address;
  payload = p.signed.body.payload;
}

-- ExecuteTransaction up to SendTransaction
unfoldable pub prepare : Client → Bytes → ℕ → List Bytes → Outcome Prepared
unfolding nonce_field
prepare client name amount params = do
  chain_id ← or_failed network_id_failed client.network_id
  from ← or_failed transactor_failed (client.transactor chain_id)
  nonce ← or_failed nonce_failed (client.pending_nonce_at from)
  gas_price ← or_failed gas_price_failed client.suggest_gas_price
  payload ← or_failed pack_failed (client.pack name params)
  let body : Transaction = record {
    nonce = nonce_field client nonce;
    to = client.contract_address;
    amount = amount;
    gas = 3000000;
    gas_price = gas_price;
    payload = payload;
  }
  signature ← or_failed sign_failed (client.sign_tx chain_id body)
  done (record { from = from; signed = record { body = body; signature = signature } })

-- One attempt to estimate the gas, and the attempts after it.
estimated : Option ℕ → Outcome ℕ → Outcome ℕ
estimated none later = later
estimated (some gas) later = done gas

-- The attempts from the k-th on, where so many are left.
unfoldable pub estimates : Client → CallMsg → ℕ → ℕ → Outcome ℕ
unfolding estimated
estimates client msg zero k = failed estimate_failed
estimates client msg (suc left) k =
    estimated (client.estimate_gas msg k) (estimates client msg left (suc k))

-- What waitForTransactionSuccess makes of a reply; `none` asks again.
unfoldable pub verdict : ReceiptReply → Option (Outcome (Unit {0}))
verdict not_found = none
verdict receipt_error = some (failed receipt_failed)
verdict (receipt status) = some (if status == 1 then done tt else failed (reverted status))

asked : Option (Outcome (Unit {0})) → Option (Outcome (Unit {0})) → Option (Outcome (Unit {0}))
asked none later = later
asked (some r) later = some r

-- waitForTransactionSuccess from the k-th reply on; `none` means that the fuel ran out.
unfoldable pub wait_for_transaction_success :
    Client → SignedTransaction → ℕ → ℕ → Option (Outcome (Unit {0}))
unfolding verdict asked
wait_for_transaction_success client tx zero k = none
wait_for_transaction_success client tx (suc fuel) k =
    asked (verdict (client.transaction_receipt tx k))
      (wait_for_transaction_success client tx fuel (suc k))

concluded : Prepared → Option (Outcome (Unit {0})) → Option (Outcome Prepared)
concluded p none = none
concluded p (some (failed e)) = some (failed e)
concluded p (some (done _)) = some (done p)

-- ExecuteTransaction after SendTransaction
after_estimates : Client → ℕ → Prepared → Outcome ℕ → Option (Outcome Prepared)
unfolding concluded
after_estimates client fuel p (failed e) = some (failed e)
after_estimates client fuel p (done gas) =
    concluded p (wait_for_transaction_success client p.signed fuel 0)

sent : Client → ℕ → Prepared → Option (Outcome Prepared) × List SignedTransaction
unfolding after_estimates call_msg
sent client fuel p =
    if client.send_transaction p.signed
    then (after_estimates client fuel p (estimates client (call_msg client p) 3 0), p.signed ∷ [])
    else (some (failed send_failed), [])

executed : Client → ℕ → Outcome Prepared → Option (Outcome Prepared) × List SignedTransaction
unfolding sent
executed client fuel (failed e) = (some (failed e), [])
executed client fuel (done p) = sent client fuel p

-- ExecuteTransaction: its result, or `none` where the fuel for the receipt ran out, and the
-- transactions that the chain has taken.
unfoldable pub execute_transaction :
    Client → ℕ → Bytes → ℕ → List Bytes → Option (Outcome Prepared) × List SignedTransaction
unfolding prepare executed
execute_transaction client fuel name amount params =
    executed client fuel (prepare client name amount params)
