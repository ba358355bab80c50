-- ===== src/Examples/Transactions.antt =====
-- eth/eth.go: transactions on a concrete chain.
use drb_node.Base.{
  ℕ, zero, suc, ◌<◌, ◌≡◌, refl, ◌⊎◌, codes, true, some, List, [], ◌∷◌, replicate, arith,
}
use drb_node.Eth.{
  SignedTransaction, ReceiptReply, receipt, not_found, reverted, Outcome, done, failed, Client,
  Prepared, estimates, wait_for_transaction_success, execute_transaction,
}
use drb_node.Eth.Receipts.{FirstReply}
use drb_node.Eth.Preparation.{IsPrepared}
use drb_node.Eth.Execution.{
  IsExecuted, FailsLate, execute_transaction-IsExecuted, execute_transaction-failed,
}
use drb_node.Eth.Termination.{execute_transaction-returns}

-- The first two calls for the receipt find none.
receipts : ℕ → ReceiptReply
receipts zero = not_found
receipts (suc zero) = not_found
receipts (suc (suc k)) = receipt 1

abbrev client1 : Client
client1 = record {
  contract_address = replicate 20 1;
  network_id = some 5;
  transactor = λ _. some (replicate 20 3);
  pending_nonce_at = λ _. some 11;
  suggest_gas_price = some 100;
  pack = λ name params. some name;
  uint64_of_negative = λ n. n;
  sign_tx = λ chain_id tx. some (codes "signed");
  send_transaction = λ _. true;
  estimate_gas = λ _ _. some 21000;
  transaction_receipt = λ _. receipts;
  call_contract = λ _ payload. some payload;
  unpack = λ _ reply. some reply;
}

-- A chain on which the transaction is reverted.
abbrev client2 : Client
client2 = record client1 { transaction_receipt = λ _ k. receipt 0 }

abbrev prepared1 : Prepared
prepared1 = record {
  from = replicate 20 3;
  signed = record {
    body = record {
      nonce = 11;
      to = replicate 20 1;
      amount = 60;
      gas = 3000000;
      gas_price = 100;
      payload = codes "deposit";
    };
    signature = codes "signed";
  };
}

settles1 : (p : Prepared) → FirstReply client1 p.signed 2
unfolding receipts
settles1 p = (early, λ e. cc)
  where
    early : (i : ℕ) → i < 2 → receipts i ≡ not_found
    early zero h = refl
    early (suc zero) h = refl
    early (suc (suc i)) h = absurd (omega arith)

deposit-returns :
    (result : Outcome Prepared) × (transactions : List SignedTransaction) × ((fuel : ℕ)
      → 2 < fuel
      → execute_transaction client1 fuel (codes "deposit") 60 [] ≡ (some result, transactions))
deposit-returns = execute_transaction-returns client1 2 (codes "deposit") 60 [] (λ p _. settles1 p)

deposit_executed : (execute_transaction client1 3 (codes "deposit") 60 []).0 ≡ some (done prepared1)
unfolding execute_transaction estimates wait_for_transaction_success receipts
deposit_executed = refl

deposit-IsExecuted :
    IsPrepared client1 (codes "deposit") 60 [] prepared1
    × ((execute_transaction client1 3 (codes "deposit") 60 []).1 ≡ prepared1.signed ∷ [])
    × IsExecuted client1 prepared1
deposit-IsExecuted =
    execute_transaction-IsExecuted client1 (codes "deposit") 60 [] 3 prepared1 deposit_executed

deposit_reverted :
    (execute_transaction client2 3 (codes "deposit") 60 []).0 ≡ some (failed (reverted 0))
unfolding execute_transaction estimates wait_for_transaction_success
deposit_reverted = refl

deposit_sent_and_failed :
    ((execute_transaction client2 3 (codes "deposit") 60 []).1 ≡ [])
    ⊎ ((p : Prepared) × IsPrepared client2 (codes "deposit") 60 [] p
        × ((execute_transaction client2 3 (codes "deposit") 60 []).1 ≡ p.signed ∷ [])
        × FailsLate client2 p (reverted 0))
deposit_sent_and_failed =
    execute_transaction-failed client2 (codes "deposit") 60 [] 3 (reverted 0) deposit_reverted
