-- ===== src/Domain/Transaction/Validate.antt =====
-- What `TransactionRequest::validate` lets pass.
use fraud_guard.Base.{ok, ◌≡◌, ◌≢◌, ◌↔◌, eq_iff, arith}
use fraud_guard.Base.Int.{pos, ◌<ℤ◌}
use fraud_guard.Domain.Crates.{Crates}
use fraud_guard.Domain.Transaction.{TransactionRequest, validate}

module _ ⦃X : Crates⦄ where
  -- A transaction passes exactly if its amount is positive and its two accounts differ.
  pub validate-eq-ok_iff :
      (tx : TransactionRequest)
      → (validate tx ≡ ok tt)
        ↔ ((pos 0 <ℤ tx.amount) × (tx.source_account ≢ tx.destination_account))
  unfolding validate
  validate-eq-ok_iff tx = ground (arith, eq_iff tx.source_account.text tx.destination_account.text)
