-- ===== src/App/Messages.antt =====
-- crates/app/src/actors/messages.rs. A correlation id is the delivery tag of the queue, a u64; the
-- reference to the engine in `StartConsuming` is the wiring of the system, and no field here.
use fraud_guard.Base.{ℕ, List, Result}
use fraud_guard.Domain.Error.{DomainError}
use fraud_guard.Domain.Decision.{Decision}
use fraud_guard.Domain.Crates.{Crates}
use fraud_guard.Domain.Transaction.{TransactionRequest}
use fraud_guard.Domain.Rule.{Rule}

abbrev pub CorrelationId : Type 0
CorrelationId = ℕ

pub record StoreDelivery : Type 0 where
  pub correlation_id : CorrelationId

pub record AckMessage : Type 0 where
  pub correlation_id : CorrelationId
  pub result : Result (Unit {0}) DomainError

module _ ⦃X : Crates⦄ where
  pub record UpdateRules : Type 0 where
    pub rules : List Rule

  pub record EvaluateTransactionRequest : Type 0 where
    pub tx : TransactionRequest
    pub correlation_id : CorrelationId

  pub record PersistResults : Type 0 where
    pub tx : TransactionRequest
    pub decision : Decision
    pub correlation_id : CorrelationId
