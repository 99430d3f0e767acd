-- ===== src/App/Sink.antt =====
-- crates/app/src/actors/sink.rs. A handler returns the outcome of the repository and the message
-- that it tells the consumer, whose result is ignored.
pub mod Answer
pub mod Handler
use mathlib.Core.Option
use mathlib.Core.Option.{Option}
use fraud_guard.Base.{ℕ}
use fraud_guard.Domain.Crates.{Crates}
use fraud_guard.Storage.Db.{Db}
use fraud_guard.Storage.Sink.{Faults, Outcome, insert_transaction_and_decision}
use fraud_guard.App.Messages.{PersistResults, AckMessage}

module _ ⦃X : Crates⦄ where
  abbrev pub acknowledge : PersistResults → Outcome → AckMessage
  acknowledge msg o = record { correlation_id = msg.correlation_id; result = o.result }

  unfoldable pub persist_results : (ℕ → Faults) → PersistResults → Db → Option (Db × AckMessage)
  persist_results faults msg db =
      Option.map (λ o. (o.db, acknowledge msg o))
        (insert_transaction_and_decision faults msg.tx msg.decision db)
