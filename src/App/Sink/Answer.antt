-- ===== src/App/Sink/Answer.antt =====
-- The sink's answer against the promise of its repository.
use fraud_guard.Base.{ℕ, some, ok, ◌≡◌, refl, arith, Option-cases, inl, inr}
use fraud_guard.Domain.Crates.{Crates, IsLawful}
use fraud_guard.Storage.Db.{Db}
use fraud_guard.Storage.Sink.{Faults, insert_transaction_and_decision}
use fraud_guard.Storage.Sink.Attempt.{Stored, AllOrNothing}
use fraud_guard.Storage.Sink.Retry.{insert_total}
use fraud_guard.App.Messages.{PersistResults, AckMessage}
use fraud_guard.App.Sink.{persist_results, acknowledge}

module _ ⦃X : Crates⦄ where
  -- With lawful crates, the sink always answers, for the delivery of its message; it reports success only for a
  -- transaction and decision that are stored, and otherwise stores both or none.
  pub persist_results_total :
      IsLawful X
      → (faults : ℕ → Faults) (msg : PersistResults) (db : Db)
      → (after : Db) × (answer : AckMessage) × (persist_results faults msg db
          ≡ some (after, answer))
        × (answer.correlation_id ≡ msg.correlation_id)
        × (answer.result ≡ ok tt → Stored msg.tx msg.decision db after)
        × AllOrNothing msg.tx msg.decision db after
  unfolding persist_results
  persist_results_total L faults msg db =
      let (o, run, c) = insert_total L faults msg.tx msg.decision db in
      (o.db, acknowledge msg o, rw run refl, refl, c.stored, c.atomic)

  pub persist_results-tag :
      (faults : ℕ → Faults) (msg : PersistResults) (db after : Db) (answer : AckMessage)
      → persist_results faults msg db ≡ some (after, answer)
      → answer.correlation_id ≡ msg.correlation_id
  unfolding persist_results
  persist_results-tag faults msg db after answer h =
      elim (Option-cases (insert_transaction_and_decision faults msg.tx msg.decision db)) [
        | inl stuck ↦ absurd (ground arith)
        | inr (o, run) ↦ ground arith
      ]
