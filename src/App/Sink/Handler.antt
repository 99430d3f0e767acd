-- ===== src/App/Sink/Handler.antt =====
-- The handler of `PersistResults` over any repository of the interface.
use mathlib.Core.Option
use mathlib.Core.Option.{Option}
use fraud_guard.Base.{ℕ, some, ok, ◌≡◌, refl, Option-cases, inl, inr}
use fraud_guard.Domain.Decision.{Decision}
use fraud_guard.Domain.Crates.{Crates}
use fraud_guard.Domain.Transaction.{TransactionRequest}
use fraud_guard.Storage.Db.{Db}
use fraud_guard.Storage.Sink.{Faults, insert_transaction_and_decision}
use fraud_guard.Storage.SinkRepository.{SinkRepository, Keeps, postgres}
use fraud_guard.App.Messages.{PersistResults, AckMessage}
use fraud_guard.App.Sink.{persist_results}

module _ ⦃X : Crates⦄ {S : Type 0} (repo : SinkRepository S) where
  unfoldable pub handle : PersistResults → S → Option (S × AckMessage)
  handle msg s =
      Option.map (λ r. (r.0, record { correlation_id = msg.correlation_id; result = r.1 }))
        (repo.insert_transaction_and_decision msg.tx msg.decision s)

  -- With a repository that keeps its promise, the sink always answers, for the delivery of its
  -- message, and reports success only for what is stored.
  pub handle-Keeps :
      {stored : TransactionRequest → Decision → S → S → Type 0}
      → Keeps repo stored
      → (msg : PersistResults) (s : S)
      → (s' : S) × (reply : AckMessage) × (handle msg s ≡ some (s', reply))
        × (reply.correlation_id ≡ msg.correlation_id)
        × (reply.result ≡ ok tt → stored msg.tx msg.decision s s')
  unfolding handle
  handle-Keeps k msg s =
      let (s', result, done, stored) = k.returns msg.tx msg.decision s in
      (
        s',
        record { correlation_id = msg.correlation_id; result = result },
        rw done refl,
        refl,
        stored,
      )

module _ ⦃X : Crates⦄ where
  -- The handler of the program is the handler over the tables.
  pub persist_results-handle :
      (faults : ℕ → Faults) (msg : PersistResults) (db : Db)
      → persist_results faults msg db ≡ handle (postgres faults) msg db
  unfolding handle persist_results
  persist_results-handle faults msg db =
      elim (Option-cases (insert_transaction_and_decision faults msg.tx msg.decision db)) [
        | inl stuck ↦ rw stuck refl
        | inr (o, done) ↦ rw done refl
      ]
