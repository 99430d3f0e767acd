-- ===== src/Storage/SinkRepository.antt =====
-- crates/storage/src/sink_repo.rs: the interface of the sink's repository over the state of a store, and
-- the repository of crates/storage/src/postgres/sink_repo.rs as one. A call that does not return is
-- `none`.
use mathlib.Core.Option
use mathlib.Core.Option.{Option}
use fraud_guard.Base.{ℕ, some, Result, ok, ◌≡◌, refl}
use fraud_guard.Domain.Error.{DomainError}
use fraud_guard.Domain.Decision.{Decision}
use fraud_guard.Domain.Crates.{Crates, IsLawful}
use fraud_guard.Domain.Transaction.{TransactionRequest}
use fraud_guard.Storage.Db.{Db}
use fraud_guard.Storage.Sink
use fraud_guard.Storage.Sink.{Faults}
use fraud_guard.Storage.Sink.Attempt.{Stored}
use fraud_guard.Storage.Sink.Retry.{insert_total}

module _ ⦃X : Crates⦄ where
  pub record SinkRepository (S : Type 0) : Type 0 where
    pub insert_transaction_and_decision :
        TransactionRequest → Decision → S → Option (S × Result (Unit {0}) DomainError)

  -- A call returns, and stores what it reports as stored.
  pub record Keeps {S : Type 0} (repo : SinkRepository S)
      (stored : TransactionRequest → Decision → S → S → Type 0) : Type 0 where
    pub returns :
        (tx : TransactionRequest) (decision : Decision) (s : S)
        → (s' : S) × (result : Result (Unit {0}) DomainError)
          × (repo.insert_transaction_and_decision tx decision s ≡ some (s', result))
          × (result ≡ ok tt → stored tx decision s s')

  abbrev pub postgres : (ℕ → Faults) → SinkRepository Db
  postgres faults = record {
    insert_transaction_and_decision = λ tx decision db.
        Option.map (λ o. (o.db, o.result))
          (Sink.insert_transaction_and_decision faults tx decision db);
  }

  pub postgres-Keeps : IsLawful X → (faults : ℕ → Faults) → Keeps (postgres faults) Stored
  postgres-Keeps L faults = record {
    returns = λ tx decision db.
        let (o, run, c) = insert_total L faults tx decision db in
        (o.db, o.result, rw run refl, c.stored);
  }
