-- ===== src/Storage/Sink.antt =====
-- crates/storage/src/postgres/sink_repo.rs. The faults of the connection are an argument: for each
-- attempt, which of its statements fails, and what becomes of its commit.
pub mod Attempt
pub mod Retry
pub mod Effect
use fraud_guard.Base.{
  ℕ, zero, suc, ◌+◌, ◌-◌, ◌*◌, ◌^◌, String, List, [], ◌∷◌, ◌++◌, Option, none, some, Result, ok,
  err, ◌>>=◌, map_err, ltb, if◌then◌else◌,
}
use fraud_guard.Domain.Error.{DomainError, repository}
use fraud_guard.Domain.Decision.{Decision}
use fraud_guard.Domain.Crates.{Crates}
use fraud_guard.Domain.Transaction.{TransactionRequest}
use fraud_guard.Storage.Db.{
  Db, transaction_row, insert_transaction_or_nothing, insert_decision_or_nothing,
}

-- A commit succeeds, or fails and is rolled back, or is carried out by a server whose answer is
-- lost, so that the program sees an error.
pub data Commit : Type 0 where
  committed : Commit
  rolled_back : (message : String) → Commit
  answer_lost : (message : String) → Commit

-- The messages of the statements that fail, and of a constraint that an insertion violates.
pub record Faults : Type 0 where
  pub begin : Option String
  pub insert_transaction : Option String
  pub insert_decision : Option String
  pub constraint : String
  pub commit : Commit

-- `.await.map_err(|e| DomainError::Repository { … })?` on a statement
abbrev pub statement : String → Option String → Result (Unit {0}) DomainError
statement operation none = ok tt
statement operation (some message) = err (repository operation message)

abbrev pub max_attempts : ℕ
max_attempts = 3

module _ ⦃X : Crates⦄ where
  -- The body of the database transaction: what a commit would store.
  unfoldable pub transaction_body :
      Faults → TransactionRequest → Decision → Db → Result Db DomainError
  transaction_body f tx decision db = do
    _ ← statement "begin db transaction" f.begin
    _ ← statement "insert transaction" f.insert_transaction
    let db' = insert_transaction_or_nothing (transaction_row tx) db
    decision_json ← map_err (repository "serialize decision to JSON") (X.decision_value decision)
    _ ← statement "insert decision" f.insert_decision
    map_err (repository "insert decision") (
        insert_decision_or_nothing f.constraint
          (record { transaction_id = tx.id.uuid; decision = decision_json }) db')

  abbrev pub finish : Commit → Db → Db → Result (Unit {0}) DomainError × Db
  finish committed db db' = (ok tt, db')
  finish (rolled_back message) db db' = (err (repository "commit db transaction" message), db)
  finish (answer_lost message) db db' = (err (repository "commit db transaction" message), db')

  -- A `Transaction` that is dropped before its commit is rolled back.
  unfoldable pub attempt_insert_transaction_and_decision :
      Faults → TransactionRequest → Decision → Db → Result (Unit {0}) DomainError × Db
  unfolding transaction_body
  attempt_insert_transaction_and_decision f tx decision db =
      elim (transaction_body f tx decision db) [
        | err e ↦ (err e, db)
        | ok db' ↦ finish f.commit db db'
      ]

  -- What the retry loop returns, and the database and the delays in milliseconds that it leaves.
  pub record Outcome : Type 0 where
    pub result : Result (Unit {0}) DomainError
    pub db : Db
    pub delays : List ℕ

  -- `loop`, with fuel; `none` means that the fuel ran out. The faults are those of attempt 1, 2, ….
  pub insert_loop :
      ℕ → (ℕ → Faults) → TransactionRequest → Decision → ℕ → Db → List ℕ → Option Outcome
  insert_loop zero faults tx decision attempt db delays = none
  insert_loop (suc fuel) faults tx decision previous db delays =
      let attempt = previous + 1 in
      let (result, db') = attempt_insert_transaction_and_decision (faults attempt) tx decision db in
      let delay = 100 * 2 ^ (attempt - 1) in
      let again = insert_loop fuel faults tx decision attempt db' (delays ++ (delay ∷ [])) in
      elim result [
        | ok _ ↦ some (record { result = ok tt; db = db'; delays = delays })
        | err e ↦
            if ltb attempt max_attempts
            then again
            else some (record { result = err e; db = db'; delays = delays })
      ]

  unfoldable pub insert_transaction_and_decision :
      (ℕ → Faults) → TransactionRequest → Decision → Db → Option Outcome
  unfolding insert_loop
  insert_transaction_and_decision faults tx decision db =
      insert_loop max_attempts faults tx decision 0 db []
