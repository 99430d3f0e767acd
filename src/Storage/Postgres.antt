-- ===== src/Storage/Postgres.antt =====
-- crates/storage/src/postgres: the repositories of PostgreSQL as implementations of the traits of
-- crates/domain/src/repository.rs, over the tables. What the pool answers is in the record of the
-- repository that `new` gives it to: what a SELECT with a WHERE clause fetches from a table, and
-- whether a statement fails, for itself or by a constraint.
pub mod Period
pub mod ActiveRules
use fraud_guard.Base.{
  String, List, [], ◌∷◌, Bool, Result, ok, err, ◌≡◌, ◌⊎◌, inl, inr, ap, sym, arith,
}
use fraud_guard.Domain.Error.{DomainError, repository}
use fraud_guard.Domain.Crates.{Crates}
use fraud_guard.Domain.Repository.{TransactionRepository, RuleRepository, DecisionRepository}
use fraud_guard.Storage.Db.{Db, TransactionRow}
use fraud_guard.Storage.Repo.{
  RuleRow, is_selected, in_period, load_active_rules, get_transactions_for_account,
  insert_transaction, store_decision,
}

-- `sqlx::PgPool`, for the statements on one table: what is fetched, whether a statement fails, for
-- itself or by a constraint, and whether the answer of one that was executed arrives.
pub record Pool (Row : Type 0) : Type 0 where
  pub fetch_all : (Row → Bool) → List Row → Result (List Row) String
  pub execute : Result (Unit {0}) String
  pub constraint : String
  pub answer : Result (Unit {0}) String

-- A statement that fails leaves the tables as they were; where its answer is lost, they are changed
-- and the caller gets an error.
abbrev pub written :
    {S : Type 0}
    → String
    → Result (Unit {0}) String
    → S
    → Result S DomainError
    → S × Result (Unit {0}) DomainError
written operation answer s (err e) = (s, err e)
written operation (ok _) s (ok s') = (s', ok tt)
written operation (err e) s (ok s') = (s', err (repository operation e))

module _ {S : Type 0} (operation : String) (s s' : S) where
  pub written-ok :
      (answer : Result (Unit {0}) String) (r : Result S DomainError)
      → written operation answer s r ≡ (s', ok tt)
      → r ≡ ok s'
  written-ok (ok _) (ok t) done = ap (λ p. ok p.0) done
  written-ok (err e) (ok t) done = absurd (ground (arith, ap (λ p. p.1) done))
  written-ok answer (err e) done = absurd (ground (arith, ap (λ p. p.1) done))

  pub written-err :
      (answer : Result (Unit {0}) String) (r : Result S DomainError) (e : DomainError)
      → written operation answer s r ≡ (s', err e)
      → (s' ≡ s) ⊎ (r ≡ ok s')
  written-err (ok _) (ok t) e done = absurd (ground (arith, ap (λ p. p.1) done))
  written-err (err m) (ok t) e done = inr (ap (λ p. ok p.0) done)
  written-err answer (err m) e done = inl (sym (ap (λ p. p.0) done))

module _ ⦃X : Crates⦄ where
  abbrev pub transactions : Pool TransactionRow → TransactionRepository Db
  transactions pool = record {
    get_transactions_for_account = λ account from to db.
        get_transactions_for_account (pool.fetch_all (in_period account from to) db.transactions);
    insert_transaction = λ tx_req db.
        written "insert transaction into DB" pool.answer db
          (insert_transaction pool.execute pool.constraint tx_req db);
  }

  -- At a present time.
  abbrev pub rules : Pool RuleRow → X.DateTime → RuleRepository (List RuleRow)
  rules pool now = record {
    load_active_rules = λ table. load_active_rules (pool.fetch_all (is_selected now) table);
  }

  abbrev pub decisions : Pool TransactionRow → DecisionRepository Db
  decisions pool = record {
    store_decision = λ transaction_id decision db.
        written "store decision" pool.answer db
          (store_decision pool.execute pool.constraint transaction_id decision db);
  }
