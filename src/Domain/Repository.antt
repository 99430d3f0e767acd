-- ===== src/Domain/Repository.antt =====
-- crates/domain/src/repository.rs: the traits of the repositories, over the state of a store.
pub mod Client
use mathlib.Core.List.{Memᴰ}
use fraud_guard.Base.{List, [], ◌∷◌, true, Result, ok, err, All, ◌≡◌, ◌↔◌, ◌⊎◌}
use fraud_guard.Domain.Error.{DomainError}
use fraud_guard.Domain.Decision.{Decision}
use fraud_guard.Domain.Crates.{Crates, before, not_before, not_after}
use fraud_guard.Domain.AccountId.{AccountId, as_str}
use fraud_guard.Domain.AccountId.Laws.{IsAccountText}
use fraud_guard.Domain.Transaction.{TransactionId, TransactionRequest}
use fraud_guard.Domain.Rule.{Rule}

module _ ⦃X : Crates⦄ where
  pub record TransactionRepository (S : Type 0) : Type 0 where
    pub get_transactions_for_account :
        AccountId → X.DateTime → X.DateTime → S → Result (List TransactionRequest) DomainError
    pub insert_transaction : TransactionRequest → S → S × Result (Unit {0}) DomainError

  pub record RuleRepository (S : Type 0) : Type 0 where
    pub load_active_rules : S → Result (List Rule) DomainError

  pub record DecisionRepository (S : Type 0) : Type 0 where
    pub store_decision : TransactionId → Decision → S → S × Result (Unit {0}) DomainError

  -- Both accounts are sixteen digits.
  abbrev pub HasAccounts : TransactionRequest → Type 0
  HasAccounts tx =
      IsAccountText (as_str tx.source_account) × IsAccountText (as_str tx.destination_account)

  -- From the account, and in the period without its end.
  abbrev pub InPeriod : AccountId → X.DateTime → X.DateTime → TransactionRequest → Type 0
  InPeriod account from to tx =
      (tx.source_account ≡ account)
      × (not_before tx.timestamp from ≡ true)
      × (before tx.timestamp to ≡ true)

  -- `ORDER BY timestamp ASC`
  abbrev pub Ascending : List X.DateTime → Type 0
  Ascending [] = Unit
  Ascending (t ∷ rest) = All (λ u. not_after t u ≡ true) rest × Ascending rest

  abbrev pub times : List TransactionRequest → List X.DateTime
  times [] = []
  times (tx ∷ txs) = tx.timestamp ∷ times txs

  -- The store is valid afterwards, and holds the transaction and else what it held before.
  abbrev pub Adds :
      {S : Type 0}
      → (S → Type 0)
      → (TransactionRequest → S → Type 0)
      → TransactionRequest
      → S
      → S
      → Type 0
  Adds IsValid holds tx s s' =
      IsValid s' × ((u : TransactionRequest) → holds u s' ↔ (holds u s ⊎ (u ≡ tx)))

  -- What a repository of transactions promises, where `holds` says what its store has.
  pub record IsTransactionStore {S : Type 0} (repo : TransactionRepository S) (IsValid : S → Type 0)
      (holds : TransactionRequest → S → Type 0) : Type 0 where
    pub inserted :
        (tx : TransactionRequest) (s s' : S)
        → IsValid s
        → HasAccounts tx
        → repo.insert_transaction tx s ≡ (s', ok tt)
        → Adds IsValid holds tx s s'
    pub refused :
        (tx : TransactionRequest) (e : DomainError) (s s' : S)
        → IsValid s
        → HasAccounts tx
        → repo.insert_transaction tx s ≡ (s', err e)
        → (s' ≡ s) ⊎ Adds IsValid holds tx s s'
    pub fetched :
        (account : AccountId) (from to : X.DateTime) (s : S) (txs : List TransactionRequest)
        → IsValid s
        → repo.get_transactions_for_account account from to s ≡ ok txs
        → ((u : TransactionRequest) → Memᴰ u txs ↔ (holds u s × InPeriod account from to u))
          × Ascending (times txs)
