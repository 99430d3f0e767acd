-- ===== src/Domain/Transaction.antt =====
-- crates/domain/src/transaction.rs: `TransactionId` and `TransactionRequest`.
pub mod Validate
use fraud_guard.Base.{Result, ok, err, ◌=s=◌, if◌then◌else◌}
use fraud_guard.Base.Int.{ℤ, pos, leb_ℤ}
use fraud_guard.Domain.Error.{DomainError, validation}
use fraud_guard.Domain.Crates.{Crates}
use fraud_guard.Domain.AccountId.{AccountId}
use fraud_guard.Domain.Currency.{Currency}

module _ ⦃X : Crates⦄ where
  pub record TransactionId : Type 0 where
    pub uuid : X.Uuid

  abbrev pub from_uuid : X.Uuid → TransactionId
  from_uuid uuid = record { uuid = uuid }

  abbrev pub as_uuid : TransactionId → X.Uuid
  as_uuid id = id.uuid

  pub record TransactionRequest : Type 0 where
    pub id : TransactionId
    pub source_account : AccountId
    pub destination_account : AccountId
    pub amount : ℤ  -- i64
    pub currency : Currency
    pub timestamp : X.DateTime

  -- `TransactionRequest::new`, given the fresh identifier and the present time that it draws.
  abbrev pub new :
      TransactionId → X.DateTime → AccountId → AccountId → ℤ → Currency → TransactionRequest
  new id now source destination amount currency = record {
    id = id;
    source_account = source;
    destination_account = destination;
    amount = amount;
    currency = currency;
    timestamp = now;
  }

  unfoldable pub validate : TransactionRequest → Result (Unit {0}) DomainError
  validate tx =
      if leb_ℤ tx.amount (pos 0)
      then err (validation "Amount must be positive")
      else if tx.source_account.text =s= tx.destination_account.text
      then err (validation "Source and destination accounts must differ")
      else ok tt
