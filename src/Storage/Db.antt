-- ===== src/Storage/Db.antt =====
-- The tables `transactions` and `decisions` of crates/storage/migrations, by the columns that the
-- program writes, and the statements of the repositories on them. The columns `id`, `received_at`
-- and `evaluated_at` are filled by the database and read by nobody.
pub mod Integrity
use fraud_guard.Base.{String, List, [], ◌∷◌, ◌++◌, Result, ok, err, if◌then◌else◌}
use fraud_guard.Base.Int.{ℤ}
use fraud_guard.Domain.Crates.{Crates}
use fraud_guard.Domain.Transaction.{TransactionRequest}
use fraud_guard.Domain.Currency
use fraud_guard.Storage.Table.{has, add_or_nothing}

module _ ⦃X : Crates⦄ where
  pub record TransactionRow : Type 0 where
    pub transaction_id : X.Uuid
    pub source_account : String
    pub destination_account : String
    pub amount : ℤ
    pub currency : String
    pub timestamp : X.DateTime

  pub record DecisionRow : Type 0 where
    pub transaction_id : X.Uuid
    pub decision : X.Value

  pub record Db : Type 0 where
    pub transactions : List TransactionRow
    pub decisions : List DecisionRow

  -- The values `$1` to `$6` of the two insertions into `transactions`.
  unfoldable pub transaction_row : TransactionRequest → TransactionRow
  transaction_row tx = record {
    transaction_id = tx.id.uuid;
    source_account = tx.source_account.text;
    destination_account = tx.destination_account.text;
    amount = tx.amount;
    currency = Currency.to_string tx.currency;
    timestamp = tx.timestamp;
  }

  -- The two UNIQUE columns.
  abbrev pub transaction_key : TransactionRow → X.Uuid
  transaction_key row = row.transaction_id

  abbrev pub decision_key : DecisionRow → X.Uuid
  decision_key row = row.transaction_id

  -- `INSERT INTO transactions … ON CONFLICT (transaction_id) DO NOTHING`
  unfoldable pub insert_transaction_or_nothing : TransactionRow → Db → Db
  insert_transaction_or_nothing row db = record db {
    transactions = add_or_nothing transaction_key row db.transactions;
  }

  -- `INSERT INTO transactions …`, where the column is UNIQUE.
  unfoldable pub insert_transaction : String → TransactionRow → Db → Result Db String
  insert_transaction message row db =
      if has transaction_key row.transaction_id db.transactions
      then err message
      else ok (record db { transactions = db.transactions ++ (row ∷ []) })

  -- The foreign key of `decisions`, which a new row has to meet.
  abbrev pub add_decision : String → DecisionRow → Db → Result Db String
  add_decision message row db =
      if has transaction_key row.transaction_id db.transactions
      then ok (record db { decisions = db.decisions ++ (row ∷ []) })
      else err message

  -- `INSERT INTO decisions … ON CONFLICT (transaction_id) DO NOTHING`
  unfoldable pub insert_decision_or_nothing : String → DecisionRow → Db → Result Db String
  insert_decision_or_nothing message row db =
      if has decision_key row.transaction_id db.decisions
      then ok db
      else add_decision message row db

  -- `INSERT INTO decisions …`, where the column is UNIQUE.
  unfoldable pub insert_decision : String → DecisionRow → Db → Result Db String
  insert_decision message row db =
      if has decision_key row.transaction_id db.decisions
      then err message
      else add_decision message row db
