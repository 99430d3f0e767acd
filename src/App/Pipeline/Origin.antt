-- ===== src/App/Pipeline/Origin.antt =====
-- Where the transactions in the tables come from.
use mathlib.Core.List.{Memᴰ}
use mathlib.Core.List.Memᴰ.{head, tail}
use fraud_guard.Base.{
  ℕ, List, [], ◌∷◌, true, ok, ◌≡◌, refl, ◌⊎◌, inl, inr, subst, sym, arith, All, All-Memᴰ, All-of,
  Bool-cases,
}
use fraud_guard.Domain.Crates.{Crates, IsLawful}
use fraud_guard.Domain.Currency
use fraud_guard.Domain.Decision.{Decision}
use fraud_guard.Domain.Transaction.{TransactionRequest}
use fraud_guard.Storage.Table.{has}
use fraud_guard.Storage.Table.Laws.{All-add_or_nothing}
use fraud_guard.Storage.Db.{Db, TransactionRow, transaction_row, transaction_key, decision_key}
use fraud_guard.Storage.Db.Integrity.{persist as persist_rows}
use fraud_guard.Storage.Sink.Attempt.{AllOrNothing}
use fraud_guard.App.Pipeline.{Pipeline, Action, step}
use fraud_guard.App.Pipeline.Promise.{Recorded, Honest}
use fraud_guard.App.Pipeline.Tables.{step-Changes}

module _ ⦃X : Crates⦄ where
  -- The row says in each column what the transaction says.
  pub record IsRowOf (row : TransactionRow) (tx : TransactionRequest) : Type 0 where
    pub transaction_id : row.transaction_id ≡ tx.id.uuid
    pub source_account : row.source_account ≡ tx.source_account.text
    pub destination_account : row.destination_account ≡ tx.destination_account.text
    pub amount : row.amount ≡ tx.amount
    pub currency : Currency.from_str row.currency ≡ ok tx.currency
    pub timestamp : row.timestamp ≡ tx.timestamp

  transaction_row-IsRowOf : (tx : TransactionRequest) → IsRowOf (transaction_row tx) tx
  unfolding transaction_row
  transaction_row-IsRowOf tx = record {
    transaction_id = refl;
    source_account = refl;
    destination_account = refl;
    amount = refl;
    currency = Currency.from_str-to_string tx.currency;
    timestamp = refl;
  }

  pub has-Memᴰ :
      {A : Type 0}
      → IsLawful X
      → (key : A → X.Uuid) (id : X.Uuid) (rows : List A) → has key id rows ≡ true
      → (row : A) × Memᴰ row rows × (key row ≡ id)
  has-Memᴰ L key id [] h = absurd (ground arith)
  has-Memᴰ L key id (row ∷ rows) h = elim (Bool-cases (X.uuid_eq (key row) id)) [
    | inl same ↦ (row, head refl, (L.uuid_eq_iff (key row) id).0 same)
    | inr differ ↦ let (other, m, e) = has-Memᴰ L key id rows (ground arith) in (other, tail m, e)
  ]

-- `Came` says which transactions came under which tags, and `before` what the tables had.
module _ ⦃X : Crates⦄ (Came : ℕ → TransactionRequest → Type 0) (before : Db) where
  -- The row was there before, or says what a transaction that came says.
  abbrev pub Stems : TransactionRow → Type 0
  Stems row =
      Memᴰ row before.transactions
      ⊎ ((tag : ℕ) × (u : TransactionRequest) × Came tag u × IsRowOf row u)

  -- Under the identifier of the transaction the tables have a decision and a transaction, which was
  -- there before or says in each column what a transaction that came says.
  abbrev pub InTables : TransactionRequest → Db → Type 0
  InTables tx db =
      ((row : TransactionRow) × Memᴰ row db.transactions
        × (row.transaction_id ≡ tx.id.uuid)
        × Stems row)
      × (has decision_key tx.id.uuid db.decisions ≡ true)

  pub before-Stems : All Stems before.transactions
  before-Stems = All-of Stems before.transactions (λ row m. inl m)

  pub Recorded-InTables :
      IsLawful X
      → (tx : TransactionRequest) (db : Db) → Recorded tx db
      → All Stems db.transactions
      → InTables tx db
  Recorded-InTables L tx db (t, d) stems =
      let (row, m, e) = has-Memᴰ L transaction_key tx.id.uuid db.transactions t in
      ((row, m, e, All-Memᴰ Stems db.transactions row m stems), d)

  pub AllOrNothing-Stems :
      (tag : ℕ) (tx : TransactionRequest) (decision : Decision) (db db' : Db)
      → Came tag tx
      → AllOrNothing tx decision db db'
      → All Stems db.transactions
      → All Stems db'.transactions
  unfolding persist_rows
  AllOrNothing-Stems tag tx decision db db' came (inl e) stems = rw e stems
  AllOrNothing-Stems tag tx decision db db' came (inr (value, s, e)) stems = rw e (
      All-add_or_nothing transaction_key Stems (transaction_row tx) db.transactions
        (inr (tag, tx, came, transaction_row-IsRowOf tx)) stems)

  pub step-Stems :
      IsLawful X
      → (a : Action) (p : Pipeline) → Honest Came p
      → All Stems p.db.transactions
      → All Stems (step a p).db.transactions
  step-Stems L a p v stems = elim (step-Changes L a p) [
    | inl same ↦ subst (λ db. All Stems db.transactions) (sym same) stems
    | inr (msg, m, atomic) ↦
        AllOrNothing-Stems msg.correlation_id msg.tx msg.decision p.db (step a p).db
          (All-Memᴰ _ p.results msg m v.results) atomic stems
  ]
