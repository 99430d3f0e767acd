-- ===== src/Storage/Repo/Writes.antt =====
-- What the plain insertions of the repositories leave in the tables.
use fraud_guard.Base.{
  String, true, false, Result, ok, err, All-imp, Bool-cases, Result-cases, inl, inr, ◌≡◌, arith,
}
use fraud_guard.Domain.Decision.{Decision}
use fraud_guard.Domain.Crates.{Crates, IsLawful}
use fraud_guard.Domain.Transaction.{TransactionId, TransactionRequest}
use fraud_guard.Storage.Table.{has, add_or_nothing}
use fraud_guard.Storage.Table.Laws.{
  add_or_nothing-UniqueKeys, add_or_nothing_new, has-add_or_nothing, has-add_or_nothing_mono,
  All-add_or_nothing,
}
use fraud_guard.Storage.Db.{
  Db, TransactionRow, DecisionRow, transaction_row, transaction_key, decision_key,
  insert_transaction as insert_row, insert_decision,
}
use fraud_guard.Storage.Db.Integrity.{IsIntact}
use fraud_guard.Storage.Repo.{insert_transaction, store_decision}

module _ ⦃X : Crates⦄ where
  insert_row-ok :
      (message : String) (row : TransactionRow) (db db' : Db)
      → insert_row message row db ≡ ok db'
      → (has transaction_key row.transaction_id db.transactions ≡ false)
        × (db' ≡ record db { transactions = add_or_nothing transaction_key row db.transactions })
  unfolding insert_row
  insert_row-ok message row db db' h =
      elim (Bool-cases (has transaction_key row.transaction_id db.transactions)) [
        | inl old ↦ absurd (ground arith)
        | inr new ↦
            (new, ground (arith, add_or_nothing_new transaction_key row db.transactions new))
      ]

  insert_decision-ok :
      (message : String) (row : DecisionRow) (db db' : Db)
      → insert_decision message row db ≡ ok db'
      → (has decision_key row.transaction_id db.decisions ≡ false)
        × (has transaction_key row.transaction_id db.transactions ≡ true)
        × (db' ≡ record db { decisions = add_or_nothing decision_key row db.decisions })
  unfolding insert_decision
  insert_decision-ok message row db db' h =
      elim (Bool-cases (has decision_key row.transaction_id db.decisions)) [
        | inl old ↦ absurd (ground arith)
        | inr new ↦ (
          new,
          ground arith,
          ground (arith, add_or_nothing_new decision_key row db.decisions new),
        )
      ]

  -- With lawful crates, if the constraints of the schema hold before an insertion of a transaction that
  -- succeeds, they hold afterwards, and its identifier is in the table now and was not before.
  pub insert_transaction-IsIntact :
      IsLawful X
      → (statement : Result (Unit {0}) String) (constraint : String) (tx : TransactionRequest)
        (db db' : Db)
      → insert_transaction statement constraint tx db ≡ ok db'
      → IsIntact db
      → IsIntact db'
        × (has transaction_key tx.id.uuid db.transactions ≡ false)
        × (has transaction_key tx.id.uuid db'.transactions ≡ true)
  unfolding insert_transaction transaction_row
  insert_transaction-IsIntact L (err e) constraint tx db db' h v = absurd (ground arith)
  insert_transaction-IsIntact L (ok _) constraint tx db db' h v =
      let row = transaction_row tx in
      let run : insert_row constraint row db ≡ ok db' =
        ground (arith, Result-cases (insert_row constraint row db)) in
      let (new, e) = insert_row-ok constraint row db db' run in
      rw e (
        record {
          transactions_unique =
              add_or_nothing-UniqueKeys transaction_key L row db.transactions v.transactions_unique;
          decisions_unique = v.decisions_unique;
          foreign_key =
              All-imp db.decisions
                (λ r k.
                  has-add_or_nothing_mono transaction_key r.transaction_id row db.transactions k)
                v.foreign_key;
        },
        new,
        has-add_or_nothing transaction_key L row db.transactions,
      )

  -- With lawful crates, if the constraints of the schema hold before a decision is stored with
  -- success, they hold afterwards, its transaction was in the tables, and the decision is there now
  -- and was not before.
  pub store_decision-IsIntact :
      IsLawful X
      → (statement : Result (Unit {0}) String) (constraint : String) (id : TransactionId)
        (decision : Decision) (db db' : Db)
      → store_decision statement constraint id decision db ≡ ok db'
      → IsIntact db
      → IsIntact db'
        × (has transaction_key id.uuid db.transactions ≡ true)
        × (has decision_key id.uuid db.decisions ≡ false)
        × (has decision_key id.uuid db'.decisions ≡ true)
  unfolding store_decision
  store_decision-IsIntact L (err e) constraint id decision db db' h v =
      absurd (ground (arith, Result-cases (X.decision_value decision)))
  store_decision-IsIntact L (ok _) constraint id decision db db' h v =
      elim (Result-cases (X.decision_value decision)) [
        | inr (m, bad) ↦ absurd (ground arith)
        | inl (value, good) ↦
            let row : DecisionRow = record { transaction_id = id.uuid; decision = value } in
            let run : insert_decision constraint row db ≡ ok db' =
              ground (arith, Result-cases (insert_decision constraint row db)) in
            let (new, known, e) = insert_decision-ok constraint row db db' run in
            rw e (
              record {
                transactions_unique = v.transactions_unique;
                decisions_unique =
                    add_or_nothing-UniqueKeys decision_key L row db.decisions v.decisions_unique;
                foreign_key =
                    All-add_or_nothing decision_key _ row db.decisions known v.foreign_key;
              },
              known,
              new,
              has-add_or_nothing decision_key L row db.decisions,
            )
      ]
