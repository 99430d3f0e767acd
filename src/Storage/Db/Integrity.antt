-- ===== src/Storage/Db/Integrity.antt =====
-- The constraints of the schema, and the effect that a persisted decision has on the tables.
use fraud_guard.Base.{String, true, ok, All, All-imp, ◌≡◌, refl, arith}
use fraud_guard.Domain.Crates.{Crates, IsLawful}
use fraud_guard.Storage.Table.{has, add_or_nothing, UniqueKeys}
use fraud_guard.Storage.Table.Laws.{
  has-add_or_nothing, add_or_nothing-UniqueKeys, add_or_nothing_again, add_or_nothing_old,
  add_or_nothing_new, has-add_or_nothing_mono, All-add_or_nothing,
}
use fraud_guard.Storage.Db.{
  Db, TransactionRow, DecisionRow, transaction_key, decision_key, insert_transaction_or_nothing,
  insert_decision_or_nothing,
}

module _ ⦃X : Crates⦄ where
  -- `UNIQUE` on both columns, and the foreign key of `decisions`.
  pub record IsIntact (db : Db) : Type 0 where
    pub transactions_unique : UniqueKeys transaction_key db.transactions
    pub decisions_unique : UniqueKeys decision_key db.decisions
    pub foreign_key :
        All (λ row. has transaction_key row.transaction_id db.transactions ≡ true) db.decisions

  abbrev pub decision_entry : TransactionRow → X.Value → DecisionRow
  decision_entry row value = record { transaction_id = row.transaction_id; decision = value }

  -- Both rows, each kept as it is if its identifier is known.
  unfoldable pub persist : TransactionRow → X.Value → Db → Db
  persist row value db = record {
    transactions = add_or_nothing transaction_key row db.transactions;
    decisions = add_or_nothing decision_key (decision_entry row value) db.decisions;
  }

  -- The second insertion cannot violate the foreign key after the first.
  pub insert_both :
      IsLawful X
      → (message : String) (row : TransactionRow) (value : X.Value) (db : Db)
      → insert_decision_or_nothing message
          (decision_entry row value)
          (insert_transaction_or_nothing row db)
        ≡ ok (persist row value db)
  unfolding insert_decision_or_nothing insert_transaction_or_nothing persist
  insert_both L message row value db =
      let entry = decision_entry row value in
      ground (
        arith,
        has-add_or_nothing transaction_key L row db.transactions,
        add_or_nothing_old decision_key entry db.decisions,
        add_or_nothing_new decision_key entry db.decisions,
      )

  pub persist-IsIntact :
      IsLawful X
      → (row : TransactionRow) (value : X.Value) (db : Db) → IsIntact db
      → IsIntact (persist row value db)
  unfolding persist
  persist-IsIntact L row value db v = record {
    transactions_unique =
        add_or_nothing-UniqueKeys transaction_key L row db.transactions v.transactions_unique;
    decisions_unique = add_or_nothing-UniqueKeys decision_key L _ db.decisions v.decisions_unique;
    foreign_key =
        All-add_or_nothing decision_key _ _ db.decisions
          (has-add_or_nothing transaction_key L row db.transactions)
          (All-imp db.decisions
            (λ r h. has-add_or_nothing_mono transaction_key r.transaction_id row db.transactions h)
            v.foreign_key);
  }

  -- Persisting twice is persisting once, and the first decision stays.
  pub persist_again :
      IsLawful X
      → (row : TransactionRow) (value later : X.Value) (db : Db)
      → persist row later (persist row value db) ≡ persist row value db
  unfolding persist
  persist_again L row value later db =
      rw
        (
          add_or_nothing_again transaction_key L row row db.transactions refl,
          add_or_nothing_again decision_key L (decision_entry row value) (decision_entry row later)
              db.decisions refl,
        )
        refl
