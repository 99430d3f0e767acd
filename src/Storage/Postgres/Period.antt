-- ===== src/Storage/Postgres/Period.antt =====
-- The repository of transactions keeps the promise of its trait.
use mathlib.Core.List.{Memᴰ}
use mathlib.Core.List.Memᴰ.{head, tail}
use fraud_guard.Base.{
  String, List, [], ◌∷◌, ◌++◌, Bool, true, Result, ok, err, map, All, All-append, All-of, All-Memᴰ,
  Memᴰ-append_one, is_ok, false, ◌≡◌, ◌↔◌, inl, inr, refl, sym, ap, subst, ◌∙◌, arith, Result-cases,
  Bool-cases, eq_iff,
}
use fraud_guard.Domain.Crates.{Crates}
use fraud_guard.Domain.AccountId.{AccountId}
use fraud_guard.Domain.Currency
use fraud_guard.Domain.Transaction.{TransactionRequest}
use fraud_guard.Domain.Repository.{
  HasAccounts, InPeriod, Ascending, times, IsTransactionStore, Adds,
}
use fraud_guard.Storage.Db.{
  Db, TransactionRow, transaction_row, transaction_key, insert_transaction as insert_row,
}
use fraud_guard.Storage.Table.{has}
use fraud_guard.Storage.Select.{IsSelect, IsSelect-Memᴰ}
use fraud_guard.Storage.Repo.{in_period, get_transactions_for_account, insert_transaction}
use fraud_guard.Storage.Repo.Reads.{get_transactions-rows}
use fraud_guard.Storage.Postgres.{Pool, transactions, written-ok, written-err}

currency_injective : (c d : Currency.Currency) → Currency.to_string c ≡ Currency.to_string d → c ≡ d
currency_injective c d e = cc (Currency.from_str-to_string c, Currency.from_str-to_string d, e)

module _ ⦃X : Crates⦄ where
  abbrev pub row_times : List TransactionRow → List X.DateTime
  row_times rows = map (λ row. row.timestamp) rows

  -- The pool fetches what the SELECT of the repository asks for.
  abbrev pub Fetches : Pool TransactionRow → Type 0
  Fetches pool =
      (p : TransactionRow → Bool) (table rows : List TransactionRow)
      → pool.fetch_all p table ≡ ok rows
      → IsSelect p (λ l. Ascending (row_times l)) table rows

  -- The row is that of a transaction with well-formed accounts.
  abbrev pub IsReadable : TransactionRow → Type 0
  IsReadable row = (tx : TransactionRequest) × HasAccounts tx × (row ≡ transaction_row tx)

  abbrev pub Holds : TransactionRequest → Db → Type 0
  Holds tx db = Memᴰ (transaction_row tx) db.transactions

  transaction_row_injective :
      (tx u : TransactionRequest) → transaction_row tx ≡ transaction_row u → tx ≡ u
  unfolding transaction_row
  transaction_row_injective tx u e =
      let id = ap (λ row. row.transaction_id) e in
      let source = ap (λ row. row.source_account) e in
      let destination = ap (λ row. row.destination_account) e in
      let amount = ap (λ row. row.amount) e in
      let currency = currency_injective _ _ (ap (λ row. row.currency) e) in
      let timestamp = ap (λ row. row.timestamp) e in
      cc (id, source, destination, amount, currency, timestamp)

  IsReadable-map :
      (rows : List TransactionRow)
      → All IsReadable rows
      → (txs : List TransactionRequest) × All HasAccounts txs × (rows ≡ map transaction_row txs)
  IsReadable-map [] h = ([], tt, refl)
  IsReadable-map (row ∷ rows) ((tx, v, e), h) =
      let (txs, vs, f) = IsReadable-map rows h in (tx ∷ txs, (v, vs), cc (e, f))

  row_times-map : (txs : List TransactionRequest) → row_times (map transaction_row txs) ≡ times txs
  unfolding transaction_row
  row_times-map [] = refl
  row_times-map (tx ∷ txs) = ap (λ l. tx.timestamp ∷ l) (row_times-map txs)

  Memᴰ-map :
      (txs : List TransactionRequest) (u : TransactionRequest)
      → Memᴰ (transaction_row u) (map transaction_row txs)
      → Memᴰ u txs
  Memᴰ-map [] u m = elim m [ ]
  Memᴰ-map (tx ∷ txs) u (head e) = head (transaction_row_injective u tx e)
  Memᴰ-map (tx ∷ txs) u (tail m) = tail (Memᴰ-map txs u m)

  map-Memᴰ :
      (txs : List TransactionRequest) (u : TransactionRequest)
      → Memᴰ u txs
      → Memᴰ (transaction_row u) (map transaction_row txs)
  map-Memᴰ [] u m = elim m [ ]
  map-Memᴰ (tx ∷ txs) u (head e) = head (ap transaction_row e)
  map-Memᴰ (tx ∷ txs) u (tail m) = tail (map-Memᴰ txs u m)

  -- The WHERE clause on the row of a transaction.
  in_period_iff :
      (account : AccountId) (from to : X.DateTime) (u : TransactionRequest)
      → (in_period account from to (transaction_row u) ≡ true) ↔ InPeriod account from to u
  unfolding transaction_row
  in_period_iff account from to u = (
    λ h.
        let same : u.source_account.text ≡ account.text =
          ground (arith, eq_iff u.source_account.text account.text) in
        (cc same, ground arith, ground arith),
    λ (e, f, t).
        let same : u.source_account.text ≡ account.text = ap (λ a. a.text) e in
        ground (arith, eq_iff u.source_account.text account.text),
  )

  module _ (pool : Pool TransactionRow) where
    pub read-rows :
        (account : AccountId) (from to : X.DateTime) (table rows : List TransactionRow)
        → All IsReadable table
        → IsSelect (in_period account from to) (λ l. Ascending (row_times l)) table rows
        → (txs : List TransactionRequest) × (get_transactions_for_account (ok rows) ≡ ok txs)
          × ((u : TransactionRequest)
              → Memᴰ u txs ↔ (Memᴰ (transaction_row u) table × InPeriod account from to u))
          × Ascending (times txs)
    read-rows account from to table rows valid v =
        let among = IsSelect-Memᴰ v in
        let good : All IsReadable rows =
          All-of _ rows (λ row m. All-Memᴰ _ table row ((among row).0 m).0 valid) in
        let (txs, h, e) = IsReadable-map rows good in
        (
          txs,
          ap (λ l. get_transactions_for_account (ok l)) e ∙ get_transactions-rows txs h,
          λ u. (
            λ m.
                let (i, p) = (among (transaction_row u)).0 (rw e (map-Memᴰ txs u m)) in
                (i, (in_period_iff account from to u).0 p),
            λ (i, p).
                Memᴰ-map txs u (
                  rw e at (among (transaction_row u)).1 (i, (in_period_iff account from to u).1 p)),
          ),
          subst Ascending (row_times-map txs) (subst (λ l. Ascending (row_times l)) e v.ordered),
        )

    -- The one new row, where an insertion succeeds.
    insert_transaction-ok :
        (statement : Result (Unit {0}) String) (constraint : String) (tx : TransactionRequest)
        (db db' : Db)
        → insert_transaction statement constraint tx db ≡ ok db'
        → db'.transactions ≡ db.transactions ++ (transaction_row tx ∷ [])
    unfolding insert_transaction insert_row
    insert_transaction-ok statement constraint tx db db' h = ground (
      arith,
      Bool-cases (has transaction_key (transaction_row tx).transaction_id db.transactions),
    )

    inserted-Adds :
        (statement : Result (Unit {0}) String) (constraint : String) (tx : TransactionRequest)
        (db db' : Db)
        → All IsReadable db.transactions
        → HasAccounts tx
        → insert_transaction statement constraint tx db ≡ ok db'
        → Adds (λ d. All IsReadable d.transactions) Holds tx db db'
    inserted-Adds statement constraint tx db db' valid good done =
        let entered = insert_transaction-ok statement constraint tx db db' done in
        (
          subst (All IsReadable) (sym entered)
              (All-append IsReadable db.transactions _ valid ((tx, good, refl), tt)),
          λ u.
              let (split, join) =
                Memᴰ-append_one db.transactions (transaction_row tx) (transaction_row u) in
              (
                λ m. elim (split (subst (Memᴰ (transaction_row u)) entered m)) [
                  | inl i ↦ inl i
                  | inr e ↦ inr (transaction_row_injective u tx e)
                ],
                λ c.
                    subst (Memᴰ (transaction_row u)) (sym entered)
                      (join (elim c [ inl i ↦ inl i | inr e ↦ inr (ap transaction_row e) ])),
              ),
        )

    get_transactions-err : (m : String) → is_ok (get_transactions_for_account (err m)) ≡ false
    unfolding get_transactions_for_account
    get_transactions-err m = refl

    fetched-Holds :
        Fetches pool
        → (account : AccountId) (from to : X.DateTime) (db : Db) (txs : List TransactionRequest)
        → All IsReadable db.transactions
        → (transactions pool).get_transactions_for_account account from to db ≡ ok txs
        → ((u : TransactionRequest) → Memᴰ u txs ↔ (Holds u db × InPeriod account from to u))
          × Ascending (times txs)
    fetched-Holds f account from to db txs valid done =
        elim (Result-cases (pool.fetch_all (in_period account from to) db.transactions)) [
          | inr (m, e) ↦ absurd (ground (arith, done, e, get_transactions-err m))
          | inl (rows, e) ↦
              let (found, h, among, order) =
                read-rows account from to db.transactions rows valid
                  (f (in_period account from to) db.transactions rows e) in
              let both : ok found ≡ ok txs =
                sym h ∙ ap get_transactions_for_account (sym e) ∙ done in
              let same : found ≡ txs = ground (arith, both) in
              (
                subst
                    (λ l.
                      (u : TransactionRequest)
                      → Memᴰ u l ↔ (Holds u db × InPeriod account from to u))
                    same among,
                subst (λ l. Ascending (times l)) same order,
              )
        ]

    pub transactions-IsTransactionStore :
        Fetches pool
        → IsTransactionStore (transactions pool) (λ db. All IsReadable db.transactions) Holds
    transactions-IsTransactionStore f = record {
      inserted = λ tx db db' valid good done.
          inserted-Adds pool.execute pool.constraint tx db db' valid good (
            written-ok "insert transaction into DB" db db' pool.answer
              (insert_transaction pool.execute pool.constraint tx db) done);
      refused = λ tx e db db' valid good failed.
          elim (written-err "insert transaction into DB" db db' pool.answer
            (insert_transaction pool.execute pool.constraint tx db) e failed) [
              | inl same ↦ inl same
              | inr done ↦
                  inr (inserted-Adds pool.execute pool.constraint tx db db' valid good done)
            ];
      fetched =
          λ account from to db txs valid done. fetched-Holds f account from to db txs valid done;
    }
