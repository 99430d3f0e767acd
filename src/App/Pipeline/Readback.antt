-- ===== src/App/Pipeline/Readback.antt =====
-- What the repository reads back of the transactions that a history has stored.
use mathlib.Core.List.{Memᴰ}
use fraud_guard.Base.{
  ℕ, String, List, [], ◌∷◌, ok, ◌≡◌, refl, ◌⊎◌, inl, inr, subst, sym, All, All-Memᴰ, All-imp, ap,
  ◌∙◌, ◌↔◌,
}
use fraud_guard.Domain.Crates.{Crates, IsLawful}
use fraud_guard.Domain.Rule.{Rule}
use fraud_guard.Domain.Transaction.{TransactionRequest}
use fraud_guard.Domain.Repository.{HasAccounts, InPeriod, Ascending, times}
use fraud_guard.Domain.AccountId.{AccountId}
use fraud_guard.Storage.Postgres.{Pool, transactions}
use fraud_guard.Storage.Postgres.Period.{Fetches, IsReadable, Holds, read-rows}
use fraud_guard.Storage.Table.Laws.{All-add_or_nothing}
use fraud_guard.Storage.Db.{Db, DecisionRow, TransactionRow, transaction_row, transaction_key}
use fraud_guard.Storage.Db.Integrity.{persist as persist_rows}
use fraud_guard.Storage.Sink.Attempt.{AllOrNothing}
use fraud_guard.Storage.Repo.{in_period, get_transactions_for_account}
use fraud_guard.Api.Delivery.{Delivery, parse_delivery}
use fraud_guard.Api.Delivery.Parse.{parse_delivery-eq-ok_iff}
use fraud_guard.App.Messages.{PersistResults}
use fraud_guard.App.Engine.{EngineActor}
use fraud_guard.App.Pipeline.{Pipeline, Action, step, run}
use fraud_guard.App.Pipeline.Start.{start}
use fraud_guard.App.Pipeline.Acked.{Arrived}
use fraud_guard.App.Pipeline.Explained.{ResultOk, Explained, Brings, step-Explained}
use fraud_guard.App.Pipeline.Decided.{InForce, actions-Brings, start-Explained}
use fraud_guard.App.Pipeline.Tables.{step-Changes}

pub parse_delivery-HasAccounts :
    ⦃X : Crates⦄
    → (now : X.DateTime) (d : Delivery) (tx : TransactionRequest) → parse_delivery now d ≡ ok tx
    → HasAccounts tx
parse_delivery-HasAccounts now d tx h =
    let (msg, e, v) = (parse_delivery-eq-ok_iff now d tx).0 h in
    (rw v.source v.source_valid, rw v.destination v.destination_valid)

module _ ⦃X : Crates⦄ (Came : ℕ → TransactionRequest → Type 0) (InForce : List Rule → Type 0)
    (Old : DecisionRow → Type 0) (OldRow : TransactionRow → Type 0) where
  -- The row was there, or is that of a transaction that came.
  abbrev Kept : TransactionRow → Type 0
  Kept row =
      OldRow row
      ⊎ ((tag : ℕ) × (tx : TransactionRequest) × Came tag tx × (row ≡ transaction_row tx))

  AllOrNothing-Kept :
      (msg : PersistResults) (db db' : Db)
      → ResultOk Came InForce Old msg
      → AllOrNothing msg.tx msg.decision db db'
      → All Kept db.transactions
      → All Kept db'.transactions
  unfolding persist_rows
  AllOrNothing-Kept msg db db' k (inl e) rows = rw e rows
  AllOrNothing-Kept msg db db' k (inr (value, s, e)) rows = rw e (
      All-add_or_nothing transaction_key Kept (transaction_row msg.tx) db.transactions
        (inr (msg.correlation_id, msg.tx, k.0, refl)) rows)

  step-Kept :
      IsLawful X
      → (a : Action) (p : Pipeline) → Explained Came InForce Old p
      → All Kept p.db.transactions
      → All Kept (step a p).db.transactions
  step-Kept L a p v rows = elim (step-Changes L a p) [
    | inl same ↦ subst (λ db. All Kept db.transactions) (sym same) rows
    | inr (msg, m, atomic) ↦
        AllOrNothing-Kept msg p.db (step a p).db (All-Memᴰ _ p.results msg m v.results) atomic rows
  ]

  run-Kept :
      IsLawful X
      → (actions : List Action) (p : Pipeline) → All (Brings Came InForce Old) actions
      → Explained Came InForce Old p
      → All Kept p.db.transactions
      → All Kept (run actions p).db.transactions
  unfolding run
  run-Kept L [] p b v rows = rows
  run-Kept L (a ∷ actions) p b v rows =
      run-Kept L actions (step a p) b.1 (step-Explained Came InForce Old L a p b.0 v)
        (step-Kept L a p v rows)

module _ ⦃X : Crates⦄ where
  history_rows :
      IsLawful X
      → (url : String) (engine : EngineActor) (db : Db) (actions : List Action)
        (OldRow : TransactionRow → Type 0)
      → All OldRow db.transactions
      → All
          (Kept (Arrived actions) (InForce engine actions) (λ r. Memᴰ r db.decisions) OldRow)
          (run actions (start url engine db)).db.transactions
  unfolding start
  history_rows L url engine db actions OldRow old =
      run-Kept (Arrived actions) (InForce engine actions) (λ r. Memᴰ r db.decisions) OldRow L
        actions (start url engine db) (actions-Brings engine db actions actions (λ a i. i))
        (start-Explained url engine db actions) (All-imp db.transactions (λ row h. inl h) old)

  Kept-IsReadable :
      (engine : EngineActor) (db : Db) (actions : List Action) (row : TransactionRow)
      → Kept (Arrived actions) (InForce engine actions) (λ r. Memᴰ r db.decisions) IsReadable row
      → IsReadable row
  Kept-IsReadable engine db actions row (inl h) = h
  Kept-IsReadable engine db actions row (inr (tag, tx, (now, d, links, i, same, parsed), e)) =
      (tx, parse_delivery-HasAccounts now d tx parsed, e)

  pub history_IsReadable :
      IsLawful X
      → (url : String) (engine : EngineActor) (db : Db) (actions : List Action)
      → All IsReadable db.transactions
      → All IsReadable (run actions (start url engine db)).db.transactions
  history_IsReadable L url engine db actions valid =
      All-imp (run actions (start url engine db)).db.transactions
        (Kept-IsReadable engine db actions) (history_rows L url engine db actions IsReadable valid)

  abbrev pub tables_after : String → EngineActor → Db → List Action → Db
  tables_after url engine db actions = (run actions (start url engine db)).db

  -- With lawful crates and a pool that fetches what a SELECT asks for, in every history from the start
  -- from tables whose rows are those of transactions with well-formed accounts: a request for the
  -- transactions of an account in a period fails only if the SELECT does, and otherwise gives exactly
  -- those of the table, by ascending time.
  pub history_fetched :
      IsLawful X
      → (pool : Pool TransactionRow) → Fetches pool
      → (url : String) (engine : EngineActor) (db : Db) (actions : List Action)
        (account : AccountId) (from to : X.DateTime) (rows : List TransactionRow)
      → All IsReadable db.transactions
      → pool.fetch_all (in_period account from to) (tables_after url engine db actions).transactions
        ≡ ok rows
      → (txs : List TransactionRequest) × ((transactions pool).get_transactions_for_account account
            from to
            (tables_after url engine db actions)
          ≡ ok txs)
        × ((u : TransactionRequest)
            → Memᴰ u txs
              ↔ (Holds u (tables_after url engine db actions) × InPeriod account from to u))
        × Ascending (times txs)
  history_fetched L pool f url engine db actions account from to rows valid done =
      let after = tables_after url engine db actions in
      let good = history_IsReadable L url engine db actions valid in
      let (txs, h, among, order) =
        read-rows pool account from to after.transactions rows good
          (f (in_period account from to) after.transactions rows done) in
      (txs, ap get_transactions_for_account done ∙ h, among, order)
