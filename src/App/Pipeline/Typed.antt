-- ===== src/App/Pipeline/Typed.antt =====
-- The accounts of the transactions that are under way or stored.
use mathlib.Core.List.{Memᴰ}
use fraud_guard.Base.{ℕ, String, List, All, All-imp}
use fraud_guard.Domain.Crates.{Crates, IsLawful}
use fraud_guard.Domain.Transaction.{TransactionRequest}
use fraud_guard.Domain.Repository.{HasAccounts}
use fraud_guard.Storage.Db.{Db}
use fraud_guard.Storage.Postgres.Period.{IsReadable}
use fraud_guard.App.Engine.{EngineActor}
use fraud_guard.App.Pipeline.{Action, EngineMessage, evaluate, update, Pipeline, run}
use fraud_guard.App.Pipeline.Start.{start}
use fraud_guard.App.Pipeline.Acked.{Arrived}
use fraud_guard.App.Pipeline.Explained.{RequestOk, run-Explained}
use fraud_guard.App.Pipeline.Decided.{InForce, actions-Brings, start-Explained}
use fraud_guard.App.Pipeline.Readback.{parse_delivery-HasAccounts, history_IsReadable}

module _ ⦃X : Crates⦄ where
  abbrev pub RequestTyped : EngineMessage → Type 0
  RequestTyped (evaluate msg) = HasAccounts msg.tx
  RequestTyped (update msg) = Unit

  -- Wherever a transaction is, both its accounts are sixteen digits.
  pub record Typed (p : Pipeline) : Type 0 where
    pub requests : All RequestTyped p.requests
    pub results : All (λ msg. HasAccounts msg.tx) p.results
    pub transactions : All IsReadable p.db.transactions

  Arrived-HasAccounts :
      (actions : List Action) (tag : ℕ) (tx : TransactionRequest)
      → Arrived actions tag tx
      → HasAccounts tx
  Arrived-HasAccounts actions tag tx (now, d, links, i, same, parsed) =
      parse_delivery-HasAccounts now d tx parsed

  request-Typed :
      (engine : EngineActor) (db : Db) (actions : List Action) (msg : EngineMessage)
      → RequestOk (Arrived actions) (InForce engine actions) (λ row. Memᴰ row db.decisions) msg
      → RequestTyped msg
  request-Typed engine db actions (evaluate msg) h =
      Arrived-HasAccounts actions msg.correlation_id msg.tx h
  request-Typed engine db actions (update msg) h = tt

  -- With lawful crates, in every history from the start from tables whose rows are those of
  -- transactions with accounts of sixteen digits, each transaction that waits for the engine or for
  -- the sink, or is in the table, has accounts of sixteen digits.
  pub run-Typed :
      IsLawful X
      → (url : String) (engine : EngineActor) (db : Db) (actions : List Action)
      → All IsReadable db.transactions
      → Typed (run actions (start url engine db))
  run-Typed L url engine db actions valid =
      let v =
        run-Explained (Arrived actions) (InForce engine actions) (λ row. Memᴰ row db.decisions) L
          actions (start url engine db) (actions-Brings engine db actions actions (λ a i. i))
          (start-Explained url engine db actions) in
      record {
        requests = All-imp _ (request-Typed engine db actions) v.requests;
        results =
            All-imp _ (λ msg h. Arrived-HasAccounts actions msg.correlation_id msg.tx h.0)
              v.results;
        transactions = history_IsReadable L url engine db actions valid;
      }
