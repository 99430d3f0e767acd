-- ===== src/App/Pipeline/Outcome.antt =====
-- What an ack says of the decision in the tables.
use mathlib.Core.List.{Memᴰ}
use fraud_guard.Base.{ℕ, String, List, ok, ◌≡◌, ◌⊎◌}
use fraud_guard.Domain.Crates.{Crates, IsLawful}
use fraud_guard.Domain.Rule.{Rule}
use fraud_guard.Domain.Transaction.{TransactionRequest}
use fraud_guard.Storage.Db.{Db, DecisionRow, decision_key}
use fraud_guard.Api.EventLoop.{basic_ack}
use fraud_guard.App.Engine.{EngineActor, decide}
use fraud_guard.App.Pipeline.{Action, run}
use fraud_guard.App.Pipeline.Start.{start}
use fraud_guard.App.Pipeline.Origin.{has-Memᴰ}
use fraud_guard.App.Pipeline.Acked.{Arrived, acked_stored}
use fraud_guard.App.Pipeline.Decided.{InForce, decisions_explained}

module _ ⦃X : Crates⦄ where
  -- The decision by the rules in force for a transaction that arrived under the identifier.
  abbrev pub IsDecision : EngineActor → List Action → DecisionRow → Type 0
  IsDecision engine actions row =
      (tag : ℕ) × (tx : TransactionRequest) × (rules : List Rule) × Arrived actions tag tx
      × InForce engine actions rules
      × (row.transaction_id ≡ tx.id.uuid)
      × (X.decision_value (decide rules tx) ≡ ok row.decision)

  -- With lawful crates, in every history from the start, whatever the interleaving and whatever
  -- faults the database has, an ack to the queue means that the delivery carried a transaction and
  -- that the table has a decision for its identifier, which was there before the history or is the
  -- decision of the engine, by rules that were in force, for a transaction that arrived under this
  -- identifier.
  pub acked_decided :
      IsLawful X
      → (url : String) (engine : EngineActor) (db : Db) (actions : List Action) (tag : ℕ)
      → Memᴰ (basic_ack tag) (run actions (start url engine db)).replies
      → (tx : TransactionRequest) × (row : DecisionRow) × Arrived actions tag tx
        × Memᴰ row (run actions (start url engine db)).db.decisions
        × (row.transaction_id ≡ tx.id.uuid)
        × (Memᴰ row db.decisions ⊎ IsDecision engine actions row)
  acked_decided L url engine db actions tag m =
      let (tx, arrived, (t, d)) = acked_stored L url engine db actions tag m in
      let (row, i, same) = has-Memᴰ L decision_key tx.id.uuid _ d in
      (tx, row, arrived, i, same, decisions_explained L url engine db actions row i)
