-- ===== src/App/Pipeline/Decided.antt =====
-- Whole histories: which decisions the tables have.
use mathlib.Core.List.{Memᴰ}
use mathlib.Core.List.Memᴰ.{head, tail}
use fraud_guard.Base.{
  ℕ, String, List, [], ◌∷◌, ok, ◌≡◌, ◌⊎◌, inl, inr, refl, subst, All, All-of, All-Memᴰ,
}
use fraud_guard.Domain.Crates.{Crates, IsLawful}
use fraud_guard.Domain.Rule.{Rule}
use fraud_guard.Domain.Transaction.{TransactionRequest}
use fraud_guard.Storage.Db.{Db, DecisionRow}
use fraud_guard.App.Engine.{EngineActor, decide}
use fraud_guard.App.Pipeline.{
  Action, deliver, consumer_turn, engine_turn, sink_turn, refresh, client_turn, run,
}
use fraud_guard.App.Pipeline.Start.{start}
use fraud_guard.App.Pipeline.Acked.{Arrived}
use fraud_guard.App.Pipeline.Explained.{RowOk, Explained, Brings, run-Explained}

module _ ⦃X : Crates⦄ where
  -- The rules the engine began with, or those of a refresh.
  abbrev pub InForce : EngineActor → List Action → List Rule → Type 0
  InForce engine actions rules = (rules ≡ engine.rules) ⊎ Memᴰ (refresh rules) actions

  action-Brings :
      (engine : EngineActor) (db : Db) (actions : List Action) (a : Action)
      → Memᴰ a actions
      → Brings (Arrived actions) (InForce engine actions) (λ row. Memᴰ row db.decisions) a
  action-Brings engine db actions (deliver now d links) m = λ tx e. (now, d, links, m, refl, e)
  action-Brings engine db actions consumer_turn m = tt
  action-Brings engine db actions (engine_turn sink_runs) m = tt
  action-Brings engine db actions (sink_turn faults consumer_runs) m = tt
  action-Brings engine db actions (refresh rules) m = inr m
  action-Brings engine db actions client_turn m = tt

  pub actions-Brings :
      (engine : EngineActor) (db : Db) (actions rest : List Action)
      → ((a : Action) → Memᴰ a rest → Memᴰ a actions)
      → All (Brings (Arrived actions) (InForce engine actions) (λ row. Memᴰ row db.decisions)) rest
  actions-Brings engine db actions [] f = tt
  actions-Brings engine db actions (a ∷ rest) f = (
    action-Brings engine db actions a (f a (head refl)),
    actions-Brings engine db actions rest (λ b m. f b (tail m)),
  )

  pub start-Explained :
      (url : String) (engine : EngineActor) (db : Db) (actions : List Action)
      → Explained
          (Arrived actions)
          (InForce engine actions)
          (λ row. Memᴰ row db.decisions)
          (start url engine db)
  unfolding start
  start-Explained url engine db actions = record {
    requests = tt;
    in_force = inl refl;
    results = tt;
    rows = All-of _ db.decisions (λ r i. inl i);
  }

  -- With lawful crates, in every history from the start, whatever the interleaving and whatever
  -- faults the database has, each row in the table of decisions was there before, or is the decision,
  -- by the rules the engine began with or those of a refresh in the history, for a transaction that
  -- was the payload of a delivery in the history, under the identifier of this transaction.
  pub decisions_explained :
      IsLawful X
      → (url : String) (engine : EngineActor) (db : Db) (actions : List Action) (row : DecisionRow)
      → Memᴰ row (run actions (start url engine db)).db.decisions
      → Memᴰ row db.decisions
        ⊎ ((tag : ℕ) × (tx : TransactionRequest) × (rules : List Rule) × Arrived actions tag tx
            × InForce engine actions rules
            × (row.transaction_id ≡ tx.id.uuid)
            × (X.decision_value (decide rules tx) ≡ ok row.decision))
  unfolding start
  decisions_explained L url engine db actions row m =
      let came = Arrived actions in
      let ruled = InForce engine actions in
      let old : DecisionRow → Type 0 = λ r. Memᴰ r db.decisions in
      let v =
        run-Explained came ruled old L actions (start url engine db)
          (actions-Brings engine db actions actions (λ a i. i))
          (start-Explained url engine db actions) in
      elim (All-Memᴰ (RowOk came ruled old) _ row m v.rows) [
        | inl there ↦ inl there
        | inr (tag, tx, decision, arrived, (rules, in_force, e), id, value) ↦ inr (
          tag,
          tx,
          rules,
          arrived,
          in_force,
          id,
          subst (λ d. X.decision_value d ≡ ok row.decision) e value,
        )
      ]
