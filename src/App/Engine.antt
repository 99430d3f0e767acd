-- ===== src/App/Engine.antt =====
-- crates/app/src/actors/engine.rs. A handler returns the new state and the message that it tells
-- the sink. The result of `tell` is only logged. Log lines are not modelled.
pub mod Decide
pub mod Priority
use fraud_guard.Base.{
  List, [], ◌∷◌, ◌++◌, Option, none, some, Bool, Result, ok, err, is_empty, if◌then◌else◌,
}
use fraud_guard.Domain.Error.{DomainError, to_string}
use fraud_guard.Domain.Decision.{Decision, accept, review, decline, TriggeredRule}
use fraud_guard.Domain.Crates.{Crates}
use fraud_guard.Domain.Transaction.{TransactionRequest, validate}
use fraud_guard.Domain.Rule.{Rule, Verdict, passed, skipped, triggered, evaluate}
use fraud_guard.App.Messages.{UpdateRules, EvaluateTransactionRequest, PersistResults}

-- The `match` on the verdict, on the vector that the loop fills.
abbrev pub record_verdict : List TriggeredRule → Result Verdict DomainError → List TriggeredRule
record_verdict found (ok (triggered code reason)) =
    found ++ (record { code = code; reason = reason } ∷ [])
record_verdict found (ok (skipped reason)) = found
record_verdict found (ok passed) = found
record_verdict found (err e) = found

abbrev pub decision_of : List TriggeredRule → Decision
decision_of found = if is_empty found then accept else review found

module _ ⦃X : Crates⦄ where
  pub record EngineActor : Type 0 where
    pub rules : List Rule

  unfoldable pub new : Option (List Rule) → EngineActor
  new (some rules) = record { rules = rules }
  new none = record { rules = [] }

  unfoldable pub update_rules : EngineActor → UpdateRules → EngineActor
  update_rules engine msg = record engine { rules = msg.rules }

  -- `for rule in self.rules.iter()`
  pub run_rules : List Rule → TransactionRequest → List TriggeredRule → List TriggeredRule
  run_rules [] tx found = found
  run_rules (rule ∷ rules) tx found = run_rules rules tx (record_verdict found (evaluate rule tx))

  -- The decision of the handler: an early return on a transaction that is not valid.
  unfoldable pub decide : List Rule → TransactionRequest → Decision
  unfolding run_rules
  decide rules tx = elim (validate tx) [
    | err e ↦ decline (to_string e)
    | ok _ ↦ decision_of (run_rules rules tx [])
  ]

  unfoldable pub evaluate_transaction :
      EngineActor → EvaluateTransactionRequest → EngineActor × PersistResults
  unfolding decide
  evaluate_transaction engine msg = (
    engine,
    record {
      tx = msg.tx;
      decision = decide engine.rules msg.tx;
      correlation_id = msg.correlation_id;
    },
  )
