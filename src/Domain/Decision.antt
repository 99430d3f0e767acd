-- ===== src/Domain/Decision.antt =====
-- crates/domain/src/decision.rs
use fraud_guard.Base.{String, List}

pub record TriggeredRule : Type 0 where
  pub code : String
  pub reason : String

pub data Decision : Type 0 where
  accept : Decision
  review : (triggered_rules : List TriggeredRule) → Decision
  decline : (reason : String) → Decision
