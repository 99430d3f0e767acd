-- ===== src/App/RulesCache.antt =====
-- crates/app/src/rules_cache.rs: the loop of the background task, a round for each tick. What a load
-- returns, and whether the engine takes the message, are arguments.
pub mod Refresh
pub mod Review
use fraud_guard.Base.{
  ℕ, String, List, [], ◌∷◌, ◌++◌, Bool, true, false, Result, ok, err, if◌then◌else◌,
}
use fraud_guard.Domain.Error.{DomainError}
use fraud_guard.Domain.Crates.{Crates}
use fraud_guard.Domain.Rule.{Rule}
use fraud_guard.App.Messages.{UpdateRules}
use fraud_guard.App.Engine.{EngineActor, update_rules}

module _ ⦃X : Crates⦄ where
  -- A tick after the first: the load, and whether the engine still runs.
  pub record Tick : Type 0 where
    pub loaded : Result (List Rule) DomainError
    pub told : Bool

  -- The messages that the engine gets; the loop ends when it is gone.
  unfoldable pub refresh_loop : List Tick → List UpdateRules
  refresh_loop [] = []
  refresh_loop (tick ∷ ticks) =
      let rest = refresh_loop ticks in
      elim tick.loaded [
        | err e ↦ rest
        | ok rules ↦ if tick.told then record { rules = rules } ∷ rest else []
      ]

  -- The engine after the messages.
  unfoldable pub receive_all : EngineActor → List UpdateRules → EngineActor
  unfolding update_rules
  receive_all engine [] = engine
  receive_all engine (msg ∷ msgs) = receive_all (update_rules engine msg) msgs
