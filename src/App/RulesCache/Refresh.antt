-- ===== src/App/RulesCache/Refresh.antt =====
-- Which rules the engine has after a run of the refresh task.
use fraud_guard.Base.{List, [], ◌∷◌, true, ok, err, All, ◌≡◌, refl, Result-cases, inl, inr}
use fraud_guard.Domain.Crates.{Crates}
use fraud_guard.Domain.Rule.{Rule}
use fraud_guard.App.Engine.{EngineActor, update_rules}
use fraud_guard.App.RulesCache.{Tick, refresh_loop, receive_all}

module _ ⦃X : Crates⦄ where
  -- The rules of the last load that succeeded, or else those before.
  abbrev pub latest : List Rule → List Tick → List Rule
  latest rules [] = rules
  latest rules (tick ∷ ticks) = elim tick.loaded [
    | ok fresh ↦ latest fresh ticks
    | err e ↦ latest rules ticks
  ]

  -- While the engine runs, it has the rules of the last load that succeeded, and its first ones if
  -- none did: a load that fails keeps the rules and does not end the task.
  pub refresh_loop-latest :
      (ticks : List Tick) (engine : EngineActor)
      → All (λ tick. tick.told ≡ true) ticks
      → (receive_all engine (refresh_loop ticks)).rules ≡ latest engine.rules ticks
  unfolding refresh_loop receive_all update_rules
  refresh_loop-latest [] engine k = refl
  refresh_loop-latest (tick ∷ ticks) engine k = elim (Result-cases tick.loaded) [
    | inl (fresh, e) ↦ rw (e, k.0) (refresh_loop-latest ticks (record { rules = fresh }) k.1)
    | inr (m, e) ↦ rw e (refresh_loop-latest ticks engine k.1)
  ]
