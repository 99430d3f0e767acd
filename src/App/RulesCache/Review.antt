-- ===== src/App/RulesCache/Review.antt =====
-- From the table of rules to the decision of the engine, over a refresh.
use mathlib.Core.List.{Memᴰ}
use fraud_guard.Base.{
  List, [], ◌∷◌, ◌++◌, true, ok, map, ◌≡◌, ◌↔◌, refl, subst, ◌∙◌, All, All-append, Result-cases,
  inl, inr,
}
use fraud_guard.Domain.Crates.{Crates, IsLawful}
use fraud_guard.Domain.Decision.{TriggeredRule, review}
use fraud_guard.Domain.Transaction.{TransactionRequest}
use fraud_guard.Domain.Rule.{Rule, is_active_at}
use fraud_guard.Domain.Rule.Evaluate.{Triggers}
use fraud_guard.Storage.Repo.{RuleRow}
use fraud_guard.Storage.Repo.Reads.{ReadAs}
use fraud_guard.Storage.Postgres.{Pool, rules}
use fraud_guard.Storage.Postgres.ActiveRules.{
  FetchesRules, Descending, priorities, load_active_rules-active,
}
use fraud_guard.App.Engine.{EngineActor, decide}
use fraud_guard.App.Engine.Priority.{decide-Descending}
use fraud_guard.App.RulesCache.{Tick, refresh_loop, receive_all}
use fraud_guard.App.RulesCache.Refresh.{latest, refresh_loop-latest}

module _ ⦃X : Crates⦄ where
  -- A rule of the table that is active at the time and fires.
  abbrev pub FiresAt : X.DateTime → List RuleRow → TransactionRequest → Rule → Type 0
  FiresAt now table tx rule =
      ((row : RuleRow) × Memᴰ row table × ReadAs row rule × (is_active_at rule now ≡ true))
      × Triggers rule tx

  -- The rules of the engine after the ticks and one that loads.
  abbrev pub refreshed : EngineActor → List Tick → List Rule → List Rule
  refreshed engine ticks loaded =
      (receive_all engine
        (refresh_loop (ticks ++ (record { loaded = ok loaded; told = true } ∷ [])))).rules

  latest-append :
      (first loaded : List Rule) (ticks : List Tick)
      → latest first (ticks ++ (record { loaded = ok loaded; told = true } ∷ [])) ≡ loaded
  latest-append first loaded [] = refl
  latest-append first loaded (tick ∷ ticks) = elim (Result-cases tick.loaded) [
    | inl (fresh, e) ↦ rw e (latest-append fresh loaded ticks)
    | inr (m, e) ↦ rw e (latest-append first loaded ticks)
  ]

  refreshed_rules :
      (engine : EngineActor) (ticks : List Tick) (loaded : List Rule)
      → All (λ tick. tick.told ≡ true) ticks
      → refreshed engine ticks loaded ≡ loaded
  refreshed_rules engine ticks loaded told =
      refresh_loop-latest (ticks ++ (record { loaded = ok loaded; told = true } ∷ [])) engine
        (All-append _ ticks _ told (refl, tt))
      ∙ latest-append engine.rules loaded ticks

  -- With lawful crates and a pool that fetches what a SELECT asks for, while the engine runs: if the
  -- last tick of the refresh is at a time and its load of the table succeeds, then a review that the
  -- engine decides has the entries of exactly the rules of the table that were active at this time
  -- and fire, by descending priority.
  pub refreshed_review :
      IsLawful X
      → (pool : Pool RuleRow) → FetchesRules pool
      → (now : X.DateTime) (table : List RuleRow) (loaded : List Rule) (ticks : List Tick)
        (engine : EngineActor) (tx : TransactionRequest) (found : List TriggeredRule)
      → (rules pool now).load_active_rules table ≡ ok loaded
      → All (λ tick. tick.told ≡ true) ticks
      → decide (refreshed engine ticks loaded) tx ≡ review found
      → (fired : List Rule) × ((rule : Rule) → Memᴰ rule fired ↔ FiresAt now table tx rule)
        × (map (λ entry. entry.code) found ≡ map (λ rule. rule.code) fired)
        × Descending (priorities fired)
  refreshed_review L pool f now table loaded ticks engine tx found done told decided =
      let (holds, order) = load_active_rules-active L pool f now table loaded done in
      let (fired, among, codes, ordered) = decide-Descending loaded tx found order (
        subst (λ r. decide r tx ≡ review found) (refreshed_rules engine ticks loaded told)
          decided) in
      (
        fired,
        λ rule. (
          λ m. let (i, t) = (among rule).0 m in ((holds rule).0 i, t),
          λ (h, t). (among rule).1 ((holds rule).1 h, t),
        ),
        codes,
        ordered,
      )
