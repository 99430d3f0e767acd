-- ===== src/Tests/Engine.antt =====
-- The engine.
use fraud_guard.Base.{
  true, some, none, map, arith, List, [], ◌∷◌, ok, All, ◌≡◌, refl, ◌≢◌, ◌↔◌, ◌⊎◌, String,
}
use fraud_guard.Base.Int.{pos, ◌<ℤ◌, ◌≤ℤ◌}
use fraud_guard.Base.Text.Decimal.{show_ℤ}
use fraud_guard.Domain.Decision.{accept, review, decline, TriggeredRule}
use fraud_guard.Domain.Error.{to_string}
use fraud_guard.Domain.Transaction.{TransactionRequest, validate}
use fraud_guard.Domain.Rule.{Rule, evaluate, from_str}
use fraud_guard.Domain.Rule.Active.{InWindow}
use fraud_guard.Domain.Rule.Evaluate.{Violates}
use fraud_guard.App.Engine.{decide}
use fraud_guard.App.Engine.Decide.{Fired, decide-review_iff, decide-accept_iff, decide-decline_iff}
use fraud_guard.App.Engine.Priority.{review-Descending}
use fraud_guard.Storage.Postgres.ActiveRules.{Descending, priorities, row_priorities}
use fraud_guard.Storage.Repo.{RuleRow, load_active_rules}
use mathlib.Core.List.{Memᴰ}
use fraud_guard.Domain.Rule.Evaluate.{Triggers}
use fraud_guard.Tests.Sample.{
  crates, lawful, limit, accounts, first_account, second_account, payment, limit_rule, list_rule,
  broken_rule,
}

abbrev rules : List Rule
rules = limit_rule 50 ∷ broken_rule ∷ list_rule ∷ []

abbrev found : List TriggeredRule
found =
    record { code = "THR001"; reason = "Amount 100 exceeds limit 50" }
    ∷ record { code = "BLK001"; reason = "Account 1111222233334444 is blacklisted" }
    ∷ []

-- A rule with broken parameters is passed over.
engine_reviews : decide rules payment ≡ review found
unfolding decide evaluate validate show_ℤ
engine_reviews = refl

engine_accepts : decide (limit_rule 100 ∷ []) payment ≡ accept
unfolding decide evaluate validate
engine_accepts = refl

abbrev to_itself : TransactionRequest
to_itself = record payment { destination_account = payment.source_account }

engine_declines :
    decide rules to_itself ≡ decline "Validation error: Source and destination accounts must differ"
unfolding decide validate to_string
engine_declines = refl

abbrev reason : String
reason = "Validation error: Source and destination accounts must differ"

decide-review_iff_example :
    (decide rules payment ≡ review found)
    ↔ ((validate payment ≡ ok tt) × Fired payment rules found × (found ≢ []))
decide-review_iff_example = decide-review_iff rules payment found

decide-accept_iff_example : (decide rules payment ≡ accept) ↔ (
    (pos 0 <ℤ payment.amount)
    × (payment.source_account ≢ payment.destination_account)
    × All (λ rule. ¬ (InWindow rule payment.timestamp × Violates rule payment)) rules)
decide-accept_iff_example = decide-accept_iff lawful rules payment

decide-decline_iff_run : (decide rules to_itself ≡ decline reason) ↔ (
    ((pos 100 ≤ℤ pos 0) × (◌≡◌ {A = String} reason "Validation error: Amount must be positive"))
    ⊎ ((pos 0 <ℤ pos 100)
        × (payment.source_account ≡ payment.source_account)
        × (◌≡◌ {A = String} reason
            "Validation error: Source and destination accounts must differ")))
decide-decline_iff_run = decide-decline_iff rules to_itself reason

-- The rows of a SELECT, by descending priority.
abbrev rows : List RuleRow
rows =
    record {
      code = "THR001";
      rule_type = "Threshold";
      params = limit (pos 50);
      enabled = true;
      priority = pos 10;
      valid_from = 10;
      valid_until = some 90;
    }
    ∷ record {
      code = "BLK001";
      rule_type = "Blacklist";
      params = accounts (second_account ∷ first_account ∷ []);
      enabled = true;
      priority = pos 5;
      valid_from = 10;
      valid_until = none;
    }
    ∷ []

abbrev loaded : List Rule
loaded = limit_rule 50 ∷ list_rule ∷ []

loads : load_active_rules (ok rows) ≡ ok loaded
unfolding load_active_rules from_str
loads = refl

both_fire : decide loaded payment ≡ review found
unfolding decide evaluate validate show_ℤ
both_fire = refl

rows-Descending : Descending (row_priorities rows)
rows-Descending = ((omega arith, tt), (tt, tt))

review-Descending_run :
    (fired : List Rule) × ((rule : Rule)
      → Memᴰ rule fired ↔ (Memᴰ rule loaded × Triggers rule payment))
    × (map (λ entry. entry.code) found ≡ map (λ rule. rule.code) fired)
    × Descending (priorities fired)
review-Descending_run = review-Descending rows loaded payment found rows-Descending loads both_fire
