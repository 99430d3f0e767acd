-- ===== src/Tests/Periods.antt =====
-- The repositories over pools that sort.
use mathlib.Core.List.{Memᴰ}
use fraud_guard.Base.{List, [], ◌∷◌, map, true, some, ok, ◌≡◌, ◌↔◌, ◌⊎◌, refl, All}
use fraud_guard.Base.Int.{pos}
use fraud_guard.Base.Text.{all_chars, is_ascii_digit, trim}
use fraud_guard.Base.Text.Decimal.{show_ℤ}
use fraud_guard.Domain.Decision.{TriggeredRule, review}
use fraud_guard.Domain.Transaction.{TransactionRequest, validate}
use fraud_guard.Domain.AccountId
use fraud_guard.Domain.Currency
use fraud_guard.Domain.Rule
use fraud_guard.Domain.Rule.{Rule, evaluate, is_active_at}
use fraud_guard.Domain.Repository.{HasAccounts, InPeriod, Ascending, times}
use fraud_guard.Domain.Repository.Client.{Inserts, Inserts-fetched}
use fraud_guard.Storage.Db.{Db, transaction_row, insert_transaction as insert_row}
use fraud_guard.Storage.Repo.{
  RuleRow, load_active_rules, get_transactions_for_account, insert_transaction,
}
use fraud_guard.Storage.Repo.Reads.{ReadAs}
use fraud_guard.Storage.Postgres.{transactions, rules}
use fraud_guard.Storage.Postgres.Period.{Holds, transactions-IsTransactionStore}
use fraud_guard.Storage.Postgres.ActiveRules.{Descending, priorities, load_active_rules-active}
use fraud_guard.App.Engine.{EngineActor, decide, update_rules}
use fraud_guard.App.RulesCache.{refresh_loop, receive_all}
use fraud_guard.App.RulesCache.Review.{FiresAt, refreshed, refreshed_review}
use fraud_guard.Tests.Sample.{crates, lawful, payment, limit, limit_rule}
use fraud_guard.Tests.Storage.{empty}
use fraud_guard.Tests.Pools.{
  transaction_pool, transaction_pool-Fetches, rule_pool, rule_pool-Fetches,
}

-- The later one is inserted first.
abbrev second : TransactionRequest
second = record payment { id = record { uuid = "t2" }; timestamp = 40 }

abbrev both : List TransactionRequest
both = payment ∷ second ∷ []

abbrev after : Db
after = record {
  transactions = transaction_row payment ∷ transaction_row second ∷ [];
  decisions = [];
}

inserted : Inserts (transactions transaction_pool) both empty after
unfolding insert_transaction insert_row transaction_row
inserted = (refl, (refl, refl))

both-HasAccounts : All HasAccounts both
unfolding all_chars is_ascii_digit
both-HasAccounts = (((refl, refl), (refl, refl)), (((refl, refl), (refl, refl)), tt))

abbrev found : List TransactionRequest
found = second ∷ payment ∷ []

requested :
    (transactions transaction_pool).get_transactions_for_account payment.source_account 40 51 after
    ≡ ok found
unfolding get_transactions_for_account transaction_row all_chars is_ascii_digit trim AccountId.new
    Currency.from_str Currency.to_string
requested = refl

Inserts-fetched_run :
    ((u : TransactionRequest)
      → Memᴰ u found ↔ ((Holds u empty ⊎ Memᴰ u both) × InPeriod payment.source_account 40 51 u))
    × Ascending (times found)
Inserts-fetched_run =
    Inserts-fetched (transactions transaction_pool)
      (transactions-IsTransactionStore transaction_pool transaction_pool-Fetches) both empty after
      tt both-HasAccounts inserted payment.source_account 40 51 found requested

abbrev low : RuleRow
low = record {
  code = "THR002";
  rule_type = "Threshold";
  params = limit (pos 50);
  enabled = true;
  priority = pos 1;
  valid_from = 10;
  valid_until = some 90;
}

abbrev high : RuleRow
high = record low { code = "THR001"; priority = pos 10 }

-- Active only later.
abbrev future : RuleRow
future = record low { code = "THR003"; valid_from = 80 }

abbrev table : List RuleRow
table = low ∷ future ∷ high ∷ []

abbrev low_rule : Rule
low_rule = record (limit_rule 50) { code = "THR002"; priority = pos 1 }

abbrev active : List Rule
active = limit_rule 50 ∷ low_rule ∷ []

loads : (rules rule_pool 50).load_active_rules table ≡ ok active
unfolding load_active_rules Rule.from_str
loads = refl

load_active_rules-active_example :
    ((rule : Rule)
      → Memᴰ rule active
        ↔ ((row : RuleRow) × Memᴰ row table × ReadAs row rule × (is_active_at rule 50 ≡ true)))
    × Descending (priorities active)
load_active_rules-active_example =
    load_active_rules-active lawful rule_pool rule_pool-Fetches 50 table active loads

abbrev entries : List TriggeredRule
entries =
    record { code = "THR001"; reason = "Amount 100 exceeds limit 50" }
    ∷ record { code = "THR002"; reason = "Amount 100 exceeds limit 50" }
    ∷ []

abbrev engine : EngineActor
engine = record { rules = [] }

reviewed : decide (refreshed engine [] active) payment ≡ review entries
unfolding decide evaluate validate show_ℤ receive_all refresh_loop update_rules
reviewed = refl

refreshed_review_example :
    (fired : List Rule) × ((rule : Rule) → Memᴰ rule fired ↔ FiresAt 50 table payment rule)
    × (map (λ entry. entry.code) entries ≡ map (λ rule. rule.code) fired)
    × Descending (priorities fired)
refreshed_review_example =
    refreshed_review lawful rule_pool rule_pool-Fetches 50 table active [] engine payment entries
      loads tt reviewed
