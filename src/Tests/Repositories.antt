-- ===== src/Tests/Repositories.antt =====
-- The repositories and the refresh of the rules.
use fraud_guard.Base.{List, [], ◌∷◌, map, true, some, ok, err, ◌≡◌, refl}
use fraud_guard.Base.Text.{all_chars, is_ascii_digit}
use fraud_guard.Base.Int.{pos}
use fraud_guard.Domain.Error.{repository}
use fraud_guard.Domain.Rule
use fraud_guard.Domain.Repository.{HasAccounts}
use fraud_guard.Storage.Db.{transaction_row}
use fraud_guard.Storage.Repo.{RuleRow, load_active_rules, get_transactions_for_account}
use fraud_guard.Storage.Repo.Reads.{get_transactions-rows, RulesOf, load_active_rules-RulesOf}
use fraud_guard.App.Engine.{EngineActor}
use fraud_guard.App.RulesCache.{Tick, refresh_loop, receive_all}
use fraud_guard.App.RulesCache.Refresh.{latest, refresh_loop-latest}
use fraud_guard.Tests.Sample.{crates, lawful, payment, limit, limit_rule, list_rule}

payment-HasAccounts : HasAccounts payment
unfolding all_chars is_ascii_digit
payment-HasAccounts = ((refl, refl), (refl, refl))

get_transactions-rows_run :
    get_transactions_for_account (ok (map transaction_row (payment ∷ []))) ≡ ok (payment ∷ [])
get_transactions-rows_run = get_transactions-rows (payment ∷ []) (payment-HasAccounts, tt)

abbrev limit_row : RuleRow
limit_row = record {
  code = "THR001";
  rule_type = "Threshold";
  params = limit (pos 500);
  enabled = true;
  priority = pos 10;
  valid_from = 10;
  valid_until = some 90;
}

loaded : load_active_rules (ok (limit_row ∷ [])) ≡ ok (limit_rule 500 ∷ [])
unfolding load_active_rules Rule.from_str
loaded = refl

load_active_rules-RulesOf_run : RulesOf 50 (limit_row ∷ []) (limit_rule 500 ∷ [])
load_active_rules-RulesOf_run =
    load_active_rules-RulesOf lawful 50 (limit_row ∷ []) (limit_rule 500 ∷ []) loaded

abbrev ticks : List Tick
ticks =
    record { loaded = ok (limit_rule 500 ∷ []); told = true }
    ∷ record { loaded = err (repository "load active rules from DB" "timeout"); told = true }
    ∷ []

abbrev engine : EngineActor
engine = record { rules = list_rule ∷ [] }

refresh_loop-latest_run :
    (receive_all engine (refresh_loop ticks)).rules ≡ latest engine.rules ticks
refresh_loop-latest_run = refresh_loop-latest ticks engine (refl, (refl, tt))
