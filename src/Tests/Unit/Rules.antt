-- ===== src/Tests/Unit/Rules.antt =====
-- crates/domain/src/rule.rs, `mod tests`. The present is the time 1000, and a day is 1.
use fraud_guard.Base.{
  String, [], ◌∷◌, Bool, true, false, not, ◌&&◌, none, some, Result, ok, err, ◌>>=◌, ◌=s=◌, ◌≡◌,
  refl,
}
use fraud_guard.Base.Int.{ℤ, pos}
use fraud_guard.Base.Text.{trim, all_chars, is_ascii_digit}
use fraud_guard.Base.Text.Decimal.{show_ℤ}
use fraud_guard.Domain.Error.{DomainError, param_parse}
use fraud_guard.Domain.AccountId
use fraud_guard.Domain.Currency.{rub}
use fraud_guard.Domain.Transaction.{TransactionRequest}
use fraud_guard.Domain.Rule.{
  RuleType, threshold, blacklist, Rule, Verdict, passed, skipped, triggered, is_active_at, evaluate,
}
use fraud_guard.Tests.Sample.{crates, Json, limit, accounts, wrong_field}

abbrev pub test_transaction : ℤ → Result TransactionRequest DomainError
test_transaction amount = do
  source ← AccountId.new "1111222233334444"
  dest ← AccountId.new "5555666677778888"
  ok (record {
    id = record { uuid = "t1" };
    source_account = source;
    destination_account = dest;
    amount = amount;
    currency = rub;
    timestamp = 1000;
  })

abbrev active_rule : RuleType → Json → Rule
active_rule rule_type params = record {
  code = "TEST001";
  rule_type = rule_type;
  params = params;
  enabled = true;
  priority = pos 10;
  valid_from = 10;
  valid_until = none;
}

abbrev inactive_rule : RuleType → Json → Rule
inactive_rule rule_type params = record (active_rule rule_type params) { enabled = false }

abbrev is_passed : Verdict → Bool
is_passed passed = true
is_passed (skipped reason) = false
is_passed (triggered code reason) = false

abbrev is_triggered : String → Verdict → Bool
is_triggered expected passed = false
is_triggered expected (skipped reason) = false
is_triggered expected (triggered code reason) = code =s= "TEST001" && reason =s= expected

abbrev is_skipped : Verdict → Bool
is_skipped passed = false
is_skipped (skipped reason) = reason =s= "Rule is not active at this time"
is_skipped (triggered code reason) = false

-- `unwrap_err`, and the code of the rule in the error.
abbrev is_param_parse : Result Verdict DomainError → Bool
is_param_parse (ok verdict) = false
is_param_parse (err (param_parse rule_code message)) = rule_code =s= "TEST001"
is_param_parse (err _) = false

abbrev threshold_passed : Result Bool DomainError
threshold_passed = do
  tx_req ← test_transaction (pos 500)
  verdict ← evaluate (active_rule threshold (limit (pos 1000))) tx_req
  ok (is_passed verdict)

abbrev threshold_triggered : Result Bool DomainError
threshold_triggered = do
  tx_req ← test_transaction (pos 1500)
  verdict ← evaluate (active_rule threshold (limit (pos 1000))) tx_req
  ok (is_triggered "Amount 1500 exceeds limit 1000" verdict)

abbrev threshold_invalid_params : Result Bool DomainError
threshold_invalid_params = do
  tx_req ← test_transaction (pos 500)
  ok (is_param_parse (evaluate (active_rule threshold wrong_field) tx_req))

abbrev blacklist_triggered : Result Bool DomainError
blacklist_triggered = do
  tx_req ← test_transaction (pos 100)
  verdict ← evaluate (active_rule blacklist (accounts ("1111222233334444" ∷ []))) tx_req
  ok (is_triggered "Account 1111222233334444 is blacklisted" verdict)

abbrev blacklist_invalid_params : Result Bool DomainError
blacklist_invalid_params = do
  tx_req ← test_transaction (pos 100)
  ok (is_param_parse (evaluate (active_rule blacklist wrong_field) tx_req))

abbrev inactive_rule_skipped : Result Bool DomainError
inactive_rule_skipped = do
  tx_req ← test_transaction (pos 500)
  verdict ← evaluate (inactive_rule threshold (limit (pos 1000))) tx_req
  ok (is_skipped verdict)

abbrev rule_not_yet_valid_skipped : Result Bool DomainError
rule_not_yet_valid_skipped = do
  tx_req ← test_transaction (pos 500)
  verdict ←
      evaluate (record (active_rule threshold (limit (pos 1000))) { valid_from = 1001 }) tx_req
  ok (is_skipped verdict)

abbrev rule_expired_skipped : Result Bool DomainError
rule_expired_skipped = do
  tx_req ← test_transaction (pos 500)
  verdict ←
      evaluate (record (active_rule threshold (limit (pos 1000))) { valid_until = some 999 }) tx_req
  ok (is_skipped verdict)

-- The year 2026 is from 365 to 729.
abbrev rule_is_active_at : Bool
rule_is_active_at =
    let rule : Rule = record (active_rule threshold (limit (pos 100000))) {
      code = "THR001";
      valid_from = 365;
      valid_until = some 729;
    } in
    is_active_at rule 530 && (not (is_active_at rule 364) && not (is_active_at rule 730))

abbrev rule_is_active_at_when_disabled : Bool
rule_is_active_at_when_disabled =
    let rule : Rule = record (inactive_rule threshold (limit (pos 100000))) { code = "THR001" } in
    not (is_active_at rule 1000)

abbrev rule_is_active_with_no_expiry : Bool
rule_is_active_with_no_expiry =
    let rule : Rule = record (active_rule threshold (limit (pos 100000))) { code = "THR001" } in
    is_active_at rule 29000

thresholds_hold :
    (threshold_passed ≡ ok true)
    × (threshold_triggered ≡ ok true)
    × (threshold_invalid_params ≡ ok true)
unfolding AccountId.new trim all_chars is_ascii_digit evaluate show_ℤ
thresholds_hold = (refl, refl, refl)

blacklists_hold : (blacklist_triggered ≡ ok true) × (blacklist_invalid_params ≡ ok true)
unfolding AccountId.new trim all_chars is_ascii_digit evaluate
blacklists_hold = (refl, refl)

skips_hold :
    (inactive_rule_skipped ≡ ok true)
    × (rule_not_yet_valid_skipped ≡ ok true)
    × (rule_expired_skipped ≡ ok true)
unfolding AccountId.new trim all_chars is_ascii_digit evaluate
skips_hold = (refl, refl, refl)

windows_hold :
    (rule_is_active_at ≡ true)
    × (rule_is_active_at_when_disabled ≡ true)
    × (rule_is_active_with_no_expiry ≡ true)
unfolding is_active_at
windows_hold = (refl, refl, refl)
