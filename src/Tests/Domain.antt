-- ===== src/Tests/Domain.antt =====
-- Accounts, transactions and rules.
use fraud_guard.Base.{String, some, true, ok, err, ◌≡◌, refl, ◌↔◌}
use fraud_guard.Base.Text.{trim, all_chars, is_ascii_digit}
use fraud_guard.Base.Text.Decimal.{show_ℤ}
use fraud_guard.Domain.Error.{validation, param_parse}
use fraud_guard.Domain.AccountId
use fraud_guard.Domain.AccountId.Laws.{IsAccountText, new-eq-ok_iff}
use fraud_guard.Domain.Rule.{blacklist, passed, skipped, triggered, is_active_at, evaluate}
use fraud_guard.Domain.Rule.Active.{InWindow}
use fraud_guard.Domain.Rule.Evaluate.{Triggers, Violates, Triggers-iff, BadParamsAs, evaluate-err}
use fraud_guard.Tests.Sample.{
  crates, lawful, payment, first_account, limit_rule, list_rule, broken_rule,
}

-- The tests of crates/domain/src/transaction.rs.
account_valid : AccountId.new "1234567890123456" ≡ ok (record { text = "1234567890123456" })
unfolding AccountId.new trim all_chars is_ascii_digit
account_valid = refl

account_length :
    AccountId.new "123" ≡ err (validation "Account ID must be exactly 16 characters long")
unfolding AccountId.new trim all_chars is_ascii_digit
account_length = refl

account_characters :
    AccountId.new "1234567890abcdef" ≡ err (validation "Account ID must contain only digits")
unfolding AccountId.new trim all_chars is_ascii_digit
account_characters = refl

account_trimmed : AccountId.new " 1111222233334444 " ≡ ok payment.source_account
unfolding AccountId.new trim all_chars is_ascii_digit
account_trimmed = refl

-- The tests of crates/domain/src/rule.rs.
threshold_triggered :
    evaluate (limit_rule 50) payment ≡ ok (triggered "THR001" "Amount 100 exceeds limit 50")
unfolding evaluate show_ℤ
threshold_triggered = refl

threshold_passed : evaluate (limit_rule 100) payment ≡ ok passed
unfolding evaluate
threshold_passed = refl

blacklist_triggered :
    evaluate list_rule payment ≡ ok (triggered "BLK001" "Account 1111222233334444 is blacklisted")
unfolding evaluate
blacklist_triggered = refl

invalid_params :
    evaluate broken_rule payment ≡ err (param_parse "BLK001" "missing field `blacklisted_accounts`")
unfolding evaluate
invalid_params = refl

expired_skipped :
    evaluate (record (limit_rule 50) { valid_until = some 50 }) payment
    ≡ ok (skipped "Rule is not active at this time")
unfolding evaluate
expired_skipped = refl

digits : IsAccountText first_account
unfolding all_chars is_ascii_digit
digits = (refl, refl)

new-eq-ok_iff_run :
    (AccountId.new " 1111222233334444 " ≡ ok payment.source_account)
    ↔ ((first_account ≡ trim " 1111222233334444 ") × IsAccountText (trim " 1111222233334444 "))
new-eq-ok_iff_run = new-eq-ok_iff " 1111222233334444 " payment.source_account

Triggers-iff_example :
    Triggers (limit_rule 50) payment
    ↔ (InWindow (limit_rule 50) payment.timestamp × Violates (limit_rule 50) payment)
Triggers-iff_example = Triggers-iff lawful (limit_rule 50) payment

evaluate-err_example :
    (is_active_at broken_rule payment.timestamp ≡ true)
    × ((m : String) × (param_parse "BLK001" "missing field `blacklisted_accounts`"
          ≡ param_parse "BLK001" m)
        × BadParamsAs blacklist broken_rule m)
evaluate-err_example = evaluate-err broken_rule payment _ invalid_params
