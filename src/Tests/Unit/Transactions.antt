-- ===== src/Tests/Unit/Transactions.antt =====
-- crates/domain/src/transaction.rs, `mod tests`. That two identifiers of `TransactionId::new` differ is
-- up to the uuid crate; the identifier and the time of a new transaction are arguments.
use fraud_guard.Base.{String, Bool, true, false, Result, ok, err, ◌>>=◌, ◌=s=◌, ◌≡◌, refl}
use fraud_guard.Base.Int.{ℤ, pos, negsuc}
use fraud_guard.Base.Text.{trim, all_chars, is_ascii_digit}
use fraud_guard.Domain.Error.{DomainError, validation}
use fraud_guard.Domain.AccountId
use fraud_guard.Domain.AccountId.{AccountId, as_str}
use fraud_guard.Domain.Currency.{rub}
use fraud_guard.Domain.Transaction
use fraud_guard.Domain.Transaction.{TransactionRequest, from_uuid, as_uuid, validate}
use fraud_guard.Tests.Sample.{crates}

-- `unwrap_err` and `matches!`
abbrev fails_with : {A : Type 0} → String → Result A DomainError → Bool
fails_with expected (ok a) = false
fails_with expected (err (validation msg)) = msg =s= expected
fails_with expected (err _) = false

abbrev transaction_id_creation : Bool
transaction_id_creation = as_uuid (from_uuid "t3") =s= "t3"

abbrev account_id_valid : Result Bool DomainError
account_id_valid = do
  account ← AccountId.new "1234567890123456"
  ok (as_str account =s= "1234567890123456")

abbrev account_id_invalid_length : Bool
account_id_invalid_length =
    fails_with "Account ID must be exactly 16 characters long" (AccountId.new "123")

abbrev account_id_invalid_characters : Bool
account_id_invalid_characters =
    fails_with "Account ID must contain only digits" (AccountId.new "1234567890abcdef")

abbrev account_id_from_str : Result Bool DomainError
account_id_from_str = do
  account ← AccountId.from_str "1111222233334444"
  ok (as_str account =s= "1111222233334444")

-- The result of `validate` on a transaction between two accounts.
abbrev validated : String → String → ℤ → Result (Result (Unit {0}) DomainError) DomainError
validated source_text dest_text amount = do
  source ← AccountId.new source_text
  dest ← AccountId.new dest_text
  ok (validate (Transaction.new (from_uuid "t1") 1000 source dest amount rub))

abbrev is_ok : Result (Unit {0}) DomainError → Bool
is_ok (ok _) = true
is_ok (err e) = false

abbrev transaction_request_validate_ok : Result Bool DomainError
transaction_request_validate_ok = do
  result ← validated "1111222233334444" "5555666677778888" (pos 10000)
  ok (is_ok result)

abbrev transaction_request_validate_zero_amount : Result Bool DomainError
transaction_request_validate_zero_amount = do
  result ← validated "1111222233334444" "5555666677778888" (pos 0)
  ok (fails_with "Amount must be positive" result)

abbrev transaction_request_validate_negative_amount : Result Bool DomainError
transaction_request_validate_negative_amount = do
  result ← validated "1111222233334444" "5555666677778888" (negsuc 99)
  ok (fails_with "Amount must be positive" result)

abbrev transaction_request_validate_same_account : Result Bool DomainError
transaction_request_validate_same_account = do
  result ← validated "1111222233334444" "1111222233334444" (pos 10000)
  ok (fails_with "Source and destination accounts must differ" result)

account_tests_hold :
    (transaction_id_creation ≡ true)
    × (account_id_valid ≡ ok true)
    × (account_id_invalid_length ≡ true)
    × (account_id_invalid_characters ≡ true)
    × (account_id_from_str ≡ ok true)
unfolding AccountId.new AccountId.from_str trim all_chars is_ascii_digit
account_tests_hold = (refl, refl, refl, refl, refl)

validation_tests_hold :
    (transaction_request_validate_ok ≡ ok true)
    × (transaction_request_validate_zero_amount ≡ ok true)
    × (transaction_request_validate_negative_amount ≡ ok true)
    × (transaction_request_validate_same_account ≡ ok true)
unfolding AccountId.new trim all_chars is_ascii_digit validate
validation_tests_hold = (refl, refl, refl, refl)
