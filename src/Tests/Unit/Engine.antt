-- ===== src/Tests/Unit/Engine.antt =====
-- crates/app/src/actors/engine.rs, `mod tests`. The present is the time 1000, and a day is 1.
use fraud_guard.Base.{
  List, [], ◌∷◌, Bool, true, false, not, ◌&&◌, some, Result, ok, ◌>>=◌, ◌=s=◌, ◌≡◌, refl,
}
use fraud_guard.Base.Int.{ℤ, pos, ltb_ℤ}
use fraud_guard.Base.Text.{trim, all_chars, is_ascii_digit}
use fraud_guard.Base.Text.Decimal.{show_ℤ}
use fraud_guard.Domain.Error.{DomainError, to_string}
use fraud_guard.Domain.Decision.{Decision, accept, review, decline, TriggeredRule}
use fraud_guard.Domain.AccountId
use fraud_guard.Domain.Transaction.{TransactionRequest, validate}
use fraud_guard.Domain.Rule.{RuleType, threshold, Rule, evaluate}
use fraud_guard.App.Messages.{PersistResults}
use fraud_guard.App.Engine
use fraud_guard.App.Engine.{EngineActor, decide, evaluate_transaction, update_rules}
use fraud_guard.App.Pipeline
use fraud_guard.App.Pipeline.{EngineMessage, update}
use fraud_guard.Tests.Sample.{crates, Json, limit}
use fraud_guard.Tests.Unit.Rules.{test_transaction}

-- The mock of the sink keeps what the engine tells it.
abbrev pub captured : EngineActor → List EngineMessage → List PersistResults
captured engine [] = []
captured engine (Pipeline.evaluate msg ∷ rest) =
    let (engine', result) = evaluate_transaction engine msg in result ∷ captured engine' rest
captured engine (update msg ∷ rest) = captured (update_rules engine msg) rest

abbrev invalid_test_transaction : ℤ → Result TransactionRequest DomainError
invalid_test_transaction amount = do
  tx ← test_transaction amount
  ok (record tx { destination_account = tx.source_account })

abbrev pub create_rule : RuleType → Json → Rule
create_rule rule_type params = record {
  code = "TEST001";
  rule_type = rule_type;
  params = params;
  enabled = true;
  priority = pos 10;
  valid_from = 999;
  valid_until = some 1001;
}

abbrev engine_of : ℤ → EngineActor
engine_of max_amount = Engine.new (some (create_rule threshold (limit max_amount) ∷ []))

abbrev is_accept : Decision → Bool
is_accept accept = true
is_accept (review found) = false
is_accept (decline reason) = false

abbrev is_code : List TriggeredRule → Bool
is_code [] = false
is_code (rule ∷ []) = rule.code =s= "TEST001"
is_code (rule ∷ (_ ∷ _)) = false

abbrev is_review : Decision → Bool
is_review accept = false
is_review (review found) = is_code found
is_review (decline reason) = false

abbrev is_decline : Decision → Bool
is_decline accept = false
is_decline (review found) = false
is_decline (decline reason) =
    reason =s= "Validation error: Source and destination accounts must differ"

abbrev only : (PersistResults → Bool) → List PersistResults → Bool
only f [] = false
only f (msg ∷ []) = f msg
only f (msg ∷ (_ ∷ _)) = false

abbrev first_and_second :
    (PersistResults → Bool) → (PersistResults → Bool) → List PersistResults → Bool
first_and_second f g [] = false
first_and_second f g (msg ∷ rest) = f msg && only g rest

abbrev is_100 : ℤ → Bool
is_100 n = not (ltb_ℤ n (pos 100)) && not (ltb_ℤ (pos 100) n)

abbrev engine_accepts_clean_transaction : Result Bool DomainError
engine_accepts_clean_transaction = do
  tx ← test_transaction (pos 100)
  let msgs =
      captured (engine_of (pos 10000))
        (Pipeline.evaluate (record { tx = tx; correlation_id = 123 }) ∷ [])
  ok (only (λ msg. is_accept msg.decision) msgs)

abbrev engine_triggers_rule : Result Bool DomainError
engine_triggers_rule = do
  tx ← test_transaction (pos 100)
  let msgs =
      captured (engine_of (pos 50))
        (Pipeline.evaluate (record { tx = tx; correlation_id = 123 }) ∷ [])
  ok (only (λ msg. is_100 msg.tx.amount && is_review msg.decision) msgs)

abbrev engine_handles_invalid_transaction : Result Bool DomainError
engine_handles_invalid_transaction = do
  tx ← invalid_test_transaction (pos 100)
  let msgs =
      captured (engine_of (pos 50))
        (Pipeline.evaluate (record { tx = tx; correlation_id = 123 }) ∷ [])
  ok (only (λ msg. is_decline msg.decision) msgs)

abbrev engine_updates_rules_cache : Result Bool DomainError
engine_updates_rules_cache = do
  tx ← test_transaction (pos 100)
  let msgs = captured (engine_of (pos 1000)) (
      Pipeline.evaluate (record { tx = tx; correlation_id = 123 })
      ∷ update (record { rules = create_rule threshold (limit (pos 10)) ∷ [] })
      ∷ Pipeline.evaluate (record { tx = tx; correlation_id = 456 })
      ∷ [])
  ok (first_and_second (λ msg. is_accept msg.decision) (λ msg. is_review msg.decision) msgs)

engine_tests_hold :
    (engine_accepts_clean_transaction ≡ ok true)
    × (engine_triggers_rule ≡ ok true)
    × (engine_handles_invalid_transaction ≡ ok true)
    × (engine_updates_rules_cache ≡ ok true)
unfolding AccountId.new trim all_chars is_ascii_digit Engine.new evaluate_transaction update_rules
    decide validate evaluate show_ℤ to_string
engine_tests_hold = (refl, refl, refl, refl)
