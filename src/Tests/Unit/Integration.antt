-- ===== src/Tests/Unit/Integration.antt =====
-- crates/app/tests/integration.rs: an engine and a sink with mocks of the consumer and of the
-- repository, where every message is waited for. The present is the time 1000, and a day is 1.
use fraud_guard.Base.{
  ℕ, List, [], ◌∷◌, Bool, true, false, ◌&&◌, Option, none, some, Result, ok, ◌>>=◌, ◌==◌, ◌=s=◌,
  ◌≡◌, refl,
}
use fraud_guard.Base.Int.{pos}
use fraud_guard.Base.Text.{trim, all_chars, is_ascii_digit}
use fraud_guard.Base.Text.Decimal.{show_ℤ}
use fraud_guard.Domain.Error.{DomainError, to_string}
use fraud_guard.Domain.Decision.{Decision, accept, review, decline, TriggeredRule}
use fraud_guard.Domain.AccountId
use fraud_guard.Domain.Transaction.{TransactionRequest, validate}
use fraud_guard.Domain.Rule.{Rule, threshold, evaluate}
use fraud_guard.App.Messages.{AckMessage}
use fraud_guard.App.Engine
use fraud_guard.App.Engine.{decide, evaluate_transaction, update_rules}
use fraud_guard.App.Pipeline
use fraud_guard.App.Sink.Handler.{handle}
use fraud_guard.Tests.Sample.{crates, limit}
use fraud_guard.Tests.Unit.Rules.{test_transaction}
use fraud_guard.Tests.Unit.Engine.{captured, create_rule}
use fraud_guard.Tests.Unit.Sink.{Inserted, mock_consumer, is_ok}

-- What the consumer is told and what is stored, once the engine was told to evaluate a transaction.
abbrev pipeline : Option (List Rule) → ℕ → TransactionRequest → List AckMessage × Inserted
pipeline rules corr_id tx =
    mock_consumer
      (captured (Engine.new rules)
        (Pipeline.evaluate (record { tx = tx; correlation_id = corr_id }) ∷ []))
      []

abbrev inserted_one : (Decision → Bool) → Inserted → Bool
inserted_one f [] = false
inserted_one f ((tx, decision) ∷ []) = f decision
inserted_one f (_ ∷ (_ ∷ _)) = false

abbrev acked_one : ℕ → List AckMessage → Bool
acked_one corr_id [] = false
acked_one corr_id (msg ∷ []) = (msg.correlation_id == corr_id) && is_ok msg
acked_one corr_id (_ ∷ (_ ∷ _)) = false

abbrev is_accepted : Decision → Bool
is_accepted accept = true
is_accepted (review found) = false
is_accepted (decline reason) = false

abbrev triggered_one : List TriggeredRule → Bool
triggered_one [] = false
triggered_one (rule ∷ []) = rule.code =s= "TEST001"
triggered_one (_ ∷ (_ ∷ _)) = false

abbrev is_reviewed : Decision → Bool
is_reviewed accept = false
is_reviewed (review found) = triggered_one found
is_reviewed (decline reason) = false

-- The whole reason, which has the text that the test looks for.
abbrev is_declined : Decision → Bool
is_declined accept = false
is_declined (review found) = false
is_declined (decline reason) =
    reason =s= "Validation error: Source and destination accounts must differ"

abbrev pipeline_accepts_clean_transaction : Result Bool DomainError
pipeline_accepts_clean_transaction = do
  tx ← test_transaction (pos 100)
  let (acks, inserted) = pipeline (some (create_rule threshold (limit (pos 10000)) ∷ [])) 42 tx
  ok (inserted_one is_accepted inserted && acked_one 42 acks)

abbrev pipeline_triggers_rule_and_reviews : Result Bool DomainError
pipeline_triggers_rule_and_reviews = do
  tx ← test_transaction (pos 100)
  let (acks, inserted) = pipeline (some (create_rule threshold (limit (pos 50)) ∷ [])) 99 tx
  ok (inserted_one is_reviewed inserted && acked_one 99 acks)

-- `source.clone()` for both accounts.
abbrev pipeline_declines_invalid_transaction : Result Bool DomainError
pipeline_declines_invalid_transaction = do
  tx ← test_transaction (pos 100)
  let (acks, inserted) = pipeline none 7 (record tx { destination_account = tx.source_account })
  ok (inserted_one is_declined inserted && acked_one 7 acks)

integration_tests_hold :
    (pipeline_accepts_clean_transaction ≡ ok true)
    × (pipeline_triggers_rule_and_reviews ≡ ok true)
    × (pipeline_declines_invalid_transaction ≡ ok true)
unfolding AccountId.new trim all_chars is_ascii_digit handle Engine.new evaluate_transaction
    update_rules decide validate evaluate show_ℤ to_string
integration_tests_hold = (refl, refl, refl)
