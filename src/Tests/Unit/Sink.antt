-- ===== src/Tests/Unit/Sink.antt =====
-- crates/app/src/actors/sink.rs, `mod tests`, where every message is waited for.
use fraud_guard.Base.{
  ℕ, suc, zero, ◌+◌, List, [], ◌∷◌, ◌++◌, Bool, true, false, ◌&&◌, none, some, Result, ok, err,
  ◌>>=◌, length, ◌==◌, ◌≡◌, refl,
}
use fraud_guard.Base.Int.{pos}
use fraud_guard.Base.Text.{trim, all_chars, is_ascii_digit}
use fraud_guard.Domain.Error.{DomainError}
use fraud_guard.Domain.Decision.{Decision, accept, review}
use fraud_guard.Domain.AccountId
use fraud_guard.Domain.Transaction.{TransactionRequest}
use fraud_guard.Storage.SinkRepository.{SinkRepository}
use fraud_guard.App.Messages.{PersistResults, AckMessage}
use fraud_guard.App.Sink.Handler.{handle}
use fraud_guard.Tests.Sample.{crates}
use fraud_guard.Tests.Unit.Rules.{test_transaction}

abbrev pub Inserted : Type 0
Inserted = List (TransactionRequest × Decision)

-- The mock keeps what it is given.
abbrev pub mock : SinkRepository Inserted
mock = record {
  insert_transaction_and_decision = λ tx decision s. some (s ++ ((tx, decision) ∷ []), ok tt);
}

-- What the mock of the consumer is told, and what is inserted at the end.
abbrev pub mock_consumer : List PersistResults → Inserted → List AckMessage × Inserted
mock_consumer [] s = ([], s)
mock_consumer (msg ∷ msgs) s = elim (handle mock msg s) [
  | none ↦ ([], s)
  | some (s', reply) ↦ let (replies, last) = mock_consumer msgs s' in (reply ∷ replies, last)
]

abbrev pub is_ok : AckMessage → Bool
is_ok msg = elim msg.result [ ok _ ↦ true | err e ↦ false ]

abbrev all_ok : List AckMessage → Bool
all_ok [] = true
all_ok (msg ∷ msgs) = is_ok msg && all_ok msgs

abbrev sink_stores_transaction_and_decision : Result Bool DomainError
sink_stores_transaction_and_decision = do
  tx ← test_transaction (pos 100)
  let decision = review (record { code = "TEST001"; reason = "Exceeds limit" } ∷ [])
  let (msgs, inserted) =
      mock_consumer (record { tx = tx; decision = decision; correlation_id = 123 } ∷ []) []
  ok (elim msgs [
    | [] ↦ false
    | msg ∷ rest ↦ length rest == 0 && (msg.correlation_id == 123 && is_ok msg)
  ])

-- `for i in 0..3`, from the number of rounds that are left.
abbrev rounds : ℕ → ℕ → Result (List PersistResults) DomainError
rounds zero i = ok []
rounds (suc left) i = do
  tx ← test_transaction (pos (100 + i))
  rest ← rounds left (i + 1)
  ok (record { tx = tx; decision = accept; correlation_id = 123 + i } ∷ rest)

abbrev sink_handles_multiple_messages : Result Bool DomainError
sink_handles_multiple_messages = do
  told ← rounds 3 0
  let (msgs, inserted) = mock_consumer told []
  ok (length msgs == 3 && (all_ok msgs && length inserted == 3))

sink_tests_hold :
    (sink_stores_transaction_and_decision ≡ ok true) × (sink_handles_multiple_messages ≡ ok true)
unfolding AccountId.new trim all_chars is_ascii_digit handle
sink_tests_hold = (refl, refl)
