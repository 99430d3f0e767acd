-- ===== src/Tests/Storage.antt =====
-- The sink's repository.
use mathlib.Core.Option.{or_else}
use fraud_guard.Base.{
  true, false, ◌=s=◌, if◌then◌else◌, ℕ, zero, suc, [], ◌∷◌, none, some, ok, ◌≡◌, refl, arith,
}
use fraud_guard.Domain.Decision.{accept, decline}
use fraud_guard.Storage.Table.{add_or_nothing, find, has}
use fraud_guard.Storage.Db.{
  Db, transaction_key, decision_key, transaction_row, insert_transaction_or_nothing,
  insert_decision_or_nothing,
}
use fraud_guard.Storage.Db.Integrity.{decision_entry, IsIntact}
use fraud_guard.Storage.Db.{insert_transaction as insert_row, insert_decision}
use fraud_guard.Storage.Repo.{insert_transaction, store_decision}
use fraud_guard.Storage.Repo.Writes.{insert_transaction-IsIntact, store_decision-IsIntact}
use fraud_guard.Storage.Sink.{
  Faults, committed, answer_lost, Outcome, insert_transaction_and_decision,
  attempt_insert_transaction_and_decision,
}
use fraud_guard.Storage.Sink.Attempt.{Stored, AllOrNothing}
use fraud_guard.Storage.Sink.Retry.{Contract, insert_total, insert_recovers}
use fraud_guard.Storage.Sink.Effect.{insert-find, insert-IsIntact}
use fraud_guard.App.Messages.{AckMessage, PersistResults}
use fraud_guard.App.Sink.{persist_results}
use fraud_guard.App.Sink.Answer.{persist_results_total}
use fraud_guard.Tests.Sample.{crates, lawful, payment, Json, stored}

abbrev pub empty : Db
empty = record { transactions = []; decisions = [] }

abbrev pub clean : Faults
clean = record {
  begin = none;
  insert_transaction = none;
  insert_decision = none;
  constraint = "constraint";
  commit = committed;
}

-- The first attempt cannot begin, the second loses the answer of its commit, the third succeeds.
abbrev pub rough : ℕ → Faults
rough zero = clean
rough (suc zero) = record clean { begin = some "pool timed out" }
rough (suc (suc zero)) = record clean { commit = answer_lost "connection reset" }
rough (suc (suc (suc n))) = clean

abbrev after : Outcome
after = record {
  result = ok tt;
  db = record {
    transactions = transaction_row payment ∷ [];
    decisions = record { transaction_id = "t1"; decision = stored accept } ∷ [];
  };
  delays = 100 ∷ 200 ∷ [];
}

third_attempt : insert_transaction_and_decision rough payment accept empty ≡ some after
unfolding insert_transaction_and_decision attempt_insert_transaction_and_decision
    insert_transaction_or_nothing insert_decision_or_nothing add_or_nothing transaction_row
third_attempt = refl

abbrev evaluated : PersistResults
evaluated = record { tx = payment; decision = accept; correlation_id = 7 }

-- A redelivery with another decision leaves the first one.
redelivered :
    insert_transaction_and_decision (λ _. clean) payment (decline "no") after.db
    ≡ some (record after { delays = [] })
unfolding insert_transaction_and_decision attempt_insert_transaction_and_decision
    insert_transaction_or_nothing insert_decision_or_nothing add_or_nothing transaction_row
redelivered = refl

insert_total_example :
    (o : Outcome) × (insert_transaction_and_decision rough payment accept empty ≡ some o)
    × Contract payment accept empty o
insert_total_example = insert_total lawful rough payment accept empty

insert_recovers_example :
    (o : Outcome) × (insert_transaction_and_decision rough payment accept empty ≡ some o)
    × (o.result ≡ ok tt)
    × Stored payment accept empty o.db
insert_recovers_example =
    insert_recovers lawful rough payment accept empty (stored accept) 2 refl (omega arith)
      (record { begin = refl; insert_transaction = refl; insert_decision = refl; commit = refl })

empty-IsIntact : IsIntact empty
empty-IsIntact = record { transactions_unique = tt; decisions_unique = tt; foreign_key = tt }

insert-IsIntact_run : IsIntact after.db
insert-IsIntact_run =
    insert-IsIntact lawful rough payment accept empty after third_attempt empty-IsIntact

insert-find_example :
    (value : Json) × (crates.decision_value accept ≡ ok value)
    × (find transaction_key "t1" after.db.transactions
        ≡ or_else
            (find transaction_key "t1" empty.transactions)
            (if payment.id.uuid =s= "t1" then some (transaction_row payment) else none))
    × (find decision_key "t1" after.db.decisions
        ≡ or_else (find decision_key "t1" empty.decisions) (
            if payment.id.uuid =s= "t1"
            then some (decision_entry (transaction_row payment) value)
            else none))
insert-find_example = insert-find lawful rough payment accept empty after third_attempt refl "t1"

persist_results_total_run :
    (db : Db) × (answer : AckMessage) × (persist_results rough evaluated empty ≡ some (db, answer))
    × (answer.correlation_id ≡ 7)
    × (answer.result ≡ ok tt → Stored payment accept empty db)
    × AllOrNothing payment accept empty db
persist_results_total_run = persist_results_total lawful rough evaluated empty

abbrev with_payment : Db
with_payment = record { transactions = transaction_row payment ∷ []; decisions = [] }

paid : insert_transaction (ok tt) "constraint" payment empty ≡ ok with_payment
unfolding insert_transaction insert_row transaction_row
paid = refl

insert_transaction-IsIntact_run :
    IsIntact with_payment
    × (has transaction_key "t1" empty.transactions ≡ false)
    × (has transaction_key payment.id.uuid with_payment.transactions ≡ true)
insert_transaction-IsIntact_run =
    insert_transaction-IsIntact lawful (ok tt) "constraint" payment empty with_payment paid
      empty-IsIntact

with_payment-IsIntact : IsIntact with_payment
unfolding transaction_row
with_payment-IsIntact = record {
  transactions_unique = (refl, tt);
  decisions_unique = tt;
  foreign_key = tt;
}

decided : store_decision (ok tt) "constraint" payment.id accept with_payment ≡ ok after.db
unfolding store_decision insert_decision transaction_row
decided = refl

store_decision-IsIntact_run :
    IsIntact after.db
    × (has transaction_key payment.id.uuid with_payment.transactions ≡ true)
    × (has decision_key payment.id.uuid with_payment.decisions ≡ false)
    × (has decision_key payment.id.uuid after.db.decisions ≡ true)
store_decision-IsIntact_run =
    store_decision-IsIntact lawful (ok tt) "constraint" payment.id accept with_payment after.db
      decided with_payment-IsIntact
