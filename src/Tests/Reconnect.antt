-- ===== src/Tests/Reconnect.antt =====
-- A connection that ends with nothing under way, and one that ends too early.
use mathlib.Core.Bool.{true≢false}
use mathlib.Core.List.{Memᴰ}
use mathlib.Core.List.Memᴰ.{head, tail}
use fraud_guard.Base.{
  ◌≤◌, List, [], ◌∷◌, ◌++◌, ◌++◌, map, false, ok, eq_iff, ◌≡◌, ◌≢◌, refl, sym, subst, arith,
}
use fraud_guard.Base.Text.{trim, all_chars, is_ascii_digit}
use fraud_guard.Domain.Transaction.{TransactionRequest, validate}
use fraud_guard.Domain.Decision.{accept}
use fraud_guard.Domain.AccountId
use fraud_guard.Domain.Currency
use fraud_guard.Domain.Rule.{evaluate}
use fraud_guard.Storage.Table.{has, add_or_nothing}
use fraud_guard.Storage.Db.{
  transaction_key, transaction_row, insert_transaction_or_nothing, insert_decision_or_nothing,
}
use fraud_guard.Storage.Sink.{
  insert_transaction_and_decision, attempt_insert_transaction_and_decision,
}
use fraud_guard.Storage.Sink.Attempt.{IsClean}
use fraud_guard.Api.Delivery.{Delivery, parse_delivery}
use fraud_guard.Api.Consumer
use fraud_guard.Api.EventLoop.{basic_ack, basic_nack}
use fraud_guard.App.Consumer.{handle_transaction, store_delivery, ack_message, insert, remove}
use fraud_guard.App.Engine.{decide, evaluate_transaction}
use fraud_guard.App.Sink.{persist_results}
use fraud_guard.App.Pipeline
use fraud_guard.App.Pipeline.{
  Action, Pipeline, deliver, consumer_turn, engine_turn, sink_turn, client_turn, run, step,
}
use fraud_guard.App.Pipeline.Tokens.{answered}
use fraud_guard.App.Pipeline.Start.{start}
use fraud_guard.App.Pipeline.Settlement.{deliveries}
use fraud_guard.App.Pipeline.Origin.{InTables}
use fraud_guard.App.Pipeline.Acked.{Arrived}
use fraud_guard.App.Reconnect.{Move, turn, reconnect, reconnected, resume, turns}
use fraud_guard.App.Reconnect.Fresh.{Clear, reconnected_acked}
use fraud_guard.App.Reconnect.Once.{reconnected_once}
use fraud_guard.App.Reconnect.Stale.{stale_ack}
use fraud_guard.Tests.Sample.{crates, lawful, stored, payment}
use fraud_guard.Tests.Storage.{empty, clean}
use fraud_guard.Tests.Pipeline.{engine, url, actions}

-- Two connections, of which the second has only begun.
abbrev before : List Move
before = map turn actions ++ (reconnect ∷ [])

before-Clear : Clear 7 (resume before (start url engine empty))
unfolding resume run step parse_delivery handle_transaction store_delivery ack_message insert remove
    evaluate_transaction persist_results insert_transaction_and_decision
    attempt_insert_transaction_and_decision insert_transaction_or_nothing insert_decision_or_nothing
    add_or_nothing transaction_row validate evaluate start AccountId.new trim all_chars
    is_ascii_digit Currency.from_str Consumer.send_ack
before-Clear = record { idle = refl; read = refl; sent = refl }

replies_again :
    (run actions (reconnected (resume before (start url engine empty)))).replies
    ≡ basic_nack 8 ∷ basic_ack 7 ∷ []
unfolding resume reconnected run step parse_delivery handle_transaction store_delivery ack_message
    insert remove evaluate_transaction persist_results insert_transaction_and_decision
    attempt_insert_transaction_and_decision insert_transaction_or_nothing insert_decision_or_nothing
    add_or_nothing transaction_row validate evaluate start AccountId.new trim all_chars
    is_ascii_digit Currency.from_str Consumer.send_ack
replies_again = refl

reconnected_acked_example :
    (tx : TransactionRequest) × Arrived actions 7 tx
    × InTables
        (Arrived (turns before ++ actions))
        empty
        tx
        (run actions (reconnected (resume before (start url engine empty)))).db
reconnected_acked_example =
    reconnected_acked lawful url engine empty before actions 7 before-Clear
      (subst (Memᴰ (basic_ack 7)) (sym replies_again) (tail (head refl)))

reconnected_once_example :
    answered 7 (run actions (reconnected (resume before (start url engine empty)))) ≤ 1
reconnected_once_example =
    reconnected_once url engine empty before actions 7 before-Clear (omega arith)

-- Two deliveries with the tag 7, of two connections.
abbrev first : Delivery
first = record { delivery_tag = 7; payload = "good" }

abbrev second : Delivery
second = record { delivery_tag = 7; payload = "other" }

abbrev other : TransactionRequest
other = record payment { id = record { uuid = "t2" } }

first_parses : parse_delivery 60 first ≡ ok payment
unfolding parse_delivery AccountId.new trim all_chars is_ascii_digit Currency.from_str
first_parses = refl

second_parses : parse_delivery 60 second ≡ ok other
unfolding parse_delivery AccountId.new trim all_chars is_ascii_digit Currency.from_str
second_parses = refl

accepted : crates.decision_value (decide engine.rules payment) ≡ ok (stored accept)
unfolding decide evaluate validate
accepted = refl

differ : payment.id.uuid ≢ other.id.uuid
differ = λ e. true≢false (sym ((eq_iff "t1" "t2").1 e))

no_fault : IsClean clean
no_fault = record { begin = refl; insert_transaction = refl; insert_decision = refl; commit = refl }

stale_ack_example :
    (early : List Action) × (late : List Action) × (deliveries 7 early ≡ 1)
    × (deliveries 7 late ≡ 1)
    × let p = run late (reconnected (run early (start url engine empty))) in
      (p.replies ≡ basic_ack 7 ∷ [])
      × (has transaction_key "t2" p.db.transactions ≡ false)
      × (p.requests ≡ Pipeline.evaluate (record { tx = other; correlation_id = 7 }) ∷ [])
stale_ack_example =
    stale_ack lawful url engine empty 60 first second payment other (stored accept) (λ _. clean)
      first_parses second_parses refl differ refl accepted no_fault
