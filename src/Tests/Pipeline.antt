-- ===== src/Tests/Pipeline.antt =====
-- A history: a good delivery, then a bad one.
use mathlib.Core.List.{Memᴰ}
use mathlib.Core.List.Memᴰ.{head, tail}
use fraud_guard.Base.{
  ℕ, String, ◌≤◌, List, [], ◌∷◌, ◌++◌, count_if, true, ok, err, ◌≡◌, ◌⊎◌, refl, sym, subst, arith,
}
use fraud_guard.Base.Text.{trim, all_chars, is_ascii_digit}
use fraud_guard.Domain.Transaction.{TransactionRequest, validate}
use fraud_guard.Domain.AccountId
use fraud_guard.Domain.Currency
use fraud_guard.Domain.Rule.{Rule, evaluate}
use fraud_guard.Domain.Decision.{accept}
use fraud_guard.Storage.Table.{add_or_nothing}
use fraud_guard.Storage.Db.{
  DecisionRow, transaction_row, insert_transaction_or_nothing, insert_decision_or_nothing,
}
use fraud_guard.Storage.Sink.{
  insert_transaction_and_decision, attempt_insert_transaction_and_decision,
}
use fraud_guard.Api.Delivery.{parse_delivery}
use fraud_guard.Api.Consumer
use fraud_guard.Api.EventLoop.{basic_ack, basic_nack}
use fraud_guard.App.Consumer.{
  contains, Links, handle_transaction, store_delivery, ack_message, insert, remove,
}
use fraud_guard.App.Engine.{EngineActor, decide, evaluate_transaction}
use fraud_guard.App.Sink.{persist_results}
use fraud_guard.App.Pipeline.{
  Action, deliver, consumer_turn, engine_turn, sink_turn, client_turn, run, step,
}
use fraud_guard.App.Pipeline.Tokens.{answered, is_tag, settles, pending_after}
use fraud_guard.App.Pipeline.Start.{start}
use fraud_guard.App.Pipeline.Settlement.{deliveries, Quiet, answered_once, answered_all}
use fraud_guard.App.Pipeline.Origin.{InTables}
use fraud_guard.App.Pipeline.Leak.{refused_pending}
use fraud_guard.App.Pipeline.Acked.{Arrived, acked_stored}
use fraud_guard.App.Pipeline.Decided.{InForce, decisions_explained}
use fraud_guard.Tests.Sample.{crates, lawful, payment, stored, limit_rule}
use fraud_guard.Tests.Storage.{empty, clean}

abbrev pub links : Links
links = record { upgrade = true; store = ok tt; evaluate = ok tt }

abbrev pub actions : List Action
actions =
    deliver 60 (record { delivery_tag = 7; payload = "good" }) links
    ∷ engine_turn true
    ∷ deliver 60 (record { delivery_tag = 8; payload = "bad" }) links
    ∷ sink_turn (λ _. clean) true
    ∷ consumer_turn
    ∷ consumer_turn
    ∷ client_turn
    ∷ []

abbrev pub url : String
url = "amqp://localhost"

abbrev pub engine : EngineActor
engine = record { rules = limit_rule 500 ∷ [] }

pub history_replies :
    (run actions (start url engine empty)).replies ≡ basic_nack 8 ∷ basic_ack 7 ∷ []
unfolding run step parse_delivery handle_transaction store_delivery ack_message insert remove
    evaluate_transaction persist_results insert_transaction_and_decision
    attempt_insert_transaction_and_decision insert_transaction_or_nothing insert_decision_or_nothing
    add_or_nothing transaction_row validate evaluate start AccountId.new trim all_chars
    is_ascii_digit Currency.from_str Consumer.send_ack
history_replies = refl

history_Quiet : Quiet 7 (run actions (start url engine empty))
unfolding run step parse_delivery handle_transaction store_delivery ack_message insert remove
    evaluate_transaction persist_results insert_transaction_and_decision
    attempt_insert_transaction_and_decision insert_transaction_or_nothing insert_decision_or_nothing
    add_or_nothing transaction_row validate evaluate start AccountId.new trim all_chars
    is_ascii_digit Currency.from_str Consumer.send_ack
history_Quiet = record { idle = refl; read = refl; sent = refl; kept = refl }

answered_once_example : answered 7 (run actions (start url engine empty)) ≤ 1
answered_once_example = answered_once 7 url engine empty actions (omega arith)

answered_all_example : answered 7 (run actions (start url engine empty)) ≡ deliveries 7 actions
answered_all_example = answered_all 7 url engine empty actions (omega arith) history_Quiet

acked_stored_example :
    (tx : TransactionRequest) × Arrived actions 7 tx
    × InTables (Arrived actions) empty tx (run actions (start url engine empty)).db
acked_stored_example =
    acked_stored lawful url engine empty actions 7
      (subst (Memᴰ (basic_ack 7)) (sym history_replies) (tail (head refl)))

-- The history ends before the sink has answered.
abbrev early : List Action
early = deliver 60 (record { delivery_tag = 7; payload = "good" }) links ∷ engine_turn true ∷ []

early_kept : count_if (is_tag 7) (run early (start url engine empty)).lost ≡ 0
unfolding run step parse_delivery handle_transaction store_delivery ack_message insert remove
    evaluate_transaction persist_results insert_transaction_and_decision
    attempt_insert_transaction_and_decision insert_transaction_or_nothing insert_decision_or_nothing
    add_or_nothing transaction_row validate evaluate start AccountId.new trim all_chars
    is_ascii_digit Currency.from_str Consumer.send_ack
early_kept = refl

abbrev row : DecisionRow
row = record { transaction_id = "t1"; decision = stored accept }

history_decisions : (run actions (start url engine empty)).db.decisions ≡ row ∷ []
unfolding run step parse_delivery handle_transaction store_delivery ack_message insert remove
    evaluate_transaction persist_results insert_transaction_and_decision
    attempt_insert_transaction_and_decision insert_transaction_or_nothing insert_decision_or_nothing
    add_or_nothing transaction_row validate evaluate start AccountId.new trim all_chars
    is_ascii_digit Currency.from_str Consumer.send_ack
history_decisions = refl

decisions_explained_example :
    Memᴰ row empty.decisions
    ⊎ ((tag : ℕ) × (tx : TransactionRequest) × (rules : List Rule) × Arrived actions tag tx
        × InForce engine actions rules
        × (row.transaction_id ≡ tx.id.uuid)
        × (crates.decision_value (decide rules tx) ≡ ok row.decision))
decisions_explained_example =
    decisions_explained lawful url engine empty actions row
      (subst (Memᴰ row) (sym history_decisions) (head refl))

-- The engine is stopped, and refuses the delivery 9, which the consumer has noted.
good_parses : parse_delivery 60 (record { delivery_tag = 9; payload = "good" }) ≡ ok payment
unfolding parse_delivery AccountId.new trim all_chars is_ascii_digit Currency.from_str
good_parses = refl

refused_pending_example :
    let p = run actions (start url engine empty) in
    let a : Action =
      deliver 60
        (record { delivery_tag = 9; payload = "good" })
        (record { upgrade = true; store = ok tt; evaluate = err "actor not running" }) in
    let q = run (consumer_turn ∷ client_turn ∷ []) (step a p) in
    ((step a p).replies ≡ p.replies ++ (basic_nack 9 ∷ []))
    × (pending_after 9 (contains 9 q.consumer.pending) q.inbox ≡ true)
    × (count_if (settles 9) q.inbox ≡ 0)
refused_pending_example =
    refused_pending 9 url engine empty actions (consumer_turn ∷ client_turn ∷ []) 60 "good" payment
      "actor not running" good_parses (omega arith) (omega arith)
