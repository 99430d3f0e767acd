-- ===== src/Tests/Main.antt =====
-- The start of the program, and a shutdown in the middle of a delivery.
use mathlib.Core.List.{Memᴰ}
use mathlib.Core.List.Memᴰ.{head}
use fraud_guard.Base.{List, [], ◌∷◌, ◌++◌, true, ok, ◌≡◌, refl, subst, sym}
use fraud_guard.Base.Text.{trim, all_chars, is_ascii_digit}
use fraud_guard.Domain.Transaction.{TransactionRequest, validate}
use fraud_guard.Domain.AccountId
use fraud_guard.Domain.Currency
use fraud_guard.Domain.Rule.{Rule, evaluate}
use fraud_guard.Storage.Table.{has, add_or_nothing}
use fraud_guard.Storage.Db.{
  transaction_key, transaction_row, insert_transaction_or_nothing, insert_decision_or_nothing,
}
use fraud_guard.Storage.Sink.{
  insert_transaction_and_decision, attempt_insert_transaction_and_decision,
}
use fraud_guard.Api.Delivery.{parse_delivery}
use fraud_guard.Api.Consumer
use fraud_guard.Api.EventLoop.{basic_ack}
use fraud_guard.App.Config.{Config}
use fraud_guard.App.Consumer.{handle_transaction, store_delivery, ack_message, insert, remove}
use fraud_guard.App.Engine.{EngineActor, evaluate_transaction}
use fraud_guard.App.Sink.{persist_results}
use fraud_guard.App.Pipeline
use fraud_guard.App.Pipeline.{Pipeline}
use fraud_guard.App.Pipeline.Start.{start}
use fraud_guard.App.Pipeline.Origin.{InTables}
use fraud_guard.App.Main.{Outside}
use fraud_guard.App.Main.Shutdown.{
  System, Event, deliver, consumer_turn, engine_turn, sink_turn, client_turn, stop_consumer,
  consumer_stops, stop_engine, engine_stops, stop_sink, sink_stops, stopped, apply, Reach, here,
  next, serving,
}
use fraud_guard.App.Main.Shutdown.Drained.{shutdown_silent}
use fraud_guard.App.Main.Shutdown.Kept.{Arrived, shutdown_acked}
use fraud_guard.Tests.Sample.{crates, lawful, limit_rule}
use fraud_guard.Tests.Storage.{empty, clean}
use fraud_guard.Tests.App.{parse, var}

abbrev outside : Outside
outside = record { parse = parse; var = var; connect = λ url. ok tt; fetched = ok []; told = ok tt }

abbrev engine : EngineActor
engine = record { rules = limit_rule 500 ∷ [] }

abbrev at_start : System
at_start = serving (start "amqp://localhost" engine empty)

after : List Event → System
unfolding apply
after [] = at_start
after (event ∷ events) = apply event (after events)

-- The last event first: the consumer stops while the engine has the transaction.
abbrev until_stopped : List Event
until_stopped =
    consumer_stops
    ∷ stop_consumer
    ∷ consumer_turn
    ∷ deliver 60 (record { delivery_tag = 7; payload = "good" })
    ∷ []

abbrev later : List Event
later =
    sink_stops ∷ sink_turn (λ _. clean) ∷ stop_sink ∷ engine_stops ∷ stop_engine ∷ engine_turn ∷ []

abbrev events : List Event
events = later ++ until_stopped

to_stopped : Reach at_start until_stopped (after until_stopped)
unfolding after apply start Pipeline.step parse_delivery handle_transaction store_delivery insert
    AccountId.new trim all_chars is_ascii_digit Currency.from_str
to_stopped = next (next (next (next here _ refl) _ refl) _ refl) _ refl

from_stopped : Reach (after until_stopped) later (after events)
unfolding after apply start Pipeline.step parse_delivery handle_transaction store_delivery insert
    AccountId.new trim all_chars is_ascii_digit Currency.from_str evaluate_transaction
    persist_results insert_transaction_and_decision attempt_insert_transaction_and_decision
    insert_transaction_or_nothing insert_decision_or_nothing add_or_nothing transaction_row validate
    evaluate
from_stopped =
    next
      (next
        (next (next (next (next here engine_turn refl) stop_engine refl) engine_stops refl)
          stop_sink refl)
        (sink_turn (λ _. clean)) refl)
      sink_stops refl

consumer_is_stopped : (after until_stopped).consumer ≡ stopped
unfolding after apply
consumer_is_stopped = refl

-- The transaction is stored, and the queue is told nothing.
stored_silently :
    ((after events).pipeline.replies ≡ [])
    × (has transaction_key "t1" (after events).pipeline.db.transactions ≡ true)
unfolding after apply start Pipeline.step parse_delivery handle_transaction store_delivery insert
    AccountId.new trim all_chars is_ascii_digit Currency.from_str evaluate_transaction
    persist_results insert_transaction_and_decision attempt_insert_transaction_and_decision
    insert_transaction_or_nothing insert_decision_or_nothing add_or_nothing transaction_row validate
    evaluate
stored_silently = (refl, refl)

shutdown_silent_example :
    ((after events).pipeline.seen ≡ (after until_stopped).pipeline.seen)
    × ((after events).pipeline.replies ≡ (after until_stopped).pipeline.replies)
shutdown_silent_example = shutdown_silent lawful to_stopped consumer_is_stopped from_stopped

-- The delivery is answered before the consumer stops.
abbrev in_time : List Event
in_time =
    consumer_stops
    ∷ stop_consumer
    ∷ client_turn
    ∷ consumer_turn
    ∷ sink_turn (λ _. clean)
    ∷ engine_turn
    ∷ consumer_turn
    ∷ deliver 60 (record { delivery_tag = 7; payload = "good" })
    ∷ []

to_end : Reach at_start in_time (after in_time)
unfolding after apply start Pipeline.step parse_delivery handle_transaction store_delivery insert
    AccountId.new trim all_chars is_ascii_digit Currency.from_str evaluate_transaction
    persist_results insert_transaction_and_decision attempt_insert_transaction_and_decision
    insert_transaction_or_nothing insert_decision_or_nothing add_or_nothing transaction_row validate
    evaluate ack_message remove Consumer.send_ack
to_end =
    next
      (next
        (next
          (next (next (next (next (next here _ refl) _ refl) _ refl) (sink_turn (λ _. clean)) refl)
            consumer_turn refl)
          client_turn refl)
        stop_consumer refl)
      consumer_stops refl

in_time_acked : (after in_time).pipeline.replies ≡ basic_ack 7 ∷ []
unfolding after apply start Pipeline.step parse_delivery handle_transaction store_delivery insert
    AccountId.new trim all_chars is_ascii_digit Currency.from_str evaluate_transaction
    persist_results insert_transaction_and_decision attempt_insert_transaction_and_decision
    insert_transaction_or_nothing insert_decision_or_nothing add_or_nothing transaction_row validate
    evaluate ack_message remove Consumer.send_ack
in_time_acked = refl

shutdown_acked_example :
    (tx : TransactionRequest) × Arrived in_time 7 tx
    × InTables (Arrived in_time) empty tx (after in_time).pipeline.db
shutdown_acked_example =
    shutdown_acked lawful "amqp://localhost" engine empty 7 to_end
      (subst (Memᴰ (basic_ack 7)) (sym in_time_acked) (head refl))
