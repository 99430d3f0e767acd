-- ===== src/Tests/Backpressure.antt =====
-- Bounded mailboxes: a stream of good deliveries, and a state in which two tasks wait for each other.
use fraud_guard.Base.{ℕ, zero, suc, ◌+◌, ◌≤◌, List, [], ◌∷◌, none, some, ok, ◌≡◌, refl, arith}
use fraud_guard.Base.Text.{trim, all_chars, is_ascii_digit}
use fraud_guard.Domain.Transaction.{TransactionRequest, validate}
use fraud_guard.Domain.Decision.{accept}
use fraud_guard.Domain.Rule
use fraud_guard.Domain.AccountId
use fraud_guard.Domain.Currency
use fraud_guard.Api.Delivery.{Delivery, parse_delivery}
use fraud_guard.Api.Consumer.{AckCommand, ack}
use fraud_guard.App.Messages.{EvaluateTransactionRequest}
use fraud_guard.App.Consumer.{insert, remove}
use fraud_guard.App.Engine.{EngineActor, evaluate_transaction}
use fraud_guard.App.Pipeline.{store, evaluate}
use fraud_guard.App.Backpressure.{
  storing, Flow, engine_takes, deliver, store_told, evaluate_told, consumer_takes, consumer_sends,
  engine_tells, sink_takes, sink_tells, client_command, move, Trail, here, next,
}
use fraud_guard.App.Backpressure.Wedged.{Wedged, Wedged-Trail}
use fraud_guard.App.Backpressure.Tally.{answered}
use fraud_guard.App.Backpressure.Once.{deliveries, under_way, bounded_accounted}
use fraud_guard.App.Backpressure.Acked.{Came, bounded_acked}
use fraud_guard.App.Pipeline.Origin.{InTables}
use fraud_guard.App.Sink.{persist_results}
use fraud_guard.Api.EventLoop.{basic_ack}
use fraud_guard.Storage.Table.{add_or_nothing}
use fraud_guard.Storage.Db.{
  transaction_row, insert_transaction_or_nothing, insert_decision_or_nothing,
}
use fraud_guard.Storage.Sink.{
  insert_transaction_and_decision, attempt_insert_transaction_and_decision,
}
use mathlib.Core.List.Memᴰ.{head}
use fraud_guard.App.Backpressure.Rounds.{ready, tags}
use fraud_guard.App.Backpressure.Deadlock.{deadlock}
use fraud_guard.Tests.Sample.{crates, lawful, stored, payment, limit_rule}
use fraud_guard.Tests.Storage.{empty, clean}

abbrev engine : EngineActor
engine = record { rules = limit_rule 500 ∷ [] }

abbrev good : ℕ → Delivery
good k = record { delivery_tag = k; payload = "good" }

good_parses : (k : ℕ) → parse_delivery 60 (good k) ≡ ok payment
unfolding parse_delivery AccountId.new trim all_chars is_ascii_digit Currency.from_str
good_parses k = refl

deadlock_example :
    (s : Flow) × (k : ℕ) × (msg : EvaluateTransactionRequest) × (cmd : AckCommand) × Trail 64
      (ready 64 [] [] none [] [] engine empty [] [])
      s
    × (s.seen ≡ tags 64 good k)
    × Wedged 64 msg cmd s
deadlock_example =
    deadlock 64 lawful (λ _. clean) 60 good (λ _. payment) engine empty good_parses (omega arith)

abbrev idle : Flow
idle = ready 1 [] [] none [] [] engine empty [] []

abbrev request : EvaluateTransactionRequest
request = record { tx = payment; correlation_id = 7 }

-- One delivery is with the consumer, with room for one message.
abbrev handed : Flow
handed = record idle {
  inbox = store (record { correlation_id = 7 }) ∷ [];
  requests = evaluate request ∷ [];
  seen = 7 ∷ [];
}

handing : Trail 1 idle handed
unfolding move parse_delivery AccountId.new trim all_chars is_ascii_digit Currency.from_str
handing = next (next (next here (deliver 60 (good 7)) refl) store_told refl) evaluate_told refl

abbrev copies : ℕ → AckCommand → List AckCommand
copies zero cmd = []
copies (suc n) cmd = cmd ∷ copies n cmd

abbrev wedged : Flow
wedged = record handed {
  client = storing request;
  sending = some (ack 6);
  commands = copies 100 (ack 5);
}

wedged-Wedged : Wedged 1 request (ack 6) wedged
wedged-Wedged = record {
  client = refl;
  full_inbox = omega arith;
  sending = refl;
  full_commands = omega arith;
}

-- The engine takes its request.
abbrev decided : Flow
decided = record wedged {
  requests = [];
  telling = some (record { tx = payment; decision = accept; correlation_id = 7 });
}

deciding : Trail 1 wedged decided
unfolding move evaluate_transaction validate Rule.evaluate
deciding = next here engine_takes refl

Wedged-Trail_example :
    Wedged 1 request (ack 6) decided
    × (decided.replies ≡ wedged.replies)
    × (decided.commands ≡ wedged.commands)
Wedged-Trail_example = Wedged-Trail 1 request (ack 6) wedged-Wedged deciding

-- The delivery goes all the way.
abbrev ended : Flow
ended = record idle {
  db = record {
    transactions = transaction_row payment ∷ [];
    decisions = record { transaction_id = "t1"; decision = stored accept } ∷ [];
  };
  replies = basic_ack 7 ∷ [];
  seen = 7 ∷ [];
}

ending : Trail 1 idle ended
unfolding move parse_delivery AccountId.new trim all_chars is_ascii_digit Currency.from_str
    evaluate_transaction validate Rule.evaluate persist_results insert_transaction_and_decision
    attempt_insert_transaction_and_decision insert_transaction_or_nothing insert_decision_or_nothing
    add_or_nothing transaction_row insert remove
ending =
    next
      (next
        (next
          (next
            (next
              (next (next (next handing consumer_takes refl) engine_takes refl) engine_tells refl)
              (sink_takes (λ _. clean)) refl)
            sink_tells refl)
          consumer_takes refl)
        consumer_sends refl)
      client_command refl

bounded_acked_example :
    (tx : TransactionRequest) × Came 1 ending 7 tx × InTables (Came 1 ending) empty tx ended.db
bounded_acked_example = bounded_acked 1 lawful engine empty ending 7 (head refl)

ending_once : deliveries 7 1 ending ≤ 1
unfolding ending handing
ending_once = omega arith

bounded_accounted_example : deliveries 7 1 ending ≡ answered 7 ended + under_way 7 ended
bounded_accounted_example = bounded_accounted 7 1 engine empty ending ending_once
