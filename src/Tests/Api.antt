-- ===== src/Tests/Api.antt =====
-- The client of the queue.
use fraud_guard.Base.{ℕ, zero, suc, String, List, [], ◌∷◌, true, Result, ok, err, ◌≡◌, ◌↔◌, refl}
use fraud_guard.Base.Text.{trim, all_chars, is_ascii_digit}
use fraud_guard.Domain.AccountId
use fraud_guard.Domain.Currency
use fraud_guard.Domain.Params.{TransactionMessage}
use fraud_guard.Domain.Transaction.{TransactionRequest}
use fraud_guard.Api.Delivery.{Delivery, parse_delivery}
use fraud_guard.Api.Delivery.Parse.{Describes, parse_delivery-eq-ok_iff}
use fraud_guard.Api.Consumer.{ack, nack, reconnect, run_consumer}
use fraud_guard.Api.Consumer.Backoff.{schedule, run_consumer-schedule}
use fraud_guard.Api.EventLoop.{Event, delivered, stream_end, command, Session, running, run}
use fraud_guard.Api.EventLoop.Replies.{Waits, run-Waits}
use fraud_guard.Tests.Sample.{crates, payment}

abbrev good : Delivery
good = record { delivery_tag = 7; payload = "good" }

parsed : parse_delivery 60 good ≡ ok payment
unfolding parse_delivery AccountId.new trim all_chars is_ascii_digit Currency.from_str
parsed = refl

parse_delivery-eq-ok_iff_example : (parse_delivery 60 good ≡ ok payment) ↔ (
    (msg : TransactionMessage) × (crates.transaction_message good.payload ≡ ok msg)
    × Describes 60 msg payment)
parse_delivery-eq-ok_iff_example = parse_delivery-eq-ok_iff 60 good payment

-- Three failures, a connection that is closed, and a failure.
abbrev connections : List (Result (Unit {0}) String)
connections = err "refused" ∷ err "refused" ∷ err "refused" ∷ ok tt ∷ err "refused" ∷ []

sleeps : (run_consumer 1 connections).0 ≡ 1 ∷ 2 ∷ 4 ∷ 5 ∷ 1 ∷ []
unfolding run_consumer reconnect
sleeps = refl

run_consumer-schedule_run : (run_consumer 1 connections).0 ≡ schedule 0 connections
run_consumer-schedule_run = run_consumer-schedule connections

-- A handler that counts its calls and refuses the second.
abbrev count_calls : ℕ → TransactionRequest → ℕ → Result (Unit {0}) String × ℕ
count_calls tag tx zero = (ok tt, 1)
count_calls tag tx (suc n) = (err "no", suc (suc n))

abbrev session : Session count_calls
session = record { world = 0; replies = []; control = running true true }

abbrev events : List (ℕ × Event)
events =
    (60, delivered good)
    ∷ (61, stream_end)
    ∷ (62, delivered good)
    ∷ (63, command (ack 7))
    ∷ (64, command (nack 9))
    ∷ []

run-Waits_example : Waits count_calls (run count_calls events session)
run-Waits_example =
    run-Waits count_calls events session (refl, (refl, (refl, (refl, (refl, tt))))) (true, refl)
