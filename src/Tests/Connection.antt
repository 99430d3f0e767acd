-- ===== src/Tests/Connection.antt =====
-- The connections of the client, with a broker that takes a number of requests.
use mathlib.Core.List.{Memᴰ}
use mathlib.Core.List.Memᴰ.{head}
use fraud_guard.Base.{
  ℕ, zero, suc, String, List, [], ◌∷◌, Result, ok, err, ◌≡◌, refl, sym, subst, length,
}
use fraud_guard.Domain.Transaction.{TransactionRequest}
use fraud_guard.Api.Delivery.{Delivery, parse_delivery}
use fraud_guard.Api.Consumer.{run_consumer}
use fraud_guard.Api.EventLoop.{Event, delivered, delivery_error, basic_nack, step, on_delivery, run}
use fraud_guard.Api.Connection.{Request, set_up, ask_all, connect_and_consume, results, dlq_queue}
use fraud_guard.Api.Connection.SetUp.{Begins, Accepts, connect_and_consume-Begins}
use fraud_guard.Api.Connection.DeadLetters.{RejectsTo, replies-RejectsTo}
use fraud_guard.Api.Connection.Forever.{doubling, results-doubling}
use fraud_guard.App.Pipeline.Start.{queue_name}
use fraud_guard.Tests.Sample.{crates}

-- From the number of requests that it still takes.
abbrev broker : Request → ℕ → ℕ × Result (Unit {0}) String
broker request zero = (zero, err "refused")
broker request (suc n) = (n, ok tt)

abbrev refuse : ℕ → TransactionRequest → ℕ → Result (Unit {0}) String × ℕ
refuse tag tx n = (err "no", suc n)

-- Its payload is no message.
abbrev bad : Delivery
bad = record { delivery_tag = 7; payload = "bad" }

abbrev events : List (ℕ × Event)
events = (60, delivered bad) ∷ (61, delivery_error "reset") ∷ []

-- The fourth request is refused.
asked_four : length (connect_and_consume broker refuse "amqp" queue_name events 3 0).asked ≡ 4
unfolding connect_and_consume ask_all set_up
asked_four = refl

connect_and_consume-Begins_example :
    Begins broker refuse "amqp" queue_name events 3 0
      (connect_and_consume broker refuse "amqp" queue_name events 3 0)
connect_and_consume-Begins_example =
    connect_and_consume-Begins broker refuse "amqp" queue_name events 3 0

rejected :
    (connect_and_consume broker refuse "amqp" queue_name events 9 0).session.replies
    ≡ basic_nack 7 ∷ []
unfolding connect_and_consume ask_all set_up run step on_delivery parse_delivery
rejected = refl

nack_in :
    Memᴰ
      (basic_nack 7)
      (connect_and_consume broker refuse "amqp" queue_name events 9 0).session.replies
nack_in = subst (λ l. Memᴰ (basic_nack 7) l) (sym rejected) (head refl)

replies-RejectsTo_example :
    RejectsTo queue_name dlq_queue
      (connect_and_consume broker refuse "amqp" queue_name events 9 0).asked
    × Accepts broker 9
        (connect_and_consume broker refuse "amqp" queue_name events 9 0).asked
        (connect_and_consume broker refuse "amqp" queue_name events 9 0).broker
replies-RejectsTo_example =
    replies-RejectsTo broker refuse "amqp" queue_name events 9 0 (basic_nack 7) nack_in

-- A connection that works, and then two that are refused.
abbrev connections : List (List (ℕ × Event))
connections = events ∷ events ∷ events ∷ []

ended :
    results broker refuse "amqp" queue_name connections 9 0
    ≡ err "reset" ∷ err "refused" ∷ err "refused" ∷ []
unfolding results connect_and_consume ask_all set_up run step on_delivery parse_delivery
ended = refl

results-doubling_example :
    (run_consumer 1 (results broker refuse "amqp" queue_name connections 9 0)).0
    ≡ doubling 0 (length (results broker refuse "amqp" queue_name connections 9 0))
results-doubling_example =
    results-doubling broker refuse "amqp" queue_name connections 9 0
      ((refl, (refl, tt)), ((refl, (refl, tt)), ((refl, (refl, tt)), tt)))
