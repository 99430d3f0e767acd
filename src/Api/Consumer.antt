-- ===== src/Api/Consumer.antt =====
-- crates/api/src/amqp/amqp_consumer.rs: `AmqpConsumer`, its commands and its reconnection.
pub mod Backoff
use fraud_guard.Base.{
  ℕ, zero, suc, ◌+◌, ◌*◌, String, List, [], ◌∷◌, ◌++◌, Bool, true, false, Option, none, some,
  Result, ok, err, ltb, if◌then◌else◌,
}

pub data AckCommand : Type 0 where
  ack : (tag : ℕ) → AckCommand
  nack : (tag : ℕ) → AckCommand

-- The handle of the background task is kept as whether there is one. The commands that were sent
-- wait in a bounded channel, oldest first.
pub record AmqpConsumer : Type 0 where
  pub amqp_url : String
  pub queue_name : String
  pub task_handle : Bool
  pub commands : List AckCommand

unfoldable pub new : String → String → AmqpConsumer
new amqp_url queue_name = record {
  amqp_url = amqp_url;
  queue_name = queue_name;
  task_handle = false;
  commands = [];
}

-- Whether a task is spawned is the second result.
unfoldable pub start : AmqpConsumer → AmqpConsumer × Bool
start consumer =
    if consumer.task_handle
    then (consumer, false)
    else (record consumer { task_handle = true }, true)

-- Whether a task is aborted is the second result.
unfoldable pub stop : AmqpConsumer → AmqpConsumer × Bool
stop consumer = (record consumer { task_handle = false }, consumer.task_handle)

-- The command is at the end of the channel once `send` has returned. That `send` waits while the
-- channel is full is in App/Backpressure.
unfoldable pub send_ack : AmqpConsumer → ℕ → AmqpConsumer
send_ack consumer corr_id = record consumer { commands = consumer.commands ++ (ack corr_id ∷ []) }

unfoldable pub send_nack : AmqpConsumer → ℕ → AmqpConsumer
send_nack consumer corr_id = record consumer { commands = consumer.commands ++ (nack corr_id ∷ []) }

-- `std::cmp::min(backoff * 2, 60)`
abbrev pub next_backoff : ℕ → ℕ
next_backoff backoff = if ltb 60 (backoff * 2) then 60 else backoff * 2

-- One round of the loop of `run_consumer`, on what `connect_and_consume` returned: the seconds to
-- sleep, and the next backoff.
unfoldable pub reconnect : ℕ → Result (Unit {0}) String → ℕ × ℕ
reconnect backoff (ok _) = (5, 1)
reconnect backoff (err e) = (backoff, next_backoff backoff)

-- The loop over the connections of a run: the sleeps, and the backoff afterwards.
unfoldable pub run_consumer : ℕ → List (Result (Unit {0}) String) → List ℕ × ℕ
run_consumer backoff [] = ([], backoff)
run_consumer backoff (connection ∷ connections) =
    let (sleep, backoff') = reconnect backoff connection in
    let (sleeps, last) = run_consumer backoff' connections in (sleep ∷ sleeps, last)
