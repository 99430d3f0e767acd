-- ===== src/App/Consumer.antt =====
-- crates/app/src/actors/consumer.rs. The outcome of each `tell` is an argument, since it depends on
-- whether the other actor still runs. Log lines are not modelled.
pub mod Pending
pub mod PendingSet
pub mod Machine
use fraud_guard.Base.{
  ℕ, String, ◌<>◌, List, [], ◌∷◌, Bool, true, false, ◌||◌, any, not, Option, none, some, Result, ok,
  err, ◌>>=◌, map_err, ◌==◌, if◌then◌else◌,
}
use fraud_guard.Domain.Error.{DomainError}
use fraud_guard.Domain.Crates.{Crates}
use fraud_guard.Domain.Transaction.{TransactionRequest}
use fraud_guard.Api.Consumer
use fraud_guard.Api.Consumer.{AmqpConsumer}
use fraud_guard.App.Messages.{StoreDelivery, AckMessage, EvaluateTransactionRequest}

-- `HashSet<CorrelationId>`, as a list without repetition.
abbrev pub contains : ℕ → List ℕ → Bool
contains id ids = any (λ i. i == id) ids

unfoldable pub insert : ℕ → List ℕ → List ℕ
insert id ids = if contains id ids then ids else id ∷ ids

unfoldable pub remove : ℕ → List ℕ → List ℕ
remove id [] = []
remove id (i ∷ ids) = let rest = remove id ids in if i == id then rest else i ∷ rest

-- The actor's reference to itself is kept as whether it has been set.
pub record ConsumerActor : Type 0 where
  pub amqp_url : String
  pub queue_name : String
  pub actor_ref : Bool
  pub pending : List ℕ
  pub amqp_consumer : Option AmqpConsumer

unfoldable pub new : String → String → ConsumerActor
new amqp_url queue_name = record {
  amqp_url = amqp_url;
  queue_name = queue_name;
  actor_ref = false;
  pending = [];
  amqp_consumer = none;
}

unfoldable pub on_start : ConsumerActor → ConsumerActor
on_start state = record state { actor_ref = true }

-- The client is there and its `task_handle` is `Some`.
abbrev pub is_consuming : ConsumerActor → Bool
is_consuming state = elim state.amqp_consumer [ none ↦ false | some client ↦ client.task_handle ]

-- `self.amqp_consumer.take()`, and whether a task is aborted.
unfoldable pub on_stop : ConsumerActor → ConsumerActor × Bool
unfolding Consumer.stop
on_stop state = (
  record state { amqp_consumer = none },
  elim state.amqp_consumer [ none ↦ false | some consumer ↦ (Consumer.stop consumer).1 ],
)

unfoldable pub store_delivery : ConsumerActor → StoreDelivery → ConsumerActor
unfolding insert
store_delivery state msg = record state { pending = insert msg.correlation_id state.pending }

-- `none` is the panic of `unwrap` before `on_start`.
unfoldable pub start_consuming : ConsumerActor → Option ConsumerActor
unfolding Consumer.new Consumer.start
start_consuming state = elim state.amqp_consumer [
  | some _ ↦ some state
  | none ↦
      if state.actor_ref
      then some (record state {
        amqp_consumer = some (Consumer.start (Consumer.new state.amqp_url state.queue_name)).0;
      })
      else none
]

-- The command for a result; without a client there is only a log line.
abbrev pub answer : Option AmqpConsumer → ℕ → Result (Unit {0}) DomainError → Option AmqpConsumer
answer none corr_id result = none
answer (some consumer) corr_id (ok _) = some (Consumer.send_ack consumer corr_id)
answer (some consumer) corr_id (err e) = some (Consumer.send_nack consumer corr_id)

unfoldable pub ack_message : ConsumerActor → AckMessage → ConsumerActor
unfolding remove
ack_message state msg =
    if contains msg.correlation_id state.pending
    then record state {
      pending = remove msg.correlation_id state.pending;
      amqp_consumer = answer state.amqp_consumer msg.correlation_id msg.result;
    }
    else state

-- Whether the weak reference can be upgraded, and what the two calls of `tell` return.
pub record Links : Type 0 where
  pub upgrade : Bool
  pub store : Result (Unit {0}) String
  pub evaluate : Result (Unit {0}) String

abbrev unavailable : String → String
unavailable e = "Actor not available: " <> e

-- The messages that arrive, and the result.
pub record Handled : Type 0 where
  pub stored : Bool
  pub evaluated : Bool
  pub result : Result (Unit {0}) String

abbrev handle_evaluate : Result (Unit {0}) String → Handled
handle_evaluate (ok _) = record { stored = true; evaluated = true; result = ok tt }
handle_evaluate (err e) = record { stored = true; evaluated = false; result = err (unavailable e) }

abbrev handle_store : Result (Unit {0}) String → Result (Unit {0}) String → Handled
handle_store (ok _) evaluate = handle_evaluate evaluate
handle_store (err e) evaluate = record {
  stored = false;
  evaluated = false;
  result = err (unavailable e);
}

-- `Handler::handle_transaction`
unfoldable pub handle_transaction : Links → Handled
handle_transaction links =
    if links.upgrade
    then handle_store links.store links.evaluate
    else record { stored = false; evaluated = false; result = err "ConsumerActor is gone" }
