-- ===== src/App/Pipeline.antt =====
-- The running system: the client of the queue, the three actors and the tables, joined by FIFO
-- mailboxes as `main` joins them (crates/app/src/main.rs). One action is one turn of one task; a
-- history is any list of actions. Whether the receiver of a message still runs is part of the
-- action. The mailboxes and the channel of commands are not bounded here and a turn never waits: the
-- two awaited tells of `handle_transaction` are one step (App/Backpressure has them one by one, with
-- the bounds). The fields `seen` and `lost` are for the proofs: the tags that
-- were delivered, and the tags of the messages that found their receiver stopped.
pub mod Start
pub mod Tokens
pub mod Account
pub mod Receive
pub mod Mailboxes
pub mod Moves
pub mod Forward
pub mod Settlement
pub mod Promise
pub mod Honesty
pub mod Answering
pub mod Explained
pub mod Task
pub mod Origin
pub mod Acked
pub mod Decided
pub mod Tables
pub mod Readback
pub mod Outcome
pub mod Typed
pub mod Stuck
pub mod Leak
pub mod Client
use fraud_guard.Base.{
  ℕ, String, List, [], ◌∷◌, ◌++◌, Bool, true, false, Option, none, some, Result, ok, err,
  if◌then◌else◌,
}
use fraud_guard.Domain.Crates.{Crates}
use fraud_guard.Domain.Transaction.{TransactionRequest}
use fraud_guard.Domain.Rule.{Rule}
use fraud_guard.Storage.Db.{Db}
use fraud_guard.Storage.Sink.{Faults}
use fraud_guard.Api.Delivery.{Delivery, parse_delivery}
use fraud_guard.Api.Consumer.{AmqpConsumer, AckCommand}
use fraud_guard.Api.EventLoop.{Reply, basic_ack, basic_nack, perform}
use fraud_guard.App.Messages.{
  StoreDelivery, AckMessage, EvaluateTransactionRequest, PersistResults, UpdateRules,
}
use fraud_guard.App.Engine.{EngineActor, update_rules, evaluate_transaction}
use fraud_guard.App.Sink.{persist_results}
use fraud_guard.App.Consumer.{
  ConsumerActor, store_delivery, ack_message, Links, Handled, handle_transaction,
}

pub data ConsumerMessage : Type 0 where
  store : StoreDelivery → ConsumerMessage
  settle : AckMessage → ConsumerMessage

module _ ⦃X : Crates⦄ where
  pub data EngineMessage : Type 0 where
    evaluate : EvaluateTransactionRequest → EngineMessage
    update : UpdateRules → EngineMessage

  pub record Pipeline : Type 0 where
    pub inbox : List ConsumerMessage  -- of the consumer
    pub consumer : ConsumerActor
    pub requests : List EngineMessage  -- the mailbox of the engine
    pub engine : EngineActor
    pub results : List PersistResults  -- the mailbox of the sink
    pub db : Db
    pub replies : List Reply
    pub seen : List ℕ
    pub lost : List ℕ

  pub data Action : Type 0 where
    deliver : X.DateTime → Delivery → Links → Action
    consumer_turn : Action
    engine_turn : (sink_runs : Bool) → Action
    sink_turn : (ℕ → Faults) → (consumer_runs : Bool) → Action
    refresh : List Rule → Action
    client_turn : Action

  -- A parsed delivery, by `Handler::handle_transaction`; a failure is answered by a nack.
  abbrev tell_store : Bool → ℕ → List ConsumerMessage → List ConsumerMessage
  tell_store told tag inbox =
      if told then inbox ++ (store (record { correlation_id = tag }) ∷ []) else inbox

  abbrev tell_evaluate : Bool → EvaluateTransactionRequest → List EngineMessage → List EngineMessage
  tell_evaluate told msg requests = if told then requests ++ (evaluate msg ∷ []) else requests

  abbrev reply_to : Result (Unit {0}) String → ℕ → List Reply → List Reply
  reply_to (ok _) tag replies = replies
  reply_to (err e) tag replies = replies ++ (basic_nack tag ∷ [])

  pub hand_over : Handled → EvaluateTransactionRequest → Pipeline → Pipeline
  hand_over h msg p = record p {
    inbox = tell_store h.stored msg.correlation_id p.inbox;
    requests = tell_evaluate h.evaluated msg p.requests;
    replies = reply_to h.result msg.correlation_id p.replies;
  }

  pub receive : Result TransactionRequest String → ℕ → Links → Pipeline → Pipeline
  unfolding hand_over handle_transaction
  receive (err e) tag links p = record p { replies = p.replies ++ (basic_nack tag ∷ []) }
  receive (ok tx) tag links p =
      hand_over (handle_transaction links) (record { tx = tx; correlation_id = tag }) p

  pub consume : List ConsumerMessage → Pipeline → Pipeline
  consume [] p = p
  consume (store msg ∷ rest) p = record p { inbox = rest; consumer = store_delivery p.consumer msg }
  consume (settle msg ∷ rest) p = record p { inbox = rest; consumer = ack_message p.consumer msg }

  -- The engine's `tell` to the sink; a failure is only logged.
  pub tell_sink : Bool → PersistResults → Pipeline → Pipeline
  tell_sink true msg p = record p { results = p.results ++ (msg ∷ []) }
  tell_sink false msg p = record p { lost = msg.correlation_id ∷ p.lost }

  pub process : Bool → List EngineMessage → Pipeline → Pipeline
  unfolding tell_sink
  process sink_runs [] p = p
  process sink_runs (update msg ∷ rest) p = record p {
    requests = rest;
    engine = update_rules p.engine msg;
  }
  process sink_runs (evaluate msg ∷ rest) p =
      let (engine', result) = evaluate_transaction p.engine msg in
      tell_sink sink_runs result (record p { requests = rest; engine = engine' })

  -- The sink's `tell` to the consumer, whose failure is ignored.
  pub tell_consumer : Bool → AckMessage → Pipeline → Pipeline
  tell_consumer true msg p = record p { inbox = p.inbox ++ (settle msg ∷ []) }
  tell_consumer false msg p = record p { lost = msg.correlation_id ∷ p.lost }

  abbrev settle_result : Bool → Option (Db × AckMessage) → Pipeline → Pipeline → Pipeline
  settle_result consumer_runs none before p = before
  settle_result consumer_runs (some (db', msg)) before p =
      tell_consumer consumer_runs msg (record p { db = db' })

  pub persist : (ℕ → Faults) → Bool → List PersistResults → Pipeline → Pipeline
  unfolding tell_consumer
  persist faults consumer_runs [] p = p
  persist faults consumer_runs (msg ∷ rest) p =
      settle_result consumer_runs (persist_results faults msg p.db) p (record p { results = rest })

  -- The client takes a command from its channel and answers the queue.
  pub answer : Option AmqpConsumer → Pipeline → Pipeline
  answer none p = p
  answer (some client) p = elim client.commands [
    | [] ↦ p
    | cmd ∷ rest ↦ record p {
      consumer = record p.consumer { amqp_consumer = some (record client { commands = rest }) };
      replies = p.replies ++ (perform cmd ∷ []);
    }
  ]

  unfoldable pub step : Action → Pipeline → Pipeline
  unfolding receive consume process persist answer
  step (deliver now d links) p =
      receive (parse_delivery now d) d.delivery_tag links
        (record p { seen = d.delivery_tag ∷ p.seen })
  step consumer_turn p = consume p.inbox p
  step (engine_turn sink_runs) p = process sink_runs p.requests p
  step (sink_turn faults consumer_runs) p = persist faults consumer_runs p.results p
  step (refresh rules) p = record p {
    requests = p.requests ++ (update (record { rules = rules }) ∷ []);
  }
  step client_turn p = answer p.consumer.amqp_consumer p

  unfoldable pub run : List Action → Pipeline → Pipeline
  run [] p = p
  run (a ∷ actions) p = run actions (step a p)
