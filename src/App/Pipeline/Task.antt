-- ===== src/App/Pipeline/Task.antt =====
-- What a turn leaves as it is: the handle of the client's task, and what the queue has sent.
use fraud_guard.Base.{
  ℕ, String, List, [], ◌∷◌, Bool, true, false, Option, none, some, Option-cases, Result, ok, err,
  ◌≡◌, refl, arith,
}
use fraud_guard.Domain.Crates.{Crates, IsLawful}
use fraud_guard.Domain.Error.{DomainError}
use fraud_guard.Domain.Transaction.{TransactionRequest}
use fraud_guard.Storage.Sink.{Faults}
use fraud_guard.Api.Consumer
use fraud_guard.Api.Consumer.{AmqpConsumer, AckCommand}
use fraud_guard.Api.Delivery.{parse_delivery}
use fraud_guard.App.Messages.{PersistResults}
use fraud_guard.App.Consumer.{ConsumerActor, Links, is_consuming, store_delivery, ack_message}
use fraud_guard.App.Sink.{persist_results}
use fraud_guard.App.Sink.Answer.{persist_results_total}
use fraud_guard.App.Pipeline.{
  ConsumerMessage, store, settle, EngineMessage, evaluate, update, Pipeline, Action, deliver,
  consumer_turn, engine_turn, sink_turn, refresh, client_turn, receive, hand_over, consume, process,
  persist, answer, tell_sink, tell_consumer, step,
}

module _ ⦃X : Crates⦄ where
  -- The turn leaves the handle of the task where it is.
  abbrev pub Holding : Pipeline → Pipeline → Type 0
  Holding p q = is_consuming q.consumer ≡ is_consuming p.consumer

  receive-Holding :
      (parsed : Result TransactionRequest String) (tag : ℕ) (links : Links) (p : Pipeline)
      → Holding p (receive parsed tag links p)
  unfolding receive hand_over
  receive-Holding (err e) tag links p = refl
  receive-Holding (ok tx) tag links p = refl

  settled-Holding :
      (client : Option AmqpConsumer) (result : Result (Unit {0}) DomainError)
      (state : ConsumerActor)
      → state.amqp_consumer ≡ client
      → (tag : ℕ)
      → is_consuming (ack_message state (record { correlation_id = tag; result = result }))
        ≡ is_consuming state
  unfolding ack_message Consumer.send_ack Consumer.send_nack
  settled-Holding none (ok _) state e tag = ground arith
  settled-Holding none (err _) state e tag = ground arith
  settled-Holding (some client) (ok _) state e tag = ground arith
  settled-Holding (some client) (err _) state e tag = ground arith

  consume-Holding : (inbox : List ConsumerMessage) (p : Pipeline) → Holding p (consume inbox p)
  unfolding consume store_delivery
  consume-Holding [] p = refl
  consume-Holding (store msg ∷ rest) p = refl
  consume-Holding (settle msg ∷ rest) p =
      settled-Holding p.consumer.amqp_consumer msg.result p.consumer refl msg.correlation_id

  process-Holding :
      (sink_runs : Bool) (requests : List EngineMessage) (p : Pipeline)
      → Holding p (process sink_runs requests p)
  unfolding process tell_sink
  process-Holding sink_runs [] p = refl
  process-Holding sink_runs (update msg ∷ rest) p = refl
  process-Holding true (evaluate msg ∷ rest) p = refl
  process-Holding false (evaluate msg ∷ rest) p = refl

  persist-Holding :
      IsLawful X
      → (faults : ℕ → Faults) (consumer_runs : Bool) (results : List PersistResults) (p : Pipeline)
      → Holding p (persist faults consumer_runs results p)
  unfolding persist tell_consumer
  persist-Holding L faults consumer_runs [] p = refl
  persist-Holding L faults true (msg ∷ rest) p =
      let (db', reply, done, same, stored, atomic) = persist_results_total L faults msg p.db in
      rw (done, persist) refl
  persist-Holding L faults false (msg ∷ rest) p =
      let (db', reply, done, same, stored, atomic) = persist_results_total L faults msg p.db in
      rw (done, persist) refl

  answer_command-Holding :
      (client : AmqpConsumer) (commands : List AckCommand) (p : Pipeline)
      → client.commands ≡ commands
      → p.consumer.amqp_consumer ≡ some client
      → Holding p (answer (some client) p)
  unfolding answer
  answer_command-Holding client [] p k e = rw k refl
  answer_command-Holding client (cmd ∷ rest) p k e = rw (k, e) refl

  answer-Holding :
      (client : Option AmqpConsumer) (p : Pipeline)
      → p.consumer.amqp_consumer ≡ client
      → Holding p (answer client p)
  unfolding answer
  answer-Holding none p e = refl
  answer-Holding (some client) p e = answer_command-Holding client client.commands p refl e

  pub step-Holding : IsLawful X → (a : Action) (p : Pipeline) → Holding p (step a p)
  unfolding step
  step-Holding L (deliver now d links) p =
      receive-Holding (parse_delivery now d) d.delivery_tag links _
  step-Holding L consumer_turn p = consume-Holding p.inbox p
  step-Holding L (engine_turn sink_runs) p = process-Holding sink_runs p.requests p
  step-Holding L (sink_turn faults consumer_runs) p =
      persist-Holding L faults consumer_runs p.results p
  step-Holding L (refresh rules) p = refl
  step-Holding L client_turn p = answer-Holding p.consumer.amqp_consumer p refl

  pub process-seen :
      (sink_runs : Bool) (requests : List EngineMessage) (p : Pipeline)
      → (process sink_runs requests p).seen ≡ p.seen
  unfolding process tell_sink
  process-seen sink_runs [] p = refl
  process-seen sink_runs (update msg ∷ rest) p = refl
  process-seen true (evaluate msg ∷ rest) p = refl
  process-seen false (evaluate msg ∷ rest) p = refl

  pub persist-seen :
      (faults : ℕ → Faults) (consumer_runs : Bool) (results : List PersistResults) (p : Pipeline)
      → (persist faults consumer_runs results p).seen ≡ p.seen
  unfolding persist tell_consumer
  persist-seen faults consumer_runs [] p = refl
  persist-seen faults true (msg ∷ rest) p =
      ground (arith, Option-cases (persist_results faults msg p.db))
  persist-seen faults false (msg ∷ rest) p =
      ground (arith, Option-cases (persist_results faults msg p.db))
