-- ===== src/App/Pipeline/Client.antt =====
-- The consumer's client of the queue, which no turn takes away.
use fraud_guard.Base.{
  ℕ, String, List, [], ◌∷◌, Bool, true, false, Option, none, some, ok, err, Result, ◌≡◌, ◌≢◌, refl,
  arith, Bool-cases, Option-cases, Result-cases, inl, inr,
}
use fraud_guard.Domain.Crates.{Crates}
use fraud_guard.Domain.Transaction.{TransactionRequest}
use fraud_guard.Storage.Sink.{Faults}
use fraud_guard.Api.Consumer.{AmqpConsumer}
use fraud_guard.App.Messages.{AckMessage, PersistResults}
use fraud_guard.App.Consumer.{ConsumerActor, ack_message, store_delivery, Links}
use fraud_guard.App.Sink.{persist_results}
use fraud_guard.App.Pipeline.{
  ConsumerMessage, store, settle, EngineMessage, evaluate, update, Pipeline, Action, deliver,
  consumer_turn, engine_turn, sink_turn, refresh, client_turn, receive, hand_over, consume, process,
  tell_sink, persist, tell_consumer, answer, step,
}

ack_message-client :
    (c : ConsumerActor) (msg : AckMessage)
    → c.amqp_consumer ≢ none
    → (ack_message c msg).amqp_consumer ≢ none
unfolding ack_message
ack_message-client c msg h = ground (arith, Result-cases msg.result, Option-cases c.amqp_consumer)

module _ ⦃X : Crates⦄ where
  receive-client :
      (parsed : Result TransactionRequest String) (tag : ℕ) (links : Links) (p : Pipeline)
      → (receive parsed tag links p).consumer ≡ p.consumer
  unfolding receive hand_over
  receive-client (ok tx) tag links p = refl
  receive-client (err e) tag links p = refl

  consume-client :
      (inbox : List ConsumerMessage) (p : Pipeline)
      → p.consumer.amqp_consumer ≢ none
      → (consume inbox p).consumer.amqp_consumer ≢ none
  unfolding consume store_delivery
  consume-client [] p c = c
  consume-client (store msg ∷ rest) p c = c
  consume-client (settle msg ∷ rest) p c = ack_message-client p.consumer msg c

  process-client :
      (sink_runs : Bool) (requests : List EngineMessage) (p : Pipeline)
      → (process sink_runs requests p).consumer ≡ p.consumer
  unfolding process tell_sink
  process-client sink_runs [] p = refl
  process-client sink_runs (update msg ∷ rest) p = refl
  process-client true (evaluate msg ∷ rest) p = refl
  process-client false (evaluate msg ∷ rest) p = refl

  persist-client :
      (faults : ℕ → Faults) (consumer_runs : Bool) (results : List PersistResults) (p : Pipeline)
      → (persist faults consumer_runs results p).consumer ≡ p.consumer
  unfolding persist tell_consumer
  persist-client faults consumer_runs [] p = refl
  persist-client faults consumer_runs (msg ∷ rest) p =
      elim (Option-cases (persist_results faults msg p.db)) [
        | inl stuck ↦ rw (stuck, persist) refl
        | inr (r, done) ↦ elim (Bool-cases consumer_runs) [
          | inl runs ↦ rw (done, persist, runs) refl
          | inr ended ↦ rw (done, persist, ended) refl
        ]
      ]

  answer-client :
      (client : Option AmqpConsumer) (p : Pipeline)
      → p.consumer.amqp_consumer ≢ none
      → (answer client p).consumer.amqp_consumer ≢ none
  unfolding answer
  answer-client none p c = c
  answer-client (some client) p c = ground arith

  pub step-client :
      (a : Action) (p : Pipeline)
      → p.consumer.amqp_consumer ≢ none
      → (step a p).consumer.amqp_consumer ≢ none
  unfolding step
  step-client (deliver now d links) p c = rw receive-client c
  step-client consumer_turn p c = consume-client p.inbox p c
  step-client (engine_turn sink_runs) p c = rw process-client c
  step-client (sink_turn faults consumer_runs) p c = rw persist-client c
  step-client (refresh rules) p c = c
  step-client client_turn p c = answer-client p.consumer.amqp_consumer p c
