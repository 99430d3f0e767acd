-- ===== src/App/Pipeline/Tokens.antt =====
-- Where a delivery stands: one of its messages is in one of the mailboxes, or it is answered.
use fraud_guard.Base.{
  ℕ, ◌+◌, ◌≤◌, ◌<◌, List, [], ◌∷◌, ◌++◌, Bool, true, false, not, ◌&&◌, ◌||◌, Option, none, some,
  ◌==◌, ◌≡◌, ◌≢◌, refl, count_if,
}
use fraud_guard.Domain.Crates.{Crates}
use fraud_guard.Api.Consumer.{AmqpConsumer, AckCommand, ack, nack}
use fraud_guard.Api.EventLoop.{Reply, basic_ack, basic_nack}
use fraud_guard.App.Messages.{PersistResults}
use fraud_guard.App.Consumer.{contains}
use fraud_guard.App.Pipeline.{
  ConsumerMessage, store, settle, EngineMessage, evaluate, update, Pipeline,
}

module _ (t : ℕ) where
  -- Is the delivery with tag `t` pending once the consumer has read its inbox?
  abbrev pub pending_after : Bool → List ConsumerMessage → Bool
  pending_after b [] = b
  pending_after b (store msg ∷ rest) = pending_after (msg.correlation_id == t || b) rest
  pending_after b (settle msg ∷ rest) = pending_after (not (msg.correlation_id == t) && b) rest

  -- Every settlement of the inbox will find its delivery pending.
  abbrev pub Ready : Bool → List ConsumerMessage → Type 0
  Ready b [] = Unit
  Ready b (store msg ∷ rest) = Ready (msg.correlation_id == t || b) rest
  Ready b (settle msg ∷ rest) =
      ((msg.correlation_id == t) ≡ true → b ≡ true)
      × Ready (not (msg.correlation_id == t) && b) rest

  pub pending_after-append :
      (xs ys : List ConsumerMessage) (b : Bool)
      → pending_after b (xs ++ ys) ≡ pending_after (pending_after b xs) ys
  pending_after-append [] ys b = refl
  pending_after-append (store msg ∷ xs) ys b = pending_after-append xs ys _
  pending_after-append (settle msg ∷ xs) ys b = pending_after-append xs ys _

  pub Ready-append :
      (xs ys : List ConsumerMessage) (b : Bool)
      → Ready b xs
      → Ready (pending_after b xs) ys
      → Ready b (xs ++ ys)
  Ready-append [] ys b h k = k
  Ready-append (store msg ∷ xs) ys b h k = Ready-append xs ys _ h k
  Ready-append (settle msg ∷ xs) ys b h k = (h.0, Ready-append xs ys _ h.1 k)

  abbrev pub settles : ConsumerMessage → Bool
  settles (store msg) = false
  settles (settle msg) = msg.correlation_id == t

  abbrev pub commands : AckCommand → Bool
  commands (ack tag) = tag == t
  commands (nack tag) = tag == t

  abbrev pub answers : Reply → Bool
  answers (basic_ack tag) = tag == t
  answers (basic_nack tag) = tag == t

  abbrev pub is_tag : ℕ → Bool
  is_tag tag = tag == t

  abbrev pub in_channel : Option AmqpConsumer → ℕ
  in_channel none = 0
  in_channel (some client) = count_if commands client.commands

  -- The account of the delivery: how often the tag was seen is how many messages stand for it, in
  -- work, in the inbox, in the channel, as an answer, or lost; and a message in work will find it
  -- pending.
  pub record Account (inbox : List ConsumerMessage) (pending : Bool)
      (seen work channel replied lost : ℕ) : Type 0 where
    pub counted : seen ≡ work + count_if settles inbox + channel + replied + lost
    pub once : seen ≤ 1
    pub ready : Ready pending inbox
    pub waiting : 0 < work → pending_after pending inbox ≡ true

module _ ⦃X : Crates⦄ (t : ℕ) where
  abbrev pub requests_it : EngineMessage → Bool
  requests_it (evaluate msg) = msg.correlation_id == t
  requests_it (update msg) = false

  abbrev pub results_it : PersistResults → Bool
  results_it msg = msg.correlation_id == t

  -- How many of its messages are with the engine or the sink, and how many answers it has.
  abbrev pub in_work : Pipeline → ℕ
  in_work p = count_if requests_it p.requests + count_if results_it p.results

  abbrev pub answered : Pipeline → ℕ
  answered p = count_if (answers t) p.replies

  -- The client exists, and the account of the delivery is in order.
  pub record Inv (p : Pipeline) : Type 0 where
    pub client : p.consumer.amqp_consumer ≢ none
    pub account :
        Account t p.inbox
          (contains t p.consumer.pending)
          (count_if (is_tag t) p.seen)
          (in_work p)
          (in_channel t p.consumer.amqp_consumer)
          (answered p)
          (count_if (is_tag t) p.lost)
