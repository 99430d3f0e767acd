-- ===== src/App/Pipeline/Honesty.antt =====
-- Deliveries and the turns of the consumer, and what is backed by the tables.
use fraud_guard.Base.{
  ℕ, String, List, [], ◌∷◌, ◌++◌, Bool, true, false, Option, none, some, Result, ok, err, ◌≡◌, refl,
  All, All-append, All-imp, Bool-cases, inl, inr, subst,
}
use fraud_guard.Domain.Error.{DomainError}
use fraud_guard.Domain.Crates.{Crates}
use fraud_guard.Domain.Transaction.{TransactionRequest}
use fraud_guard.Api.Consumer.{AmqpConsumer, send_ack, send_nack}
use fraud_guard.Api.EventLoop.{basic_nack}
use fraud_guard.Storage.Db.{Db}
use fraud_guard.App.Messages.{AckMessage}
use fraud_guard.App.Consumer
use fraud_guard.App.Consumer.{
  ConsumerActor, contains, ack_message, store_delivery, Links, handle_transaction,
}
use fraud_guard.App.Pipeline.{ConsumerMessage, store, settle, Pipeline, receive, hand_over, consume}
use fraud_guard.App.Pipeline.Promise.{
  Recorded, Backed, BackedMessage, BackedChannel, Honest, BackedMessage-mono, BackedCommand-mono,
  BackedReply-mono,
}

module _ ⦃X : Crates⦄ (Came : ℕ → TransactionRequest → Type 0) where
  -- A change of the tables that keeps the records keeps what is backed.
  pub Honest-db :
      (db db' : Db) (p : Pipeline)
      → ((tx : TransactionRequest) → Recorded tx db → Recorded tx db')
      → p.db ≡ db
      → Honest Came p
      → Honest Came (record p { db = db' })
  Honest-db db db' p mono e v = record {
    requests = v.requests;
    results = v.results;
    inbox = All-imp p.inbox (BackedMessage-mono Came p.db db' kept) v.inbox;
    channel = channel p.consumer.amqp_consumer v.channel;
    replies = All-imp p.replies (BackedReply-mono Came p.db db' kept) v.replies;
  }
    where
      kept : (tx : TransactionRequest) → Recorded tx p.db → Recorded tx db'
      kept tx r = mono tx (subst (Recorded tx) e r)

      channel :
          (client : Option AmqpConsumer)
          → BackedChannel Came p.db client
          → BackedChannel Came db' client
      channel none h = tt
      channel (some client) h = All-imp client.commands (BackedCommand-mono Came p.db db' kept) h

  refuse-Honest :
      (tag : ℕ) (p : Pipeline)
      → Honest Came p
      → Honest Came (record p { replies = p.replies ++ (basic_nack tag ∷ []) })
  refuse-Honest tag p v = record {
    requests = v.requests;
    results = v.results;
    inbox = v.inbox;
    channel = v.channel;
    replies = All-append _ p.replies _ v.replies (tt, tt);
  }

  hand_over-Honest :
      (upgrade : Bool) (told sent : Result (Unit {0}) String) (tx : TransactionRequest) (tag : ℕ)
      (p : Pipeline)
      → Came tag tx
      → Honest Came p
      → Honest Came
          (receive (ok tx) tag (record { upgrade = upgrade; store = told; evaluate = sent }) p)
  unfolding receive hand_over handle_transaction
  hand_over-Honest false told sent tx tag p came v = refuse-Honest tag p v
  hand_over-Honest true (err e) sent tx tag p came v = refuse-Honest tag p v
  hand_over-Honest true (ok _) (err e) tx tag p came v = record {
    requests = v.requests;
    results = v.results;
    inbox = All-append _ p.inbox _ v.inbox (tt, tt);
    channel = v.channel;
    replies = All-append _ p.replies _ v.replies (tt, tt);
  }
  hand_over-Honest true (ok _) (ok _) tx tag p came v = record {
    requests = All-append _ p.requests _ v.requests (came, tt);
    results = v.results;
    inbox = All-append _ p.inbox _ v.inbox (tt, tt);
    channel = v.channel;
    replies = v.replies;
  }

  pub receive-Honest :
      (parsed : Result TransactionRequest String) (tag : ℕ) (links : Links) (p : Pipeline)
      → ((tx : TransactionRequest) → parsed ≡ ok tx → Came tag tx)
      → Honest Came p
      → Honest Came (receive parsed tag links p)
  unfolding receive
  receive-Honest (err e) tag links p came v = refuse-Honest tag p v
  receive-Honest (ok tx) tag links p came v =
      hand_over-Honest links.upgrade links.store links.evaluate tx tag p (came tx refl) v

  answer_channel :
      (client : Option AmqpConsumer) (tag : ℕ) (result : Result (Unit {0}) DomainError) (db : Db)
      → (result ≡ ok tt → Backed Came db tag)
      → BackedChannel Came db client
      → BackedChannel Came db (Consumer.answer client tag result)
  unfolding send_ack send_nack
  answer_channel none tag result db backed h = tt
  answer_channel (some client) tag (ok _) db backed h =
      All-append _ client.commands _ h (backed refl, tt)
  answer_channel (some client) tag (err e) db backed h = All-append _ client.commands _ h (tt, tt)

  ack_message_channel :
      (c : ConsumerActor) (msg : AckMessage) (db : Db)
      → (msg.result ≡ ok tt → Backed Came db msg.correlation_id)
      → BackedChannel Came db c.amqp_consumer
      → BackedChannel Came db (ack_message c msg).amqp_consumer
  unfolding ack_message
  ack_message_channel c msg db backed h =
      elim (Bool-cases (contains msg.correlation_id c.pending)) [
        | inl held ↦
            rw (held, ack_message)
              (answer_channel c.amqp_consumer msg.correlation_id msg.result db backed h)
        | inr free ↦ rw (free, ack_message) h
      ]

  pub consume-Honest :
      (inbox : List ConsumerMessage) (p : Pipeline)
      → p.inbox ≡ inbox
      → Honest Came p
      → Honest Came (consume inbox p)
  unfolding consume store_delivery
  consume-Honest [] p e v = v
  consume-Honest (store msg ∷ rest) p e v = record {
    requests = v.requests;
    results = v.results;
    inbox = (subst (All (BackedMessage Came p.db)) e v.inbox).1;
    channel = v.channel;
    replies = v.replies;
  }
  consume-Honest (settle msg ∷ rest) p e v =
      let (backed, more) = subst (All (BackedMessage Came p.db)) e v.inbox in
      record {
        requests = v.requests;
        results = v.results;
        inbox = more;
        channel = ack_message_channel p.consumer msg p.db backed v.channel;
        replies = v.replies;
      }
