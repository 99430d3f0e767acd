-- ===== src/App/Pipeline/Answering.antt =====
-- The turns of the engine, the sink and the client, and what is backed by the tables.
use fraud_guard.Base.{
  ℕ, List, [], ◌∷◌, Bool, true, false, Option, none, some, ok, ◌≡◌, refl, All, All-append, subst,
  sym,
}
use fraud_guard.Domain.Decision.{Decision}
use fraud_guard.Domain.Crates.{Crates, IsLawful}
use fraud_guard.Domain.Transaction.{TransactionRequest}
use fraud_guard.Api.Consumer.{AmqpConsumer, AckCommand, ack, nack}
use fraud_guard.Api.EventLoop.{perform}
use fraud_guard.Storage.Db.{Db}
use fraud_guard.Storage.Sink.{Faults}
use fraud_guard.Storage.Sink.Attempt.{Stored}
use fraud_guard.App.Messages.{AckMessage, PersistResults, EvaluateTransactionRequest}
use fraud_guard.App.Engine.{EngineActor, evaluate_transaction, update_rules}
use fraud_guard.App.Sink.Answer.{persist_results_total}
use fraud_guard.App.Pipeline.{
  EngineMessage, evaluate, update, Pipeline, process, persist, answer, tell_consumer,
}
use fraud_guard.App.Pipeline.Honesty.{Honest-db}
use fraud_guard.App.Pipeline.Promise.{
  Recorded, Recorded-persist, Recorded-mono, Backed, RequestCame, ResultCame, BackedCommand,
  BackedChannel, BackedReply, Honest,
}

module _ ⦃X : Crates⦄ (Came : ℕ → TransactionRequest → Type 0) where
  pub evaluate_transaction-tx :
      (engine : EngineActor) (msg : EvaluateTransactionRequest)
      → Came msg.correlation_id msg.tx
      → ResultCame Came (evaluate_transaction engine msg).1
  unfolding evaluate_transaction
  evaluate_transaction-tx engine msg h = h

  pub process-Honest :
      (sink_runs : Bool) (requests : List EngineMessage) (p : Pipeline)
      → p.requests ≡ requests
      → Honest Came p
      → Honest Came (process sink_runs requests p)
  unfolding process update_rules
  process-Honest sink_runs [] p e v = v
  process-Honest sink_runs (update msg ∷ rest) p e v = record {
    requests = (subst (All (RequestCame Came)) e v.requests).1;
    results = v.results;
    inbox = v.inbox;
    channel = v.channel;
    replies = v.replies;
  }
  process-Honest true (evaluate msg ∷ rest) p e v =
      let (came, more) = subst (All (RequestCame Came)) e v.requests in
      record {
        requests = more;
        results =
            All-append _ p.results _ v.results (evaluate_transaction-tx p.engine msg came, tt);
        inbox = v.inbox;
        channel = v.channel;
        replies = v.replies;
      }
  process-Honest false (evaluate msg ∷ rest) p e v = record {
    requests = (subst (All (RequestCame Came)) e v.requests).1;
    results = v.results;
    inbox = v.inbox;
    channel = v.channel;
    replies = v.replies;
  }

  pub perform-backed :
      (db : Db) (cmd : AckCommand) → BackedCommand Came db cmd → BackedReply Came db (perform cmd)
  perform-backed db (ack tag) h = h
  perform-backed db (nack tag) h = h

  answer_command-Honest :
      (client : AmqpConsumer) (commands : List AckCommand) (p : Pipeline)
      → client.commands ≡ commands
      → All (BackedCommand Came p.db) commands
      → Honest Came p
      → Honest Came (answer (some client) p)
  unfolding answer
  answer_command-Honest client [] p k h v = rw k v
  answer_command-Honest client (cmd ∷ rest) p k h v = rw k (record {
    requests = v.requests;
    results = v.results;
    inbox = v.inbox;
    channel = h.1;
    replies = All-append _ p.replies _ v.replies (perform-backed p.db cmd h.0, tt);
  })

  pub answer-Honest :
      (client : Option AmqpConsumer) (p : Pipeline)
      → p.consumer.amqp_consumer ≡ client
      → Honest Came p
      → Honest Came (answer client p)
  unfolding answer
  answer-Honest none p e v = v
  answer-Honest (some client) p e v =
      answer_command-Honest client client.commands p refl
        (subst (BackedChannel Came p.db) e v.channel) v

  tell_consumer-Honest :
      (consumer_runs : Bool) (reply : AckMessage) (p : Pipeline)
      → (reply.result ≡ ok tt → Backed Came p.db reply.correlation_id)
      → Honest Came p
      → Honest Came (tell_consumer consumer_runs reply p)
  unfolding tell_consumer
  tell_consumer-Honest true reply p backed v = record {
    requests = v.requests;
    results = v.results;
    inbox = All-append _ p.inbox _ v.inbox (backed, tt);
    channel = v.channel;
    replies = v.replies;
  }
  tell_consumer-Honest false reply p backed v = record {
    requests = v.requests;
    results = v.results;
    inbox = v.inbox;
    channel = v.channel;
    replies = v.replies;
  }

  pub Stored-Recorded :
      IsLawful X
      → (tx : TransactionRequest) (decision : Decision) (db db' : Db) → Stored tx decision db db'
      → Recorded tx db'
  Stored-Recorded L tx decision db db' (value, s, e) = rw e (Recorded-persist L tx value db)

  pub persist-Honest :
      IsLawful X
      → (faults : ℕ → Faults) (consumer_runs : Bool) (results : List PersistResults) (p : Pipeline)
      → p.results ≡ results
      → Honest Came p
      → Honest Came (persist faults consumer_runs results p)
  unfolding persist
  persist-Honest L faults consumer_runs [] p e v = v
  persist-Honest L faults consumer_runs (msg ∷ rest) p e v =
      let (db', reply, done, same, stored, atomic) = persist_results_total L faults msg p.db in
      let (came, more) = subst (All (ResultCame Came)) e v.results in
      let moved : Honest Came (record p { results = rest; db = db' }) =
        Honest-db Came p.db db' (record p { results = rest })
          (λ tx r. Recorded-mono tx msg.tx msg.decision p.db db' atomic r) refl
          (record {
            requests = v.requests;
            results = more;
            inbox = v.inbox;
            channel = v.channel;
            replies = v.replies;
          }) in
      rw (done, persist)
        (tell_consumer-Honest consumer_runs reply (record p { results = rest; db = db' })
          (λ good. (
            msg.tx,
            subst (λ tag. Came tag msg.tx) (sym same) came,
            Stored-Recorded L msg.tx msg.decision p.db db' (stored good),
          ))
          moved)
