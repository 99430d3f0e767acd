-- ===== src/App/Pipeline/Forward.antt =====
-- The turns of the engine, the sink and the client, and the account of a delivery.
use fraud_guard.Base.{
  ℕ, List, [], ◌∷◌, ◌++◌, Bool, true, false, Option, none, some, ◌==◌, ◌≡◌, refl, arith,
  count_if-append, inl, inr, Bool-cases, Option-cases,
}
use fraud_guard.Domain.Crates.{Crates}
use fraud_guard.App.Pipeline.Account.{
  Account-cast, Account-settle, Account-settle_other, Account-reply, Account-lose,
}
use fraud_guard.Api.Consumer.{AmqpConsumer, AckCommand, ack, nack}
use fraud_guard.Domain.Rule.{Rule}
use fraud_guard.App.Messages.{AckMessage, PersistResults, UpdateRules, EvaluateTransactionRequest}
use fraud_guard.Storage.Sink.{Faults}
use fraud_guard.Storage.Db.{Db}
use fraud_guard.App.Sink.{persist_results}
use fraud_guard.App.Sink.Answer.{persist_results-tag}
use fraud_guard.Api.EventLoop.{perform}
use fraud_guard.App.Engine.{EngineActor, evaluate_transaction, update_rules}
use fraud_guard.App.Pipeline.{
  EngineMessage, evaluate, update, Pipeline, process, persist, answer, tell_consumer,
}
use fraud_guard.App.Pipeline.Tokens.{commands, answers, requests_it, results_it, Inv}

module _ ⦃X : Crates⦄ (t : ℕ) where
  pub evaluate_transaction-tag :
      (engine : EngineActor) (msg : EvaluateTransactionRequest)
      → (evaluate_transaction engine msg).1.correlation_id ≡ msg.correlation_id
  unfolding evaluate_transaction
  evaluate_transaction-tag engine msg = refl

  pub process-Inv :
      (sink_runs : Bool) (requests : List EngineMessage) (p : Pipeline)
      → p.requests ≡ requests
      → Inv t p
      → Inv t (process sink_runs requests p)
  unfolding process update_rules
  process-Inv sink_runs [] p e v = v
  process-Inv sink_runs (update msg ∷ rest) p e v = record {
    client = v.client;
    account = Account-cast t p.inbox refl refl (ground arith) refl refl refl v.account;
  }
  process-Inv true (evaluate msg ∷ rest) p e v =
      let result = (evaluate_transaction p.engine msg).1 in
      let same = evaluate_transaction-tag p.engine msg in
      record {
        client = v.client;
        account =
            Account-cast t p.inbox refl refl
              (ground (arith, same, count_if-append (results_it t) p.results (result ∷ []))) refl
              refl refl v.account;
      }
  process-Inv false (evaluate msg ∷ rest) p e v =
      let same = evaluate_transaction-tag p.engine msg in
      record {
        client = v.client;
        account = elim (Bool-cases (msg.correlation_id == t)) [
          | inl hit ↦ Account-cast t p.inbox refl refl refl refl refl (ground (arith, same)) (
              Account-lose t p.inbox _ _ _ _ _ _
                (Account-cast t p.inbox refl refl (ground arith) refl refl refl v.account))
          | inr miss ↦
              Account-cast t p.inbox refl refl (ground arith) refl refl (ground (arith, same))
                v.account
        ];
      }

  pub answers-perform : (cmd : AckCommand) → answers t (perform cmd) ≡ commands t cmd
  answers-perform (ack tag) = refl
  answers-perform (nack tag) = refl

  answer_command-Inv :
      (client : AmqpConsumer) (commands : List AckCommand) (p : Pipeline)
      → p.consumer.amqp_consumer ≡ some client
      → client.commands ≡ commands
      → Inv t p
      → Inv t (answer (some client) p)
  unfolding answer
  answer_command-Inv client [] p e k v = rw k v
  answer_command-Inv client (cmd ∷ rest) p e k v =
      let more = count_if-append (answers t) p.replies (perform cmd ∷ []) in
      let same = answers-perform cmd in
      rw k (record {
        client = ground arith;
        account = elim (Bool-cases (commands t cmd)) [
          | inl hit ↦ Account-cast t p.inbox refl refl refl refl (ground (arith, more, same)) refl (
              Account-reply t p.inbox _ _ _ _ _ _
                (Account-cast t p.inbox refl refl refl (rw e (ground arith)) refl refl v.account))
          | inr miss ↦
              Account-cast t p.inbox refl refl refl (rw e (ground arith))
                (ground (arith, more, same)) refl v.account
        ];
      })

  pub answer-Inv :
      (client : Option AmqpConsumer) (p : Pipeline)
      → p.consumer.amqp_consumer ≡ client
      → Inv t p
      → Inv t (answer client p)
  unfolding answer
  answer-Inv none p e v = v
  answer-Inv (some client) p e v = answer_command-Inv client client.commands p e refl v

  tell_consumer-Inv :
      (consumer_runs : Bool) (reply : AckMessage) (msg : PersistResults)
      (rest : List PersistResults) (db' : Db) (p : Pipeline)
      → p.results ≡ msg ∷ rest
      → reply.correlation_id ≡ msg.correlation_id
      → Inv t p
      → Inv t (tell_consumer consumer_runs reply (record p { results = rest; db = db' }))
  unfolding tell_consumer
  tell_consumer-Inv true reply msg rest db' p e same v = record {
    client = v.client;
    account = elim (Bool-cases (reply.correlation_id == t)) [
      | inl hit ↦
          Account-settle t p.inbox _ _ _ _ _ _ reply hit
            (Account-cast t p.inbox refl refl (ground arith) refl refl refl v.account)
      | inr miss ↦
          Account-settle_other t p.inbox _ _ _ _ _ _ reply miss
            (Account-cast t p.inbox refl refl (ground arith) refl refl refl v.account)
    ];
  }
  tell_consumer-Inv false reply msg rest db' p e same v = record {
    client = v.client;
    account = elim (Bool-cases (reply.correlation_id == t)) [
      | inl hit ↦ Account-cast t p.inbox refl refl refl refl refl (ground arith) (
          Account-lose t p.inbox _ _ _ _ _ _
            (Account-cast t p.inbox refl refl (ground arith) refl refl refl v.account))
      | inr miss ↦
          Account-cast t p.inbox refl refl (ground arith) refl refl (ground arith) v.account
    ];
  }

  pub persist-Inv :
      (faults : ℕ → Faults) (consumer_runs : Bool) (results : List PersistResults) (p : Pipeline)
      → p.results ≡ results
      → Inv t p
      → Inv t (persist faults consumer_runs results p)
  unfolding persist
  persist-Inv faults consumer_runs [] p e v = v
  persist-Inv faults consumer_runs (msg ∷ rest) p e v =
      elim (Option-cases (persist_results faults msg p.db)) [
        | inl stuck ↦ rw (stuck, persist) v
        | inr ((db', reply), done) ↦
            rw (done, persist)
              (tell_consumer-Inv consumer_runs reply msg rest db' p e
                (persist_results-tag faults msg p.db db' reply done) v)
      ]

  pub refresh-Inv :
      (rules : List Rule) (p : Pipeline)
      → Inv t p
      → Inv t (record p { requests = p.requests ++ (update (record { rules = rules }) ∷ []) })
  refresh-Inv rules p v =
      let msg : UpdateRules = record { rules = rules } in
      record {
        client = v.client;
        account =
            Account-cast t p.inbox refl refl
              (ground (arith, count_if-append (requests_it t) p.requests (update msg ∷ []))) refl
              refl refl v.account;
      }
