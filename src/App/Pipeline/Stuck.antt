-- ===== src/App/Pipeline/Stuck.antt =====
-- A tag in the pending set that nothing under way will settle.
use fraud_guard.Base.{
  ℕ, String, List, [], ◌∷◌, Bool, true, false, Option, none, some, Result, ok, err, ◌==◌, ◌≡◌, refl,
  subst, arith, count_if, count_if-append, Option-cases, inl, inr,
}
use fraud_guard.Domain.Crates.{Crates}
use fraud_guard.Domain.Transaction.{TransactionRequest}
use fraud_guard.Storage.Sink.{Faults}
use fraud_guard.Api.Consumer.{AmqpConsumer, AckCommand}
use fraud_guard.Api.Delivery.{parse_delivery}
use fraud_guard.App.Messages.{AckMessage, PersistResults}
use fraud_guard.App.Consumer.{
  ConsumerActor, contains, store_delivery, ack_message, Links, handle_transaction,
}
use fraud_guard.App.Consumer.Pending.{contains-insert, contains-remove}
use fraud_guard.App.Engine.{evaluate_transaction, update_rules}
use fraud_guard.App.Sink.{persist_results}
use fraud_guard.App.Sink.Answer.{persist_results-tag}
use fraud_guard.App.Pipeline.{
  ConsumerMessage, store, settle, EngineMessage, evaluate, update, Pipeline, Action, deliver,
  consumer_turn, engine_turn, sink_turn, refresh, client_turn, receive, hand_over, consume, process,
  tell_sink, persist, tell_consumer, answer, step, run,
}
use fraud_guard.App.Pipeline.Tokens.{
  pending_after, pending_after-append, settles, requests_it, results_it,
}
use fraud_guard.App.Pipeline.Settlement.{deliveries}

module _ ⦃X : Crates⦄ (t : ℕ) where
  -- The tag is pending once the inbox is read, and nothing is under way that would settle it.
  pub record Stuck (p : Pipeline) : Type 0 where
    pub pending : pending_after t (contains t p.consumer.pending) p.inbox ≡ true
    pub read : count_if (settles t) p.inbox ≡ 0
    pub requests : count_if (requests_it t) p.requests ≡ 0
    pub results : count_if (results_it t) p.results ≡ 0

  hand_over-Stuck :
      (upgrade : Bool) (told sent : Result (Unit {0}) String) (tx : TransactionRequest) (tag : ℕ)
      (p : Pipeline)
      → (tag == t) ≡ false
      → Stuck p
      → Stuck (receive (ok tx) tag (record { upgrade = upgrade; store = told; evaluate = sent }) p)
  unfolding receive hand_over handle_transaction
  hand_over-Stuck false told sent tx tag p e v = record {
    pending = v.pending;
    read = v.read;
    requests = v.requests;
    results = v.results;
  }
  hand_over-Stuck true (err m) sent tx tag p e v = record {
    pending = v.pending;
    read = v.read;
    requests = v.requests;
    results = v.results;
  }
  hand_over-Stuck true (ok _) (err m) tx tag p e v = record {
    pending = rw (pending_after-append, v.pending, e) refl;
    read = rw (count_if-append, v.read) refl;
    requests = v.requests;
    results = v.results;
  }
  hand_over-Stuck true (ok _) (ok _) tx tag p e v = record {
    pending = rw (pending_after-append, v.pending, e) refl;
    read = rw (count_if-append, v.read) refl;
    requests = ground (
      arith,
      e,
      v.requests,
      count_if-append (requests_it t) p.requests
          (evaluate (record { tx = tx; correlation_id = tag }) ∷ []),
    );
    results = v.results;
  }

  receive-Stuck :
      (parsed : Result TransactionRequest String) (tag : ℕ) (links : Links) (p : Pipeline)
      → (tag == t) ≡ false
      → Stuck p
      → Stuck (receive parsed tag links p)
  unfolding receive
  receive-Stuck (err m) tag links p e v = record {
    pending = v.pending;
    read = v.read;
    requests = v.requests;
    results = v.results;
  }
  receive-Stuck (ok tx) tag links p e v =
      hand_over-Stuck links.upgrade links.store links.evaluate tx tag p e v

  ack_message-pending :
      (c : ConsumerActor) (msg : AckMessage)
      → (msg.correlation_id == t) ≡ false
      → contains t (ack_message c msg).pending ≡ contains t c.pending
  unfolding ack_message
  ack_message-pending c msg e = ground (arith, contains-remove t msg.correlation_id c.pending)

  consume-Stuck :
      (inbox : List ConsumerMessage) (p : Pipeline)
      → p.inbox ≡ inbox
      → Stuck p
      → Stuck (consume inbox p)
  unfolding consume store_delivery
  consume-Stuck [] p e v = v
  consume-Stuck (store msg ∷ rest) p e v =
      let pending =
        subst (λ l. pending_after t (contains t p.consumer.pending) l ≡ true) e v.pending in
      let read = subst (λ l. count_if (settles t) l ≡ 0) e v.read in
      record {
        pending = rw contains-insert pending;
        read = read;
        requests = v.requests;
        results = v.results;
      }
  consume-Stuck (settle msg ∷ rest) p e v =
      let pending =
        subst (λ l. pending_after t (contains t p.consumer.pending) l ≡ true) e v.pending in
      let read = subst (λ l. count_if (settles t) l ≡ 0) e v.read in
      let other : (msg.correlation_id == t) ≡ false = ground arith in
      record {
        pending = rw (ack_message-pending p.consumer msg other) (rw other at pending);
        read = ground arith;
        requests = v.requests;
        results = v.results;
      }

  process-Stuck :
      (sink_runs : Bool) (requests : List EngineMessage) (p : Pipeline)
      → p.requests ≡ requests
      → Stuck p
      → Stuck (process sink_runs requests p)
  unfolding process tell_sink update_rules evaluate_transaction
  process-Stuck sink_runs [] p e v = v
  process-Stuck sink_runs (update msg ∷ rest) p e v = record {
    pending = v.pending;
    read = v.read;
    requests = subst (λ l. count_if (requests_it t) l ≡ 0) e v.requests;
    results = v.results;
  }
  process-Stuck true (evaluate msg ∷ rest) p e v =
      let requests = subst (λ l. count_if (requests_it t) l ≡ 0) e v.requests in
      record {
        pending = v.pending;
        read = v.read;
        requests = ground arith;
        results = ground (
          arith,
          v.results,
          count_if-append (results_it t) p.results ((evaluate_transaction p.engine msg).1 ∷ []),
        );
      }
  process-Stuck false (evaluate msg ∷ rest) p e v =
      let requests = subst (λ l. count_if (requests_it t) l ≡ 0) e v.requests in
      record { pending = v.pending; read = v.read; requests = ground arith; results = v.results }

  tell_consumer-Stuck :
      (consumer_runs : Bool) (reply : AckMessage) (p : Pipeline)
      → (reply.correlation_id == t) ≡ false
      → Stuck p
      → Stuck (tell_consumer consumer_runs reply p)
  unfolding tell_consumer
  tell_consumer-Stuck true reply p e v = record {
    pending = rw (pending_after-append, v.pending, e) refl;
    read = ground (arith, v.read, count_if-append (settles t) p.inbox (settle reply ∷ []));
    requests = v.requests;
    results = v.results;
  }
  tell_consumer-Stuck false reply p e v = record {
    pending = v.pending;
    read = v.read;
    requests = v.requests;
    results = v.results;
  }

  persist-Stuck :
      (faults : ℕ → Faults) (consumer_runs : Bool) (results : List PersistResults) (p : Pipeline)
      → p.results ≡ results
      → Stuck p
      → Stuck (persist faults consumer_runs results p)
  unfolding persist
  persist-Stuck faults consumer_runs [] p e v = v
  persist-Stuck faults consumer_runs (msg ∷ rest) p e v =
      let results = subst (λ l. count_if (results_it t) l ≡ 0) e v.results in
      elim (Option-cases (persist_results faults msg p.db)) [
        | inl stuck ↦ rw (stuck, persist) v
        | inr ((db', reply), done) ↦
            let same = persist_results-tag faults msg p.db db' reply done in
            rw (done, persist)
              (tell_consumer-Stuck consumer_runs reply (record p { results = rest; db = db' })
                (ground (arith, same))
                (record {
                  pending = v.pending;
                  read = v.read;
                  requests = v.requests;
                  results = ground arith;
                }))
      ]

  answer-Stuck : (client : Option AmqpConsumer) (p : Pipeline) → Stuck p → Stuck (answer client p)
  unfolding answer
  answer-Stuck none p v = v
  answer-Stuck (some client) p v = answer_commands client.commands refl
    where
      answer_commands :
          (commands : List AckCommand) → client.commands ≡ commands → Stuck (answer (some client) p)
      answer_commands [] e = rw e v
      answer_commands (cmd ∷ rest) e = rw e (record {
        pending = v.pending;
        read = v.read;
        requests = v.requests;
        results = v.results;
      })

  step-Stuck : (a : Action) (p : Pipeline) → deliveries t (a ∷ []) ≡ 0 → Stuck p → Stuck (step a p)
  unfolding step
  step-Stuck (deliver now d links) p fresh v =
      receive-Stuck (parse_delivery now d) d.delivery_tag links
        (record p { seen = d.delivery_tag ∷ p.seen }) (ground arith)
        (record { pending = v.pending; read = v.read; requests = v.requests; results = v.results })
  step-Stuck consumer_turn p fresh v = consume-Stuck p.inbox p refl v
  step-Stuck (engine_turn sink_runs) p fresh v = process-Stuck sink_runs p.requests p refl v
  step-Stuck (sink_turn faults consumer_runs) p fresh v =
      persist-Stuck faults consumer_runs p.results p refl v
  step-Stuck (refresh rules) p fresh v = record {
    pending = v.pending;
    read = v.read;
    requests = ground (
      arith,
      v.requests,
      count_if-append (requests_it t) p.requests (update (record { rules = rules }) ∷ []),
    );
    results = v.results;
  }
  step-Stuck client_turn p fresh v = answer-Stuck p.consumer.amqp_consumer p v

  pub run-Stuck :
      (actions : List Action) (p : Pipeline)
      → deliveries t actions ≡ 0
      → Stuck p
      → Stuck (run actions p)
  unfolding run
  run-Stuck [] p fresh v = v
  run-Stuck (a ∷ actions) p fresh v =
      run-Stuck actions (step a p) (ground arith) (step-Stuck a p (ground arith) v)
