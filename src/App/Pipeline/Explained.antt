-- ===== src/App/Pipeline/Explained.antt =====
-- Where the decisions in the tables come from.
use fraud_guard.Base.{
  ℕ, String, List, [], ◌∷◌, Bool, true, false, Option, none, some, Result, ok, err, ◌⊎◌, inl, inr,
  ◌≡◌, refl, subst, All, All-append,
}
use fraud_guard.Domain.Crates.{Crates, IsLawful}
use fraud_guard.Domain.Decision.{Decision}
use fraud_guard.Domain.Rule.{Rule}
use fraud_guard.Domain.Transaction.{TransactionRequest}
use fraud_guard.Storage.Table.Laws.{All-add_or_nothing}
use fraud_guard.Storage.Db.{Db, DecisionRow, transaction_row, decision_key}
use fraud_guard.Storage.Db.Integrity.{persist as persist_rows, decision_entry}
use fraud_guard.Storage.Sink.{Faults}
use fraud_guard.Storage.Sink.Attempt.{AllOrNothing}
use fraud_guard.Api.Consumer.{AmqpConsumer, AckCommand}
use fraud_guard.Api.Delivery.{parse_delivery}
use fraud_guard.App.Messages.{EvaluateTransactionRequest, PersistResults}
use fraud_guard.App.Consumer.{Links, handle_transaction}
use fraud_guard.App.Engine.{EngineActor, decide, evaluate_transaction, update_rules}
use fraud_guard.App.Sink.Answer.{persist_results_total}
use fraud_guard.App.Pipeline.{
  ConsumerMessage, store, settle, EngineMessage, evaluate, update, Pipeline, Action, deliver,
  consumer_turn, engine_turn, sink_turn, refresh, client_turn, receive, hand_over, consume, process,
  persist, answer, tell_sink, tell_consumer, step, run,
}

-- `Came` says which transactions came under which tags, `InForce` which rules the engine may have,
-- and `Old` which rows were there before.
module _ ⦃X : Crates⦄ (Came : ℕ → TransactionRequest → Type 0) (InForce : List Rule → Type 0)
    (Old : DecisionRow → Type 0) where
  -- The decision of the engine by some rules in force.
  abbrev pub Made : Decision → TransactionRequest → Type 0
  Made decision tx = (rules : List Rule) × InForce rules × (decision ≡ decide rules tx)

  abbrev pub RequestOk : EngineMessage → Type 0
  RequestOk (evaluate msg) = Came msg.correlation_id msg.tx
  RequestOk (update msg) = InForce msg.rules

  abbrev pub ResultOk : PersistResults → Type 0
  ResultOk msg = Came msg.correlation_id msg.tx × Made msg.decision msg.tx

  -- The row was there, or is a decision that was made for a transaction that came.
  abbrev pub RowOk : DecisionRow → Type 0
  RowOk row =
      Old row
      ⊎ ((tag : ℕ) × (tx : TransactionRequest) × (decision : Decision) × Came tag tx
          × Made decision tx
          × (row.transaction_id ≡ tx.id.uuid)
          × (X.decision_value decision ≡ ok row.decision))

  pub record Explained (p : Pipeline) : Type 0 where
    pub requests : All RequestOk p.requests
    pub in_force : InForce p.engine.rules
    pub results : All ResultOk p.results
    pub rows : All RowOk p.db.decisions

  evaluate_transaction-ResultOk :
      (engine : EngineActor) (msg : EvaluateTransactionRequest)
      → Came msg.correlation_id msg.tx
      → InForce engine.rules
      → ResultOk (evaluate_transaction engine msg).1
        × InForce (evaluate_transaction engine msg).0.rules
  unfolding evaluate_transaction
  evaluate_transaction-ResultOk engine msg came f = ((came, (engine.rules, f, refl)), f)

  hand_over-Explained :
      (upgrade : Bool) (stored evaluated : Result (Unit {0}) String) (tx : TransactionRequest)
      (tag : ℕ) (p : Pipeline)
      → Came tag tx
      → Explained p
      → Explained (
          receive
            (ok tx)
            tag
            (record { upgrade = upgrade; store = stored; evaluate = evaluated })
            p)
  unfolding receive hand_over handle_transaction
  hand_over-Explained true (ok _) (ok _) tx tag p came v = record {
    requests = All-append _ p.requests _ v.requests (came, tt);
    in_force = v.in_force;
    results = v.results;
    rows = v.rows;
  }
  hand_over-Explained true (ok _) (err e) tx tag p came v = record {
    requests = v.requests;
    in_force = v.in_force;
    results = v.results;
    rows = v.rows;
  }
  hand_over-Explained true (err e) _ tx tag p came v = record {
    requests = v.requests;
    in_force = v.in_force;
    results = v.results;
    rows = v.rows;
  }
  hand_over-Explained false _ _ tx tag p came v = record {
    requests = v.requests;
    in_force = v.in_force;
    results = v.results;
    rows = v.rows;
  }

  receive-Explained :
      (parsed : Result TransactionRequest String) (tag : ℕ) (links : Links) (p : Pipeline)
      → ((tx : TransactionRequest) → parsed ≡ ok tx → Came tag tx)
      → Explained p
      → Explained (receive parsed tag links p)
  unfolding receive hand_over handle_transaction
  receive-Explained (err e) tag links p came v = record {
    requests = v.requests;
    in_force = v.in_force;
    results = v.results;
    rows = v.rows;
  }
  receive-Explained (ok tx) tag links p came v =
      hand_over-Explained links.upgrade links.store links.evaluate tx tag p (came tx refl) v

  consume-Explained :
      (inbox : List ConsumerMessage) (p : Pipeline) → Explained p → Explained (consume inbox p)
  unfolding consume
  consume-Explained [] p v = v
  consume-Explained (store msg ∷ rest) p v = record {
    requests = v.requests;
    in_force = v.in_force;
    results = v.results;
    rows = v.rows;
  }
  consume-Explained (settle msg ∷ rest) p v = record {
    requests = v.requests;
    in_force = v.in_force;
    results = v.results;
    rows = v.rows;
  }

  process-Explained :
      (sink_runs : Bool) (requests : List EngineMessage) (p : Pipeline)
      → p.requests ≡ requests
      → Explained p
      → Explained (process sink_runs requests p)
  unfolding process tell_sink update_rules
  process-Explained sink_runs [] p e v = v
  process-Explained sink_runs (update msg ∷ rest) p e v =
      let (f, more) = subst (All RequestOk) e v.requests in
      record { requests = more; in_force = f; results = v.results; rows = v.rows }
  process-Explained true (evaluate msg ∷ rest) p e v =
      let (came, more) = subst (All RequestOk) e v.requests in
      let (r, f) = evaluate_transaction-ResultOk p.engine msg came v.in_force in
      record {
        requests = more;
        in_force = f;
        results = All-append _ p.results _ v.results (r, tt);
        rows = v.rows;
      }
  process-Explained false (evaluate msg ∷ rest) p e v =
      let (came, more) = subst (All RequestOk) e v.requests in
      let (r, f) = evaluate_transaction-ResultOk p.engine msg came v.in_force in
      record { requests = more; in_force = f; results = v.results; rows = v.rows }

  AllOrNothing-RowOk :
      (msg : PersistResults) (db db' : Db)
      → ResultOk msg
      → AllOrNothing msg.tx msg.decision db db'
      → All RowOk db.decisions
      → All RowOk db'.decisions
  unfolding persist_rows transaction_row
  AllOrNothing-RowOk msg db db' k (inl e) rows = rw e rows
  AllOrNothing-RowOk msg db db' k (inr (value, s, e)) rows = rw e (
      All-add_or_nothing decision_key RowOk (decision_entry (transaction_row msg.tx) value)
        db.decisions (inr (msg.correlation_id, msg.tx, msg.decision, k.0, k.1, refl, s)) rows)

  persist-Explained :
      IsLawful X
      → (faults : ℕ → Faults) (consumer_runs : Bool) (results : List PersistResults) (p : Pipeline)
      → p.results ≡ results
      → Explained p
      → Explained (persist faults consumer_runs results p)
  unfolding persist tell_consumer
  persist-Explained L faults consumer_runs [] p e v = v
  persist-Explained L faults true (msg ∷ rest) p e v =
      let (db', reply, done, same, stored, atomic) = persist_results_total L faults msg p.db in
      let (k, more) = subst (All ResultOk) e v.results in
      rw (done, persist)
        (record {
          requests = v.requests;
          in_force = v.in_force;
          results = more;
          rows = AllOrNothing-RowOk msg p.db db' k atomic v.rows;
        })
  persist-Explained L faults false (msg ∷ rest) p e v =
      let (db', reply, done, same, stored, atomic) = persist_results_total L faults msg p.db in
      let (k, more) = subst (All ResultOk) e v.results in
      rw (done, persist)
        (record {
          requests = v.requests;
          in_force = v.in_force;
          results = more;
          rows = AllOrNothing-RowOk msg p.db db' k atomic v.rows;
        })

  answer_command-Explained :
      (client : AmqpConsumer) (commands : List AckCommand) (p : Pipeline)
      → client.commands ≡ commands
      → Explained p
      → Explained (answer (some client) p)
  unfolding answer
  answer_command-Explained client [] p k v = rw k v
  answer_command-Explained client (cmd ∷ rest) p k v =
      rw k (record {
        requests = v.requests;
        in_force = v.in_force;
        results = v.results;
        rows = v.rows;
      })

  answer-Explained :
      (client : Option AmqpConsumer) (p : Pipeline) → Explained p → Explained (answer client p)
  unfolding answer
  answer-Explained none p v = v
  answer-Explained (some client) p v = answer_command-Explained client client.commands p refl v

  -- What the action brings is as `Came` and `InForce` say.
  abbrev pub Brings : Action → Type 0
  Brings (deliver now d links) =
      (tx : TransactionRequest) → parse_delivery now d ≡ ok tx → Came d.delivery_tag tx
  Brings consumer_turn = Unit
  Brings (engine_turn sink_runs) = Unit
  Brings (sink_turn faults consumer_runs) = Unit
  Brings (refresh rules) = InForce rules
  Brings client_turn = Unit

  pub step-Explained :
      IsLawful X → (a : Action) (p : Pipeline) → Brings a → Explained p → Explained (step a p)
  unfolding step
  step-Explained L (deliver now d links) p came v =
      receive-Explained (parse_delivery now d) d.delivery_tag links
        (record p { seen = d.delivery_tag ∷ p.seen }) came
        (record {
          requests = v.requests;
          in_force = v.in_force;
          results = v.results;
          rows = v.rows;
        })
  step-Explained L consumer_turn p b v = consume-Explained p.inbox p v
  step-Explained L (engine_turn sink_runs) p b v = process-Explained sink_runs p.requests p refl v
  step-Explained L (sink_turn faults consumer_runs) p b v =
      persist-Explained L faults consumer_runs p.results p refl v
  step-Explained L (refresh rules) p b v = record {
    requests = All-append _ p.requests _ v.requests (b, tt);
    in_force = v.in_force;
    results = v.results;
    rows = v.rows;
  }
  step-Explained L client_turn p b v = answer-Explained p.consumer.amqp_consumer p v

  pub run-Explained :
      IsLawful X
      → (actions : List Action) (p : Pipeline) → All Brings actions
      → Explained p
      → Explained (run actions p)
  unfolding run
  run-Explained L [] p b v = v
  run-Explained L (a ∷ actions) p b v =
      run-Explained L actions (step a p) b.1 (step-Explained L a p b.0 v)
