-- ===== src/App/Reconnect/Stale.antt =====
-- A result that is under way when the connection ends.
use fraud_guard.Base.{
  ℕ, String, List, [], ◌∷◌, true, false, some, ok, ◌≡◌, ◌≢◌, refl, arith, inl, inr, Bool-cases,
}
use fraud_guard.Domain.Crates.{Crates, IsLawful}
use fraud_guard.Domain.Transaction.{TransactionRequest}
use fraud_guard.Storage.Table.{has, add_or_nothing}
use fraud_guard.Storage.Table.Laws.{has-append, add_or_nothing_old, add_or_nothing_new}
use fraud_guard.Storage.Db.{Db, TransactionRow, transaction_key, transaction_row}
use fraud_guard.Storage.Db.Integrity.{persist as persist_rows}
use fraud_guard.Storage.Sink.{Faults}
use fraud_guard.Storage.Sink.Attempt.{IsClean, Stored}
use fraud_guard.Storage.Sink.Retry.{insert_recovers}
use fraud_guard.Api.Delivery.{Delivery, parse_delivery}
use fraud_guard.Api.Consumer
use fraud_guard.Api.Consumer.{ack}
use fraud_guard.Api.EventLoop.{basic_ack}
use fraud_guard.App.Messages.{EvaluateTransactionRequest, PersistResults}
use fraud_guard.App.Consumer.{
  Links, handle_transaction, store_delivery, ack_message, insert, remove,
}
use fraud_guard.App.Engine.{EngineActor, decide, evaluate_transaction}
use fraud_guard.App.Sink.{persist_results}
use fraud_guard.App.Pipeline.{
  store, settle, evaluate, Pipeline, Action, deliver, consumer_turn, engine_turn, sink_turn,
  client_turn, step, run,
}
use fraud_guard.App.Pipeline.Settlement.{deliveries}
use fraud_guard.App.Pipeline.Start.{queue_name, consuming, start}
use fraud_guard.App.Reconnect.{reconnected}

module _ ⦃X : Crates⦄ where
  has-add_or_nothing_other :
      IsLawful X
      → (id : X.Uuid) (row : TransactionRow) (rows : List TransactionRow) → row.transaction_id ≢ id
      → has transaction_key id rows ≡ false
      → has transaction_key id (add_or_nothing transaction_key row rows) ≡ false
  has-add_or_nothing_other L id row rows differ h =
      elim (Bool-cases (has transaction_key row.transaction_id rows)) [
        | inl old ↦ rw (add_or_nothing_old transaction_key row rows old) h
        | inr new ↦ rw (add_or_nothing_new transaction_key row rows new) (
            ground
              (arith, has-append transaction_key id rows row, L.uuid_eq_iff row.transaction_id id))
      ]

  Stored-other :
      IsLawful X
      → (msg : PersistResults) (db db' : Db) (id : X.Uuid) → Stored msg.tx msg.decision db db'
      → msg.tx.id.uuid ≢ id
      → has transaction_key id db.transactions ≡ false
      → has transaction_key id db'.transactions ≡ false
  unfolding persist_rows transaction_row
  Stored-other L msg db db' id (value, s, e) differ h =
      rw e (has-add_or_nothing_other L id (transaction_row msg.tx) db.transactions differ h)

  persist_results_clean :
      IsLawful X
      → (faults : ℕ → Faults) (msg : PersistResults) (db : Db) (value : X.Value)
      → X.decision_value msg.decision ≡ ok value
      → IsClean (faults 1)
      → (db' : Db) × (persist_results faults msg db
          ≡ some (db', record { correlation_id = msg.correlation_id; result = ok tt }))
        × Stored msg.tx msg.decision db db'
  unfolding persist_results
  persist_results_clean L faults msg db value v clean =
      let (o, done, good, stored) =
        insert_recovers L faults msg.tx msg.decision db value 0 v (omega arith) clean in
      (o.db, rw (done, good) refl, stored)

  abbrev all_run : Links
  all_run = record { upgrade = true; store = ok tt; evaluate = ok tt }

  -- The state before the consumer reads its mailbox.
  abbrev answering : String → EngineActor → EvaluateTransactionRequest → Db → Pipeline
  answering url engine request db = record (start url engine db) {
    inbox =
        store (record { correlation_id = request.correlation_id })
        ∷ store (record { correlation_id = request.correlation_id })
        ∷ settle (record { correlation_id = request.correlation_id; result = ok tt })
        ∷ [];
    requests = evaluate request ∷ [];
    seen = request.correlation_id ∷ [];
  }

  abbrev ending : List Action
  ending = consumer_turn ∷ consumer_turn ∷ consumer_turn ∷ client_turn ∷ []

  settled :
      (url : String) (tag : ℕ)
      → ack_message
          (store_delivery
            (store_delivery (consuming url) (record { correlation_id = tag }))
            (record { correlation_id = tag }))
          (record { correlation_id = tag; result = ok tt })
        ≡ record (consuming url) {
          amqp_consumer = some (record {
            amqp_url = url;
            queue_name = queue_name;
            task_handle = true;
            commands = ack tag ∷ [];
          });
        }
  unfolding consuming store_delivery ack_message insert remove Consumer.send_ack
  settled url tag = ground arith

  finished :
      (url : String) (engine : EngineActor) (request : EvaluateTransactionRequest) (db : Db)
      → let p = run ending (answering url engine request db) in
        (p.replies ≡ basic_ack request.correlation_id ∷ [])
        × (p.db ≡ db)
        × (p.requests ≡ evaluate request ∷ [])
  unfolding run step start
  finished url engine request db = rw (settled url request.correlation_id) (refl, refl, refl)

  module _ (L : IsLawful X) (url : String) (engine : EngineActor) (db : Db) (now : X.DateTime)
      (d1 d2 : Delivery) (tx1 tx2 : TransactionRequest) (value : X.Value)
      (faults : ℕ → Faults) where
    abbrev before : List Action
    before = deliver now d1 all_run ∷ engine_turn true ∷ []

    abbrev after : List Action
    after = deliver now d2 all_run ∷ sink_turn faults true ∷ ending

    abbrev request : EvaluateTransactionRequest
    request = record { tx = tx2; correlation_id = d2.delivery_tag }

    abbrev result : PersistResults
    result = record {
      tx = tx1;
      decision = decide engine.rules tx1;
      correlation_id = d1.delivery_tag;
    }

    run-after :
        (db' : Db)
        → parse_delivery now d1 ≡ ok tx1
        → parse_delivery now d2 ≡ ok tx2
        → d1.delivery_tag ≡ d2.delivery_tag
        → persist_results faults result db
          ≡ some (db', record { correlation_id = d1.delivery_tag; result = ok tt })
        → run after (reconnected (run before (start url engine db)))
          ≡ run ending (answering url engine request db')
    unfolding run step start reconnected handle_transaction evaluate_transaction
    run-after db' e1 e2 same done = rw (e1, e2, done) (rw same refl)

    -- With lawful crates: if two deliveries with the same tag, of two connections, parse as
    -- transactions of different identifiers, of which the second is not in the tables, and the decision
    -- on the first can be serialised and is stored without a fault, then some history delivers the tag
    -- once on each of the two connections, and ends with the queue told on the second one that the
    -- delivery is settled, although its transaction is not in the tables and has not been looked at by
    -- the engine.
    pub stale_ack :
        parse_delivery now d1 ≡ ok tx1
        → parse_delivery now d2 ≡ ok tx2
        → d1.delivery_tag ≡ d2.delivery_tag
        → tx1.id.uuid ≢ tx2.id.uuid
        → has transaction_key tx2.id.uuid db.transactions ≡ false
        → X.decision_value (decide engine.rules tx1) ≡ ok value
        → IsClean (faults 1)
        → (first : List Action) × (second : List Action) × (deliveries d2.delivery_tag first ≡ 1)
          × (deliveries d2.delivery_tag second ≡ 1)
          × let p = run second (reconnected (run first (start url engine db))) in
            (p.replies ≡ basic_ack d2.delivery_tag ∷ [])
            × (has transaction_key tx2.id.uuid p.db.transactions ≡ false)
            × (p.requests ≡ evaluate request ∷ [])
    stale_ack e1 e2 same differ absent v clean =
        let (db', done, stored) = persist_results_clean L faults result db value v clean in
        let e = run-after db' e1 e2 same done in
        let (replies, rows, requests) = finished url engine request db' in
        (
          before,
          after,
          ground (arith, same),
          ground arith,
          (
            rw e replies,
            rw (e, rows) (Stored-other L result db db' tx2.id.uuid stored differ absent),
            rw e requests,
          ),
        )
