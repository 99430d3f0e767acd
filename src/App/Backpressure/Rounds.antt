-- ===== src/App/Backpressure/Rounds.antt =====
-- Rounds of the tasks that leave a command in the channel, or a message in a mailbox.
use fraud_guard.Base.{
  ℕ, zero, suc, ◌+◌, ◌≤◌, ◌<◌, List, [], ◌∷◌, ◌++◌, true, Option, none, some, ok, length,
  length-append, ◌≡◌, refl, arith,
}
use fraud_guard.Domain.Crates.{Crates, IsLawful}
use fraud_guard.Domain.Transaction.{TransactionRequest}
use fraud_guard.Storage.Db.{Db}
use fraud_guard.Storage.Sink.{Faults}
use fraud_guard.Api.Delivery.{Delivery, parse_delivery}
use fraud_guard.Api.Consumer.{AckCommand}
use fraud_guard.Api.EventLoop.{Reply}
use fraud_guard.App.Messages.{EvaluateTransactionRequest}
use fraud_guard.App.Consumer.{contains, insert, remove}
use fraud_guard.App.Consumer.Pending.{contains-insert}
use fraud_guard.App.Engine.{EngineActor, evaluate_transaction}
use fraud_guard.App.Sink.Answer.{persist_results_total}
use fraud_guard.App.Pipeline.{ConsumerMessage, store, settle, EngineMessage, evaluate}
use fraud_guard.App.Backpressure.{
  commands_capacity, command_of, selecting, storing, evaluating, Flow, deliver, store_told,
  evaluate_told, consumer_takes, consumer_sends, engine_takes, engine_tells, sink_takes, sink_tells,
  move, Trail, here, next,
}

module _ ⦃X : Crates⦄ (capacity : ℕ) where
  -- Every task is ready, and only commands wait.
  abbrev pub ready :
      List ConsumerMessage
      → List EngineMessage
      → Option AckCommand
      → List AckCommand
      → List ℕ
      → EngineActor
      → Db
      → List Reply
      → List ℕ
      → Flow
  ready inbox requests sending commands pending engine db replies seen = record {
    client = selecting;
    inbox = inbox;
    pending = pending;
    sending = sending;
    commands = commands;
    requests = requests;
    engine = engine;
    telling = none;
    results = [];
    db = db;
    settling = none;
    replies = replies;
    seen = seen;
  }

  pub Trail-trans : {s t u : Flow} → Trail capacity s t → Trail capacity t u → Trail capacity s u
  Trail-trans r here = r
  Trail-trans r (next q turn e) = next (Trail-trans r q) turn e

  -- The tags of the first deliveries of a stream, the last first.
  abbrev pub tags : (ℕ → Delivery) → ℕ → List ℕ
  tags ds zero = []
  tags ds (suc k) = (ds k).delivery_tag ∷ tags ds k

  module _ (L : IsLawful X) (faults : ℕ → Faults) (now : X.DateTime) (ds : ℕ → Delivery)
      (txs : ℕ → TransactionRequest) (parses : (k : ℕ) → parse_delivery now (ds k) ≡ ok (txs k))
      (engine : EngineActor) (replies : List Reply) where
    abbrev request : ℕ → EvaluateTransactionRequest
    request k = record { tx = txs k; correlation_id = (ds k).delivery_tag }

    abbrev entry : ℕ → ConsumerMessage
    entry k = store (record { correlation_id = (ds k).delivery_tag })

    -- The state after `k` deliveries.
    abbrev at :
        ℕ
        → List ConsumerMessage
        → List EngineMessage
        → Option AckCommand
        → List AckCommand
        → List ℕ
        → Db
        → Flow
    at k inbox requests sending commands pending db =
        ready inbox requests sending commands pending engine db replies (tags ds k)

    -- A delivery is handed over.
    hand_over :
        (k : ℕ) (inbox : List ConsumerMessage) (requests : List EngineMessage)
        (sending : Option AckCommand) (commands : List AckCommand) (pending : List ℕ) (db : Db)
        → length inbox < capacity
        → length requests < capacity
        → Trail capacity (at k inbox requests sending commands pending db) (
            at
              (suc k)
              (inbox ++ (entry k ∷ []))
              (requests ++ (evaluate (request k) ∷ []))
              sending
              commands
              pending
              db)
    unfolding move
    hand_over k inbox requests sending commands pending db i r =
        let s = at k inbox requests sending commands pending db in
        let t : Flow = record s { client = storing (request k); seen = tags ds (suc k) } in
        let u : Flow = record t {
          client = evaluating (request k);
          inbox = inbox ++ (entry k ∷ []);
        } in
        next {t = u}
          (next {t = t} (next {t = s} here (deliver now (ds k)) (rw (parses k) refl)) store_told
            (ground arith))
          evaluate_told (ground arith)

    -- With nothing under way, a delivery is decided and stored, and the consumer waits to send its
    -- command.
    pub settled :
        (k : ℕ) (commands : List AckCommand) (pending : List ℕ) (db : Db)
        → 0 < capacity
        → (cmd : AckCommand) × (pending' : List ℕ) × (db' : Db) × Trail capacity
            (at k [] [] none commands pending db)
            (at (suc k) [] [] (some cmd) commands pending' db')
    unfolding move evaluate_transaction
    settled k commands pending db room =
        let tag = (ds k).delivery_tag in
        let known = insert tag pending in
        let result = (evaluate_transaction engine (request k)).1 in
        let (db', reply, done, same, stored, atomic) = persist_results_total L faults result db in
        let held : contains reply.correlation_id known ≡ true =
          ground (arith, same, contains-insert reply.correlation_id tag pending) in
        let s0 = at (suc k) (entry k ∷ []) (evaluate (request k) ∷ []) none commands pending db in
        let s1 = at (suc k) [] (evaluate (request k) ∷ []) none commands known db in
        let s2 : Flow = record s1 { requests = []; telling = some result } in
        let s3 : Flow = record s1 { requests = []; results = result ∷ [] } in
        let s4 : Flow = record s1 { requests = []; db = db'; settling = some reply } in
        let s5 : Flow = record s1 { requests = []; db = db'; inbox = settle reply ∷ [] } in
        (
          command_of reply.correlation_id reply.result,
          remove reply.correlation_id known,
          db',
          next {t = s5}
              (next {t = s4}
                (next {t = s3}
                  (next {t = s2}
                    (next {t = s1}
                      (next {t = s0} (hand_over k [] [] none commands pending db room room)
                        consumer_takes refl)
                      engine_takes refl)
                    engine_tells (ground arith))
                  (sink_takes faults) (rw done refl))
                sink_tells (ground arith))
              consumer_takes (rw held refl),
        )

    -- A command waits more than before.
    one_more :
        (k : ℕ) (commands : List AckCommand) (pending : List ℕ) (db : Db)
        → 0 < capacity
        → length commands < commands_capacity
        → (commands' : List AckCommand) × (pending' : List ℕ) × (db' : Db) × (length commands'
            ≡ length commands + 1)
          × Trail capacity
              (at k [] [] none commands pending db)
              (at (suc k) [] [] none commands' pending' db')
    unfolding move
    one_more k commands pending db room free =
        let (cmd, pending', db', r) = settled k commands pending db room in
        (
          commands ++ (cmd ∷ []),
          pending',
          db',
          length-append commands (cmd ∷ []),
          next {t = at (suc k) [] [] (some cmd) commands pending' db'} r consumer_sends
              (ground arith),
        )

    pub many_more :
        (n k : ℕ) (commands : List AckCommand) (pending : List ℕ) (db : Db)
        → 0 < capacity
        → length commands + n ≤ commands_capacity
        → (k' : ℕ) × (commands' : List AckCommand) × (pending' : List ℕ) × (db' : Db) × (length
              commands'
            ≡ length commands + n)
          × Trail capacity
              (at k [] [] none commands pending db)
              (at k' [] [] none commands' pending' db')
    many_more zero k commands pending db room free = (k, commands, pending, db, omega arith, here)
    many_more (suc n) k commands pending db room free =
        let (commands', pending', db', e, r) = one_more k commands pending db room (omega arith) in
        let (k', commands'', pending'', db'', e', r') =
          many_more n (suc k) commands' pending' db' room (omega arith) in
        (k', commands'', pending'', db'', omega (arith, e, e'), Trail-trans r r')

    -- The mailboxes fill up while the consumer waits.
    pub fill :
        (n k : ℕ) (inbox : List ConsumerMessage) (requests : List EngineMessage) (cmd : AckCommand)
        (commands : List AckCommand) (pending : List ℕ) (db : Db)
        → length inbox + n ≤ capacity
        → length requests ≡ length inbox
        → (k' : ℕ) × (inbox' : List ConsumerMessage) × (requests' : List EngineMessage) × (length
              inbox'
            ≡ length inbox + n)
          × Trail capacity
              (at k inbox requests (some cmd) commands pending db)
              (at k' inbox' requests' (some cmd) commands pending db)
    fill zero k inbox requests cmd commands pending db free e =
        (k, inbox, requests, omega arith, here)
    fill (suc n) k inbox requests cmd commands pending db free e =
        let r =
          hand_over k inbox requests (some cmd) commands pending db (omega arith) (omega arith) in
        let i = length-append inbox (entry k ∷ []) in
        let q = length-append requests (evaluate (request k) ∷ []) in
        let (k', inbox', requests', e', r') =
          fill n (suc k) (inbox ++ (entry k ∷ [])) (requests ++ (evaluate (request k) ∷ [])) cmd
            commands pending db (omega (arith, i)) (omega (arith, i, q)) in
        (k', inbox', requests', omega (arith, e', i), Trail-trans r r')
