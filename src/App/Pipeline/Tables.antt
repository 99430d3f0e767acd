-- ===== src/App/Pipeline/Tables.antt =====
-- How the tables change in a history.
use mathlib.Core.List.{Memᴰ}
use mathlib.Core.List.Memᴰ.{head}
use mathlib.Core.Option.{or_else}
use fraud_guard.Base.{
  ℕ, String, List, [], ◌∷◌, Bool, true, false, Option, none, some, Result, ok, err, ◌≡◌, refl, sym,
  subst, ◌⊎◌, inl, inr,
}
use fraud_guard.Domain.Crates.{Crates, IsLawful}
use fraud_guard.Domain.Decision.{Decision}
use fraud_guard.Domain.Transaction.{TransactionRequest}
use fraud_guard.Storage.Table.{find, has}
use fraud_guard.Storage.Table.Laws.{find-add_or_nothing, has-add_or_nothing_or}
use fraud_guard.Storage.Db.{Db, DecisionRow, transaction_row, transaction_key, decision_key}
use fraud_guard.Storage.Db.Integrity.{persist as persist_rows, decision_entry}
use fraud_guard.Storage.Sink.{Faults}
use fraud_guard.Storage.Sink.Attempt.{AllOrNothing}
use fraud_guard.Api.Consumer.{AmqpConsumer, AckCommand}
use fraud_guard.Api.Delivery.{parse_delivery}
use fraud_guard.App.Messages.{PersistResults}
use fraud_guard.App.Consumer.{Links}
use fraud_guard.App.Sink.Answer.{persist_results_total}
use fraud_guard.App.Pipeline.{
  ConsumerMessage, store, settle, EngineMessage, evaluate, update, Pipeline, Action, deliver,
  consumer_turn, engine_turn, sink_turn, refresh, client_turn, receive, hand_over, consume, process,
  persist, answer, tell_sink, tell_consumer, step, run,
}

module _ ⦃X : Crates⦄ where
  -- The tables stay, or all or nothing of a result that waited for the sink is stored.
  abbrev pub Changes : Pipeline → Db → Type 0
  Changes p db' =
      (db' ≡ p.db)
      ⊎ ((msg : PersistResults) × Memᴰ msg p.results × AllOrNothing msg.tx msg.decision p.db db')

  receive-db :
      (parsed : Result TransactionRequest String) (tag : ℕ) (links : Links) (p : Pipeline)
      → (receive parsed tag links p).db ≡ p.db
  unfolding receive hand_over
  receive-db (err e) tag links p = refl
  receive-db (ok tx) tag links p = refl

  consume-db : (inbox : List ConsumerMessage) (p : Pipeline) → (consume inbox p).db ≡ p.db
  unfolding consume
  consume-db [] p = refl
  consume-db (store msg ∷ rest) p = refl
  consume-db (settle msg ∷ rest) p = refl

  process-db :
      (sink_runs : Bool) (requests : List EngineMessage) (p : Pipeline)
      → (process sink_runs requests p).db ≡ p.db
  unfolding process tell_sink
  process-db sink_runs [] p = refl
  process-db sink_runs (update msg ∷ rest) p = refl
  process-db true (evaluate msg ∷ rest) p = refl
  process-db false (evaluate msg ∷ rest) p = refl

  answer_command-db :
      (client : AmqpConsumer) (commands : List AckCommand) (p : Pipeline)
      → client.commands ≡ commands
      → (answer (some client) p).db ≡ p.db
  unfolding answer
  answer_command-db client [] p e = rw e refl
  answer_command-db client (cmd ∷ rest) p e = rw e refl

  answer-db : (client : Option AmqpConsumer) (p : Pipeline) → (answer client p).db ≡ p.db
  unfolding answer
  answer-db none p = refl
  answer-db (some client) p = answer_command-db client client.commands p refl

  persist-Changes :
      IsLawful X
      → (faults : ℕ → Faults) (consumer_runs : Bool) (results : List PersistResults) (p : Pipeline)
      → p.results ≡ results
      → Changes p (persist faults consumer_runs results p).db
  unfolding persist tell_consumer
  persist-Changes L faults consumer_runs [] p e = inl refl
  persist-Changes L faults true (msg ∷ rest) p e =
      let (db', reply, done, same, stored, atomic) = persist_results_total L faults msg p.db in
      inr (msg, subst (Memᴰ msg) (sym e) (head refl), rw (done, persist) atomic)
  persist-Changes L faults false (msg ∷ rest) p e =
      let (db', reply, done, same, stored, atomic) = persist_results_total L faults msg p.db in
      inr (msg, subst (Memᴰ msg) (sym e) (head refl), rw (done, persist) atomic)

  pub step-Changes : IsLawful X → (a : Action) (p : Pipeline) → Changes p (step a p).db
  unfolding step
  step-Changes L (deliver now d links) p = inl (receive-db (parse_delivery now d) _ links _)
  step-Changes L consumer_turn p = inl (consume-db p.inbox p)
  step-Changes L (engine_turn sink_runs) p = inl (process-db sink_runs p.requests p)
  step-Changes L (sink_turn faults consumer_runs) p =
      persist-Changes L faults consumer_runs p.results p refl
  step-Changes L (refresh rules) p = inl refl
  step-Changes L client_turn p = inl (answer-db p.consumer.amqp_consumer p)

  -- What all-or-nothing keeps, a history keeps.
  run-Keeps :
      IsLawful X
      → (I : Db → Type 0)
        (keeps : (tx : TransactionRequest) (decision : Decision) (db db' : Db)
          → AllOrNothing tx decision db db'
          → I db
          → I db')
        (actions : List Action) (p : Pipeline)
      → I p.db
      → I (run actions p).db
  unfolding run
  run-Keeps L I keeps [] p i = i
  run-Keeps L I keeps (a ∷ actions) p i =
      run-Keeps L I keeps actions (step a p) (elim (step-Changes L a p) [
        | inl same ↦ subst I (sym same) i
        | inr (msg, m, atomic) ↦ keeps msg.tx msg.decision p.db (step a p).db atomic i
      ])

  -- An identifier has a row in both tables or in none.
  abbrev pub IsPaired : Db → Type 0
  IsPaired db =
      (id : X.Uuid) → has transaction_key id db.transactions ≡ has decision_key id db.decisions

  AllOrNothing-IsPaired :
      IsLawful X
      → (tx : TransactionRequest) (decision : Decision) (db db' : Db)
      → AllOrNothing tx decision db db'
      → IsPaired db
      → IsPaired db'
  unfolding persist_rows
  AllOrNothing-IsPaired L tx decision db db' (inl e) v id = rw e (v id)
  AllOrNothing-IsPaired L tx decision db db' (inr (value, s, e)) v id =
      let row = transaction_row tx in
      rw
        (
          e,
          has-add_or_nothing_or transaction_key L row db.transactions id,
          has-add_or_nothing_or decision_key L (decision_entry row value) db.decisions id,
          v id,
        )
        refl

  -- With lawful crates, no transaction is ever stored without its decision and no decision without its
  -- transaction: from a state in which every identifier has a row in both tables or in none, this
  -- holds after every history, whatever the interleaving and whatever faults the database has.
  pub run-IsPaired :
      IsLawful X
      → (actions : List Action) (p : Pipeline) → IsPaired p.db
      → IsPaired (run actions p).db
  run-IsPaired L = run-Keeps L IsPaired (AllOrNothing-IsPaired L)

  AllOrNothing-find :
      IsLawful X
      → (id : X.Uuid) (row : DecisionRow) (tx : TransactionRequest) (decision : Decision)
        (db db' : Db)
      → AllOrNothing tx decision db db'
      → find decision_key id db.decisions ≡ some row
      → find decision_key id db'.decisions ≡ some row
  unfolding persist_rows or_else
  AllOrNothing-find L id row tx decision db db' (inl e) h = rw e h
  AllOrNothing-find L id row tx decision db db' (inr (value, s, e)) h =
      rw
        (
          e,
          find-add_or_nothing decision_key L (decision_entry (transaction_row tx) value)
              db.decisions id,
          h,
        )
        refl

  -- With lawful crates, a decision that the table has for an identifier is the one it has after every
  -- history: neither a delivery that comes again, nor other rules, nor a fault of the database
  -- changes or removes it.
  pub run-find :
      IsLawful X
      → (id : X.Uuid) (row : DecisionRow) (actions : List Action) (p : Pipeline)
      → find decision_key id p.db.decisions ≡ some row
      → find decision_key id (run actions p).db.decisions ≡ some row
  run-find L id row =
      run-Keeps L (λ db. find decision_key id db.decisions ≡ some row) (AllOrNothing-find L id row)
