-- ===== src/App/Pipeline/Promise.antt =====
-- The messages, commands and replies of the pipeline that stand for a success, against the tables.
use fraud_guard.Base.{ℕ, true, Option, none, some, ok, ◌≡◌, All, inl, inr}
use fraud_guard.Domain.Decision.{Decision}
use fraud_guard.Domain.Crates.{Crates, IsLawful}
use fraud_guard.Domain.Transaction.{TransactionRequest}
use fraud_guard.Api.Consumer.{AmqpConsumer, AckCommand, ack, nack}
use fraud_guard.Api.EventLoop.{Reply, basic_ack, basic_nack}
use fraud_guard.Storage.Db.{Db, transaction_row, transaction_key, decision_key}
use fraud_guard.Storage.Db.Integrity.{persist as persist_rows, decision_entry}
use fraud_guard.Storage.Table.{has}
use fraud_guard.Storage.Table.Laws.{has-add_or_nothing, has-add_or_nothing_mono}
use fraud_guard.Storage.Sink.Attempt.{AllOrNothing}
use fraud_guard.App.Messages.{PersistResults}
use fraud_guard.App.Pipeline.{
  ConsumerMessage, store, settle, EngineMessage, evaluate, update, Pipeline,
}

module _ ⦃X : Crates⦄ where
  -- A row for the transaction, and a row for its decision.
  abbrev pub Recorded : TransactionRequest → Db → Type 0
  Recorded tx db =
      (has transaction_key tx.id.uuid db.transactions ≡ true)
      × (has decision_key tx.id.uuid db.decisions ≡ true)

  pub Recorded-persist :
      IsLawful X
      → (tx : TransactionRequest) (value : X.Value) (db : Db)
      → Recorded tx (persist_rows (transaction_row tx) value db)
  unfolding persist_rows transaction_row
  Recorded-persist L tx value db = (
    has-add_or_nothing transaction_key L (transaction_row tx) db.transactions,
    has-add_or_nothing decision_key L (decision_entry (transaction_row tx) value) db.decisions,
  )

  pub Recorded-mono :
      (tx other : TransactionRequest) (decision : Decision) (db db' : Db)
      → AllOrNothing other decision db db'
      → Recorded tx db
      → Recorded tx db'
  unfolding persist_rows
  Recorded-mono tx other decision db db' (inl e) r = rw e r
  Recorded-mono tx other decision db db' (inr (value, s, e)) r = rw e (
    has-add_or_nothing_mono transaction_key tx.id.uuid _ db.transactions r.0,
    has-add_or_nothing_mono decision_key tx.id.uuid _ db.decisions r.1,
  )

-- `Came` says which transactions came under which tags.
module _ ⦃X : Crates⦄ (Came : ℕ → TransactionRequest → Type 0) where
  abbrev pub Backed : Db → ℕ → Type 0
  Backed db tag = (tx : TransactionRequest) × Came tag tx × Recorded tx db

  abbrev pub RequestCame : EngineMessage → Type 0
  RequestCame (evaluate msg) = Came msg.correlation_id msg.tx
  RequestCame (update msg) = Unit

  abbrev pub ResultCame : PersistResults → Type 0
  ResultCame msg = Came msg.correlation_id msg.tx

  -- A message of success, an ack under way and an ack that is sent are backed by the tables.
  abbrev pub BackedMessage : Db → ConsumerMessage → Type 0
  BackedMessage db (store msg) = Unit
  BackedMessage db (settle msg) = msg.result ≡ ok tt → Backed db msg.correlation_id

  abbrev pub BackedCommand : Db → AckCommand → Type 0
  BackedCommand db (ack tag) = Backed db tag
  BackedCommand db (nack tag) = Unit

  abbrev pub BackedChannel : Db → Option AmqpConsumer → Type 0
  BackedChannel db none = Unit
  BackedChannel db (some client) = All (BackedCommand db) client.commands

  abbrev pub BackedReply : Db → Reply → Type 0
  BackedReply db (basic_ack tag) = Backed db tag
  BackedReply db (basic_nack tag) = Unit

  pub record Honest (p : Pipeline) : Type 0 where
    pub requests : All RequestCame p.requests
    pub results : All ResultCame p.results
    pub inbox : All (BackedMessage p.db) p.inbox
    pub channel : BackedChannel p.db p.consumer.amqp_consumer
    pub replies : All (BackedReply p.db) p.replies

-- A change of the tables that keeps the records keeps what is backed.
module _ ⦃X : Crates⦄ (Came : ℕ → TransactionRequest → Type 0) (db db' : Db)
    (mono : (tx : TransactionRequest) → Recorded tx db → Recorded tx db') where
  pub Backed-mono : (tag : ℕ) → Backed Came db tag → Backed Came db' tag
  Backed-mono tag (tx, came, r) = (tx, came, mono tx r)

  pub BackedMessage-mono :
      (m : ConsumerMessage) → BackedMessage Came db m → BackedMessage Came db' m
  BackedMessage-mono (store msg) h = tt
  BackedMessage-mono (settle msg) h = λ good. Backed-mono msg.correlation_id (h good)

  pub BackedCommand-mono : (c : AckCommand) → BackedCommand Came db c → BackedCommand Came db' c
  BackedCommand-mono (ack tag) h = Backed-mono tag h
  BackedCommand-mono (nack tag) h = tt

  pub BackedReply-mono : (r : Reply) → BackedReply Came db r → BackedReply Came db' r
  BackedReply-mono (basic_ack tag) h = Backed-mono tag h
  BackedReply-mono (basic_nack tag) h = tt
