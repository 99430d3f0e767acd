-- ===== src/App/Reconnect/Fresh.antt =====
-- A tag of which nothing is under way when the connection ends.
use mathlib.Core.List.{Memᴰ}
use fraud_guard.Base.{
  All-Memᴰ, ℕ, String, List, [], ◌∷◌, ◌++◌, All, Memᴰ-append_left, Memᴰ-append_right, false, Option,
  none, some, ◌≡◌, ◌≢◌, ◌⊎◌, inl, inr, refl, arith, All-imp, All-unless, count_if,
}
use fraud_guard.Domain.Crates.{Crates, IsLawful}
use fraud_guard.Domain.Transaction.{TransactionRequest}
use fraud_guard.Storage.Db.{Db}
use fraud_guard.Api.Consumer.{AmqpConsumer, AckCommand, ack, nack}
use fraud_guard.Api.EventLoop.{basic_ack}
use fraud_guard.App.Engine.{EngineActor}
use fraud_guard.App.Pipeline.{
  ConsumerMessage, store, settle, EngineMessage, evaluate, update, Pipeline, Action, deliver,
  consumer_turn, engine_turn, sink_turn, refresh, client_turn, run,
}
use fraud_guard.App.Pipeline.Tokens.{
  settles, commands, in_channel, requests_it, results_it, in_work,
}
use fraud_guard.App.Pipeline.Promise.{
  Recorded, Backed, RequestCame, BackedMessage, BackedCommand, BackedChannel, Honest,
}
use fraud_guard.App.Pipeline.Acked.{
  Comes, step-Honest, run-Honest, Arrived, Arrived-Comes, run-Stems,
}
use fraud_guard.App.Pipeline.Origin.{Stems, InTables, before-Stems, Recorded-InTables, step-Stems}
use fraud_guard.App.Pipeline.Start.{start}
use fraud_guard.App.Reconnect.{Move, turn, reconnect, reconnected, resume, turns}

module _ ⦃X : Crates⦄ (Came : ℕ → TransactionRequest → Type 0) where
  resume-Honest :
      IsLawful X
      → (moves : List Move) (p : Pipeline) → All (Comes Came) (turns moves)
      → Honest Came p
      → Honest Came (resume moves p)
  unfolding resume
  resume-Honest L [] p comes v = v
  resume-Honest L (turn a ∷ moves) p comes v =
      resume-Honest L moves _ comes.1 (step-Honest Came L a p comes.0 v)
  resume-Honest L (reconnect ∷ moves) p comes v =
      resume-Honest L moves (reconnected p) comes (record {
        requests = v.requests;
        results = v.results;
        inbox = v.inbox;
        channel = v.channel;
        replies = tt;
      })

  resume-Stems :
      IsLawful X
      → (before : Db) (moves : List Move) (p : Pipeline) → All (Comes Came) (turns moves)
      → Honest Came p
      → All (Stems Came before) p.db.transactions
      → All (Stems Came before) (resume moves p).db.transactions
  unfolding resume
  resume-Stems L before [] p comes v stems = stems
  resume-Stems L before (turn a ∷ moves) p comes v stems =
      resume-Stems L before moves _ comes.1 (step-Honest Came L a p comes.0 v)
        (step-Stems Came before L a p v stems)
  resume-Stems L before (reconnect ∷ moves) p comes v stems =
      resume-Stems L before moves (reconnected p) comes
        (record {
          requests = v.requests;
          results = v.results;
          inbox = v.inbox;
          channel = v.channel;
          replies = tt;
        })
        stems

module _ ⦃X : Crates⦄ where
  -- Nothing of the delivery is under way: no request, result, settlement or command for the tag `t` is
  -- in a mailbox or channel.
  pub record Clear (t : ℕ) (p : Pipeline) : Type 0 where
    pub idle : in_work t p ≡ 0
    pub read : count_if (settles t) p.inbox ≡ 0
    pub sent : in_channel t p.consumer.amqp_consumer ≡ 0

  -- What comes under the tag comes in the history.
  abbrev Later : ℕ → List Action → ℕ → TransactionRequest → Type 0
  Later t actions tag tx = (tag ≢ t) ⊎ Arrived actions tag tx

  module _ (Came : ℕ → TransactionRequest → Type 0) (t : ℕ) (actions : List Action) where
    RequestCame-Later :
        (m : EngineMessage)
        → requests_it t m ≡ false
        → RequestCame Came m
        → RequestCame (Later t actions) m
    RequestCame-Later (evaluate msg) e h = inl (ground arith)
    RequestCame-Later (update msg) e h = tt

    Backed-Later :
        (db : Db) (tag : ℕ) → tag ≢ t → Backed Came db tag → Backed (Later t actions) db tag
    Backed-Later db tag differ (tx, came, r) = (tx, inl differ, r)

    BackedMessage-Later :
        (db : Db) (m : ConsumerMessage)
        → settles t m ≡ false
        → BackedMessage Came db m
        → BackedMessage (Later t actions) db m
    BackedMessage-Later db (store msg) e h = tt
    BackedMessage-Later db (settle msg) e h =
        λ good. Backed-Later db msg.correlation_id (ground arith) (h good)

    BackedCommand-Later :
        (db : Db) (c : AckCommand)
        → commands t c ≡ false
        → BackedCommand Came db c
        → BackedCommand (Later t actions) db c
    BackedCommand-Later db (ack tag) e h = Backed-Later db tag (ground arith) h
    BackedCommand-Later db (nack tag) e h = tt

    BackedChannel-Later :
        (db : Db) (client : Option AmqpConsumer)
        → in_channel t client ≡ 0
        → BackedChannel Came db client
        → BackedChannel (Later t actions) db client
    BackedChannel-Later db none e h = tt
    BackedChannel-Later db (some client) e h =
        All-unless (commands t) client.commands e (BackedCommand-Later db) h

    Clear-Honest :
        (p : Pipeline) → Clear t p → Honest Came p → Honest (Later t actions) (reconnected p)
    unfolding reconnected
    Clear-Honest p q v = record {
      requests =
          All-unless (requests_it t) p.requests (omega (arith, q.idle)) RequestCame-Later
            v.requests;
      results =
          All-unless (results_it t) p.results (omega (arith, q.idle)) (λ m e h. inl (ground arith))
            v.results;
      inbox = All-unless (settles t) p.inbox q.read (BackedMessage-Later p.db) v.inbox;
      channel = BackedChannel-Later p.db p.consumer.amqp_consumer q.sent v.channel;
      replies = tt;
    }

  of-Later :
      (t : ℕ) (actions : List Action) (db : Db)
      → Backed (Later t actions) db t
      → (tx : TransactionRequest) × Arrived actions t tx × Recorded tx db
  of-Later t actions db (tx, inl differ, r) = absurd (differ refl)
  of-Later t actions db (tx, inr arrived, r) = (tx, arrived, r)

  action-Later :
      (t : ℕ) (actions : List Action) (a : Action)
      → Comes (Arrived actions) a
      → Comes (Later t actions) a
  action-Later t actions (deliver now d links) h = λ tx e. inr (h tx e)
  action-Later t actions consumer_turn h = tt
  action-Later t actions (engine_turn sink_runs) h = tt
  action-Later t actions (sink_turn faults consumer_runs) h = tt
  action-Later t actions (refresh rules) h = tt
  action-Later t actions client_turn h = tt

  -- With lawful crates, after any history with any number of connections that ended, if nothing of
  -- the tag was under way when the last one ended, then an ack on the new connection means that a
  -- delivery of this connection with its tag arrived whose payload parses as a transaction, and that
  -- under the identifier of this transaction the tables have a decision and a transaction, which was
  -- there before the history or says in each column what a transaction says that arrived in it, on
  -- whichever connection.
  pub reconnected_acked :
      IsLawful X
      → (url : String) (engine : EngineActor) (db : Db) (before : List Move) (actions : List Action)
        (t : ℕ)
      → Clear t (resume before (start url engine db))
      → let p = run actions (reconnected (resume before (start url engine db))) in
        Memᴰ (basic_ack t) p.replies
        → (tx : TransactionRequest) × Arrived actions t tx
          × InTables (Arrived (turns before ++ actions)) db tx p.db
  unfolding start reconnected
  reconnected_acked L url engine db before actions t q m =
      let p = resume before (start url engine db) in
      let came = Arrived (turns before ++ actions) in
      let fresh : Honest came (start url engine db) = record {
        requests = tt;
        results = tt;
        inbox = tt;
        channel = tt;
        replies = tt;
      } in
      let sooner =
        Arrived-Comes _ (turns before) (λ a i. Memᴰ-append_left (turns before) actions a i) in
      let later = Arrived-Comes _ actions (λ a i. Memᴰ-append_right (turns before) actions a i) in
      let v = resume-Honest came L before (start url engine db) sooner fresh in
      let clear = Clear-Honest came t actions p q v in
      let comes =
        All-imp actions (action-Later t actions) (Arrived-Comes actions actions (λ a i. i)) in
      let w = run-Honest (Later t actions) L actions (reconnected p) comes clear in
      let stems =
        run-Stems came L db actions (reconnected p) later
          (record {
            requests = v.requests;
            results = v.results;
            inbox = v.inbox;
            channel = v.channel;
            replies = tt;
          })
          (resume-Stems came L db before (start url engine db) sooner fresh
            (before-Stems came db)) in
      let (tx, arrived, r) = of-Later t actions _ (All-Memᴰ _ _ (basic_ack t) m w.replies) in
      (tx, arrived, Recorded-InTables came db L tx _ r stems)
