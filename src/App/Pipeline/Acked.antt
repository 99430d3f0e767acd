-- ===== src/App/Pipeline/Acked.antt =====
-- Whole histories: what an ack to the queue means.
use mathlib.Core.List.{Memᴰ}
use mathlib.Core.List.Memᴰ.{head, tail}
use fraud_guard.Base.{String, ℕ, List, [], ◌∷◌, ok, ◌≡◌, refl, All, All-append, All-Memᴰ}
use fraud_guard.Domain.Crates.{Crates, IsLawful}
use fraud_guard.Domain.Transaction.{TransactionRequest}
use fraud_guard.Api.Delivery.{Delivery, parse_delivery}
use fraud_guard.Api.EventLoop.{basic_ack}
use fraud_guard.Storage.Db.{Db}
use fraud_guard.App.Consumer.{Links}
use fraud_guard.App.Engine.{EngineActor}
use fraud_guard.App.Pipeline.{
  Pipeline, Action, deliver, consumer_turn, engine_turn, sink_turn, refresh, client_turn, step, run,
}
use fraud_guard.App.Pipeline.Answering.{process-Honest, answer-Honest, persist-Honest}
use fraud_guard.App.Pipeline.Honesty.{receive-Honest, consume-Honest}
use fraud_guard.App.Pipeline.Start.{start}
use fraud_guard.App.Pipeline.Promise.{Honest}
use fraud_guard.App.Pipeline.Origin.{Stems, InTables, before-Stems, Recorded-InTables, step-Stems}

module _ ⦃X : Crates⦄ (Came : ℕ → TransactionRequest → Type 0) where
  -- A delivery of the action comes as `Came` says.
  abbrev pub Comes : Action → Type 0
  Comes (deliver now d links) =
      (tx : TransactionRequest) → parse_delivery now d ≡ ok tx → Came d.delivery_tag tx
  Comes consumer_turn = Unit
  Comes (engine_turn sink_runs) = Unit
  Comes (sink_turn faults consumer_runs) = Unit
  Comes (refresh rules) = Unit
  Comes client_turn = Unit

  pub step-Honest :
      IsLawful X → (a : Action) (p : Pipeline) → Comes a → Honest Came p → Honest Came (step a p)
  unfolding step
  step-Honest L (deliver now d links) p came v =
      receive-Honest Came (parse_delivery now d) d.delivery_tag links
        (record p { seen = d.delivery_tag ∷ p.seen }) came
        (record {
          requests = v.requests;
          results = v.results;
          inbox = v.inbox;
          channel = v.channel;
          replies = v.replies;
        })
  step-Honest L consumer_turn p came v = consume-Honest Came p.inbox p refl v
  step-Honest L (engine_turn sink_runs) p came v = process-Honest Came sink_runs p.requests p refl v
  step-Honest L (sink_turn faults consumer_runs) p came v =
      persist-Honest Came L faults consumer_runs p.results p refl v
  step-Honest L (refresh rules) p came v = record {
    requests = All-append _ p.requests _ v.requests (tt, tt);
    results = v.results;
    inbox = v.inbox;
    channel = v.channel;
    replies = v.replies;
  }
  step-Honest L client_turn p came v = answer-Honest Came p.consumer.amqp_consumer p refl v

  pub run-Honest :
      IsLawful X
      → (actions : List Action) (p : Pipeline) → All Comes actions
      → Honest Came p
      → Honest Came (run actions p)
  unfolding run
  run-Honest L [] p came v = v
  run-Honest L (a ∷ actions) p came v =
      run-Honest L actions (step a p) came.1 (step-Honest L a p came.0 v)

  -- The tables afterwards have what they had before or what came.
  pub run-Stems :
      IsLawful X
      → (before : Db) (actions : List Action) (p : Pipeline) → All Comes actions
      → Honest Came p
      → All (Stems Came before) p.db.transactions
      → All (Stems Came before) (run actions p).db.transactions
  unfolding run
  run-Stems L before [] p came v stems = stems
  run-Stems L before (a ∷ actions) p came v stems =
      run-Stems L before actions (step a p) came.1 (step-Honest L a p came.0 v)
        (step-Stems Came before L a p v stems)

module _ ⦃X : Crates⦄ where
  -- The history has a delivery with the tag whose payload is the transaction.
  abbrev pub Arrived : List Action → ℕ → TransactionRequest → Type 0
  Arrived actions tag tx =
      (now : X.DateTime) × (d : Delivery) × (links : Links) × Memᴰ (deliver now d links) actions
      × (d.delivery_tag ≡ tag)
      × (parse_delivery now d ≡ ok tx)

  pub Arrived-Comes :
      (actions rest : List Action)
      → ((a : Action) → Memᴰ a rest → Memᴰ a actions)
      → All (Comes (Arrived actions)) rest
  Arrived-Comes actions [] f = tt
  Arrived-Comes actions (deliver now d links ∷ rest) f = (
    (λ tx e. (now, d, links, f _ (head refl), refl, e)),
    Arrived-Comes actions rest (λ a m. f a (tail m)),
  )
  Arrived-Comes actions (consumer_turn ∷ rest) f =
      (tt, Arrived-Comes actions rest (λ a m. f a (tail m)))
  Arrived-Comes actions (engine_turn b ∷ rest) f =
      (tt, Arrived-Comes actions rest (λ a m. f a (tail m)))
  Arrived-Comes actions (sink_turn g b ∷ rest) f =
      (tt, Arrived-Comes actions rest (λ a m. f a (tail m)))
  Arrived-Comes actions (refresh rules ∷ rest) f =
      (tt, Arrived-Comes actions rest (λ a m. f a (tail m)))
  Arrived-Comes actions (client_turn ∷ rest) f =
      (tt, Arrived-Comes actions rest (λ a m. f a (tail m)))

  -- With lawful crates, in every history from the start, whatever the interleaving and whatever faults
  -- the database has, an ack to the queue means that a delivery with its tag arrived whose payload
  -- parses as a transaction, and that under the identifier of this transaction the tables have a
  -- decision and a transaction, which was there before the history or says in each column what a
  -- transaction that arrived says.
  pub acked_stored :
      IsLawful X
      → (url : String) (engine : EngineActor) (db : Db) (actions : List Action) (tag : ℕ)
      → Memᴰ (basic_ack tag) (run actions (start url engine db)).replies
      → (tx : TransactionRequest) × Arrived actions tag tx
        × InTables (Arrived actions) db tx (run actions (start url engine db)).db
  unfolding start
  acked_stored L url engine db actions tag m =
      let came = Arrived actions in
      let fresh : Honest came (start url engine db) = record {
        requests = tt;
        results = tt;
        inbox = tt;
        channel = tt;
        replies = tt;
      } in
      let comes = Arrived-Comes actions actions (λ a m. m) in
      let v = run-Honest came L actions (start url engine db) comes fresh in
      let stems =
        run-Stems came L db actions (start url engine db) comes fresh (before-Stems came db) in
      let (tx, arrived, r) = All-Memᴰ _ _ (basic_ack tag) m v.replies in
      (tx, arrived, Recorded-InTables came db L tx _ r stems)
