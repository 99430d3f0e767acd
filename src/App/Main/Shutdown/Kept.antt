-- ===== src/App/Main/Shutdown/Kept.antt =====
-- What an ack means in a history with a shutdown.
use mathlib.Core.List.{Memᴰ}
use mathlib.Core.List.Memᴰ.{head, tail}
use fraud_guard.Base.{All-Memᴰ, ℕ, String, List, [], ◌∷◌, ok, All, ◌≡◌, refl}
use fraud_guard.Domain.Crates.{Crates, IsLawful}
use fraud_guard.Domain.Transaction.{TransactionRequest}
use fraud_guard.Storage.Db.{Db}
use fraud_guard.Api.Delivery.{Delivery, parse_delivery}
use fraud_guard.Api.EventLoop.{basic_ack}
use fraud_guard.App.Consumer.{on_stop}
use fraud_guard.App.Engine.{EngineActor}
use fraud_guard.App.Pipeline
use fraud_guard.App.Pipeline.{Pipeline}
use fraud_guard.App.Pipeline.Start.{start}
use fraud_guard.App.Pipeline.Promise.{Honest}
use fraud_guard.App.Pipeline.Origin.{Stems, InTables, before-Stems, Recorded-InTables, step-Stems}
use fraud_guard.App.Pipeline.Acked.{step-Honest}
use fraud_guard.App.Main.Shutdown.{
  is_alive, System, Event, deliver, consumer_turn, engine_turn, sink_turn, refresh, client_turn,
  stop_consumer, consumer_stops, stop_engine, engine_stops, stop_sink, sink_stops, links_of, apply,
  Reach, here, next, serving,
}

module _ ⦃X : Crates⦄ (Came : ℕ → TransactionRequest → Type 0) where
  -- A delivery of the event comes as `Came` says.
  abbrev Comes : Event → Type 0
  Comes (deliver now d) =
      (tx : TransactionRequest) → parse_delivery now d ≡ ok tx → Came d.delivery_tag tx
  Comes consumer_turn = Unit
  Comes engine_turn = Unit
  Comes (sink_turn faults) = Unit
  Comes (refresh rules) = Unit
  Comes client_turn = Unit
  Comes stop_consumer = Unit
  Comes consumer_stops = Unit
  Comes stop_engine = Unit
  Comes engine_stops = Unit
  Comes stop_sink = Unit
  Comes sink_stops = Unit

  apply-Honest :
      IsLawful X
      → (event : Event) (s : System) → Comes event
      → Honest Came s.pipeline
      → Honest Came (apply event s).pipeline
  unfolding apply on_stop
  apply-Honest L (deliver now d) s came v =
      step-Honest Came L (Pipeline.deliver now d (links_of s)) s.pipeline came v
  apply-Honest L consumer_turn s came v = step-Honest Came L Pipeline.consumer_turn s.pipeline tt v
  apply-Honest L engine_turn s came v =
      step-Honest Came L (Pipeline.engine_turn (is_alive s.sink)) s.pipeline tt v
  apply-Honest L (sink_turn faults) s came v =
      step-Honest Came L (Pipeline.sink_turn faults (is_alive s.consumer)) s.pipeline tt v
  apply-Honest L (refresh rules) s came v =
      step-Honest Came L (Pipeline.refresh rules) s.pipeline tt v
  apply-Honest L client_turn s came v = step-Honest Came L Pipeline.client_turn s.pipeline tt v
  apply-Honest L stop_consumer s came v = v
  apply-Honest L consumer_stops s came v = record {
    requests = v.requests;
    results = v.results;
    inbox = v.inbox;
    channel = tt;
    replies = v.replies;
  }
  apply-Honest L stop_engine s came v = v
  apply-Honest L engine_stops s came v = v
  apply-Honest L stop_sink s came v = v
  apply-Honest L sink_stops s came v = v

  Reach-Honest :
      {s u : System} {events : List Event}
      → IsLawful X
      → Honest Came s.pipeline
      → Reach s events u
      → All Comes events
      → Honest Came u.pipeline
  Reach-Honest L v here came = v
  Reach-Honest L v (next {t = t} r event h) came =
      apply-Honest L event t came.0 (Reach-Honest L v r came.1)

  apply-Stems :
      IsLawful X
      → (before : Db) (event : Event) (s : System) → Honest Came s.pipeline
      → All (Stems Came before) s.pipeline.db.transactions
      → All (Stems Came before) (apply event s).pipeline.db.transactions
  unfolding apply
  apply-Stems L before (deliver now d) s v stems =
      step-Stems Came before L (Pipeline.deliver now d (links_of s)) s.pipeline v stems
  apply-Stems L before consumer_turn s v stems =
      step-Stems Came before L Pipeline.consumer_turn s.pipeline v stems
  apply-Stems L before engine_turn s v stems =
      step-Stems Came before L (Pipeline.engine_turn (is_alive s.sink)) s.pipeline v stems
  apply-Stems L before (sink_turn faults) s v stems =
      step-Stems Came before L (Pipeline.sink_turn faults (is_alive s.consumer)) s.pipeline v stems
  apply-Stems L before (refresh rules) s v stems =
      step-Stems Came before L (Pipeline.refresh rules) s.pipeline v stems
  apply-Stems L before client_turn s v stems =
      step-Stems Came before L Pipeline.client_turn s.pipeline v stems
  apply-Stems L before stop_consumer s v stems = stems
  apply-Stems L before consumer_stops s v stems = stems
  apply-Stems L before stop_engine s v stems = stems
  apply-Stems L before engine_stops s v stems = stems
  apply-Stems L before stop_sink s v stems = stems
  apply-Stems L before sink_stops s v stems = stems

  Reach-Stems :
      {s u : System} {events : List Event}
      → IsLawful X
      → (before : Db) → Honest Came s.pipeline
      → All (Stems Came before) s.pipeline.db.transactions
      → Reach s events u
      → All Comes events
      → All (Stems Came before) u.pipeline.db.transactions
  Reach-Stems L before v stems here came = stems
  Reach-Stems L before v stems (next {t = t} r event h) came =
      apply-Stems L before event t (Reach-Honest L v r came.1)
        (Reach-Stems L before v stems r came.1)

module _ ⦃X : Crates⦄ where
  -- The history has a delivery with the tag whose payload is the transaction.
  abbrev pub Arrived : List Event → ℕ → TransactionRequest → Type 0
  Arrived events tag tx =
      (now : X.DateTime) × (d : Delivery) × Memᴰ (deliver now d) events
      × (d.delivery_tag ≡ tag)
      × (parse_delivery now d ≡ ok tx)

  event-Comes :
      (events : List Event) (event : Event) → Memᴰ event events → Comes (Arrived events) event
  event-Comes events (deliver now d) m = λ tx e. (now, d, m, refl, e)
  event-Comes events consumer_turn m = tt
  event-Comes events engine_turn m = tt
  event-Comes events (sink_turn faults) m = tt
  event-Comes events (refresh rules) m = tt
  event-Comes events client_turn m = tt
  event-Comes events stop_consumer m = tt
  event-Comes events consumer_stops m = tt
  event-Comes events stop_engine m = tt
  event-Comes events engine_stops m = tt
  event-Comes events stop_sink m = tt
  event-Comes events sink_stops m = tt

  Arrived-Comes :
      (events rest : List Event)
      → ((event : Event) → Memᴰ event rest → Memᴰ event events)
      → All (Comes (Arrived events)) rest
  Arrived-Comes events [] f = tt
  Arrived-Comes events (event ∷ rest) f =
      (event-Comes events event (f _ (head refl)), Arrived-Comes events rest (λ e m. f e (tail m)))

  -- With lawful crates, in every history of the program from its start, a shutdown included, an ack
  -- to the queue means that a delivery with its tag arrived whose payload parses as a transaction, and
  -- that under the identifier of this transaction the tables have a decision and a transaction, which
  -- was there before the history or says in each column what a transaction that arrived says.
  pub shutdown_acked :
      {events : List Event} {s : System}
      → IsLawful X
      → (url : String) (engine : EngineActor) (db : Db) (tag : ℕ)
      → Reach (serving (start url engine db)) events s
      → Memᴰ (basic_ack tag) s.pipeline.replies
      → (tx : TransactionRequest) × Arrived events tag tx
        × InTables (Arrived events) db tx s.pipeline.db
  unfolding start
  shutdown_acked {events} L url engine db tag r m =
      let came = Arrived events in
      let fresh : Honest came (start url engine db) = record {
        requests = tt;
        results = tt;
        inbox = tt;
        channel = tt;
        replies = tt;
      } in
      let comes = Arrived-Comes events events (λ event i. i) in
      let v = Reach-Honest came L fresh r comes in
      let stems = Reach-Stems came L db fresh (before-Stems came db) r comes in
      let (tx, arrived, kept) = All-Memᴰ _ _ (basic_ack tag) m v.replies in
      (tx, arrived, Recorded-InTables came db L tx _ kept stems)
