-- ===== src/App/Main/Shutdown/Client.antt =====
-- The task of the client: it runs while the consumer has a handle of it, and `on_stop` aborts it.
use fraud_guard.Base.{zero, suc, List, true, ◌≡◌, refl, sym, ◌∙◌, arith, Bool-cases, inl, inr}
use fraud_guard.Domain.Crates.{Crates, IsLawful}
use fraud_guard.Api.Consumer
use fraud_guard.App.Consumer.{ConsumerActor, is_consuming, on_stop}
use fraud_guard.App.Pipeline
use fraud_guard.App.Pipeline.{Pipeline}
use fraud_guard.App.Pipeline.Task.{Holding, step-Holding}
use fraud_guard.App.Main.Shutdown.{
  Status, running, stopping, stopped, is_alive, can_turn, after_turn, System, Event, deliver,
  consumer_turn, engine_turn, sink_turn, refresh, client_turn, stop_consumer, consumer_stops,
  stop_engine, engine_stops, stop_sink, sink_stops, is_enabled, links_of, apply, Reach, here, next,
  serving,
}

module _ ⦃X : Crates⦄ where
  -- The task of the client runs only while the consumer lives and has its handle.
  pub record Attended (s : System) : Type 0 where
    pub alive : s.client ≡ true → is_alive s.consumer ≡ true
    pub held : s.client ≡ true → is_consuming s.pipeline.consumer ≡ true

  stays :
      (s u : System)
      → u.client ≡ s.client
      → (is_alive s.consumer ≡ true → is_alive u.consumer ≡ true)
      → Holding s.pipeline u.pipeline
      → Attended s
      → Attended u
  stays s u c f e v = record {
    alive = λ h. f (v.alive (sym c ∙ h));
    held = λ h. e ∙ v.held (sym c ∙ h);
  }

  turned : (k : Status) → can_turn k ≡ true → is_alive (after_turn k) ≡ true
  turned running h = refl
  turned (stopping zero) h = absurd (ground arith)
  turned (stopping (suc left)) h = refl
  turned stopped h = absurd (ground arith)

  -- A task that the consumer has the handle of is aborted when it stops.
  on_stop-aborts : (state : ConsumerActor) → is_consuming state ≡ true → (on_stop state).1 ≡ true
  unfolding on_stop Consumer.stop
  on_stop-aborts state h = h

  apply-Attended :
      IsLawful X
      → (event : Event) (s : System) → is_enabled event s ≡ true
      → Attended s
      → Attended (apply event s)
  unfolding apply
  apply-Attended L (deliver now d) s h v =
      stays s _ refl (λ a. a) (step-Holding L (Pipeline.deliver now d (links_of s)) s.pipeline) v
  apply-Attended L consumer_turn s h v =
      stays s _ refl (λ a. turned s.consumer h) (step-Holding L Pipeline.consumer_turn s.pipeline) v
  apply-Attended L engine_turn s h v =
      stays s _ refl (λ a. a) (step-Holding L (Pipeline.engine_turn (is_alive s.sink)) s.pipeline) v
  apply-Attended L (sink_turn faults) s h v =
      stays s _ refl (λ a. a)
        (step-Holding L (Pipeline.sink_turn faults (is_alive s.consumer)) s.pipeline) v
  apply-Attended L (refresh rules) s h v =
      stays s _ refl (λ a. a) (step-Holding L (Pipeline.refresh rules) s.pipeline) v
  apply-Attended L client_turn s h v =
      stays s _ refl (λ a. a) (step-Holding L Pipeline.client_turn s.pipeline) v
  apply-Attended L stop_consumer s h v = stays s _ refl (λ a. refl) refl v
  apply-Attended L consumer_stops s h v = elim (Bool-cases s.client) [
    | inl runs ↦
        let aborted = on_stop-aborts s.pipeline.consumer (v.held runs) in
        record { alive = λ e. absurd (ground arith); held = λ e. absurd (ground arith) }
    | inr ended ↦ record { alive = λ e. absurd (ground arith); held = λ e. absurd (ground arith) }
  ]
  apply-Attended L stop_engine s h v = record { alive = v.alive; held = v.held }
  apply-Attended L engine_stops s h v = record { alive = v.alive; held = v.held }
  apply-Attended L stop_sink s h v = record { alive = v.alive; held = v.held }
  apply-Attended L sink_stops s h v = record { alive = v.alive; held = v.held }

  pub Reach-Attended :
      {p : Pipeline} {events : List Event} {s : System}
      → IsLawful X
      → Reach (serving p) events s
      → Attended s
  Reach-Attended L here = record { alive = λ h. refl; held = λ h. h }
  Reach-Attended L (next r event h) = apply-Attended L event _ h (Reach-Attended L r)
