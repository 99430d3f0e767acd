-- ===== src/App/Main/Shutdown/Drained.antt =====
-- What a shutdown leaves in the mailboxes, and what the queue sees of it.
use fraud_guard.Base.{List, true, ◌≡◌, refl, arith, ◌∙◌, false, Bool-cases, inl, inr}
use fraud_guard.Domain.Crates.{Crates, IsLawful}
use fraud_guard.App.Pipeline
use fraud_guard.App.Pipeline.{Pipeline}
use fraud_guard.App.Pipeline.Task.{process-seen, persist-seen}
use fraud_guard.App.Pipeline.Mailboxes.{process-replies, persist-replies}
use fraud_guard.App.Main.Shutdown.{
  stopped, is_alive, System, Event, deliver, consumer_turn, engine_turn, sink_turn, refresh,
  client_turn, stop_consumer, consumer_stops, stop_engine, engine_stops, stop_sink, sink_stops,
  is_enabled, apply, Reach, here, next, serving,
}
use fraud_guard.App.Main.Shutdown.Client.{Reach-Attended}

module _ ⦃X : Crates⦄ where
  -- The consumer has stopped and the task of its client with it.
  abbrev IsSilent : System → Type 0
  IsSilent s = (s.consumer ≡ stopped) × (s.client ≡ false)

  -- The queue sees the same of both.
  abbrev IsSame : System → System → Type 0
  IsSame s u = (u.pipeline.seen ≡ s.pipeline.seen) × (u.pipeline.replies ≡ s.pipeline.replies)

  apply-IsSilent :
      IsLawful X
      → (event : Event) (s : System) → is_enabled event s ≡ true
      → IsSilent s
      → IsSilent (apply event s) × IsSame s (apply event s)
  unfolding apply Pipeline.step
  apply-IsSilent L (deliver now d) s h e = absurd (ground arith)
  apply-IsSilent L consumer_turn s h e = absurd (ground arith)
  apply-IsSilent L engine_turn s h e = (
    e,
    (
      process-seen (is_alive s.sink) s.pipeline.requests s.pipeline,
      process-replies (is_alive s.sink) s.pipeline,
    ),
  )
  apply-IsSilent L (sink_turn faults) s h e = (
    e,
    (
      persist-seen faults (is_alive s.consumer) s.pipeline.results s.pipeline,
      persist-replies faults (is_alive s.consumer) s.pipeline,
    ),
  )
  apply-IsSilent L (refresh rules) s h e = (e, (refl, refl))
  apply-IsSilent L client_turn s h e = absurd (ground arith)
  apply-IsSilent L stop_consumer s h e = absurd (ground arith)
  apply-IsSilent L consumer_stops s h e = absurd (ground arith)
  apply-IsSilent L stop_engine s h e = (e, (refl, refl))
  apply-IsSilent L engine_stops s h e = (e, (refl, refl))
  apply-IsSilent L stop_sink s h e = (e, (refl, refl))
  apply-IsSilent L sink_stops s h e = (e, (refl, refl))

  run-IsSilent :
      {s u : System} {events : List Event}
      → IsLawful X
      → IsSilent s
      → Reach s events u
      → IsSilent u × IsSame s u
  run-IsSilent L e here = (e, (refl, refl))
  run-IsSilent L e (next {t = t} r event h) =
      let (k, (seen, replies)) = run-IsSilent L e r in
      let (k', (seen', replies')) = apply-IsSilent L event t h k in
      (k', (seen' ∙ seen, replies' ∙ replies))

  -- With lawful crates, in every history of the running program, once the consumer has stopped no
  -- delivery arrives any more and the queue gets no answer, whatever the engine and the sink go on to
  -- decide and store: the stop has aborted the task of the client.
  pub shutdown_silent :
      {p : Pipeline} {sooner later : List Event} {s u : System}
      → IsLawful X
      → Reach (serving p) sooner s
      → s.consumer ≡ stopped
      → Reach s later u
      → (u.pipeline.seen ≡ s.pipeline.seen) × (u.pipeline.replies ≡ s.pipeline.replies)
  shutdown_silent {s = s} L before e r = elim (Bool-cases s.client) [
    | inl runs ↦ absurd (ground (arith, (Reach-Attended L before).alive runs))
    | inr ended ↦ (run-IsSilent L (e, ended) r).1
  ]
