-- ===== src/App/Main/Shutdown/Order.antt =====
-- The order of the shutdown, and what it leaves in the mailboxes.
use fraud_guard.Base.{
  ℕ, zero, suc, ◌≤◌, List, [], ◌∷◌, ◌++◌, Bool, true, false, length, count_if, ◌≡◌, refl, arith,
  subst, sym, ◌∙◌,
}
use fraud_guard.Domain.Crates.{Crates, IsLawful}
use fraud_guard.App.Messages.{PersistResults, UpdateRules}
use fraud_guard.App.Pipeline
use fraud_guard.App.Pipeline.Mailboxes.{rest_of, process-requests, persist-mailboxes}
use fraud_guard.App.Pipeline.{EngineMessage, evaluate, update, Pipeline}
use fraud_guard.App.Main.Shutdown.{
  Status, running, stopping, stopped, is_alive, can_turn, is_done, after_turn, System, Event,
  deliver, consumer_turn, engine_turn, sink_turn, refresh, client_turn, stop_consumer,
  consumer_stops, stop_engine, engine_stops, stop_sink, sink_stops, is_enabled, apply, Reach, here,
  next, serving,
}
use fraud_guard.App.Main.Shutdown.Client.{Attended, Reach-Attended}

abbrev pub skip {ℓ} : {A : Type ℓ} → ℕ → List A → List A
skip zero xs = xs
skip (suc n) [] = []
skip (suc n) (x ∷ xs) = skip n xs

module _ ⦃X : Crates⦄ where
  abbrev pub evaluates : EngineMessage → Bool
  evaluates (evaluate msg) = true
  evaluates (update msg) = false

  -- How many transactions wait for the engine.
  abbrev pub evaluations : List EngineMessage → ℕ
  evaluations requests = count_if evaluates requests

  -- The engine stops after the consumer; no transaction comes after its last message.
  abbrev pub EngineOk : Status → Status → List EngineMessage → Type 0
  EngineOk running consumer requests = Unit
  EngineOk (stopping left) consumer requests =
      (consumer ≡ stopped) × (evaluations (skip left requests) ≡ 0)
  EngineOk stopped consumer requests = (consumer ≡ stopped) × (evaluations requests ≡ 0)

  -- The sink stops after the engine; no result comes after its last message.
  abbrev pub SinkOk : Status → Status → List PersistResults → Type 0
  SinkOk running engine results = Unit
  SinkOk (stopping left) engine results = (engine ≡ stopped) × (length results ≤ left)
  SinkOk stopped engine results = (engine ≡ stopped) × (length results ≡ 0)

  pub record Orderly (s : System) : Type 0 where
    pub engine_ok : EngineOk s.engine s.consumer s.pipeline.requests
    pub sink_ok : SinkOk s.sink s.engine s.pipeline.results

  skip-update :
      (left : ℕ) (requests : List EngineMessage) (msg : UpdateRules)
      → evaluations (skip left (requests ++ (update msg ∷ []))) ≡ evaluations (skip left requests)
  skip-update zero [] msg = refl
  skip-update zero (m ∷ requests) msg = ground (arith, skip-update zero requests msg)
  skip-update (suc zero) [] msg = refl
  skip-update (suc (suc left)) [] msg = refl
  skip-update (suc left) (m ∷ requests) msg = skip-update left requests msg

  skip_all : {A : Type 0} (f : A → Bool) (xs : List A) → count_if f (skip (length xs) xs) ≡ 0
  skip_all f [] = refl
  skip_all f (x ∷ xs) = skip_all f xs

  EngineOk-running :
      (engine consumer : Status) (requests : List EngineMessage)
      → is_alive consumer ≡ true
      → EngineOk engine consumer requests
      → engine ≡ running
  EngineOk-running running consumer requests a v = refl
  EngineOk-running (stopping left) consumer requests a v = absurd (ground arith)
  EngineOk-running stopped consumer requests a v = absurd (ground arith)

  SinkOk-running :
      (sink engine : Status) (results : List PersistResults)
      → is_alive engine ≡ true
      → SinkOk sink engine results
      → sink ≡ running
  SinkOk-running running engine results a v = refl
  SinkOk-running (stopping left) engine results a v = absurd (ground arith)
  SinkOk-running stopped engine results a v = absurd (ground arith)

  EngineOk-turn :
      (engine consumer : Status) (requests : List EngineMessage)
      → can_turn engine ≡ true
      → EngineOk engine consumer requests
      → EngineOk (after_turn engine) consumer (rest_of requests)
  EngineOk-turn running consumer requests a v = tt
  EngineOk-turn (stopping zero) consumer requests a v = absurd (ground arith)
  EngineOk-turn (stopping (suc zero)) consumer [] a v = (v.0, refl)
  EngineOk-turn (stopping (suc (suc left))) consumer [] a v = (v.0, refl)
  EngineOk-turn (stopping (suc left)) consumer (m ∷ requests) a v = v
  EngineOk-turn stopped consumer requests a v = absurd (ground arith)

  SinkOk-turn :
      (sink engine : Status) (results : List PersistResults)
      → can_turn sink ≡ true
      → SinkOk sink engine results
      → SinkOk (after_turn sink) engine (rest_of results)
  SinkOk-turn running engine results a v = tt
  SinkOk-turn (stopping zero) engine results a v = absurd (ground arith)
  SinkOk-turn (stopping (suc left)) engine [] a v = (v.0, omega arith)
  SinkOk-turn (stopping (suc left)) engine (m ∷ results) a v = (v.0, omega (arith, v.1))
  SinkOk-turn stopped engine results a v = absurd (ground arith)

  EngineOk-update :
      (engine consumer : Status) (requests : List EngineMessage) (msg : UpdateRules)
      → EngineOk engine consumer requests
      → EngineOk engine consumer (requests ++ (update msg ∷ []))
  EngineOk-update running consumer requests msg v = tt
  EngineOk-update (stopping left) consumer requests msg v =
      (v.0, skip-update left requests msg ∙ v.1)
  EngineOk-update stopped consumer requests msg v = (v.0, skip-update 0 requests msg ∙ v.1)

  SinkOk-engine :
      (sink engine engine' : Status) (results results' : List PersistResults)
      → is_alive engine ≡ true
      → SinkOk sink engine results
      → SinkOk sink engine' results'
  SinkOk-engine sink engine engine' results results' a v =
      rw (SinkOk-running sink engine results a v) tt

  -- What happens while the consumer lives finds the engine and the sink running.
  consumer_alive-Orderly :
      (s : System) (consumer : Status) (pipeline : Pipeline)
      → is_alive s.consumer ≡ true
      → Orderly s
      → Orderly (record s { consumer = consumer; pipeline = pipeline })
  consumer_alive-Orderly s consumer pipeline a v =
      let e = EngineOk-running s.engine s.consumer s.pipeline.requests a v.engine_ok in
      let k = SinkOk-running s.sink s.engine s.pipeline.results (rw e refl) v.sink_ok in
      record { engine_ok = rw e tt; sink_ok = rw k tt }

  EngineOk-done :
      (engine consumer : Status) (requests : List EngineMessage)
      → is_done engine ≡ true
      → EngineOk engine consumer requests
      → EngineOk stopped consumer requests
  EngineOk-done running consumer requests d v = absurd (ground arith)
  EngineOk-done (stopping zero) consumer requests d v = v
  EngineOk-done (stopping (suc left)) consumer requests d v = absurd (ground arith)
  EngineOk-done stopped consumer requests d v = absurd (ground arith)

  SinkOk-done :
      (sink engine : Status) (results : List PersistResults)
      → is_done sink ≡ true
      → SinkOk sink engine results
      → SinkOk stopped engine results
  SinkOk-done running engine results d v = absurd (ground arith)
  SinkOk-done (stopping zero) engine results d v = (v.0, omega (arith, v.1))
  SinkOk-done (stopping (suc left)) engine results d v = absurd (ground arith)
  SinkOk-done stopped engine results d v = absurd (ground arith)

  -- Every event keeps the order.
  pub apply-Orderly :
      IsLawful X
      → (event : Event) (s : System) → is_enabled event s ≡ true
      → Attended s
      → Orderly s
      → Orderly (apply event s)
  unfolding apply Pipeline.step
  apply-Orderly L (deliver now d) s h a v = consumer_alive-Orderly s s.consumer _ (a.alive h) v
  apply-Orderly L consumer_turn s h a v =
      consumer_alive-Orderly s (after_turn s.consumer) _ (ground arith) v
  apply-Orderly L engine_turn s h a v = record {
    engine_ok =
        subst (EngineOk (after_turn s.engine) s.consumer)
          (sym (process-requests (is_alive s.sink) s.pipeline))
          (EngineOk-turn s.engine s.consumer s.pipeline.requests h v.engine_ok);
    sink_ok = SinkOk-engine s.sink s.engine _ s.pipeline.results _ (ground arith) v.sink_ok;
  }
  apply-Orderly L (sink_turn faults) s h a v =
      let (r, q) = persist-mailboxes L faults (is_alive s.consumer) s.pipeline in
      record {
        engine_ok = subst (EngineOk s.engine s.consumer) (sym q) v.engine_ok;
        sink_ok =
            subst (SinkOk (after_turn s.sink) s.engine) (sym r)
              (SinkOk-turn s.sink s.engine s.pipeline.results h v.sink_ok);
      }
  apply-Orderly L (refresh rules) s h a v = record {
    engine_ok = EngineOk-update s.engine s.consumer s.pipeline.requests _ v.engine_ok;
    sink_ok = v.sink_ok;
  }
  apply-Orderly L client_turn s h a v = consumer_alive-Orderly s s.consumer _ (a.alive h) v
  apply-Orderly L stop_consumer s h a v = consumer_alive-Orderly s _ s.pipeline (ground arith) v
  apply-Orderly L consumer_stops s h a v =
      let w = consumer_alive-Orderly s stopped s.pipeline (ground arith) v in
      record { engine_ok = w.engine_ok; sink_ok = w.sink_ok }
  apply-Orderly L stop_engine s h a v = record {
    engine_ok = (ground arith, skip_all evaluates s.pipeline.requests);
    sink_ok = SinkOk-engine s.sink s.engine _ s.pipeline.results _ (ground arith) v.sink_ok;
  }
  apply-Orderly L engine_stops s h a v = record {
    engine_ok = EngineOk-done s.engine s.consumer s.pipeline.requests h v.engine_ok;
    sink_ok = SinkOk-engine s.sink s.engine _ s.pipeline.results _ (ground arith) v.sink_ok;
  }
  apply-Orderly L stop_sink s h a v = record {
    engine_ok = v.engine_ok;
    sink_ok = (ground arith, omega arith);
  }
  apply-Orderly L sink_stops s h a v = record {
    engine_ok = v.engine_ok;
    sink_ok = SinkOk-done s.sink s.engine s.pipeline.results h v.sink_ok;
  }

  pub Reach-Orderly :
      {p : Pipeline} {events : List Event} {s : System}
      → IsLawful X
      → Reach (serving p) events s
      → Orderly s
  Reach-Orderly L here = record { engine_ok = tt; sink_ok = tt }
  Reach-Orderly L (next r event h) =
      apply-Orderly L event _ h (Reach-Attended L r) (Reach-Orderly L r)
