-- ===== src/App/Main/Shutdown.antt =====
-- crates/app/src/main.rs: the run of the program and its shutdown after ctrl-c. `stop_gracefully` of
-- kameo puts a signal behind the messages that are in the mailbox then: the actor handles those and
-- stops, and what came later is dropped. `main` waits for each actor to stop before it stops the
-- next: consumer, engine, sink. `on_stop` of the consumer aborts the task of the client, which ends at
-- its next await: a turn of it that is under way at the abort counts as before it. The mailboxes are
-- unbounded here, so that no task waits at a full one. Messages that are dropped stay in the mailbox here, where they can be
-- seen.
pub mod Client
pub mod Order
pub mod Drained
pub mod Kept
use fraud_guard.Base.{
  ℕ, zero, suc, String, List, [], ◌∷◌, Bool, true, false, ◌&&◌, not, Result, ok, err, length, ◌≡◌,
}
use fraud_guard.Domain.Crates.{Crates}
use fraud_guard.Domain.Rule.{Rule}
use fraud_guard.Storage.Sink.{Faults}
use fraud_guard.Api.Delivery.{Delivery}
use fraud_guard.App.Consumer.{Links, is_consuming, on_stop}
use fraud_guard.App.Pipeline
use fraud_guard.App.Pipeline.{Pipeline}

-- An actor runs, or has a number of messages to handle before it stops, or has stopped.
pub data Status : Type 0 where
  running : Status
  stopping : (left : ℕ) → Status
  stopped : Status

abbrev pub is_running : Status → Bool
is_running running = true
is_running (stopping left) = false
is_running stopped = false

-- A `tell` finds the actor, or it can still be upgraded.
abbrev pub is_alive : Status → Bool
is_alive running = true
is_alive (stopping left) = true
is_alive stopped = false

abbrev pub can_turn : Status → Bool
can_turn running = true
can_turn (stopping zero) = false
can_turn (stopping (suc left)) = true
can_turn stopped = false

abbrev pub is_done : Status → Bool
is_done running = false
is_done (stopping zero) = true
is_done (stopping (suc left)) = false
is_done stopped = false

abbrev pub after_turn : Status → Status
after_turn running = running
after_turn (stopping zero) = stopping zero
after_turn (stopping (suc left)) = stopping left
after_turn stopped = stopped

-- What `tell` returns.
abbrev pub told : Status → Result (Unit {0}) String
told running = ok tt
told (stopping left) = ok tt
told stopped = err "actor not running"

module _ ⦃X : Crates⦄ where
  pub record System : Type 0 where
    pub pipeline : Pipeline
    pub consumer : Status
    pub engine : Status
    pub sink : Status
    pub client : Bool  -- whether the task that `start` spawned runs

  -- The turns of the tasks, and the lines of `main` after `ctrl_c`, with the ends of the waits.
  pub data Event : Type 0 where
    deliver : X.DateTime → Delivery → Event
    consumer_turn : Event
    engine_turn : Event
    sink_turn : (ℕ → Faults) → Event
    refresh : List Rule → Event
    client_turn : Event
    stop_consumer : Event
    consumer_stops : Event
    stop_engine : Event
    engine_stops : Event
    stop_sink : Event
    sink_stops : Event

  abbrev pub is_enabled : Event → System → Bool
  is_enabled (deliver now d) s = s.client
  is_enabled consumer_turn s = can_turn s.consumer
  is_enabled engine_turn s = can_turn s.engine
  is_enabled (sink_turn faults) s = can_turn s.sink
  is_enabled (refresh rules) s = is_alive s.engine
  is_enabled client_turn s = s.client
  is_enabled stop_consumer s = is_running s.consumer
  is_enabled consumer_stops s = is_done s.consumer
  is_enabled stop_engine s = elim s.consumer [
    | stopped ↦ is_running s.engine
    | running ↦ false
    | stopping left ↦ false
  ]
  is_enabled engine_stops s = is_done s.engine
  is_enabled stop_sink s = elim s.engine [
    | stopped ↦ is_running s.sink
    | running ↦ false
    | stopping left ↦ false
  ]
  is_enabled sink_stops s = is_done s.sink

  abbrev pub links_of : System → Links
  links_of s = record {
    upgrade = is_alive s.consumer;
    store = told s.consumer;
    evaluate = told s.engine;
  }

  unfoldable pub apply : Event → System → System
  apply (deliver now d) s = record s {
    pipeline = Pipeline.step (Pipeline.deliver now d (links_of s)) s.pipeline;
  }
  apply consumer_turn s = record s {
    pipeline = Pipeline.step Pipeline.consumer_turn s.pipeline;
    consumer = after_turn s.consumer;
  }
  apply engine_turn s = record s {
    pipeline = Pipeline.step (Pipeline.engine_turn (is_alive s.sink)) s.pipeline;
    engine = after_turn s.engine;
  }
  apply (sink_turn faults) s = record s {
    pipeline = Pipeline.step (Pipeline.sink_turn faults (is_alive s.consumer)) s.pipeline;
    sink = after_turn s.sink;
  }
  apply (refresh rules) s = record s {
    pipeline = Pipeline.step (Pipeline.refresh rules) s.pipeline;
  }
  apply client_turn s = record s { pipeline = Pipeline.step Pipeline.client_turn s.pipeline }
  apply stop_consumer s = record s { consumer = stopping (length s.pipeline.inbox) }
  apply consumer_stops s = record s {
    pipeline = record s.pipeline { consumer = (on_stop s.pipeline.consumer).0 };
    consumer = stopped;
    client = s.client && not (on_stop s.pipeline.consumer).1;
  }
  apply stop_engine s = record s { engine = stopping (length s.pipeline.requests) }
  apply engine_stops s = record s { engine = stopped }
  apply stop_sink s = record s { sink = stopping (length s.pipeline.results) }
  apply sink_stops s = record s { sink = stopped }

  -- The states that a history of events leads to, the last event first.
  pub data Reach (s : System) : List Event → System → Type 0 where
    here : Reach s [] s
    next :
        {events : List Event} {t : System}
        → Reach s events t
        → (event : Event) → is_enabled event t ≡ true
        → Reach s (event ∷ events) (apply event t)

  -- All actors run, and the task of the client if it was spawned.
  abbrev pub serving : Pipeline → System
  serving p = record {
    pipeline = p;
    consumer = running;
    engine = running;
    sink = running;
    client = is_consuming p.consumer;
  }
