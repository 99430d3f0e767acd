-- ===== src/Api/EventLoop.antt =====
-- crates/api/src/amqp/amqp_consumer.rs: the loop of `connect_and_consume` over an open channel. The
-- handler of transactions is an argument, a function on a state of its own. The results of
-- `basic_ack` and `basic_nack` are ignored. A nack has the default options: no requeue, so that
-- the queue hands the message to its dead-letter exchange.
pub mod Replies
pub mod Ends
use fraud_guard.Base.{
  ℕ, String, List, [], ◌∷◌, ◌++◌, Bool, true, false, Result, ok, err, if◌then◌else◌,
}
use fraud_guard.Domain.Crates.{Crates}
use fraud_guard.Domain.Transaction.{TransactionRequest}
use fraud_guard.Api.Delivery.{Delivery, parse_delivery}
use fraud_guard.Api.Consumer.{AckCommand, ack, nack}

-- What the queue sees of the program.
pub data Reply : Type 0 where
  basic_ack : (tag : ℕ) → Reply
  basic_nack : (tag : ℕ) → Reply

-- What `tokio::select!` finds: an item of the stream, the end of the stream, a command, or the end
-- of the channel of commands.
pub data Event : Type 0 where
  delivered : Delivery → Event
  delivery_error : String → Event
  stream_end : Event
  command : AckCommand → Event
  commands_end : Event

-- The loop runs, with which of its two sources are open, or has returned.
pub data Control : Type 0 where
  running : (stream_open commands_open : Bool) → Control
  returned : Result (Unit {0}) String → Control

abbrev pub perform : AckCommand → Reply
perform (ack tag) = basic_ack tag
perform (nack tag) = basic_nack tag

-- The `else` branch: `break` once neither source is open.
abbrev pub after_end : Bool → Bool → Control
after_end stream_open commands_open =
    if stream_open
    then running true commands_open
    else if commands_open
    then running false true
    else returned (ok tt)

module _ ⦃X : Crates⦄ {W : Type 0}
    (handle_transaction : ℕ → TransactionRequest → W → Result (Unit {0}) String × W) where
  -- The state of the handler, and the replies so far.
  pub record Session : Type 0 where
    pub world : W
    pub replies : List Reply
    pub control : Control

  abbrev reject : ℕ → Result (Unit {0}) String → List Reply → List Reply
  reject tag (ok _) replies = replies
  reject tag (err e) replies = replies ++ (basic_nack tag ∷ [])

  unfoldable pub on_delivery : X.DateTime → Delivery → Session → Session
  on_delivery now delivery s =
      let corr_id = delivery.delivery_tag in
      elim (parse_delivery now delivery) [
        | err e ↦ record s { replies = s.replies ++ (basic_nack corr_id ∷ []) }
        | ok tx ↦
            let (result, world) = handle_transaction corr_id tx s.world in
            record s { world = world; replies = reject corr_id result s.replies }
      ]

  unfoldable pub on_command : AckCommand → Session → Session
  on_command cmd s = record s { replies = s.replies ++ (perform cmd ∷ []) }

  -- An event that a closed source cannot give is ignored.
  step_running : Bool → Bool → X.DateTime → Event → Session → Session
  step_running true commands_open now (delivered d) s = on_delivery now d s
  step_running false commands_open now (delivered d) s = s
  step_running true commands_open now (delivery_error e) s = record s { control = returned (err e) }
  step_running false commands_open now (delivery_error e) s = s
  step_running stream_open commands_open now stream_end s = record s {
    control = after_end false commands_open;
  }
  step_running stream_open true now (command cmd) s = on_command cmd s
  step_running stream_open false now (command cmd) s = s
  step_running stream_open commands_open now commands_end s = record s {
    control = after_end stream_open false;
  }

  step_control : Control → X.DateTime → Event → Session → Session
  step_control (running stream_open commands_open) now event s =
      step_running stream_open commands_open now event s
  step_control (returned r) now event s = s

  -- One round of the loop.
  unfoldable pub step : X.DateTime → Event → Session → Session
  unfolding step_control step_running on_delivery on_command
  step now event s = step_control s.control now event s

  -- The rounds of a connection, each at its time.
  unfoldable pub run : List (X.DateTime × Event) → Session → Session
  run [] s = s
  run ((now, event) ∷ events) s = run events (step now event s)
