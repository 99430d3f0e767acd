-- ===== src/Api/EventLoop/Replies.antt =====
-- What the loop of one connection answers, and when it returns.
use mathlib.Core.List.{append-nil, append_assoc}
use fraud_guard.Base.{
  ℕ, String, List, [], ◌∷◌, ◌++◌, Bool, true, false, Result, Result-cases, inl, inr, ◌≡◌, refl,
  arith, sym, ◌∙◌, All, map, subst,
}
use fraud_guard.Domain.Crates.{Crates}
use fraud_guard.Domain.Transaction.{TransactionRequest}
use fraud_guard.Api.Delivery.{Delivery, parse_delivery}
use fraud_guard.Api.Consumer.{AckCommand}
use fraud_guard.Api.EventLoop.{
  Reply, Event, delivered, delivery_error, stream_end, command, commands_end, running, perform,
  Session, on_delivery, step, run,
}

-- Is the event neither an error of the stream nor the end of the channel of commands?
abbrev pub keeps_going : Event → Bool
keeps_going (delivered d) = true
keeps_going (delivery_error e) = false
keeps_going stream_end = true
keeps_going (command cmd) = true
keeps_going commands_end = false

module _ ⦃X : Crates⦄ {W : Type 0}
    (handle_transaction : ℕ → TransactionRequest → W → Result (Unit {0}) String × W) where
  -- The loop waits for commands, whether or not its stream is open.
  abbrev pub Waits : Session handle_transaction → Type 0
  Waits s = (stream_open : Bool) × (s.control ≡ running stream_open true)

  on_delivery-control :
      (now : X.DateTime) (d : Delivery) (s : Session handle_transaction)
      → (on_delivery handle_transaction now d s).control ≡ s.control
  unfolding on_delivery
  on_delivery-control now d s = elim (Result-cases (parse_delivery now d)) [
    | inl (tx, e) ↦ rw (e, on_delivery) refl
    | inr (m, e) ↦ rw (e, on_delivery) refl
  ]

  abbrev waiting : Bool → W → List Reply → Session handle_transaction
  waiting stream_open world replies = record {
    world = world;
    replies = replies;
    control = running stream_open true;
  }

  waiting-Waits :
      (stream_open : Bool) (now : X.DateTime) (event : Event) (world : W) (replies : List Reply)
      → keeps_going event ≡ true
      → Waits (step handle_transaction now event (waiting stream_open world replies))
  unfolding step
  waiting-Waits true now (delivered d) world replies k =
      (true, on_delivery-control now d (waiting true world replies))
  waiting-Waits false now (delivered d) world replies k = (false, refl)
  waiting-Waits b now (delivery_error m) world replies k = absurd (ground arith)
  waiting-Waits true now stream_end world replies k = (false, refl)
  waiting-Waits false now stream_end world replies k = (false, refl)
  waiting-Waits true now (command cmd) world replies k = (true, refl)
  waiting-Waits false now (command cmd) world replies k = (false, refl)
  waiting-Waits b now commands_end world replies k = absurd (ground arith)

  pub step-Waits :
      (now : X.DateTime) (event : Event) (s : Session handle_transaction)
      → keeps_going event ≡ true
      → Waits s
      → Waits (step handle_transaction now event s)
  step-Waits now event s k (b, e) =
      subst (λ c. Waits (step handle_transaction now event (record s { control = c }))) (sym e)
        (waiting-Waits b now event s.world s.replies k)

  -- From a state that runs with the channel of commands open, while no error of the stream and no end
  -- of that channel comes, the loop goes on, also after the end of the stream: it does not return, so
  -- that `run_consumer` does not reconnect.
  pub run-Waits :
      (events : List (X.DateTime × Event)) (s : Session handle_transaction)
      → All (λ event. keeps_going event.1 ≡ true) events
      → Waits s
      → Waits (run handle_transaction events s)
  unfolding run
  run-Waits [] s k w = w
  run-Waits ((now, event) ∷ events) s k w = run-Waits events _ k.1 (step-Waits now event s k.0 w)

  -- The commands of a history, in order.
  abbrev pub commands_of : List (X.DateTime × Event) → List AckCommand
  commands_of [] = []
  commands_of ((now, delivered d) ∷ events) = commands_of events
  commands_of ((now, delivery_error e) ∷ events) = commands_of events
  commands_of ((now, stream_end) ∷ events) = commands_of events
  commands_of ((now, command cmd) ∷ events) = cmd ∷ commands_of events
  commands_of ((now, commands_end) ∷ events) = commands_of events

  drained :
      (events : List (X.DateTime × Event)) (world : W) (replies : List Reply)
      → All (λ event. keeps_going event.1 ≡ true) events
      → ((run handle_transaction events (waiting false world replies)).world ≡ world)
        × ((run handle_transaction events (waiting false world replies)).replies
            ≡ replies ++ map perform (commands_of events))
  unfolding run step
  drained [] world replies k = (refl, sym (append-nil replies))
  drained ((now, delivered d) ∷ events) world replies k = drained events world replies k.1
  drained ((now, delivery_error m) ∷ events) world replies k = absurd (ground (arith, k.0))
  drained ((now, stream_end) ∷ events) world replies k = drained events world replies k.1
  drained ((now, command cmd) ∷ events) world replies k =
      let (w, r) = drained events world (replies ++ (perform cmd ∷ [])) k.1 in
      (w, r ∙ append_assoc replies _ _)
  drained ((now, commands_end) ∷ events) world replies k = absurd (ground (arith, k.0))

  -- Once the stream has ended, with the channel of commands open, and while no error of the stream and
  -- no end of that channel comes, the handler is not called again, and the replies that follow are
  -- those of the commands, in order.
  pub run-drains :
      (events : List (X.DateTime × Event)) (s : Session handle_transaction)
      → s.control ≡ running false true
      → All (λ event. keeps_going event.1 ≡ true) events
      → ((run handle_transaction events s).world ≡ s.world)
        × ((run handle_transaction events s).replies
            ≡ s.replies ++ map perform (commands_of events))
  run-drains events s e k =
      subst
        (λ c.
          ((run handle_transaction events (record s { control = c })).world ≡ s.world)
          × ((run handle_transaction events (record s { control = c })).replies
              ≡ s.replies ++ map perform (commands_of events)))
        (sym e) (drained events s.world s.replies k)
