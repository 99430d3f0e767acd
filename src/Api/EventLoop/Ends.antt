-- ===== src/Api/EventLoop/Ends.antt =====
-- How the loop of a connection returns.
use fraud_guard.Base.{
  ℕ, String, List, [], ◌∷◌, Bool, true, false, Result, err, ◌≡◌, refl, ◌⊎◌, inl, inr, All, arith,
}
use fraud_guard.Domain.Crates.{Crates}
use fraud_guard.Domain.Transaction.{TransactionRequest}
use fraud_guard.Api.EventLoop.{
  Event, delivered, delivery_error, stream_end, command, commands_end, Control, running, returned,
  Session, step, run,
}
use fraud_guard.Api.EventLoop.Replies.{step-Waits}

-- Is the event not the end of the channel of commands?
abbrev pub is_open : Event → Bool
is_open (delivered d) = true
is_open (delivery_error e) = true
is_open stream_end = true
is_open (command cmd) = true
is_open commands_end = false

-- The loop waits for commands, or has returned an error.
abbrev pub WaitsOrFailed : Control → Type 0
WaitsOrFailed control =
    ((stream_open : Bool) × (control ≡ running stream_open true))
    ⊎ ((e : String) × (control ≡ returned (err e)))

module _ ⦃X : Crates⦄ {W : Type 0}
    (handle_transaction : ℕ → TransactionRequest → W → Result (Unit {0}) String × W) where
  run-returned :
      (events : List (X.DateTime × Event)) (s : Session handle_transaction)
      (r : Result (Unit {0}) String)
      → s.control ≡ returned r
      → (run handle_transaction events s).control ≡ returned r
  unfolding run step
  run-returned [] s r e = e
  run-returned ((now, event) ∷ events) s r e = run-returned events _ r (rw (e, step) refl)

  step-WaitsOrFailed :
      (now : X.DateTime) (event : Event) (s : Session handle_transaction) (stream_open : Bool)
      → is_open event ≡ true
      → s.control ≡ running stream_open true
      → WaitsOrFailed (step handle_transaction now event s).control
  unfolding step
  step-WaitsOrFailed now (delivered d) s b o e =
      inl (step-Waits handle_transaction now (delivered d) s refl (b, e))
  step-WaitsOrFailed now (delivery_error m) s true o e = rw (e, step) (inr (m, refl))
  step-WaitsOrFailed now (delivery_error m) s false o e = inl (false, rw (e, step) refl)
  step-WaitsOrFailed now stream_end s b o e =
      inl (step-Waits handle_transaction now stream_end s refl (b, e))
  step-WaitsOrFailed now (command cmd) s b o e =
      inl (step-Waits handle_transaction now (command cmd) s refl (b, e))
  step-WaitsOrFailed now commands_end s b o e = absurd (ground arith)

  -- While the channel of commands does not end, the loop goes on, or returns an error.
  pub run-WaitsOrFailed :
      (events : List (X.DateTime × Event)) (s : Session handle_transaction)
      → All (λ event. is_open event.1 ≡ true) events
      → WaitsOrFailed s.control
      → WaitsOrFailed (run handle_transaction events s).control
  unfolding run
  run-WaitsOrFailed [] s h w = w
  run-WaitsOrFailed ((now, event) ∷ events) s h (inl (b, e)) =
      run-WaitsOrFailed events _ h.1 (step-WaitsOrFailed now event s b h.0 e)
  run-WaitsOrFailed ((now, event) ∷ events) s h (inr (m, e)) =
      inr (m, run-returned ((now, event) ∷ events) s (err m) e)
