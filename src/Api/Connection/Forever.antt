-- ===== src/Api/Connection/Forever.antt =====
-- `run_consumer` over whole connections.
use fraud_guard.Base.{
  ℕ, zero, suc, String, List, [], ◌∷◌, true, Result, err, ◌≡◌, refl, inl, inr, length, All, ap, ◌∙◌,
}
use fraud_guard.Domain.Crates.{Crates}
use fraud_guard.Domain.Transaction.{TransactionRequest}
use fraud_guard.Api.Consumer.{run_consumer}
use fraud_guard.Api.Consumer.Backoff.{doubled, schedule, run_consumer-schedule}
use fraud_guard.Api.EventLoop.{Event}
use fraud_guard.Api.EventLoop.Ends.{is_open, WaitsOrFailed, run-WaitsOrFailed}
use fraud_guard.Api.Connection.{Request, connect_and_consume, results}
use fraud_guard.Api.Connection.SetUp.{connect_and_consume-Begins}

-- The doubled delays of `n` failures, from the k-th on.
abbrev pub doubling : ℕ → ℕ → List ℕ
doubling k zero = []
doubling k (suc n) = doubled k ∷ doubling (suc k) n

abbrev IsFailure : Result (Unit {0}) String → Type 0
IsFailure r = (e : String) × (r ≡ err e)

schedule-doubling :
    (k : ℕ) (ended : List (Result (Unit {0}) String))
    → All IsFailure ended
    → schedule k ended ≡ doubling k (length ended)
unfolding schedule
schedule-doubling k [] h = refl
schedule-doubling k (r ∷ ended) ((e, f), h) =
    rw (f, schedule) (ap (λ l. doubled k ∷ l) (schedule-doubling (suc k) ended h))

module _ ⦃X : Crates⦄ {B W : Type 0} (ask : Request → B → B × Result (Unit {0}) String)
    (handle_transaction : ℕ → TransactionRequest → W → Result (Unit {0}) String × W) where
  connect_and_consume-WaitsOrFailed :
      (amqp_url queue_name : String) (events : List (X.DateTime × Event)) (broker : B) (world : W)
      → All (λ event. is_open event.1 ≡ true) events
      → WaitsOrFailed
          (connect_and_consume ask handle_transaction amqp_url queue_name events broker
            world).session.control
  connect_and_consume-WaitsOrFailed amqp_url queue_name events broker world h =
      elim (connect_and_consume-Begins ask handle_transaction amqp_url queue_name events broker
        world) [
          | inl (asked, taken, session) ↦
              rw session (run-WaitsOrFailed handle_transaction events _ h (inl (true, refl)))
          | inr (e, refused, session) ↦ rw session (inr (e, refl))
        ]

  results-IsFailure :
      (amqp_url queue_name : String) (connections : List (List (X.DateTime × Event))) (broker : B)
      (world : W)
      → All (All (λ event. is_open event.1 ≡ true)) connections
      → All IsFailure (results ask handle_transaction amqp_url queue_name connections broker world)
  unfolding results
  results-IsFailure amqp_url queue_name [] broker world h = tt
  results-IsFailure amqp_url queue_name (events ∷ connections) broker world (h, more) =
      elim (connect_and_consume-WaitsOrFailed amqp_url queue_name events broker world h) [
        | inl (b, e) ↦ rw (e, results) tt
        | inr (m, e) ↦
            rw (e, results) ((m, refl), results-IsFailure amqp_url queue_name connections _ _ more)
      ]

  -- While the channel of commands does not end, `run_consumer` never takes a connection for one that
  -- was closed, so that it never sleeps 5 seconds and never resets the backoff: after the connection
  -- that ended as the k-th (counted from 0), however long it worked, it sleeps `2 ^ k` seconds, at
  -- most 60.
  pub results-doubling :
      (amqp_url queue_name : String) (connections : List (List (X.DateTime × Event))) (broker : B)
      (world : W)
      → All (All (λ event. is_open event.1 ≡ true)) connections
      → (run_consumer 1
          (results ask handle_transaction amqp_url queue_name connections broker world)).0
        ≡ doubling 0
            (length (results ask handle_transaction amqp_url queue_name connections broker world))
  results-doubling amqp_url queue_name connections broker world h =
      run_consumer-schedule _
      ∙ schedule-doubling 0 _ (results-IsFailure amqp_url queue_name connections broker world h)
