-- ===== src/Api/Consumer/Backoff.antt =====
-- The delays between the connections of `run_consumer`.
use fraud_guard.Base.{
  ℕ, suc, ◌^◌, ◌≤◌, String, List, [], ◌∷◌, Result, ok, err, ltb, ◌≡◌, refl, ap, subst, arith, All,
  if◌then◌else◌, length,
}
use native.Mathlib.Nat.{pow-suc}
use fraud_guard.Api.Consumer.{next_backoff, reconnect, run_consumer}

-- The smaller of the two.
abbrev min : ℕ → ℕ → ℕ
min a b = if ltb b a then b else a

-- The doubled delay, at most a minute, after `k` failures in a row.
pub doubled : ℕ → ℕ
doubled k = min (2 ^ k) 60

-- The sleeps of a run whose last `k` connections failed: 5 seconds after a connection that was
-- closed, and otherwise the delay that the failures since then have doubled.
unfoldable pub schedule : ℕ → List (Result (Unit {0}) String) → List ℕ
schedule k [] = []
schedule k (ok _ ∷ connections) = 5 ∷ schedule 0 connections
schedule k (err e ∷ connections) = doubled k ∷ schedule (suc k) connections

-- From a backoff between 1 and 60 seconds, the sleeps of any run of connections are between 1 and 60
-- seconds, one for each connection.
pub run_consumer_bounds :
    (backoff : ℕ) (connections : List (Result (Unit {0}) String))
    → 1 ≤ backoff
    → backoff ≤ 60
    → All (λ sleep. (1 ≤ sleep) × (sleep ≤ 60)) (run_consumer backoff connections).0
      × (length (run_consumer backoff connections).0 ≡ length connections)
unfolding run_consumer reconnect
run_consumer_bounds backoff [] lo hi = (tt, refl)
run_consumer_bounds backoff (ok _ ∷ connections) lo hi =
    let (bounds, count) = run_consumer_bounds 1 connections (omega arith) (omega arith) in
    ((((omega arith), (omega arith)), bounds), ground (arith, count))
run_consumer_bounds backoff (err e ∷ connections) lo hi =
    let (bounds, count) =
      run_consumer_bounds (next_backoff backoff) connections (ground arith) (ground arith) in
    (((lo, hi), bounds), ground (arith, count))

next_backoff-doubled : (k : ℕ) → next_backoff (doubled k) ≡ doubled (suc k)
unfolding doubled
next_backoff-doubled k = ground (arith, pow-suc 2 k)

doubled_zero : doubled 0 ≡ 1
unfolding doubled
doubled_zero = refl

run_consumer-doubled :
    (k : ℕ) (connections : List (Result (Unit {0}) String))
    → (run_consumer (doubled k) connections).0 ≡ schedule k connections
unfolding run_consumer reconnect schedule
run_consumer-doubled k [] = refl
run_consumer-doubled k (ok _ ∷ connections) =
    ap (λ l. 5 ∷ l)
      (subst (λ b. (run_consumer b connections).0 ≡ schedule 0 connections) doubled_zero
        (run_consumer-doubled 0 connections))
run_consumer-doubled k (err e ∷ connections) =
    rw next_backoff-doubled (ap (λ l. doubled k ∷ l) (run_consumer-doubled (suc k) connections))

-- A run sleeps 5 seconds after each connection that was closed, and after the k-th failure in a row
-- (counted from 0) for `2 ^ k` seconds, at most 60.
pub run_consumer-schedule :
    (connections : List (Result (Unit {0}) String))
    → (run_consumer 1 connections).0 ≡ schedule 0 connections
run_consumer-schedule connections =
    subst (λ b. (run_consumer b connections).0 ≡ schedule 0 connections) doubled_zero
      (run_consumer-doubled 0 connections)
