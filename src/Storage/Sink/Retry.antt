-- ===== src/Storage/Sink/Retry.antt =====
-- The retry loop of the sink: its attempts, its delays and its outcome.
use native.Mathlib.Decide.{dec_lt}
use fraud_guard.Base.{
  ℕ, zero, suc, ◌+◌, ◌-◌, ◌*◌, ◌^◌, ◌≤◌, ◌<◌, List, [], ◌∷◌, ◌++◌, some, Result, ok, err, ◌≡◌, refl,
  ◌∙◌, inl, inr, arith,
}
use fraud_guard.Domain.Error.{DomainError}
use fraud_guard.Domain.Decision.{Decision}
use fraud_guard.Domain.Crates.{Crates, IsLawful}
use fraud_guard.Domain.Transaction.{TransactionRequest}
use fraud_guard.Storage.Db.{Db}
use fraud_guard.Storage.Sink.{
  Faults, max_attempts, Outcome, insert_loop, insert_transaction_and_decision,
  attempt_insert_transaction_and_decision,
}
use fraud_guard.Storage.Sink.Attempt.{
  Stored, AllOrNothing, IsClean, attempt_cases, attempt_clean, Stored-AllOrNothing,
}

-- The delays before the retries: 100 ms, doubled each time.
pub backoff : ℕ → List ℕ
backoff zero = []
backoff (suc k) = backoff k ++ ((100 * 2 ^ k) ∷ [])

module _ ⦃X : Crates⦄ where
  -- What the caller is promised.
  pub record Contract (tx : TransactionRequest) (decision : Decision) (start : Db) (o : Outcome)
      : Type 0 where
    pub stored : o.result ≡ ok tt → Stored tx decision start o.db
    pub atomic : AllOrNothing tx decision start o.db
    pub retries : (k : ℕ) × (k < max_attempts) × (o.delays ≡ backoff k)

  AllOrNothing-trans :
      IsLawful X
      → (tx : TransactionRequest) (decision : Decision) (start db db' : Db)
      → AllOrNothing tx decision start db
      → AllOrNothing tx decision db db'
      → AllOrNothing tx decision start db'
  AllOrNothing-trans L tx decision start db db' a (inl e) = rw e a
  AllOrNothing-trans L tx decision start db db' a (inr s) =
      inr (Stored-AllOrNothing L tx decision start db db' a s)

  module _ (faults : ℕ → Faults) (tx : TransactionRequest) (decision : Decision) where
    abbrev attempt_after : ℕ → Db → Result (Unit {0}) DomainError × Db
    attempt_after previous db =
        attempt_insert_transaction_and_decision (faults (previous + 1)) tx decision db

    insert_loop-ok :
        (fuel previous : ℕ) (db : Db) (delays : List ℕ)
        → (attempt_after previous db).0 ≡ ok tt
        → insert_loop (suc fuel) faults tx decision previous db delays
          ≡ some (record { result = ok tt; db = (attempt_after previous db).1; delays = delays })
    unfolding insert_loop
    insert_loop-ok fuel previous db delays e = rw (e, insert_loop)

    insert_loop-last :
        (fuel previous : ℕ) (db : Db) (delays : List ℕ) (m : DomainError)
        → (attempt_after previous db).0 ≡ err m
        → max_attempts ≤ previous + 1
        → insert_loop (suc fuel) faults tx decision previous db delays
          ≡ some (record { result = err m; db = (attempt_after previous db).1; delays = delays })
    unfolding insert_loop
    insert_loop-last fuel previous db delays m e h = rw (e, insert_loop) (ground arith)

    insert_loop-again :
        (fuel previous : ℕ) (db : Db) (m : DomainError)
        → (attempt_after previous db).0 ≡ err m
        → previous + 1 < max_attempts
        → insert_loop (suc fuel) faults tx decision previous db (backoff previous)
          ≡ insert_loop fuel faults tx decision
              (suc previous)
              (attempt_after previous db).1
              (backoff (suc previous))
    unfolding insert_loop backoff
    insert_loop-again fuel previous db m e h =
        let one : previous + 1 ≡ suc previous = omega arith in
        let back : suc previous - 1 ≡ previous = omega arith in
        rw (e, insert_loop, one, back) (ground arith)

    ok_Contract :
        IsLawful X
        → (previous : ℕ) (start db : Db) → previous < max_attempts
        → AllOrNothing tx decision start db
        → Stored tx decision db (attempt_after previous db).1
        → Contract tx decision start (record {
          result = ok tt;
          db = (attempt_after previous db).1;
          delays = backoff previous;
        })
    ok_Contract L previous start db p a s =
        let all = Stored-AllOrNothing L tx decision start db (attempt_after previous db).1 a s in
        record { stored = λ _. all; atomic = inr all; retries = (previous, p, refl) }

    insert_loop-Contract :
        IsLawful X
        → (fuel previous : ℕ) (start db : Db) → previous + suc fuel ≡ max_attempts
        → AllOrNothing tx decision start db
        → (o : Outcome) × (insert_loop (suc fuel) faults tx decision previous db (backoff previous)
            ≡ some o)
          × Contract tx decision start o
    insert_loop-Contract L zero previous start db p a =
        elim (attempt_cases L (faults (previous + 1)) tx decision db) [
          | inl (e, s) ↦ (
            record {
              result = ok tt;
              db = (attempt_after previous db).1;
              delays = backoff previous;
            },
            insert_loop-ok zero previous db (backoff previous) e,
            ok_Contract L previous start db (omega arith) a s,
          )
          | inr (m, e, s) ↦ (
            record {
              result = err m;
              db = (attempt_after previous db).1;
              delays = backoff previous;
            },
            insert_loop-last zero previous db (backoff previous) m e (omega arith),
            record {
              stored = λ h. cc;
              atomic = AllOrNothing-trans L tx decision start db _ a s;
              retries = (previous, omega arith, refl);
            },
          )
        ]
    insert_loop-Contract L (suc fuel) previous start db p a =
        elim (attempt_cases L (faults (previous + 1)) tx decision db) [
          | inl (e, s) ↦ (
            record {
              result = ok tt;
              db = (attempt_after previous db).1;
              delays = backoff previous;
            },
            insert_loop-ok (suc fuel) previous db (backoff previous) e,
            ok_Contract L previous start db (omega arith) a s,
          )
          | inr (m, e, s) ↦
              let (o, run, c) =
                insert_loop-Contract L fuel (suc previous) start (attempt_after previous db).1
                  (omega arith) (AllOrNothing-trans L tx decision start db _ a s) in
              (o, insert_loop-again (suc fuel) previous db m e (omega arith) ∙ run, c)
        ]

    attempt_after_clean :
        IsLawful X
        → (value : X.Value) (k : ℕ) → X.decision_value decision ≡ ok value
        → IsClean (faults (suc k))
        → (previous : ℕ) (db : Db) → previous ≡ k
        → (attempt_after previous db).0 ≡ ok tt
    attempt_after_clean L value k v clean previous db e =
        let same : previous + 1 ≡ suc k = omega arith in
        rw (same, attempt_clean L (faults (suc k)) tx decision value db clean v) refl

    insert_loop_clean :
        IsLawful X
        → (value : X.Value) (k : ℕ) → X.decision_value decision ≡ ok value
        → IsClean (faults (suc k))
        → k < max_attempts
        → (fuel previous : ℕ) (db : Db) → previous + suc fuel ≡ max_attempts
        → previous ≤ k
        → (o : Outcome) × (insert_loop (suc fuel) faults tx decision previous db (backoff previous)
            ≡ some o)
          × (o.result ≡ ok tt)
    insert_loop_clean L value k v clean small zero previous db p below = (
      _,
      insert_loop-ok zero previous db (backoff previous)
          (attempt_after_clean L value k v clean previous db (omega arith)),
      refl,
    )
    insert_loop_clean L value k v clean small (suc fuel) previous db p below =
        elim (attempt_cases L (faults (previous + 1)) tx decision db) [
          | inl (e, s) ↦ (_, insert_loop-ok (suc fuel) previous db (backoff previous) e, refl)
          | inr (m, e, s) ↦ elim (dec_lt previous k) [
            | yes later ↦
                let (o, run, r) =
                  insert_loop_clean L value k v clean small fuel (suc previous)
                    (attempt_after previous db).1 (omega arith) later in
                (o, insert_loop-again (suc fuel) previous db m e (omega arith) ∙ run, r)
            | no last ↦
                let good : (attempt_after previous db).0 ≡ ok tt =
                  attempt_after_clean L value k v clean previous db (omega arith) in
                absurd (grind arith)
          ]
        ]

  -- With lawful crates, the loop ends within its three attempts, whatever fails, with at most two
  -- retries after 100 and 200 ms; the tables hold both rows or are as before, and both if it
  -- reports success.
  pub insert_total :
      IsLawful X
      → (faults : ℕ → Faults) (tx : TransactionRequest) (decision : Decision) (db : Db)
      → (o : Outcome) × (insert_transaction_and_decision faults tx decision db ≡ some o)
        × Contract tx decision db o
  unfolding insert_transaction_and_decision backoff
  insert_total L faults tx decision db =
      insert_loop-Contract faults tx decision L 2 0 db db refl (inl refl)

  -- With lawful crates, if the decision can be serialised and one of the three attempts meets no fault, the loop
  -- reports success and has stored both rows.
  pub insert_recovers :
      IsLawful X
      → (faults : ℕ → Faults) (tx : TransactionRequest) (decision : Decision) (db : Db)
      → (value : X.Value) (k : ℕ) → X.decision_value decision ≡ ok value
      → k < max_attempts
      → IsClean (faults (suc k))
      → (o : Outcome) × (insert_transaction_and_decision faults tx decision db ≡ some o)
        × (o.result ≡ ok tt)
        × Stored tx decision db o.db
  unfolding insert_transaction_and_decision backoff
  insert_recovers L faults tx decision db value k v small clean =
      let (o, run, c) = insert_total L faults tx decision db in
      let (o', run', r) =
        insert_loop_clean faults tx decision L value k v clean small 2 0 db refl (omega arith) in
      let done : o.result ≡ ok tt = cc (run, run', r) in (o, run, done, c.stored done)
