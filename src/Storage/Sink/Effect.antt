-- ===== src/Storage/Sink/Effect.antt =====
-- What a call of `insert_transaction_and_decision` leaves in the tables.
use mathlib.Core.Option.{or_else}
use fraud_guard.Base.{if◌then◌else◌, ℕ, none, some, ok, ◌≡◌, inl, inr}
use fraud_guard.Domain.Decision.{Decision}
use fraud_guard.Domain.Crates.{Crates, IsLawful}
use fraud_guard.Domain.Transaction.{TransactionRequest}
use fraud_guard.Storage.Db.{Db, transaction_row, transaction_key, decision_key}
use fraud_guard.Storage.Db.Integrity.{IsIntact, persist, persist-IsIntact, decision_entry}
use fraud_guard.Storage.Table.{find}
use fraud_guard.Storage.Table.Laws.{find-add_or_nothing}
use fraud_guard.Storage.Sink.{Faults, Outcome, insert_transaction_and_decision}
use fraud_guard.Storage.Sink.Retry.{insert_total}
use fraud_guard.Storage.Sink.Attempt.{AllOrNothing}

module _ ⦃X : Crates⦄ where
  pub AllOrNothing-IsIntact :
      IsLawful X
      → (tx : TransactionRequest) (decision : Decision) (db db' : Db) → IsIntact db
      → AllOrNothing tx decision db db'
      → IsIntact db'
  AllOrNothing-IsIntact L tx decision db db' v (inl e) = rw e v
  AllOrNothing-IsIntact L tx decision db db' v (inr (w, s, e)) =
      rw e (persist-IsIntact L (transaction_row tx) w db v)

  -- With lawful crates, a call that ends with success acts on each of the two tables as on a map into
  -- which an identifier is put only if it is absent: the first decision stays.
  pub insert-find :
      IsLawful X
      → (faults : ℕ → Faults) (tx : TransactionRequest) (decision : Decision) (db : Db)
        (o : Outcome)
      → insert_transaction_and_decision faults tx decision db ≡ some o
      → o.result ≡ ok tt
      → (id : X.Uuid)
      → (value : X.Value) × (X.decision_value decision ≡ ok value)
        × (find transaction_key id o.db.transactions
            ≡ or_else
                (find transaction_key id db.transactions)
                (if X.uuid_eq tx.id.uuid id then some (transaction_row tx) else none))
        × (find decision_key id o.db.decisions
            ≡ or_else (find decision_key id db.decisions) (
                if X.uuid_eq tx.id.uuid id
                then some (decision_entry (transaction_row tx) value)
                else none))
  unfolding persist transaction_row
  insert-find L faults tx decision db o run r id =
      let (o', run', c) = insert_total L faults tx decision db in
      let same : o' ≡ o = cc (run, run') in
      let (v, e, p) = c.stored (rw same r) in
      (
        v,
        e,
        rw (← same, p)
            (find-add_or_nothing transaction_key L (transaction_row tx) db.transactions id),
        rw (← same, p)
            (find-add_or_nothing decision_key L (decision_entry (transaction_row tx) v) db.decisions
              id),
      )

  -- With lawful crates, if the constraints of the schema hold before a call that ends, they hold after
  -- it, whatever it returns.
  pub insert-IsIntact :
      IsLawful X
      → (faults : ℕ → Faults) (tx : TransactionRequest) (decision : Decision) (db : Db)
        (o : Outcome)
      → insert_transaction_and_decision faults tx decision db ≡ some o
      → IsIntact db
      → IsIntact o.db
  insert-IsIntact L faults tx decision db o run v =
      let (o', run', c) = insert_total L faults tx decision db in
      let same : o' ≡ o = cc (run, run') in
      rw (← same) (AllOrNothing-IsIntact L tx decision db o'.db v c.atomic)
