-- ===== src/Storage/Sink/Attempt.antt =====
-- One attempt at storing a transaction with its decision.
use fraud_guard.Base.{none, ok, err, Result-cases, ◌≡◌, refl, ◌∙◌, ap, ◌⊎◌, inl, inr, arith}
use fraud_guard.Domain.Error.{DomainError}
use fraud_guard.Domain.Decision.{Decision}
use fraud_guard.Domain.Crates.{Crates, IsLawful}
use fraud_guard.Domain.Transaction.{TransactionRequest}
use fraud_guard.Storage.Db.{Db, transaction_row}
use fraud_guard.Storage.Db.Integrity.{persist, persist_again, insert_both}
use fraud_guard.Storage.Sink.{
  Faults, Commit, committed, rolled_back, answer_lost, finish, transaction_body,
  attempt_insert_transaction_and_decision,
}

module _ ⦃X : Crates⦄ where
  -- The tables `after` are the tables `start` with the transaction and its decision.
  abbrev pub Stored : TransactionRequest → Decision → Db → Db → Type 0
  Stored tx decision start after =
      (value : X.Value) × (X.decision_value decision ≡ ok value)
      × (after ≡ persist (transaction_row tx) value start)

  -- All or nothing: the tables are as at the start, or both rows are stored.
  abbrev pub AllOrNothing : TransactionRequest → Decision → Db → Db → Type 0
  AllOrNothing tx decision start after = (after ≡ start) ⊎ Stored tx decision start after

  -- A fault-free attempt.
  pub record IsClean (f : Faults) : Type 0 where
    pub begin : f.begin ≡ none
    pub insert_transaction : f.insert_transaction ≡ none
    pub insert_decision : f.insert_decision ≡ none
    pub commit : f.commit ≡ committed

  transaction_body-ok :
      IsLawful X
      → (f : Faults) (tx : TransactionRequest) (decision : Decision) (db db' : Db)
      → transaction_body f tx decision db ≡ ok db'
      → Stored tx decision db db'
  unfolding transaction_body transaction_row
  transaction_body-ok L f tx decision db db' h = elim (Result-cases (X.decision_value decision)) [
    | inl (v, e) ↦ (v, e, ground (arith, insert_both L f.constraint (transaction_row tx) v db))
    | inr (m, e) ↦ absurd (ground arith)
  ]

  finish_cases :
      (tx : TransactionRequest) (decision : Decision) (db db' : Db)
      → Stored tx decision db db'
      → (c : Commit)
      → (((finish c db db').0 ≡ ok tt) × Stored tx decision db (finish c db db').1)
        ⊎ ((e : DomainError) × ((finish c db db').0 ≡ err e)
            × AllOrNothing tx decision db (finish c db db').1)
  finish_cases tx decision db db' s committed = inl (refl, s)
  finish_cases tx decision db db' s (rolled_back m) = inr (_, refl, inl refl)
  finish_cases tx decision db db' s (answer_lost m) = inr (_, refl, inr s)

  -- A later attempt keeps to what an earlier one may have stored.
  pub Stored-AllOrNothing :
      IsLawful X
      → (tx : TransactionRequest) (decision : Decision) (start db db' : Db)
      → AllOrNothing tx decision start db
      → Stored tx decision db db'
      → Stored tx decision start db'
  Stored-AllOrNothing L tx decision start db db' (inl e) (v, s, p) = (v, s, rw (← e) p)
  Stored-AllOrNothing L tx decision start db db' (inr (w, r, q)) (v, s, p) = (
    w,
    r,
    p ∙ ap (persist (transaction_row tx) v) q ∙ persist_again L (transaction_row tx) w v start,
  )

  transaction_body_clean :
      IsLawful X
      → (f : Faults) (tx : TransactionRequest) (decision : Decision) (value : X.Value) (db : Db)
      → IsClean f
      → X.decision_value decision ≡ ok value
      → transaction_body f tx decision db ≡ ok (persist (transaction_row tx) value db)
  unfolding transaction_body transaction_row
  transaction_body_clean L f tx decision value db c e =
      ground (arith, insert_both L f.constraint (transaction_row tx) value db)

  -- An attempt that reports success has stored both rows; one that fails has stored both or none.
  pub attempt_cases :
      IsLawful X
      → (f : Faults) (tx : TransactionRequest) (decision : Decision) (db : Db)
      → let (result, db') = attempt_insert_transaction_and_decision f tx decision db in
        ((result ≡ ok tt) × Stored tx decision db db')
        ⊎ ((e : DomainError) × (result ≡ err e) × AllOrNothing tx decision db db')
  unfolding attempt_insert_transaction_and_decision
  attempt_cases L f tx decision db = elim (Result-cases (transaction_body f tx decision db)) [
    | inl (db', e) ↦
        let stored = transaction_body-ok L f tx decision db db' e in
        rw (e, attempt_insert_transaction_and_decision)
          (finish_cases tx decision db db' stored f.commit)
    | inr (m, e) ↦ rw (e, attempt_insert_transaction_and_decision) (inr (m, refl, inl refl))
  ]

  -- An attempt without faults succeeds if the decision can be serialised.
  pub attempt_clean :
      IsLawful X
      → (f : Faults) (tx : TransactionRequest) (decision : Decision) (value : X.Value) (db : Db)
      → IsClean f
      → X.decision_value decision ≡ ok value
      → attempt_insert_transaction_and_decision f tx decision db
        ≡ (ok tt, persist (transaction_row tx) value db)
  unfolding attempt_insert_transaction_and_decision
  attempt_clean L f tx decision value db c e =
      rw
        (
          transaction_body_clean L f tx decision value db c e,
          attempt_insert_transaction_and_decision,
          c.commit,
        )
        refl
