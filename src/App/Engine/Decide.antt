-- ===== src/App/Engine/Decide.antt =====
-- The decision of the engine against a description of which rules fire.
use mathlib.Core.List.{append-nil, append_assoc}
use fraud_guard.Base.{
  String, ◌⊎◌, eq_iff, List, [], ◌∷◌, ◌++◌, ok, err, Result, All, All-imp, refl, sym, ◌∙◌, ap, ◌≡◌,
  ◌≢◌, ◌↔◌, arith,
}
use fraud_guard.Base.Int.{pos, ◌<ℤ◌, ◌≤ℤ◌}
use fraud_guard.Domain.Error.{DomainError, to_string}
use fraud_guard.Domain.Decision.{accept, review, decline, TriggeredRule}
use fraud_guard.Domain.Crates.{Crates, IsLawful}
use fraud_guard.Domain.Transaction.{TransactionRequest, validate}
use fraud_guard.Domain.Transaction.Validate.{validate-eq-ok_iff}
use fraud_guard.Domain.Rule.{Rule, Verdict, passed, skipped, triggered, evaluate}
use fraud_guard.Domain.Rule.Active.{InWindow}
use fraud_guard.Domain.Rule.Evaluate.{Triggers, Triggers-iff, Violates, evaluate-code}
use fraud_guard.App.Engine.{record_verdict, run_rules, decide}

module _ ⦃X : Crates⦄ where
  -- The entries of the rules that fire, in the order of the rules.
  pub data Fired (tx : TransactionRequest) : List Rule → List TriggeredRule → Type 0 where
    none_left : Fired tx [] []
    fires :
        {rule : Rule} {rules : List Rule} {found : List TriggeredRule} (entry : TriggeredRule)
        → entry.code ≡ rule.code
        → evaluate rule tx ≡ ok (triggered entry.code entry.reason)
        → Fired tx rules found
        → Fired tx (rule ∷ rules) (entry ∷ found)
    silent :
        {rule : Rule} {rules : List Rule} {found : List TriggeredRule}
        → ¬ Triggers rule tx
        → Fired tx rules found
        → Fired tx (rule ∷ rules) found

  record_verdict-append :
      (r : Result Verdict DomainError) (found : List TriggeredRule)
      → record_verdict found r ≡ found ++ record_verdict [] r
  record_verdict-append (ok (triggered code reason)) found = refl
  record_verdict-append (ok (skipped reason)) found = sym (append-nil found)
  record_verdict-append (ok passed) found = sym (append-nil found)
  record_verdict-append (err e) found = sym (append-nil found)

  run_rules-append :
      (rules : List Rule) (tx : TransactionRequest) (found : List TriggeredRule)
      → run_rules rules tx found ≡ found ++ run_rules rules tx []
  unfolding run_rules
  run_rules-append [] tx found = sym (append-nil found)
  run_rules-append (rule ∷ rules) tx found =
      let r = evaluate rule tx in
      run_rules-append rules tx (record_verdict found r)
      ∙ ap (λ l. l ++ run_rules rules tx []) (record_verdict-append r found)
      ∙ append_assoc found (record_verdict [] r) (run_rules rules tx [])
      ∙ ap (◌++◌ found) (sym (run_rules-append rules tx (record_verdict [] r)))

  Fired-cons :
      (rule : Rule) (rules : List Rule) (tx : TransactionRequest)
      → (r : Result Verdict DomainError) → evaluate rule tx ≡ r
      → Fired tx rules (run_rules rules tx [])
      → Fired tx (rule ∷ rules) (run_rules rules tx (record_verdict [] r))
  Fired-cons rule rules tx (ok (triggered code reason)) e f =
      rw run_rules-append
        (fires (record { code = code; reason = reason }) (evaluate-code rule tx code reason e) e f)
  Fired-cons rule rules tx (ok (skipped reason)) e f = silent (λ (_, h). cc) f
  Fired-cons rule rules tx (ok passed) e f = silent (λ (_, h). cc) f
  Fired-cons rule rules tx (err m) e f = silent (λ (_, h). cc) f

  Fired-run_rules :
      (rules : List Rule) (tx : TransactionRequest) → Fired tx rules (run_rules rules tx [])
  unfolding run_rules
  Fired-run_rules [] tx = none_left
  Fired-run_rules (rule ∷ rules) tx =
      Fired-cons rule rules tx (evaluate rule tx) refl (Fired-run_rules rules tx)

  Fired-unique :
      {tx : TransactionRequest} {rules : List Rule} {a b : List TriggeredRule}
      → Fired tx rules a
      → Fired tx rules b
      → a ≡ b
  Fired-unique none_left none_left = refl
  Fired-unique (fires x c e f) (fires y d h g) = cc (Fired-unique f g)
  Fired-unique (fires x c e f) (silent n g) = absurd (n (x.reason, cc))
  Fired-unique (silent n f) (fires y d h g) = absurd (n (y.reason, cc))
  Fired-unique (silent n f) (silent m g) = Fired-unique f g

  Fired-nil :
      {tx : TransactionRequest} {rules : List Rule}
      → Fired tx rules []
      → All (λ rule. ¬ Triggers rule tx) rules
  Fired-nil none_left = tt
  Fired-nil (silent n f) = (n, Fired-nil f)

  Fired-of_silent :
      {tx : TransactionRequest} (rules : List Rule)
      → All (λ rule. ¬ Triggers rule tx) rules
      → Fired tx rules []
  Fired-of_silent [] all = none_left
  Fired-of_silent (rule ∷ rules) all = silent all.0 (Fired-of_silent rules all.1)

  run_rules-eq_iff :
      (rules : List Rule) (tx : TransactionRequest) (found : List TriggeredRule)
      → (run_rules rules tx [] ≡ found) ↔ Fired tx rules found
  run_rules-eq_iff rules tx found =
      (λ e. rw e at (Fired-run_rules rules tx), λ f. Fired-unique (Fired-run_rules rules tx) f)

  -- A transaction is put under review, with the list `found`, exactly if it is valid and `found`
  -- lists the rules that fire, in order, and is not empty.
  pub decide-review_iff :
      (rules : List Rule) (tx : TransactionRequest) (found : List TriggeredRule)
      → (decide rules tx ≡ review found)
        ↔ ((validate tx ≡ ok tt) × Fired tx rules found × (found ≢ []))
  unfolding decide
  decide-review_iff rules tx found = (
    λ h. (ground arith, (run_rules-eq_iff rules tx found).0 (ground arith), ground arith),
    λ (v, f, n). rw (v, decide, (run_rules-eq_iff rules tx found).1 f) (ground arith),
  )

  -- With lawful crates, a transaction is accepted exactly if its amount is positive, its accounts differ, and no
  -- rule is violated within its window at the time of the transaction.
  pub decide-accept_iff :
      IsLawful X
      → (rules : List Rule) (tx : TransactionRequest)
      → (decide rules tx ≡ accept) ↔ (
          (pos 0 <ℤ tx.amount)
          × (tx.source_account ≢ tx.destination_account)
          × All (λ rule. ¬ (InWindow rule tx.timestamp × Violates rule tx)) rules)
  unfolding decide
  decide-accept_iff L rules tx = (
    λ h.
        let (p, n) = (validate-eq-ok_iff tx).0 (ground arith) in
        (
          p,
          n,
          All-imp rules (λ rule quiet v. quiet ((Triggers-iff L rule tx).1 v))
              (Fired-nil ((run_rules-eq_iff rules tx []).0 (ground arith))),
        ),
    λ (p, n, all).
        rw
          (
            (validate-eq-ok_iff tx).1 (p, n),
            decide,
            (run_rules-eq_iff rules tx []).1 (
                Fired-of_silent rules
                  (All-imp rules (λ rule quiet t. quiet ((Triggers-iff L rule tx).0 t)) all)),
          )
          refl,
  )

  -- A transaction is declined exactly if it fails validation, and the reason names the first check
  -- that fails.
  pub decide-decline_iff :
      (rules : List Rule) (tx : TransactionRequest) (reason : String)
      → (decide rules tx ≡ decline reason) ↔ (
          ((tx.amount ≤ℤ pos 0) × (reason ≡ "Validation error: Amount must be positive"))
          ⊎ ((pos 0 <ℤ tx.amount)
              × (tx.source_account ≡ tx.destination_account)
              × (reason ≡ "Validation error: Source and destination accounts must differ")))
  unfolding decide validate to_string
  decide-decline_iff rules tx reason =
      ground (arith, eq_iff tx.source_account.text tx.destination_account.text)
