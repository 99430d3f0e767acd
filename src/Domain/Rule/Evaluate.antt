-- ===== src/Domain/Rule/Evaluate.antt =====
-- What `Rule::evaluate` returns, against a description of the rule as a condition.
use mathlib.Core.Logic.Or
use mathlib.Core.Bool.{Bool-set}
use mathlib.Core.List.{Mem, mem-cons, not-mem-nil}
use fraud_guard.Base.{
  String, true, Bool-cases, ◌=s=◌, refl, sym, List, [], ◌∷◌, ok, err, Result-cases, inl, inr, ◌≡◌,
  ◌↔◌, eq_iff, arith,
}
use fraud_guard.Base.Int.{◌<ℤ◌, ltb_ℤ_iff}
use fraud_guard.Domain.Error.{DomainError, param_parse}
use fraud_guard.Domain.Params.{AmountLimitParams, BlacklistParams}
use fraud_guard.Domain.Crates.{Crates, IsLawful}
use fraud_guard.Domain.Transaction.{TransactionRequest}
use fraud_guard.Domain.Rule.{
  Rule, RuleType, threshold, blacklist, triggered, contains, limit_reason, blacklist_reason,
  is_active_at, evaluate_as, evaluate,
}
use fraud_guard.Domain.Rule.Active.{InWindow, is_active_at_iff}

pub contains_iff : (xs : List String) (s : String) → (contains xs s ≡ true) ↔ Mem s xs
contains_iff [] s = (λ h. cc, λ m. absurd (not-mem-nil m))
contains_iff (x ∷ xs) s = (
  λ h. elim (Bool-cases (x =s= s)) [
    | inl here ↦ mem-cons.1 (Or.inl (sym ((eq_iff x s).0 here)))
    | inr miss ↦ mem-cons.1 (Or.inr ((contains_iff xs s).0 (ground arith)))
  ],
  λ m.
      Or.elim (Bool-set _ _) (mem-cons.0 m) (λ e. ground (arith, eq_iff x s))
        (λ r. ground (arith, (contains_iff xs s).1 r)),
)

module _ ⦃X : Crates⦄ where
  -- The parameters are well formed, and the transaction breaks the limit or the list.
  abbrev pub ViolatesAs : RuleType → Rule → TransactionRequest → Type 0
  ViolatesAs threshold rule tx =
      (p : AmountLimitParams) × (X.amount_limit_params rule.params ≡ ok p)
      × (p.max_amount <ℤ tx.amount)
  ViolatesAs blacklist rule tx =
      (p : BlacklistParams) × (X.blacklist_params rule.params ≡ ok p)
      × Mem tx.source_account.text p.blacklisted_accounts

  abbrev pub Violates : Rule → TransactionRequest → Type 0
  Violates rule tx = ViolatesAs rule.rule_type rule tx

  -- The rule fires.
  abbrev pub Triggers : Rule → TransactionRequest → Type 0
  Triggers rule tx = (reason : String) × (evaluate rule tx ≡ ok (triggered rule.code reason))

  evaluate_as-triggered :
      (t : RuleType) (rule : Rule) (tx : TransactionRequest)
      → ViolatesAs t rule tx
      → (reason : String) × (evaluate_as t rule tx ≡ ok (triggered rule.code reason))
  evaluate_as-triggered threshold rule tx (p, e, over) =
      (limit_reason tx.amount p.max_amount, rw e (ground (arith, ltb_ℤ_iff p.max_amount tx.amount)))
  evaluate_as-triggered blacklist rule tx (p, e, listed) = (
    blacklist_reason tx.source_account.text,
    rw e (rw ((contains_iff p.blacklisted_accounts tx.source_account.text).1 listed) refl),
  )

  -- The converse, for any code: a verdict `triggered` carries the rule's own code.
  evaluate_as-ViolatesAs :
      (t : RuleType) (rule : Rule) (tx : TransactionRequest) (code reason : String)
      → evaluate_as t rule tx ≡ ok (triggered code reason)
      → (code ≡ rule.code) × ViolatesAs t rule tx
  evaluate_as-ViolatesAs threshold rule tx code reason h =
      elim (Result-cases (X.amount_limit_params rule.params)) [
        | inl (p, e) ↦ (ground arith, (p, e, ground (arith, ltb_ℤ_iff p.max_amount tx.amount)))
        | inr (m, e) ↦ absurd (ground arith)
      ]
  evaluate_as-ViolatesAs blacklist rule tx code reason h =
      elim (Result-cases (X.blacklist_params rule.params)) [
        | inl (p, e) ↦ (
          ground arith,
          (p, e, (contains_iff p.blacklisted_accounts tx.source_account.text).0 (ground arith)),
        )
        | inr (m, e) ↦ absurd (ground arith)
      ]

  -- With lawful crates, a rule fires exactly if it is active at the transaction's time and the transaction violates it.
  pub Triggers-iff :
      IsLawful X
      → (rule : Rule) (tx : TransactionRequest)
      → Triggers rule tx ↔ (InWindow rule tx.timestamp × Violates rule tx)
  unfolding evaluate
  Triggers-iff L rule tx = (
    λ (reason, h). (
      (is_active_at_iff L rule tx.timestamp).0 (ground arith),
      (evaluate_as-ViolatesAs rule.rule_type rule tx rule.code reason (ground arith)).1,
    ),
    λ (w, v).
        let (reason, e) = evaluate_as-triggered rule.rule_type rule tx v in
        (reason, rw ((is_active_at_iff L rule tx.timestamp).1 w) e),
  )

  pub evaluate-code :
      (rule : Rule) (tx : TransactionRequest) (code reason : String)
      → evaluate rule tx ≡ ok (triggered code reason)
      → code ≡ rule.code
  unfolding evaluate
  evaluate-code rule tx code reason h =
      (evaluate_as-ViolatesAs rule.rule_type rule tx code reason (ground arith)).0

  -- The parameters cannot be read, with the parser's message.
  abbrev pub BadParamsAs : RuleType → Rule → String → Type 0
  BadParamsAs threshold rule m = X.amount_limit_params rule.params ≡ err m
  BadParamsAs blacklist rule m = X.blacklist_params rule.params ≡ err m

  evaluate_as-err :
      (t : RuleType) (rule : Rule) (tx : TransactionRequest) (e : DomainError)
      → evaluate_as t rule tx ≡ err e
      → (m : String) × (e ≡ param_parse rule.code m) × BadParamsAs t rule m
  evaluate_as-err threshold rule tx e h = elim (Result-cases (X.amount_limit_params rule.params)) [
    | inl (p, q) ↦ absurd (ground arith)
    | inr (m, q) ↦ (m, ground arith, q)
  ]
  evaluate_as-err blacklist rule tx e h = elim (Result-cases (X.blacklist_params rule.params)) [
    | inl (p, q) ↦ absurd (ground arith)
    | inr (m, q) ↦ (m, ground arith, q)
  ]

  -- An error is always an error in the parameters of an active rule, and names the rule.
  pub evaluate-err :
      (rule : Rule) (tx : TransactionRequest) (e : DomainError)
      → evaluate rule tx ≡ err e
      → (is_active_at rule tx.timestamp ≡ true)
        × ((m : String) × (e ≡ param_parse rule.code m) × BadParamsAs rule.rule_type rule m)
  unfolding evaluate
  evaluate-err rule tx e h = (ground arith, evaluate_as-err rule.rule_type rule tx e (ground arith))
