-- ===== src/Domain/Rule/Active.antt =====
-- When a rule is active.
use fraud_guard.Base.{true, false, Option, none, some, ◌≡◌, refl, ◌↔◌, arith}
use fraud_guard.Domain.Crates.{Crates, IsLawful, before, not_after}
use fraud_guard.Domain.Rule.{Rule, is_active_at, expired}

module _ ⦃X : Crates⦄ where
  -- Before the end of validity, if there is one.
  abbrev pub BeforeEnd : Option X.DateTime → X.DateTime → Type 0
  BeforeEnd none now = Unit
  BeforeEnd (some until) now = before now until ≡ true

  -- The half-open window: enabled, `valid_from <= now`, and `now < valid_until`.
  pub record InWindow (rule : Rule) (now : X.DateTime) : Type 0 where
    pub enabled : rule.enabled ≡ true
    pub started : not_after rule.valid_from now ≡ true
    pub not_ended : BeforeEnd rule.valid_until now

  expired-eq-false_iff :
      (until : Option X.DateTime) (now : X.DateTime)
      → (expired until now ≡ false) ↔ BeforeEnd until now
  expired-eq-false_iff none now = (λ _. tt, λ _. refl)
  expired-eq-false_iff (some until) now = ground arith

  -- With lawful crates, a rule is active exactly within its window: enabled, from `valid_from`, and
  -- before `valid_until` if there is one.
  pub is_active_at_iff :
      IsLawful X
      → (rule : Rule) (now : X.DateTime) → (is_active_at rule now ≡ true) ↔ InWindow rule now
  unfolding is_active_at
  is_active_at_iff L rule now = (
    λ h. record {
      enabled = ground arith;
      started = ground (arith, L.cmp_gt_iff rule.valid_from now);
      not_ended = (expired-eq-false_iff rule.valid_until now).0 (ground arith);
    },
    λ w. ground (
      arith,
      L.cmp_gt_iff rule.valid_from now,
      (expired-eq-false_iff rule.valid_until now).1 w.not_ended,
    ),
  )
