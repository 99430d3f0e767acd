-- ===== src/Domain/Crates.antt =====
-- What the program takes from third-party crates, as a parameter of the model: chrono, uuid and
-- serde_json. An error of a crate is the text that its `Display` gives, the only use made of it.
use Prim.Native.Nat.{Ordering}
use fraud_guard.Base.{ℕ, String, Bool, true, false, Option, ◌≡◌, ◌↔◌, Result}
use fraud_guard.Base.Int.{ℤ}
use fraud_guard.Domain.Decision.{Decision}
use fraud_guard.Domain.Params.{AmountLimitParams, BlacklistParams, TransactionMessage}

pub record Crates : Type 1 where
  -- `chrono::DateTime<Utc>`, its `Ord::cmp`, and `DateTime::from_timestamp`
  pub DateTime : Type 0
  pub cmp : DateTime → DateTime → Ordering
  pub from_timestamp : ℤ → ℕ → Option DateTime
  -- `uuid::Uuid`, its `==`, `Uuid::parse_str`, and its `Display`
  pub Uuid : Type 0
  pub uuid_eq : Uuid → Uuid → Bool
  pub parse_uuid : String → Result Uuid String
  pub uuid_text : Uuid → String
  -- `serde_json::Value`, and `from_value`, `to_value` and `from_str` at the types of the program
  pub Value : Type 0
  pub amount_limit_params : Value → Result AmountLimitParams String
  pub blacklist_params : Value → Result BlacklistParams String
  pub decision_value : Decision → Result Value String
  pub transaction_message : String → Result TransactionMessage String

-- `<`, `<=` and `>=` of a type whose order is `Ord::cmp`.
module _ ⦃X : Crates⦄ where
  abbrev pub before : X.DateTime → X.DateTime → Bool
  before a b = elim (X.cmp a b) [ Ordering.lt ↦ true | _ ↦ false ]

  abbrev pub not_before : X.DateTime → X.DateTime → Bool
  not_before a b = elim (X.cmp a b) [ Ordering.lt ↦ false | _ ↦ true ]

  abbrev pub not_after : X.DateTime → X.DateTime → Bool
  not_after a b = elim (X.cmp a b) [ Ordering.gt ↦ false | _ ↦ true ]

-- The documented contracts: `cmp` is a total order, `==` on identifiers is equality.
pub record IsLawful (X : Crates) : Type 0 where
  pub cmp_refl : (a : X.DateTime) → X.cmp a a ≡ Ordering.eq
  pub cmp_gt_iff : (a b : X.DateTime) → (X.cmp a b ≡ Ordering.gt) ↔ (X.cmp b a ≡ Ordering.lt)
  pub cmp_lt_trans :
      (a b c : X.DateTime)
      → not_after ⦃X = X⦄ a b ≡ true
      → X.cmp b c ≡ Ordering.lt
      → X.cmp a c ≡ Ordering.lt
  pub cmp_le_trans :
      (a b c : X.DateTime)
      → not_after ⦃X = X⦄ a b ≡ true
      → not_after ⦃X = X⦄ b c ≡ true
      → not_after ⦃X = X⦄ a c ≡ true
  pub uuid_eq_iff : (a b : X.Uuid) → (X.uuid_eq a b ≡ true) ↔ (a ≡ b)
