-- ===== src/Domain/Rule.antt =====
-- crates/domain/src/rule.rs
pub mod Active
pub mod Evaluate
use fraud_guard.Base.{
  ℕ, String, ◌<>◌, Bool, true, false, not, ◌||◌, Option, none, some, List, [], ◌∷◌, Result, ok, err,
  ◌>>=◌, map_err, any, ◌=s=◌, if◌then◌else◌,
}
use fraud_guard.Base.Int.{ℤ, ltb_ℤ}
use fraud_guard.Base.Text.Decimal.{show_ℤ}
use fraud_guard.Domain.Error.{DomainError, validation, param_parse}
use fraud_guard.Domain.Params.{AmountLimitParams, BlacklistParams}
use fraud_guard.Domain.Crates.{Crates, before, not_before}
use fraud_guard.Domain.Transaction.{TransactionRequest}

pub data RuleType : Type 0 where
  threshold blacklist : RuleType

-- `FromStr`
unfoldable pub from_str : String → Result RuleType DomainError
from_str s =
    if s =s= "Threshold"
    then ok threshold
    else if s =s= "Blacklist"
    then ok blacklist
    else err (validation ("Unknown rule type: " <> s))

pub data Verdict : Type 0 where
  passed : Verdict
  skipped : (reason : String) → Verdict
  triggered : (code reason : String) → Verdict

-- `Vec::contains`
abbrev pub contains : List String → String → Bool
contains xs s = any (λ x. x =s= s) xs

-- The two texts of `format!`.
abbrev pub limit_reason : ℤ → ℤ → String
limit_reason amount max_amount =
    "Amount " <> (show_ℤ amount <> (" exceeds limit " <> show_ℤ max_amount))

abbrev pub blacklist_reason : String → String
blacklist_reason source = "Account " <> (source <> " is blacklisted")

module _ ⦃X : Crates⦄ where
  pub record Rule : Type 0 where
    pub code : String
    pub rule_type : RuleType
    pub params : X.Value
    pub enabled : Bool
    pub priority : ℤ  -- i32
    pub valid_from : X.DateTime
    pub valid_until : Option X.DateTime

  -- `if let Some(until) = … && at >= until`
  abbrev pub expired : Option X.DateTime → X.DateTime → Bool
  expired none now = false
  expired (some until) now = not_before now until

  unfoldable pub is_active_at : Rule → X.DateTime → Bool
  is_active_at rule now =
      if not rule.enabled
      then false
      else if before now rule.valid_from
      then false
      else if expired rule.valid_until now
      then false
      else true

  abbrev pub check_threshold :
      Rule → TransactionRequest → AmountLimitParams → Result Verdict DomainError
  check_threshold rule tx params =
      if ltb_ℤ params.max_amount tx.amount
      then ok (triggered rule.code (limit_reason tx.amount params.max_amount))
      else ok passed

  abbrev pub check_blacklist :
      Rule → TransactionRequest → BlacklistParams → Result Verdict DomainError
  check_blacklist rule tx params =
      let source = tx.source_account.text in
      if contains params.blacklisted_accounts source
      then ok (triggered rule.code (blacklist_reason source))
      else ok passed

  -- The two arms of the `match` on the type of the rule.
  abbrev pub evaluate_as : RuleType → Rule → TransactionRequest → Result Verdict DomainError
  evaluate_as threshold rule tx = do
    params ← map_err (param_parse rule.code) (X.amount_limit_params rule.params)
    check_threshold rule tx params
  evaluate_as blacklist rule tx = do
    params ← map_err (param_parse rule.code) (X.blacklist_params rule.params)
    check_blacklist rule tx params

  unfoldable pub evaluate : Rule → TransactionRequest → Result Verdict DomainError
  unfolding is_active_at
  evaluate rule tx =
      if not (is_active_at rule tx.timestamp)
      then ok (skipped "Rule is not active at this time")
      else evaluate_as rule.rule_type rule tx
