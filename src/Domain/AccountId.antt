-- ===== src/Domain/AccountId.antt =====
-- crates/domain/src/transaction.rs: `AccountId`.
pub mod Laws
use Prim.Native.String.{len}
use fraud_guard.Base.{String, Result, ok, err, ◌==◌, not, if◌then◌else◌}
use fraud_guard.Base.Text.{trim, all_chars, is_ascii_digit}
use fraud_guard.Domain.Error.{DomainError, validation}

-- `AccountId(String)`, whose field is private to the module.
pub record AccountId : Type 0 where
  pub text : String

unfoldable pub new : String → Result AccountId DomainError
new s =
    let trimmed = trim s in
    if not (len trimmed == 16)
    then err (validation "Account ID must be exactly 16 characters long")
    else if not (all_chars is_ascii_digit trimmed)
    then err (validation "Account ID must contain only digits")
    else ok (record { text = trimmed })

abbrev pub as_str : AccountId → String
as_str a = a.text

-- `FromStr`
unfoldable pub from_str : String → Result AccountId DomainError
unfolding new
from_str s = new s
