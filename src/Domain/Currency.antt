-- ===== src/Domain/Currency.antt =====
-- crates/domain/src/transaction.rs: `Currency`.
use fraud_guard.Base.{String, ◌<>◌, ◌≡◌, refl, Result, ok, err, ◌=s=◌, if◌then◌else◌}
use fraud_guard.Domain.Error.{DomainError, validation}

pub data Currency : Type 0 where
  rub cny usd eur : Currency

-- `Display`
unfoldable pub to_string : Currency → String
to_string rub = "RUB"
to_string cny = "CNY"
to_string usd = "USD"
to_string eur = "EUR"

-- `FromStr`
unfoldable pub from_str : String → Result Currency DomainError
from_str s =
    if s =s= "RUB"
    then ok rub
    else if s =s= "CNY"
    then ok cny
    else if s =s= "USD"
    then ok usd
    else if s =s= "EUR"
    then ok eur
    else err (validation ("Invalid currency: " <> s))

-- The text of a currency is parsed as the same currency.
pub from_str-to_string : (c : Currency) → from_str (to_string c) ≡ ok c
unfolding from_str to_string
from_str-to_string rub = refl
from_str-to_string cny = refl
from_str-to_string usd = refl
from_str-to_string eur = refl
