-- ===== src/Tests/Sample.antt =====
-- Sample crates: times are numbers, identifiers are texts, and a JSON value is one of four kinds.
use Prim.Native.Nat.{ℕ, compare}
use fraud_guard.Base.{
  String, List, [], ◌∷◌, true, Option, none, some, Result, ok, err, ◌=s=◌, eq_iff, if◌then◌else◌,
  arith,
}
use fraud_guard.Base.Int.{ℤ, pos, negsuc}
use fraud_guard.Domain.Decision.{Decision}
use fraud_guard.Domain.Params.{AmountLimitParams, BlacklistParams, TransactionMessage}
use fraud_guard.Domain.Crates.{Crates, IsLawful}
use fraud_guard.Domain.Currency.{rub}
use fraud_guard.Domain.Transaction.{TransactionRequest}
use fraud_guard.Domain.Rule.{Rule, threshold, blacklist}

pub data Json : Type 0 where
  limit : ℤ → Json
  accounts : List String → Json
  stored : Decision → Json
  wrong_field : Json

abbrev read_limit : Json → Result AmountLimitParams String
read_limit (limit n) = ok (record { max_amount = n })
read_limit (accounts _) = err "missing field `max_amount`"
read_limit (stored _) = err "missing field `max_amount`"
read_limit wrong_field = err "missing field `max_amount`"

abbrev read_accounts : Json → Result BlacklistParams String
read_accounts (accounts l) = ok (record { blacklisted_accounts = l })
read_accounts (limit _) = err "missing field `blacklisted_accounts`"
read_accounts (stored _) = err "missing field `blacklisted_accounts`"
read_accounts wrong_field = err "missing field `blacklisted_accounts`"

abbrev seconds : ℤ → ℕ → Option ℕ
seconds (pos n) _ = some n
seconds (negsuc _) _ = none

abbrev pub first_account : String
first_account = "1111222233334444"

abbrev pub second_account : String
second_account = "5555666677778888"

-- The message that the text "good" stands for; "other" has another identifier.
abbrev pub good_message : TransactionMessage
good_message = record {
  transaction_id = "t1";
  source_account = first_account;
  destination_account = second_account;
  amount = pos 100;
  currency = "RUB";
  timestamp = some (pos 50);
}

abbrev read_uuid : String → Result String String
read_uuid s = if s =s= "" then err "invalid length" else ok s

abbrev read_message : String → Result TransactionMessage String
read_message s =
    if s =s= "good"
    then ok good_message
    else if s =s= "other"
    then ok (record good_message { transaction_id = "t2" })
    else err "expected value"

instance abbrev pub crates : Crates
crates = record {
  DateTime = ℕ;
  cmp = compare;
  from_timestamp = seconds;
  Uuid = String;
  uuid_eq = ◌=s=◌;
  parse_uuid = read_uuid;
  uuid_text = λ s. s;
  Value = Json;
  amount_limit_params = read_limit;
  blacklist_params = read_accounts;
  decision_value = λ d. ok (stored d);
  transaction_message = read_message;
}

pub lawful : IsLawful crates
lawful = record {
  cmp_refl = λ a. ground arith;
  cmp_gt_iff = λ a b. ground arith;
  cmp_lt_trans = λ a b c h k. ground arith;
  cmp_le_trans = λ a b c h k. ground arith;
  uuid_eq_iff = eq_iff;
}

abbrev pub payment : TransactionRequest
payment = record {
  id = record { uuid = "t1" };
  source_account = record { text = first_account };
  destination_account = record { text = second_account };
  amount = pos 100;
  currency = rub;
  timestamp = 50;
}

abbrev pub limit_rule : ℕ → Rule
limit_rule n = record {
  code = "THR001";
  rule_type = threshold;
  params = limit (pos n);
  enabled = true;
  priority = pos 10;
  valid_from = 10;
  valid_until = some 90;
}

abbrev pub list_rule : Rule
list_rule = record {
  code = "BLK001";
  rule_type = blacklist;
  params = accounts (second_account ∷ first_account ∷ []);
  enabled = true;
  priority = pos 5;
  valid_from = 10;
  valid_until = none;
}

-- Its parameters are those of the other kind.
abbrev pub broken_rule : Rule
broken_rule = record list_rule { params = limit (pos 1) }
