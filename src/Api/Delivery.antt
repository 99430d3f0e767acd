-- ===== src/Api/Delivery.antt =====
-- crates/api/src/amqp/amqp_consumer.rs: `parse_delivery`. The decoding of the bytes by
-- `String::from_utf8_lossy` is an argument, and so is the present time that `Utc::now` gives.
pub mod Parse
use fraud_guard.Base.{ℕ, String, List, Option, none, some, Result, ok, err, ◌>>=◌, map_err}
use fraud_guard.Base.Int.{ℤ}
use fraud_guard.Domain.Error.{DomainError, to_string}
use fraud_guard.Domain.Crates.{Crates}
use fraud_guard.Domain.AccountId
use fraud_guard.Domain.Currency
use fraud_guard.Domain.Transaction.{TransactionRequest}

-- `lapin::message::Delivery`: the tag of the delivery on its channel, and the decoded payload.
pub record Delivery : Type 0 where
  pub delivery_tag : ℕ
  pub payload : String

module _ ⦃X : Crates⦄ where
  -- `msg.timestamp.and_then(|ts| DateTime::from_timestamp(ts, 0)).unwrap_or_else(Utc::now)`
  abbrev pub timestamp_or : X.DateTime → Option ℤ → X.DateTime
  timestamp_or now none = now
  timestamp_or now (some ts) = elim (X.from_timestamp ts 0) [ none ↦ now | some at ↦ at ]

  -- The errors are boxed; what is made of them is their text.
  unfoldable pub parse_delivery : X.DateTime → Delivery → Result TransactionRequest String
  parse_delivery now delivery = do
    msg ← X.transaction_message delivery.payload
    source ← map_err to_string (AccountId.new msg.source_account)
    dest ← map_err to_string (AccountId.new msg.destination_account)
    currency ← map_err to_string (Currency.from_str msg.currency)
    let timestamp = timestamp_or now msg.timestamp
    uuid ← X.parse_uuid msg.transaction_id
    ok (record {
      id = record { uuid = uuid };
      source_account = source;
      destination_account = dest;
      amount = msg.amount;
      currency = currency;
      timestamp = timestamp;
    })
