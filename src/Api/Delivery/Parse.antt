-- ===== src/Api/Delivery/Parse.antt =====
-- What a parsed delivery is known to satisfy.
use fraud_guard.Base.{
  eq_iff, ◌>>=◌, Result, String, ◌≡◌, ◌↔◌, ok, Result-cases, inl, inr, arith, map_err, Option, none,
  some, Option-cases, ◌⊎◌,
}
use fraud_guard.Base.Int.{ℤ}
use fraud_guard.Base.Text.{trim}
use fraud_guard.Domain.Error.{to_string}
use fraud_guard.Domain.Params.{TransactionMessage}
use fraud_guard.Domain.Crates.{Crates}
use fraud_guard.Domain.AccountId
use fraud_guard.Domain.AccountId.Laws.{IsAccountText, new-eq-ok_iff}
use fraud_guard.Domain.Currency
use fraud_guard.Domain.Transaction.{TransactionRequest}
use fraud_guard.Api.Delivery.{Delivery, parse_delivery, timestamp_or}

-- The texts of the four currencies.
from_str-eq-ok :
    (s : String) (c : Currency.Currency) → Currency.from_str s ≡ ok c → s ≡ Currency.to_string c
unfolding Currency.from_str Currency.to_string
from_str-eq-ok s c h =
    ground (arith, eq_iff s "RUB", eq_iff s "CNY", eq_iff s "USD", eq_iff s "EUR")

module _ ⦃X : Crates⦄ where
  -- The time of a message: its timestamp, a count of seconds, where it has one that is in range, and
  -- else the time of the call.
  abbrev pub IsTimeOf : X.DateTime → Option ℤ → X.DateTime → Type 0
  IsTimeOf now none t = t ≡ now
  IsTimeOf now (some seconds) t =
      (X.from_timestamp seconds 0 ≡ some t) ⊎ ((X.from_timestamp seconds 0 ≡ none) × (t ≡ now))

  timestamp_or-IsTimeOf :
      (now : X.DateTime) (stamp : Option ℤ) (t : X.DateTime)
      → (t ≡ timestamp_or now stamp) ↔ IsTimeOf now stamp t
  timestamp_or-IsTimeOf now none t = (λ h. h, λ h. h)
  timestamp_or-IsTimeOf now (some seconds) t = elim (Option-cases (X.from_timestamp seconds 0)) [
    | inl e ↦ (λ h. inr (e, ground arith), λ h. ground arith)
    | inr (u, e) ↦ (λ h. inl (ground arith), λ h. ground arith)
  ]

  -- The request that a message describes.
  pub record Describes (now : X.DateTime) (msg : TransactionMessage) (tx : TransactionRequest)
      : Type 0 where
    pub id : X.parse_uuid msg.transaction_id ≡ ok tx.id.uuid
    pub source : tx.source_account.text ≡ trim msg.source_account
    pub destination : tx.destination_account.text ≡ trim msg.destination_account
    pub source_valid : IsAccountText (trim msg.source_account)
    pub destination_valid : IsAccountText (trim msg.destination_account)
    pub amount : tx.amount ≡ msg.amount
    pub currency : msg.currency ≡ Currency.to_string tx.currency
    pub timestamp : IsTimeOf now msg.timestamp tx.timestamp

  build : X.DateTime → TransactionMessage → Result TransactionRequest String
  build now msg = do
    source ← map_err to_string (AccountId.new msg.source_account)
    dest ← map_err to_string (AccountId.new msg.destination_account)
    currency ← map_err to_string (Currency.from_str msg.currency)
    uuid ← X.parse_uuid msg.transaction_id
    ok (record {
      id = record { uuid = uuid };
      source_account = source;
      destination_account = dest;
      amount = msg.amount;
      currency = currency;
      timestamp = timestamp_or now msg.timestamp;
    })

  build-Describes :
      (now : X.DateTime) (msg : TransactionMessage) (tx : TransactionRequest)
      → build now msg ≡ ok tx
      → Describes now msg tx
  unfolding build
  build-Describes now msg tx h = record {
    id = ground arith;
    source = ground (arith, new-eq-ok_iff msg.source_account tx.source_account);
    destination = ground (arith, new-eq-ok_iff msg.destination_account tx.destination_account);
    source_valid = ground (arith, new-eq-ok_iff msg.source_account tx.source_account);
    destination_valid =
        ground (arith, new-eq-ok_iff msg.destination_account tx.destination_account);
    amount = ground arith;
    currency = ground (arith, from_str-eq-ok msg.currency tx.currency);
    timestamp = (timestamp_or-IsTimeOf now msg.timestamp tx.timestamp).0 (ground arith);
  }

  Describes-build :
      (now : X.DateTime) (msg : TransactionMessage) (tx : TransactionRequest)
      → Describes now msg tx
      → build now msg ≡ ok tx
  unfolding build
  Describes-build now msg tx v =
      let source =
        (new-eq-ok_iff msg.source_account tx.source_account).1 (v.source, v.source_valid) in
      let dest =
        (new-eq-ok_iff msg.destination_account tx.destination_account).1
          (v.destination, v.destination_valid) in
      let currency : Currency.from_str msg.currency ≡ ok tx.currency =
        rw v.currency (Currency.from_str-to_string tx.currency) in
      let timestamp = (timestamp_or-IsTimeOf now msg.timestamp tx.timestamp).1 v.timestamp in
      rw (source, dest, currency, v.id) (ground (arith, v.amount, timestamp))

  -- A delivery parses as `tx` exactly when its payload is a message that describes `tx`.
  pub parse_delivery-eq-ok_iff :
      (now : X.DateTime) (d : Delivery) (tx : TransactionRequest)
      → (parse_delivery now d ≡ ok tx) ↔ (
          (msg : TransactionMessage) × (X.transaction_message d.payload ≡ ok msg)
          × Describes now msg tx)
  unfolding parse_delivery build
  parse_delivery-eq-ok_iff now d tx = (
    λ h. elim (Result-cases (X.transaction_message d.payload)) [
      | inl (msg, e) ↦ (msg, e, build-Describes now msg tx (rw e at h))
      | inr (m, e) ↦ absurd (ground arith)
    ],
    λ (msg, e, v). rw e (Describes-build now msg tx v),
  )
