-- ===== src/Storage/Repo.antt =====
-- crates/storage/src/postgres/{transaction_repo,rule_repo,decision_repo}.rs. What a SELECT fetches,
-- or the message of its failure, is an argument: a WHERE clause is a test on a row.
pub mod Reads
pub mod Writes
use fraud_guard.Base.{
  ℕ, String, List, [], ◌∷◌, ◌++◌, Bool, true, false, ◌&&◌, Option, none, some, Result, ok, err,
  ◌>>=◌, map_err, ◌=s=◌, ◌≡◌, ◌↔◌, if◌then◌else◌,
}
use mathlib.Core.List.{Memᴰ}
use fraud_guard.Base.Int.{ℤ, ◌≤ℤ◌}
use fraud_guard.Domain.Error.{DomainError, repository, to_string}
use fraud_guard.Domain.Decision.{Decision}
use fraud_guard.Domain.Crates.{Crates, before, not_before, not_after}
use fraud_guard.Domain.AccountId
use fraud_guard.Domain.AccountId.{AccountId, as_str}
use fraud_guard.Domain.Currency
use fraud_guard.Domain.Transaction.{TransactionId, TransactionRequest}
use fraud_guard.Domain.Rule
use fraud_guard.Domain.Rule.{Rule}
use fraud_guard.Storage.Db.{
  Db, TransactionRow, transaction_row, insert_transaction as insert_row, insert_decision,
}

-- `.map_err(|e| DomainError::Repository { … })`, where the error is of the domain
abbrev pub in_repository {ℓ} : {A : Type ℓ} → String → Result A DomainError → Result A DomainError
in_repository operation r = map_err (λ e. repository operation (to_string e)) r

-- The `for` loop over the rows that were fetched; the first failure ends it.
abbrev pub collect :
    {A B : Type 0} → (A → Result B DomainError) → List A → Result (List B) DomainError
collect f [] = ok []
collect f (row ∷ rows) = do item ← f row; items ← collect f rows; ok (item ∷ items)

module _ ⦃X : Crates⦄ where
  -- The columns of `rules` that are read.
  pub record RuleRow : Type 0 where
    pub code : String
    pub rule_type : String
    pub params : X.Value
    pub enabled : Bool
    pub priority : ℤ
    pub valid_from : X.DateTime
    pub valid_until : Option X.DateTime

  unfoldable pub read_rule : RuleRow → Result Rule DomainError
  read_rule row = do
    rule_type ← in_repository "parse rule type from DB" (Rule.from_str row.rule_type)
    ok (record {
      code = row.code;
      rule_type = rule_type;
      params = row.params;
      enabled = row.enabled;
      priority = row.priority;
      valid_from = row.valid_from;
      valid_until = row.valid_until;
    })

  unfoldable pub load_active_rules : Result (List RuleRow) String → Result (List Rule) DomainError
  unfolding read_rule
  load_active_rules fetched = do
    rows ← map_err (repository "load active rules from DB") fetched
    collect read_rule rows

  -- `valid_until IS NULL OR valid_until > NOW()`
  abbrev pub still_valid : X.DateTime → Option X.DateTime → Bool
  still_valid now none = true
  still_valid now (some until) = before now until

  -- The WHERE clause of `load_active_rules`.
  abbrev pub is_selected : X.DateTime → RuleRow → Bool
  is_selected now row =
      row.enabled && (not_after row.valid_from now && still_valid now row.valid_until)

  unfoldable pub read_transaction : TransactionRow → Result TransactionRequest DomainError
  read_transaction row = do
    source ← in_repository "parse source account from DB" (AccountId.new row.source_account)
    dest ← in_repository "parse destination account from DB" (AccountId.new row.destination_account)
    currency ← in_repository "parse currency from DB" (Currency.from_str row.currency)
    ok (record {
      id = record { uuid = row.transaction_id };
      source_account = source;
      destination_account = dest;
      amount = row.amount;
      currency = currency;
      timestamp = row.timestamp;
    })

  unfoldable pub get_transactions_for_account :
      Result (List TransactionRow) String → Result (List TransactionRequest) DomainError
  unfolding read_transaction
  get_transactions_for_account fetched = do
    rows ← map_err (repository "fetch transactions from DB") fetched
    collect read_transaction rows

  -- The WHERE clause of `get_transactions_for_account`.
  abbrev pub in_period : AccountId → X.DateTime → X.DateTime → TransactionRow → Bool
  in_period account from to row =
      (row.source_account =s= as_str account)
      && (not_before row.timestamp from && before row.timestamp to)

  -- `insert_transaction`, and whether the statement itself fails.
  unfoldable pub insert_transaction :
      Result (Unit {0}) String → String → TransactionRequest → Db → Result Db DomainError
  insert_transaction statement constraint tx_req db =
      map_err (repository "insert transaction into DB")
        (do _ ← statement; insert_row constraint (transaction_row tx_req) db)

  -- `store_decision`
  unfoldable pub store_decision :
      Result (Unit {0}) String → String → TransactionId → Decision → Db → Result Db DomainError
  store_decision statement constraint transaction_id decision db = do
    decision_json ← map_err (repository "serialize decision to JSON") (X.decision_value decision)
    map_err (repository "store decision") (do
      _ ← statement
      insert_decision constraint
          (record { transaction_id = transaction_id.uuid; decision = decision_json }) db)
