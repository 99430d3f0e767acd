-- ===== src/Storage/Repo/Reads.antt =====
-- What the repositories read back.
use fraud_guard.Base.{
  List, [], ◌∷◌, true, false, Option, none, some, ok, map, All, ◌≡◌, ◌↔◌, refl, sym, arith,
}
use fraud_guard.Domain.Crates.{Crates, IsLawful}
use fraud_guard.Domain.AccountId.Laws.{new-as_str}
use fraud_guard.Domain.Currency
use fraud_guard.Domain.Transaction.{TransactionRequest}
use fraud_guard.Domain.Repository.{HasAccounts}
use fraud_guard.Domain.Rule
use fraud_guard.Domain.Rule.{Rule, is_active_at, expired}
use fraud_guard.Storage.Db.{transaction_row}
use fraud_guard.Storage.Repo.{
  collect, RuleRow, read_rule, load_active_rules, is_selected, still_valid, read_transaction,
  get_transactions_for_account,
}

module _ ⦃X : Crates⦄ where
  pub read_transaction-transaction_row :
      (tx : TransactionRequest) → HasAccounts tx → read_transaction (transaction_row tx) ≡ ok tx
  unfolding read_transaction transaction_row
  read_transaction-transaction_row tx v =
      rw
        (
          new-as_str tx.source_account v.0,
          new-as_str tx.destination_account v.1,
          Currency.from_str-to_string tx.currency,
        )
        refl

  -- Transactions whose accounts are well formed are read back from their rows unchanged, and in
  -- the order in which the rows are fetched.
  pub get_transactions-rows :
      (txs : List TransactionRequest)
      → All HasAccounts txs
      → get_transactions_for_account (ok (map transaction_row txs)) ≡ ok txs
  unfolding get_transactions_for_account
  get_transactions-rows [] v = refl
  get_transactions-rows (tx ∷ txs) v =
      rw (read_transaction-transaction_row tx v.0, get_transactions-rows txs v.1) refl

  still_valid-expired :
      (now : X.DateTime) (until : Option X.DateTime)
      → (still_valid now until ≡ true) ↔ (expired until now ≡ false)
  still_valid-expired now none = (λ _. refl, λ _. refl)
  still_valid-expired now (some until) = ground arith

  -- The fields of a rule that is read.
  pub record ReadAs (row : RuleRow) (rule : Rule) : Type 0 where
    pub code : rule.code ≡ row.code
    pub rule_type : Rule.from_str row.rule_type ≡ ok rule.rule_type
    pub params : rule.params ≡ row.params
    pub enabled : rule.enabled ≡ row.enabled
    pub priority : rule.priority ≡ row.priority
    pub valid_from : rule.valid_from ≡ row.valid_from
    pub valid_until : rule.valid_until ≡ row.valid_until

  pub read_rule-ReadAs : (row : RuleRow) (rule : Rule) → read_rule row ≡ ok rule → ReadAs row rule
  unfolding read_rule
  read_rule-ReadAs row rule h = record {
    code = ground arith;
    rule_type = ground arith;
    params = ground arith;
    enabled = ground arith;
    priority = ground arith;
    valid_from = ground arith;
    valid_until = ground arith;
  }

  -- The WHERE clause of the SELECT agrees with `is_active_at`.
  pub is_selected-is_active_at :
      IsLawful X
      → (now : X.DateTime) (row : RuleRow) (rule : Rule) → ReadAs row rule
      → is_selected now row ≡ is_active_at rule now
  unfolding is_active_at
  is_selected-is_active_at L now row rule v =
      rw (v.enabled, v.valid_from, v.valid_until)
        (ground (arith, L.cmp_gt_iff row.valid_from now, still_valid-expired now row.valid_until))

  -- The rules of the rows that are fetched, one by one.
  abbrev pub RulesOf : X.DateTime → List RuleRow → List Rule → Type 0
  RulesOf now [] [] = Unit
  RulesOf now [] (rule ∷ rules) = ⊥
  RulesOf now (row ∷ rows) [] = ⊥
  RulesOf now (row ∷ rows) (rule ∷ rules) =
      ReadAs row rule × (is_active_at rule now ≡ is_selected now row) × RulesOf now rows rules

  collect-RulesOf :
      IsLawful X
      → (now : X.DateTime) (rows : List RuleRow) (rules : List Rule)
      → collect read_rule rows ≡ ok rules
      → RulesOf now rows rules
  collect-RulesOf L now [] [] h = tt
  collect-RulesOf L now [] (rule ∷ rules) h = absurd (ground arith)
  collect-RulesOf L now (row ∷ rows) [] h = absurd (ground arith)
  collect-RulesOf L now (row ∷ rows) (rule ∷ rules) h =
      let one : read_rule row ≡ ok rule = ground arith in
      let rest : collect read_rule rows ≡ ok rules = ground arith in
      let v = read_rule-ReadAs row rule one in
      (v, sym (is_selected-is_active_at L now row rule v), collect-RulesOf L now rows rules rest)

  -- With lawful crates, the rules that a load gives are the rows that were fetched, one by one and in their order, each
  -- with its type parsed; and a row passes the WHERE clause at a time exactly if its rule is active
  -- then, so that the query and the engine agree.
  pub load_active_rules-RulesOf :
      IsLawful X
      → (now : X.DateTime) (rows : List RuleRow) (rules : List Rule)
      → load_active_rules (ok rows) ≡ ok rules
      → RulesOf now rows rules
  unfolding load_active_rules
  load_active_rules-RulesOf L now rows rules h = collect-RulesOf L now rows rules h
