-- ===== src/Storage/Postgres/ActiveRules.antt =====
-- What the repository of rules gives of the table at a time.
use mathlib.Core.List.{Memᴰ}
use mathlib.Core.List.Memᴰ.{head, tail}
use fraud_guard.Base.{
  List, [], ◌∷◌, map, All, Bool, true, ok, ◌≡◌, ◌↔◌, refl, sym, subst, ◌∙◌, arith, Result-cases,
  inl, inr,
}
use fraud_guard.Base.Int.{ℤ, ◌≤ℤ◌}
use fraud_guard.Domain.Crates.{Crates, IsLawful}
use fraud_guard.Domain.Rule.{Rule, is_active_at}
use fraud_guard.Storage.Select.{IsSelect, IsSelect-Memᴰ}
use fraud_guard.Storage.Repo.{RuleRow, collect, read_rule, load_active_rules, is_selected}
use fraud_guard.Storage.Repo.Reads.{ReadAs, read_rule-ReadAs, is_selected-is_active_at}
use fraud_guard.Storage.Postgres.{Pool, rules}

-- `ORDER BY priority DESC`
abbrev pub Descending : List ℤ → Type 0
Descending [] = Unit
Descending (n ∷ rest) = All (λ m. m ≤ℤ n) rest × Descending rest

module _ ⦃X : Crates⦄ where
  abbrev pub priorities : List Rule → List ℤ
  priorities rules = map (λ rule. rule.priority) rules

  abbrev pub row_priorities : List RuleRow → List ℤ
  row_priorities rows = map (λ row. row.priority) rows

  pub collect-priorities :
      (rows : List RuleRow) (rules : List Rule)
      → collect read_rule rows ≡ ok rules
      → priorities rules ≡ row_priorities rows
  unfolding read_rule
  collect-priorities [] [] h = refl
  collect-priorities [] (rule ∷ rules) h = absurd (ground arith)
  collect-priorities (row ∷ rows) [] h = absurd (ground arith)
  collect-priorities (row ∷ rows) (rule ∷ rules) h =
      let rest : collect read_rule rows ≡ ok rules = ground arith in
      let same : rule.priority ≡ row.priority = ground arith in
      cc (same, collect-priorities rows rules rest)

  -- The pool fetches what the SELECT of the repository asks for.
  abbrev pub FetchesRules : Pool RuleRow → Type 0
  FetchesRules pool =
      (p : RuleRow → Bool) (table rows : List RuleRow)
      → pool.fetch_all p table ≡ ok rows
      → IsSelect p (λ l. Descending (row_priorities l)) table rows

  ReadAs-unique :
      (row : RuleRow) (rule other : Rule) → ReadAs row rule → ReadAs row other → rule ≡ other
  ReadAs-unique row rule other v w =
      let same : rule.rule_type ≡ other.rule_type = ground (arith, sym v.rule_type ∙ w.rule_type) in
      cc (
        v.code, w.code, same, v.params, w.params, v.enabled, w.enabled, v.priority, w.priority,
        v.valid_from, w.valid_from, v.valid_until, w.valid_until,
      )

  collect-among :
      (rows : List RuleRow) (found : List Rule) (rule : Rule)
      → collect read_rule rows ≡ ok found
      → Memᴰ rule found
      → (row : RuleRow) × Memᴰ row rows × ReadAs row rule
  collect-among [] [] rule h m = elim m [ ]
  collect-among [] (r ∷ found) rule h m = absurd (ground arith)
  collect-among (row ∷ rows) [] rule h m = elim m [ ]
  collect-among (row ∷ rows) (r ∷ found) rule h (head e) =
      let one : read_rule row ≡ ok r = ground arith in
      (row, head refl, subst (ReadAs row) (sym e) (read_rule-ReadAs row r one))
  collect-among (row ∷ rows) (r ∷ found) rule h (tail m) =
      let rest : collect read_rule rows ≡ ok found = ground arith in
      let (other, i, v) = collect-among rows found rule rest m in (other, tail i, v)

  collect_complete :
      (rows : List RuleRow) (found : List Rule) (row : RuleRow)
      → collect read_rule rows ≡ ok found
      → Memᴰ row rows
      → (rule : Rule) × Memᴰ rule found × ReadAs row rule
  collect_complete [] found row h m = elim m [ ]
  collect_complete (first ∷ rows) [] row h m = absurd (ground arith)
  collect_complete (first ∷ rows) (r ∷ found) row h (head e) =
      let one : read_rule first ≡ ok r = ground arith in
      (r, head refl, subst (λ x. ReadAs x r) (sym e) (read_rule-ReadAs first r one))
  collect_complete (first ∷ rows) (r ∷ found) row h (tail m) =
      let rest : collect read_rule rows ≡ ok found = ground arith in
      let (rule, i, v) = collect_complete rows found row rest m in (rule, tail i, v)

  -- With lawful crates and a pool that fetches what a SELECT asks for: a load of the rules at a time
  -- that succeeds gives exactly the rules of the table that are active then, by descending priority.
  pub load_active_rules-active :
      IsLawful X
      → (pool : Pool RuleRow) → FetchesRules pool
      → (now : X.DateTime) (table : List RuleRow) (found : List Rule)
      → (rules pool now).load_active_rules table ≡ ok found
      → ((rule : Rule)
          → Memᴰ rule found
            ↔ ((row : RuleRow) × Memᴰ row table × ReadAs row rule × (is_active_at rule now ≡ true)))
        × Descending (priorities found)
  unfolding load_active_rules
  load_active_rules-active L pool f now table found done =
      elim (Result-cases (pool.fetch_all (is_selected now) table)) [
        | inr (m, e) ↦ absurd (ground arith)
        | inl (rows, e) ↦
            let v = f (is_selected now) table rows e in
            let among = IsSelect-Memᴰ v in
            let h : collect read_rule rows ≡ ok found = ground arith in
            (
              λ rule. (
                λ m.
                    let (row, i, r) = collect-among rows found rule h m in
                    let (j, s) = (among row).0 i in
                    (row, j, r, sym (is_selected-is_active_at L now row rule r) ∙ s),
                λ (row, j, r, active).
                    let i = (among row).1 (j, is_selected-is_active_at L now row rule r ∙ active) in
                    let (other, m, o) = collect_complete rows found row h i in
                    subst (λ x. Memᴰ x found) (ReadAs-unique row other rule o r) m,
              ),
              subst Descending (sym (collect-priorities rows found h)) v.ordered,
            )
      ]
