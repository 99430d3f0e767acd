-- ===== src/App/Engine/Priority.antt =====
-- The order of the rules, from the SELECT of the repository to the decision of the engine.
use mathlib.Core.List.{Memᴰ}
use mathlib.Core.List.Memᴰ.{head, tail}
use fraud_guard.Base.{List, [], ◌∷◌, ok, map, All, ◌≡◌, ◌↔◌, refl, sym, subst}
use fraud_guard.Base.Int.{ℤ, ◌≤ℤ◌}
use fraud_guard.Domain.Crates.{Crates}
use fraud_guard.Domain.Decision.{TriggeredRule, review}
use fraud_guard.Domain.Transaction.{TransactionRequest}
use fraud_guard.Domain.Rule.{Rule}
use fraud_guard.Domain.Rule.Evaluate.{Triggers}
use fraud_guard.Storage.Postgres.ActiveRules.{
  Descending, priorities, row_priorities, collect-priorities,
}
use fraud_guard.Storage.Repo.{RuleRow, load_active_rules}
use fraud_guard.App.Engine.{decide}
use fraud_guard.App.Engine.Decide.{Fired, none_left, fires, silent, decide-review_iff}

module _ ⦃X : Crates⦄ where
  -- The rules of a list that fire, and their entries.
  pub record Picked (tx : TransactionRequest) (rules : List Rule) (found : List TriggeredRule)
      (fired : List Rule) : Type 0 where
    pub among : (rule : Rule) → Memᴰ rule fired → Memᴰ rule rules × Triggers rule tx
    pub complete : (rule : Rule) → Memᴰ rule rules → Triggers rule tx → Memᴰ rule fired
    pub codes : map (λ entry. entry.code) found ≡ map (λ rule. rule.code) fired
    pub ordered : Descending (priorities fired)
    pub below :
        (n : ℤ) → All (λ m. m ≤ℤ n) (priorities rules) → All (λ m. m ≤ℤ n) (priorities fired)

  module _ (tx : TransactionRequest) (rules fired : List Rule) (first : Rule) where
    among_more :
        Triggers first tx
        → ((rule : Rule) → Memᴰ rule fired → Memᴰ rule rules × Triggers rule tx)
        → (rule : Rule) → Memᴰ rule (first ∷ fired)
        → Memᴰ rule (first ∷ rules) × Triggers rule tx
    among_more t f rule (head e) = (head e, subst (λ r. Triggers r tx) (sym e) t)
    among_more t f rule (tail m) = let (i, u) = f rule m in (tail i, u)

    complete_more :
        ((rule : Rule) → Memᴰ rule rules → Triggers rule tx → Memᴰ rule fired)
        → (rule : Rule) → Memᴰ rule (first ∷ rules)
        → Triggers rule tx
        → Memᴰ rule (first ∷ fired)
    complete_more f rule (head e) t = head e
    complete_more f rule (tail m) t = tail (f rule m t)

    complete_silent :
        ¬ Triggers first tx
        → ((rule : Rule) → Memᴰ rule rules → Triggers rule tx → Memᴰ rule fired)
        → (rule : Rule) → Memᴰ rule (first ∷ rules)
        → Triggers rule tx
        → Memᴰ rule fired
    complete_silent quiet f rule (head e) t = absurd (quiet (subst (λ r. Triggers r tx) e t))
    complete_silent quiet f rule (tail m) t = f rule m t

  Fired-Picked :
      {tx : TransactionRequest} {rules : List Rule} {found : List TriggeredRule}
      → Fired tx rules found
      → Descending (priorities rules)
      → (fired : List Rule) × Picked tx rules found fired
  Fired-Picked none_left o = (
    [],
    record {
      among = λ rule m. elim m [ ];
      complete = λ rule m. elim m [ ];
      codes = refl;
      ordered = tt;
      below = λ n h. tt;
    },
  )
  Fired-Picked {tx} (fires {rule} {rules} entry code e f) o =
      let (fired, v) = Fired-Picked f o.1 in
      (
        rule ∷ fired,
        record {
          among = among_more tx rules fired rule (entry.reason, cc) v.among;
          complete = complete_more tx rules fired rule v.complete;
          codes = cc (code, v.codes);
          ordered = (v.below rule.priority o.0, v.ordered);
          below = λ n h. (h.0, v.below n h.1);
        },
      )
  Fired-Picked {tx} (silent {rule} {rules} quiet f) o =
      let (fired, v) = Fired-Picked f o.1 in
      (
        fired,
        record {
          among = λ r m. let (i, t) = v.among r m in (tail i, t);
          complete = complete_silent tx rules fired rule quiet v.complete;
          codes = v.codes;
          ordered = v.ordered;
          below = λ n h. v.below n h.1;
        },
      )

  -- If the rules come by descending priority, and the decision on a transaction is a review, then its
  -- entries are those of the rules that fire, all of them, by descending priority.
  pub decide-Descending :
      (rules : List Rule) (tx : TransactionRequest) (found : List TriggeredRule)
      → Descending (priorities rules)
      → decide rules tx ≡ review found
      → (fired : List Rule) × ((rule : Rule)
          → Memᴰ rule fired ↔ (Memᴰ rule rules × Triggers rule tx))
        × (map (λ entry. entry.code) found ≡ map (λ rule. rule.code) fired)
        × Descending (priorities fired)
  decide-Descending rules tx found o e =
      let (fired, v) = Fired-Picked ((decide-review_iff rules tx found).0 e).1 o in
      (fired, λ rule. (v.among rule, λ (m, t). v.complete rule m t), v.codes, v.ordered)

  -- If the rows of the SELECT come by descending priority and are loaded, and the decision on a
  -- transaction by the loaded rules is a review, then the entries of the review are those of the
  -- loaded rules that fire, all of them, by descending priority.
  pub review-Descending :
      (rows : List RuleRow) (rules : List Rule) (tx : TransactionRequest)
      (found : List TriggeredRule)
      → Descending (row_priorities rows)
      → load_active_rules (ok rows) ≡ ok rules
      → decide rules tx ≡ review found
      → (fired : List Rule) × ((rule : Rule)
          → Memᴰ rule fired ↔ (Memᴰ rule rules × Triggers rule tx))
        × (map (λ entry. entry.code) found ≡ map (λ rule. rule.code) fired)
        × Descending (priorities fired)
  unfolding load_active_rules
  review-Descending rows rules tx found o h e =
      decide-Descending rules tx found (subst Descending (sym (collect-priorities rows rules h)) o)
        e
