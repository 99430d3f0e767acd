-- ===== src/Tests/Pools.antt =====
-- Pools that fetch by insertion sort.
use mathlib.Core.List.{Permᴰ}
use mathlib.Core.List.Permᴰ as Perms
use mathlib.Core.List.Permᴰ.{cons, swap, trans}
use fraud_guard.Base.{
  ℕ, List, [], ◌∷◌, Bool, true, false, Result, ok, ◌≡◌, refl, subst, arith, All, All-imp,
  Bool-cases, inl, inr, if◌then◌else◌,
}
use fraud_guard.Base.Int.{ℤ, ◌≤ℤ◌, leb_ℤ}
use fraud_guard.Domain.Crates.{not_after}
use fraud_guard.Domain.Repository.{Ascending}
use fraud_guard.Storage.Db.{TransactionRow}
use fraud_guard.Storage.Repo.{RuleRow}
use fraud_guard.Storage.Select.{IsSelect, matching}
use fraud_guard.Storage.Postgres.{Pool}
use fraud_guard.Storage.Postgres.Period.{Fetches, row_times}
use fraud_guard.Storage.Postgres.ActiveRules.{FetchesRules, Descending, row_priorities}
use fraud_guard.Tests.Sample.{crates}

abbrev Sorted : {A : Type 0} → (A → A → Type 0) → List A → Type 0
Sorted R [] = Unit
Sorted R (x ∷ xs) = All (R x) xs × Sorted R xs

module _ {A : Type 0} (le : A → A → Bool) where
  abbrev pub insert : A → List A → List A
  insert x [] = x ∷ []
  insert x (y ∷ ys) = if le x y then x ∷ y ∷ ys else y ∷ insert x ys

  abbrev pub sort : List A → List A
  sort [] = []
  sort (x ∷ xs) = insert x (sort xs)

  insert-Permᴰ : (x : A) (ys : List A) → Permᴰ (insert x ys) (x ∷ ys)
  insert-Permᴰ x [] = Perms.refl (x ∷ [])
  insert-Permᴰ x (y ∷ ys) = elim (Bool-cases (le x y)) [
    | inl e ↦ rw e (Perms.refl (x ∷ y ∷ ys))
    | inr e ↦ rw e (trans (cons refl (insert-Permᴰ x ys)) (swap refl refl))
  ]

  pub sort-Permᴰ : (xs : List A) → Permᴰ (sort xs) xs
  sort-Permᴰ [] = Perms.refl []
  sort-Permᴰ (x ∷ xs) = trans (insert-Permᴰ x (sort xs)) (cons refl (sort-Permᴰ xs))

  module _ (R : A → A → Type 0) (below : (x y : A) → le x y ≡ true → R x y)
      (above : (x y : A) → le x y ≡ false → R y x)
      (chain : (x y z : A) → R x y → R y z → R x z) where
    insert-All : (P : A → Type 0) (x : A) (ys : List A) → P x → All P ys → All P (insert x ys)
    insert-All P x [] p h = (p, tt)
    insert-All P x (y ∷ ys) p h = elim (Bool-cases (le x y)) [
      | inl e ↦ rw e (p, h)
      | inr e ↦ rw e (h.0, insert-All P x ys p h.1)
    ]

    insert-Sorted : (x : A) (ys : List A) → Sorted R ys → Sorted R (insert x ys)
    insert-Sorted x [] h = (tt, tt)
    insert-Sorted x (y ∷ ys) h = elim (Bool-cases (le x y)) [
      | inl e ↦ let r = below x y e in rw e ((r, All-imp ys (λ z k. chain x y z r k) h.0), h)
      | inr e ↦ rw e (insert-All (R y) x ys (above x y e) h.0, insert-Sorted x ys h.1)
    ]

    pub sort-Sorted : (xs : List A) → Sorted R (sort xs)
    sort-Sorted [] = tt
    sort-Sorted (x ∷ xs) = insert-Sorted x (sort xs) (sort-Sorted xs)

abbrev earlier : TransactionRow → TransactionRow → Bool
earlier a b = not_after a.timestamp b.timestamp

abbrev pub transaction_pool : Pool TransactionRow
transaction_pool = record {
  fetch_all = λ p table. ok (sort earlier (matching p table));
  execute = ok tt;
  constraint = "constraint";
  answer = ok tt;
}

abbrev higher : RuleRow → RuleRow → Bool
higher a b = leb_ℤ b.priority a.priority

abbrev pub rule_pool : Pool RuleRow
rule_pool = record {
  fetch_all = λ p table. ok (sort higher (matching p table));
  execute = ok tt;
  constraint = "constraint";
  answer = ok tt;
}

abbrev Earlier : TransactionRow → TransactionRow → Type 0
Earlier a b = not_after a.timestamp b.timestamp ≡ true

abbrev Higher : RuleRow → RuleRow → Type 0
Higher a b = b.priority ≤ℤ a.priority

earlier_above : (a b : TransactionRow) → earlier a b ≡ false → Earlier b a
earlier_above a b e = ground arith

Earlier-chain : (a b c : TransactionRow) → Earlier a b → Earlier b c → Earlier a c
Earlier-chain a b c h k = ground arith

All-times :
    (t : ℕ) (rows : List TransactionRow)
    → All (λ row. not_after t row.timestamp ≡ true) rows
    → All (λ u. not_after t u ≡ true) (row_times rows)
All-times t [] h = tt
All-times t (row ∷ rows) h = (h.0, All-times t rows h.1)

Sorted-Ascending : (rows : List TransactionRow) → Sorted Earlier rows → Ascending (row_times rows)
Sorted-Ascending [] h = tt
Sorted-Ascending (row ∷ rows) h = (All-times row.timestamp rows h.0, Sorted-Ascending rows h.1)

ok_injective : {A E : Type 0} (a b : A) (r : Result A E) → r ≡ ok a → r ≡ ok b → a ≡ b
ok_injective a b r e f = ground (arith, e, f)

pub transaction_pool-Fetches : Fetches transaction_pool
transaction_pool-Fetches p table rows e =
    subst (IsSelect p (λ l. Ascending (row_times l)) table) (ok_injective _ rows (ok _) refl e)
      (record {
        rows = sort-Permᴰ earlier (matching p table);
        ordered = Sorted-Ascending _ (
            sort-Sorted earlier Earlier (λ a b k. k) earlier_above Earlier-chain
              (matching p table));
      })

higher_below : (a b : RuleRow) → higher a b ≡ true → Higher a b
higher_below a b e = ground arith

higher_above : (a b : RuleRow) → higher a b ≡ false → Higher b a
higher_above a b e = ground arith

Higher-chain : (a b c : RuleRow) → Higher a b → Higher b c → Higher a c
Higher-chain a b c h k = omega (arith, h, k)

All-priorities :
    (n : ℤ) (rows : List RuleRow)
    → All (λ row. row.priority ≤ℤ n) rows
    → All (λ m. m ≤ℤ n) (row_priorities rows)
All-priorities n [] h = tt
All-priorities n (row ∷ rows) h = (h.0, All-priorities n rows h.1)

Sorted-Descending : (rows : List RuleRow) → Sorted Higher rows → Descending (row_priorities rows)
Sorted-Descending [] h = tt
Sorted-Descending (row ∷ rows) h =
    (All-priorities row.priority rows h.0, Sorted-Descending rows h.1)

pub rule_pool-Fetches : FetchesRules rule_pool
rule_pool-Fetches p table rows e =
    subst (IsSelect p (λ l. Descending (row_priorities l)) table)
      (ok_injective _ rows (ok _) refl e)
      (record {
        rows = sort-Permᴰ higher (matching p table);
        ordered =
            Sorted-Descending _
              (sort-Sorted higher Higher higher_below higher_above Higher-chain (matching p table));
      })
