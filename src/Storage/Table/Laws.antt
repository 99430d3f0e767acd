-- ===== src/Storage/Table/Laws.antt =====
-- Insertion into a table with a unique column, and what is found afterwards.
use mathlib.Core.Option.{or_else}
use fraud_guard.Base.{
  List, [], ◌∷◌, ◌++◌, Bool, subst, true, false, ◌||◌, Option, none, some, ◌≡◌, refl, sym, ◌∙◌,
  arith, inl, inr, Bool-cases, Option-cases, All, All-append, if◌then◌else◌,
}
use mathlib.Core.Bool.{true≢false}
use fraud_guard.Domain.Crates.{Crates, IsLawful}
use fraud_guard.Storage.Table.{has, find, add_or_nothing, UniqueKeys}

or_else-none {ℓ} : {A : Type ℓ} (o : Option A) → o ≡ or_else o none
unfolding or_else
or_else-none none = refl
or_else-none (some a) = refl

or_false : (b : Bool) → b ≡ (b || false)
or_false true = refl
or_false false = refl

module _ ⦃X : Crates⦄ {A : Type 0} (key : A → X.Uuid) where
  pub has-append :
      (id : X.Uuid) (rows : List A) (row : A)
      → has key id (rows ++ (row ∷ [])) ≡ (has key id rows || X.uuid_eq (key row) id)
  has-append id [] row = ground arith
  has-append id (r ∷ rows) row = ground (arith, has-append id rows row)

  pub find-append :
      (id : X.Uuid) (rows : List A) (row : A)
      → find key id (rows ++ (row ∷ []))
        ≡ or_else (find key id rows) (if X.uuid_eq (key row) id then some row else none)
  unfolding or_else
  find-append id [] row = refl
  find-append id (r ∷ rows) row = ground (arith, find-append id rows row)

  has_of_find : (id : X.Uuid) (rows : List A) → find key id rows ≡ none → has key id rows ≡ false
  has_of_find id [] h = refl
  has_of_find id (r ∷ rows) h = ground (arith, has_of_find id rows)

  find_old :
      IsLawful X
      → (row : A) (rows : List A) (id : X.Uuid) → has key (key row) rows ≡ true
      → key row ≡ id
      → find key id rows
        ≡ or_else (find key id rows) (if X.uuid_eq (key row) id then some row else none)
  unfolding or_else
  find_old L row rows id old e = elim (Option-cases (find key id rows)) [
    | inl missing ↦ absurd (true≢false (sym old ∙ rw e (has_of_find id rows missing)))
    | inr (r, found) ↦ rw found refl
  ]

  -- A row whose identifier is new enters; else the old row stays.
  pub find-add_or_nothing :
      IsLawful X
      → (row : A) (rows : List A) (id : X.Uuid)
      → find key id (add_or_nothing key row rows)
        ≡ or_else (find key id rows) (if X.uuid_eq (key row) id then some row else none)
  unfolding add_or_nothing
  find-add_or_nothing L row rows id = elim (Bool-cases (has key (key row) rows)) [
    | inl old ↦
        rw (old, add_or_nothing)
          (elim (Bool-cases (X.uuid_eq (key row) id)) [
            | inl same ↦ find_old L row rows id old ((L.uuid_eq_iff (key row) id).0 same)
            | inr differ ↦ rw differ (or_else-none (find key id rows))
          ])
    | inr new ↦ rw (new, add_or_nothing) (find-append id rows row)
  ]

  pub has-add_or_nothing :
      IsLawful X
      → (row : A) (rows : List A) → has key (key row) (add_or_nothing key row rows) ≡ true
  unfolding add_or_nothing
  has-add_or_nothing L row rows =
      ground (arith, has-append (key row) rows row, L.uuid_eq_iff (key row) (key row))

  UniqueKeys-append :
      IsLawful X
      → (row : A) (rows : List A) → has key (key row) rows ≡ false
      → UniqueKeys key rows
      → UniqueKeys key (rows ++ (row ∷ []))
  UniqueKeys-append L row [] h u = (refl, tt)
  UniqueKeys-append L row (r ∷ rows) h u = ground (
    arith,
    UniqueKeys-append L row rows,
    has-append (key r) rows row,
    L.uuid_eq_iff (key r) (key row),
    L.uuid_eq_iff (key row) (key r),
  )

  pub add_or_nothing-UniqueKeys :
      IsLawful X
      → (row : A) (rows : List A) → UniqueKeys key rows
      → UniqueKeys key (add_or_nothing key row rows)
  unfolding add_or_nothing
  add_or_nothing-UniqueKeys L row rows u = ground (arith, UniqueKeys-append L row rows)

  pub add_or_nothing_old :
      (row : A) (rows : List A) → has key (key row) rows ≡ true → add_or_nothing key row rows ≡ rows
  unfolding add_or_nothing
  add_or_nothing_old row rows h = ground arith

  pub add_or_nothing_new :
      (row : A) (rows : List A)
      → has key (key row) rows ≡ false
      → add_or_nothing key row rows ≡ rows ++ (row ∷ [])
  unfolding add_or_nothing
  add_or_nothing_new row rows h = ground arith

  -- The table has what it had, and the identifier of the row.
  pub has-add_or_nothing_or :
      IsLawful X
      → (row : A) (rows : List A) (id : X.Uuid)
      → has key id (add_or_nothing key row rows) ≡ (has key id rows || X.uuid_eq (key row) id)
  has-add_or_nothing_or L row rows id = elim (Bool-cases (has key (key row) rows)) [
    | inl old ↦ elim (Bool-cases (X.uuid_eq (key row) id)) [
      | inl same ↦
          let e = (L.uuid_eq_iff (key row) id).0 same in
          let there : has key id rows ≡ true = subst (λ k. has key k rows ≡ true) e old in
          rw (add_or_nothing_old row rows old, there) refl
      | inr differ ↦ rw (add_or_nothing_old row rows old, differ) (or_false (has key id rows))
    ]
    | inr new ↦ rw (add_or_nothing_new row rows new) (has-append id rows row)
  ]

  pub has-add_or_nothing_mono :
      (id : X.Uuid) (row : A) (rows : List A)
      → has key id rows ≡ true
      → has key id (add_or_nothing key row rows) ≡ true
  unfolding add_or_nothing
  has-add_or_nothing_mono id row rows h = ground (arith, has-append id rows row)

  pub All-add_or_nothing :
      (P : A → Type 0) (row : A) (rows : List A)
      → P row
      → All P rows
      → All P (add_or_nothing key row rows)
  All-add_or_nothing P row rows p all = elim (Bool-cases (has key (key row) rows)) [
    | inl old ↦ rw (add_or_nothing_old row rows old) all
    | inr new ↦ rw (add_or_nothing_new row rows new) (All-append P rows (row ∷ []) all (p, tt))
  ]

  -- A second insertion of the same identifier changes nothing.
  pub add_or_nothing_again :
      IsLawful X
      → (row again : A) (rows : List A) → key again ≡ key row
      → add_or_nothing key again (add_or_nothing key row rows) ≡ add_or_nothing key row rows
  add_or_nothing_again L row again rows e =
      let old : has key (key again) (add_or_nothing key row rows) ≡ true =
        rw e (has-add_or_nothing L row rows) in
      add_or_nothing_old again (add_or_nothing key row rows) old
