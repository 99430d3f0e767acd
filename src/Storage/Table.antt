-- ===== src/Storage/Table.antt =====
-- A table with a UNIQUE column that holds an identifier, in the order of insertion.
pub mod Laws
use fraud_guard.Base.{
  List, [], ◌∷◌, ◌++◌, Bool, true, false, any, Option, none, some, ◌≡◌, if◌then◌else◌,
}
use fraud_guard.Domain.Crates.{Crates}

module _ ⦃X : Crates⦄ {A : Type 0} (key : A → X.Uuid) where
  -- Is the identifier in the column?
  abbrev pub has : X.Uuid → List A → Bool
  has id rows = any (λ row. X.uuid_eq (key row) id) rows

  -- The first row with the identifier.
  abbrev pub find : X.Uuid → List A → Option A
  find id [] = none
  find id (row ∷ rows) = if X.uuid_eq (key row) id then some row else find id rows

  -- `ON CONFLICT DO NOTHING`
  unfoldable pub add_or_nothing : A → List A → List A
  add_or_nothing row rows = if has (key row) rows then rows else rows ++ (row ∷ [])

  -- The column is unique.
  abbrev pub UniqueKeys : List A → Type 0
  UniqueKeys [] = Unit
  UniqueKeys (row ∷ rows) = (has (key row) rows ≡ false) × UniqueKeys rows
