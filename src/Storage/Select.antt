-- ===== src/Storage/Select.antt =====
-- What a SELECT of the repositories fetches, as SQL documents it.
use mathlib.Core.List.{Memᴰ, Permᴰ}
use mathlib.Core.List.Memᴰ.{head, tail}
use mathlib.Core.List.Permᴰ.{nil, cons, swap, trans}
use fraud_guard.Base.{
  List, [], ◌∷◌, Bool, true, ◌≡◌, ◌↔◌, sym, ◌∙◌, Bool-cases, inl, inr, if◌then◌else◌,
}

module _ {A : Type 0} where
  -- The rows that pass the WHERE clause, in the order of the table.
  abbrev pub matching : (A → Bool) → List A → List A
  matching p [] = []
  matching p (row ∷ rows) = if p row then row ∷ matching p rows else matching p rows

  -- The rows that were fetched are those that pass the WHERE clause, each as often as the table has
  -- it, in an order that the ORDER BY allows.
  pub record IsSelect (p : A → Bool) (Ordered : List A → Type 0) (table fetched : List A)
      : Type 0 where
    pub rows : Permᴰ fetched (matching p table)
    pub ordered : Ordered fetched

  mem_cons :
      {x a b : A} {l₁ l₂ : List A}
      → a ≡ b
      → (Memᴰ x l₁ → Memᴰ x l₂)
      → Memᴰ x (a ∷ l₁)
      → Memᴰ x (b ∷ l₂)
  mem_cons e f (head i) = head (i ∙ e)
  mem_cons e f (tail m) = tail (f m)

  mem_swap :
      {x a b a' b' : A} {l : List A} → a ≡ b' → b ≡ a' → Memᴰ x (a ∷ b ∷ l) → Memᴰ x (a' ∷ b' ∷ l)
  mem_swap e f (head i) = tail (head (i ∙ e))
  mem_swap e f (tail (head i)) = head (i ∙ f)
  mem_swap e f (tail (tail m)) = tail (tail m)

  Memᴰ-Permᴰ :
      {xs ys : List A} → Permᴰ xs ys → (x : A) → (Memᴰ x xs → Memᴰ x ys) × (Memᴰ x ys → Memᴰ x xs)
  Memᴰ-Permᴰ nil x = (λ m. m, λ m. m)
  Memᴰ-Permᴰ (cons e h) x = let (f, g) = Memᴰ-Permᴰ h x in (mem_cons e f, mem_cons (sym e) g)
  Memᴰ-Permᴰ (swap e f) x = (mem_swap e f, mem_swap (sym f) (sym e))
  Memᴰ-Permᴰ (trans h k) x =
      let (a, b) = Memᴰ-Permᴰ h x in let (c, d) = Memᴰ-Permᴰ k x in (λ m. c (a m), λ m. b (d m))

  matching-among :
      (p : A → Bool) (table : List A) (x : A)
      → Memᴰ x (matching p table)
      → Memᴰ x table × (p x ≡ true)
  matching-among p [] x m = elim m [ ]
  matching-among p (row ∷ rows) x m = elim (Bool-cases (p row)) [
    | inr fails ↦ let (i, e) = matching-among p rows x (rw fails at m) in (tail i, e)
    | inl passes ↦ elim (rw passes at m) [
      | head e ↦ (head e, rw e passes)
      | tail k ↦ let (i, e) = matching-among p rows x k in (tail i, e)
    ]
  ]

  matching-complete :
      (p : A → Bool) (table : List A) (x : A)
      → Memᴰ x table
      → p x ≡ true
      → Memᴰ x (matching p table)
  matching-complete p [] x m e = elim m [ ]
  matching-complete p (row ∷ rows) x (head i) e =
      let passes : p row ≡ true = rw (← i) e in rw passes (head i)
  matching-complete p (row ∷ rows) x (tail m) e = elim (Bool-cases (p row)) [
    | inl passes ↦ rw passes (tail (matching-complete p rows x m e))
    | inr fails ↦ rw fails (matching-complete p rows x m e)
  ]

  pub IsSelect-Memᴰ :
      {p : A → Bool} {Ordered : List A → Type 0} {table fetched : List A}
      → IsSelect p Ordered table fetched
      → (x : A) → Memᴰ x fetched ↔ (Memᴰ x table × (p x ≡ true))
  IsSelect-Memᴰ {p} {Ordered} {table} v x =
      let (a, b) = Memᴰ-Permᴰ v.rows x in
      (λ m. matching-among p table x (a m), λ (m, e). b (matching-complete p table x m e))
