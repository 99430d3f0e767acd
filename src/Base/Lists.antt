-- ===== src/Base/Lists.antt =====
-- Lists measured by native numbers, predicates on lists by recursion, and Boolean searches.
use Prim.Native.Nat.{ℕ, suc, ◌+◌}
use mathlib.Core.Path.{◌≡◌, refl, sym, subst}
use mathlib.Core.Logic.{◌↔◌, ◌⊎◌, inl, inr}
use mathlib.Core.Bool.{Bool, true, false, ◌||◌}
use mathlib.Core.List.{List, [], ◌∷◌, ◌++◌, Memᴰ}
use mathlib.Core.List.Memᴰ.{head, tail}
use native.Mathlib.Omega.{arith}

module _ {ℓ} {A : Type ℓ} where
  abbrev pub length : List A → ℕ
  length [] = 0
  length (x ∷ xs) = suc (length xs)

  abbrev pub is_empty : List A → Bool
  is_empty [] = true
  is_empty (x ∷ xs) = false

  pub length-append : (xs ys : List A) → length (xs ++ ys) ≡ length xs + length ys
  length-append [] ys = omega arith
  length-append (x ∷ xs) ys = omega (arith, length-append xs ys)

  -- Every entry satisfies `P`; computes to a tuple.
  abbrev pub All {κ} : (A → Type κ) → List A → Type κ
  All P [] = Unit
  All P (x ∷ xs) = P x × All P xs

  pub All-append {κ} : (P : A → Type κ) (xs ys : List A) → All P xs → All P ys → All P (xs ++ ys)
  All-append P [] ys hx hy = hy
  All-append P (x ∷ xs) ys hx hy = (hx.0, All-append P xs ys hx.1 hy)

  pub All-imp {κ ν} :
      {P : A → Type κ} {Q : A → Type ν} (xs : List A) → ((x : A) → P x → Q x) → All P xs → All Q xs
  All-imp [] f h = tt
  All-imp (x ∷ xs) f h = (f x h.0, All-imp xs f h.1)

  pub All-Memᴰ {κ} : (P : A → Type κ) (xs : List A) (x : A) → Memᴰ x xs → All P xs → P x
  All-Memᴰ P [] x m h = elim m [ ]
  All-Memᴰ P (y ∷ rest) x (head e) h = subst P (sym e) h.0
  All-Memᴰ P (y ∷ rest) x (tail m) h = All-Memᴰ P rest x m h.1

  pub All-of {κ} : (P : A → Type κ) (xs : List A) → ((x : A) → Memᴰ x xs → P x) → All P xs
  All-of P [] f = tt
  All-of P (x ∷ rest) f = (f x (head refl), All-of P rest (λ y m. f y (tail m)))

  pub Memᴰ-append_left : (xs ys : List A) (x : A) → Memᴰ x xs → Memᴰ x (xs ++ ys)
  Memᴰ-append_left [] ys x m = elim m [ ]
  Memᴰ-append_left (z ∷ xs) ys x (head e) = head e
  Memᴰ-append_left (z ∷ xs) ys x (tail m) = tail (Memᴰ-append_left xs ys x m)

  pub Memᴰ-append_right : (xs ys : List A) (x : A) → Memᴰ x ys → Memᴰ x (xs ++ ys)
  Memᴰ-append_right [] ys x m = m
  Memᴰ-append_right (z ∷ xs) ys x m = tail (Memᴰ-append_right xs ys x m)

  pub Memᴰ-append_one : (xs : List A) (y x : A) → Memᴰ x (xs ++ (y ∷ [])) ↔ (Memᴰ x xs ⊎ (x ≡ y))
  Memᴰ-append_one [] y x = (
    λ m. elim m [ head e ↦ inr e | tail k ↦ elim k [ ] ],
    λ c. elim c [ inl m ↦ elim m [ ] | inr e ↦ head e ],
  )
  Memᴰ-append_one (z ∷ xs) y x =
      let (f, g) = Memᴰ-append_one xs y x in
      (
        λ m. elim m [
          | head e ↦ inl (head e)
          | tail k ↦ elim (f k) [ inl i ↦ inl (tail i) | inr e ↦ inr e ]
        ],
        λ c. elim c [
          | inl (head e) ↦ head e
          | inl (tail i) ↦ tail (g (inl i))
          | inr e ↦ tail (g (inr e))
        ],
      )

  -- How many entries pass the test.
  abbrev pub count_if : (A → Bool) → List A → ℕ
  count_if f [] = 0
  count_if f (x ∷ xs) = elim (f x) [ true ↦ suc (count_if f xs) | false ↦ count_if f xs ]

  pub count_if-append :
      (f : A → Bool) (xs ys : List A) → count_if f (xs ++ ys) ≡ count_if f xs + count_if f ys
  count_if-append f [] ys = omega arith
  count_if-append f (x ∷ xs) ys = ground (arith, count_if-append f xs ys)

  -- With no entry that passes the test.
  pub All-unless {κ ν} :
      {P : A → Type κ} {Q : A → Type ν} (f : A → Bool) (xs : List A)
      → count_if f xs ≡ 0
      → ((x : A) → f x ≡ false → P x → Q x)
      → All P xs
      → All Q xs
  All-unless f [] e h all = tt
  All-unless f (x ∷ xs) e h all = (h x (ground arith) all.0, All-unless f xs (ground arith) h all.1)

  -- Some entry passes the test.
  abbrev pub any : (A → Bool) → List A → Bool
  any f [] = false
  any f (x ∷ xs) = f x || any f xs
