-- ===== src/Base/Lists.antt =====
-- Sums, predicates and filters over lists, by native numbers.
use Prim.Native.Nat.{ℕ, suc, ◌+◌}
use mathlib.Core.Path.{◌≡◌, refl, subst}
use mathlib.Core.Logic.{inl, inr}
use mathlib.Core.Bool.{Bool, true, false, ◌||◌}
use mathlib.Core.Option.{Option, none, some, some-injective}
use mathlib.Core.List.{List, [], ◌∷◌, ◌++◌}
use native.Mathlib.Omega.{arith}
use acrev360_backend.Base.Tests.{if◌then◌else◌, Bool-cases}

module _ {ℓ} {A : Type ℓ} where
  abbrev pub length : List A → ℕ
  length [] = 0
  length (x ∷ xs) = suc (length xs)

  -- The sum of a column.
  abbrev pub sum_of : (A → ℕ) → List A → ℕ
  sum_of f [] = 0
  sum_of f (x ∷ xs) = f x + sum_of f xs

  -- The rows that pass a test, in order.
  abbrev pub select : (A → Bool) → List A → List A
  select p [] = []
  select p (x ∷ xs) = if p x then x ∷ select p xs else select p xs

  -- The first row that passes a test (`.filter(...).first()`).
  abbrev pub first : (A → Bool) → List A → Option A
  first p [] = none
  first p (x ∷ xs) = if p x then some x else first p xs

  -- `.exists()`
  abbrev pub exists : (A → Bool) → List A → Bool
  exists p [] = false
  exists p (x ∷ xs) = p x || exists p xs

  abbrev pub All {κ} : (A → Type κ) → List A → Type κ
  All P [] = Unit
  All P (x ∷ xs) = P x × All P xs

  pub sum_of-append : (f : A → ℕ) (xs ys : List A) → sum_of f (xs ++ ys) ≡ sum_of f xs + sum_of f ys
  sum_of-append f [] ys = omega arith
  sum_of-append f (x ∷ xs) ys = omega (arith, sum_of-append f xs ys)

  -- The sum of a column that is, at every row, the sum of two.
  pub sum_of-add :
      (f g h : A → ℕ) (xs : List A)
      → All (λ x. f x ≡ g x + h x) xs
      → sum_of f xs ≡ sum_of g xs + sum_of h xs
  sum_of-add f g h [] e = omega arith
  sum_of-add f g h (x ∷ xs) e = omega (arith, sum_of-add f g h xs e.1)

  pub sum_of-congr :
      (f g : A → ℕ) (xs : List A) → All (λ x. f x ≡ g x) xs → sum_of f xs ≡ sum_of g xs
  sum_of-congr f g [] e = refl
  sum_of-congr f g (x ∷ xs) e = omega (arith, sum_of-congr f g xs e.1)

  pub All-append {κ} : (P : A → Type κ) (xs ys : List A) → All P xs → All P ys → All P (xs ++ ys)
  All-append P [] ys h k = k
  All-append P (x ∷ xs) ys h k = (h.0, All-append P xs ys h.1 k)

  pub All-map {κ μ} :
      (P : A → Type κ) (Q : A → Type μ) (xs : List A) → ((x : A) → P x → Q x) → All P xs → All Q xs
  All-map P Q [] f h = tt
  All-map P Q (x ∷ xs) f h = (f x h.0, All-map P Q xs f h.1)

  pub All-map₂ {κ μ ν} :
      (P : A → Type κ) (Q : A → Type μ) (R : A → Type ν) (xs : List A)
      → ((x : A) → P x → Q x → R x)
      → All P xs
      → All Q xs
      → All R xs
  All-map₂ P Q R [] f h k = tt
  All-map₂ P Q R (x ∷ xs) f h k = (f x h.0 k.0, All-map₂ P Q R xs f h.1 k.1)

  pub All-of {κ} : (P : A → Type κ) (xs : List A) → ((x : A) → P x) → All P xs
  All-of P [] f = tt
  All-of P (x ∷ xs) f = (f x, All-of P xs f)

  pub All-select {κ} :
      (P : A → Type κ) (p : A → Bool) (xs : List A) → All P xs → All P (select p xs)
  All-select P p [] h = tt
  All-select P p (x ∷ xs) h = elim (Bool-cases (p x)) [
    | inl take ↦ rw take (h.0, All-select P p xs h.1)
    | inr skip ↦ rw skip (All-select P p xs h.1)
  ]

  -- What is found by a test has what every row has, and passes the test.
  pub All-first {κ} :
      (P : A → Type κ) (p : A → Bool) (xs : List A) (x : A)
      → All P xs
      → first p xs ≡ some x
      → P x × (p x ≡ true)
  All-first P p [] x h e = cc
  All-first P p (y ∷ xs) x h e = elim (Bool-cases (p y)) [
    | inl take ↦
        let same : y ≡ x = some-injective _ _ (rw take at e) in
        (subst P same h.0, subst (λ z. p z ≡ true) same take)
    | inr skip ↦ All-first P p xs x h.1 (rw skip at e)
  ]

  pub select-nil : (p : A → Bool) (xs : List A) → All (λ x. p x ≡ false) xs → select p xs ≡ []
  select-nil p [] h = refl
  select-nil p (x ∷ xs) h = rw h.0 (select-nil p xs h.1)

  pub exists-cons :
      (p : A → Bool) (x : A) (xs : List A) → exists p xs ≡ true → exists p (x ∷ xs) ≡ true
  exists-cons p x xs h = ground arith

  pub exists-none : (p : A → Bool) (xs : List A) → exists p xs ≡ false → All (λ x. p x ≡ false) xs
  exists-none p [] e = tt
  exists-none p (x ∷ xs) e = (ground arith, exists-none p xs (ground arith))

  pub first-none : (p : A → Bool) (xs : List A) → first p xs ≡ none → All (λ x. p x ≡ false) xs
  first-none p [] e = tt
  first-none p (x ∷ xs) e = (ground arith, first-none p xs (ground arith))
