-- ===== src/Base/Table/Laws.antt =====
-- What a lookup finds after an insertion or an update.
use Prim.Native.Nat.{ℕ, ◌<◌}
use mathlib.Core.Path.{◌≡◌, ◌∙◌, ap, refl, sym, subst}
use mathlib.Core.Bool.{Bool, true, false}
use mathlib.Core.Logic.{◌≢◌, inl, inr}
use mathlib.Core.Option.{none, some, some-injective}
use mathlib.Core.List.{List, [], ◌∷◌, ◌++◌}
use native.Mathlib.Omega.{arith}
use acrev360_backend.Base.Tests.{◌==◌, if◌then◌else◌, ==_iff, ne_of_test, Bool-cases}
use acrev360_backend.Base.Lists.{sum_of, select, All, All-map, All-map₂, All-append, All-select}
use acrev360_backend.Base.Table.{
  Keyed, Table, find_row, modify_rows, modify, insert, IsBelow, IsUnique, IsKeyed,
}

module _ {ℓ} {A : Type ℓ} ⦃k : Keyed A⦄ where
  open k use {key}

  -- A row is found under its own id only.
  pub key-find_row : (n : ℕ) (xs : List A) (x : A) → find_row n xs ≡ some x → key x ≡ n
  key-find_row n [] x e = cc
  key-find_row n (y ∷ xs) x e = ground (arith, key-find_row n xs x)

  pub find_row-new :
      (n : ℕ) (x : A) (xs : List A)
      → IsBelow n xs
      → key x ≡ n
      → find_row n (xs ++ (x ∷ [])) ≡ some x
  find_row-new n x [] h e = ground arith
  find_row-new n x (y ∷ xs) h e = ground (arith, find_row-new n x xs h.1 e)

  pub find_row-append_ne :
      (n : ℕ) (x : A) (xs : List A) → key x ≢ n → find_row n (xs ++ (x ∷ [])) ≡ find_row n xs
  find_row-append_ne n x [] e = ground arith
  find_row-append_ne n x (y ∷ xs) e = ground (arith, find_row-append_ne n x xs e)

  pub find_row-modify_self :
      (n : ℕ) (f : A → A) (xs : List A) {x : A}
      → key (f x) ≡ n
      → find_row n xs ≡ some x
      → find_row n (modify_rows n f xs) ≡ some (f x)
  find_row-modify_self n f [] h e = cc
  find_row-modify_self n f (y ∷ xs) h e = ground (arith, find_row-modify_self n f xs h)

  pub find_row-modify_ne :
      (m n : ℕ) (f : A → A) (xs : List A)
      → ((x : A) → key (f x) ≡ key x)
      → n ≢ m
      → find_row m (modify_rows n f xs) ≡ find_row m xs
  find_row-modify_ne m n f [] h e = refl
  find_row-modify_ne m n f (y ∷ xs) h e = ground (arith, h y, find_row-modify_ne m n f xs h e)

  -- A sum over a column that the update leaves alone.
  pub sum_of-modify :
      (g : A → ℕ) (n : ℕ) (f : A → A) (xs : List A)
      → ((x : A) → g (f x) ≡ g x)
      → sum_of g (modify_rows n f xs) ≡ sum_of g xs
  sum_of-modify g n f [] h = refl
  sum_of-modify g n f (y ∷ xs) h = ground (arith, h y, sum_of-modify g n f xs h)

  pub modify_rows-All {κ} :
      (P : A → Type κ) (n : ℕ) (f : A → A) (xs : List A)
      → ((x : A) → P x → P (f x))
      → All P xs
      → All P (modify_rows n f xs)
  modify_rows-All P n f [] h a = tt
  modify_rows-All P n f (y ∷ xs) h a =
      elim (key y == n) as (λ b. All P ((if b then f y else y) ∷ modify_rows n f xs)) [
        | true ↦ (h y a.0, modify_rows-All P n f xs h a.1)
        | false ↦ (a.0, modify_rows-All P n f xs h a.1)
      ]

  pub find_row-All {κ} :
      (P : A → Type κ) (n : ℕ) (xs : List A) (x : A) → find_row n xs ≡ some x → All P xs → P x
  find_row-All P n [] x e a = cc
  find_row-All P n (y ∷ xs) x e a = elim (Bool-cases (key y == n)) [
    | inl same ↦ subst P (some-injective _ _ (rw same at e)) a.0
    | inr other ↦ find_row-All P n xs x (rw other at e) a.1
  ]

  -- An update of the row with one id, where that row and the others have reasons of their own.
  pub modify_rows-All_self {κ μ} :
      (P : A → Type κ) (Q : A → Type μ) (n : ℕ) (f : A → A) (xs : List A)
      → ((x : A) → key x ≡ n → P x → Q (f x))
      → ((x : A) → key x ≢ n → P x → Q x)
      → All P xs
      → All Q (modify_rows n f xs)
  modify_rows-All_self P Q n f [] h k a = tt
  modify_rows-All_self P Q n f (y ∷ xs) h k a =
      let rest = modify_rows-All_self P Q n f xs h k a.1 in
      elim (Bool-cases (key y == n)) [
        | inl same ↦ rw same (h y ((==_iff _ _).0 same) a.0, rest)
        | inr other ↦ rw other (k y (λ e. ne_of_test _ _ other e) a.0, rest)
      ]

  -- Rows of one id are one row.
  pub IsUnique-same :
      (xs : List A) → IsUnique xs → All (λ x. All (λ y. key y ≡ key x → y ≡ x) xs) xs
  IsUnique-same [] u = tt
  IsUnique-same (x ∷ xs) u = (
    (λ e. refl, All-map _ _ xs (λ y ne e. absurd (ne e)) u.0),
    All-map₂ _ _ _ xs (λ z ne same. (λ e. absurd (ne (sym e)), same)) u.0 (IsUnique-same xs u.1),
  )

  pub IsUnique-append :
      (xs : List A) (x : A) → IsUnique xs → All (λ y. key x ≢ key y) xs → IsUnique (xs ++ (x ∷ []))
  IsUnique-append [] x u h = (tt, tt)
  IsUnique-append (y ∷ xs) x u h =
      (All-append _ xs (x ∷ []) u.0 (h.0, tt), IsUnique-append xs x u.1 h.1)

  pub insert-IsKeyed :
      (make : ℕ → A) (t : Table A)
      → key (make t.next) ≡ t.next
      → IsKeyed t
      → IsKeyed (insert make t)
  insert-IsKeyed make t own h = (
    All-append _ t.rows (make t.next ∷ []) (All-map _ _ t.rows (λ x b. omega (arith, b)) h.0)
        (omega (arith, own), tt),
    IsUnique-append t.rows (make t.next) h.1
        (All-map _ _ t.rows (λ x b e. omega (arith, b, e, own)) h.0),
  )

  pub modify-IsKeyed :
      (n : ℕ) (f : A → A) (t : Table A)
      → ((x : A) → key (f x) ≡ key x)
      → IsKeyed t
      → IsKeyed (modify n f t)
  modify-IsKeyed n f t same h = (
    modify_rows-All _ n f t.rows (λ x b. subst (λ k. k < t.next) (sym (same x)) b) h.0,
    unique t.rows h.1,
  )
    where
      fst_key :
          (x : A) (xs : List A)
          → All (λ y. key y ≢ key x) xs
          → All (λ y. key y ≢ key (if key x == n then f x else x)) xs
      fst_key x xs a =
          elim (key x == n) as (λ b. All (λ y. key y ≢ key (if b then f x else x)) xs) [
            | true ↦ All-map _ _ xs (λ y ne e. absurd (ne (subst (λ k. key y ≡ k) (same x) e))) a
            | false ↦ a
          ]

      unique : (xs : List A) → IsUnique xs → IsUnique (modify_rows n f xs)
      unique [] u = tt
      unique (x ∷ xs) u = (
        modify_rows-All _ n f xs (λ y ne e. ne (sym (same y) ∙ e)) (fst_key x xs u.0),
        unique xs u.1,
      )

  -- A selection that leaves out the updated row before and after the update.
  pub select-modify :
      (p : A → Bool) (n : ℕ) (f : A → A) (xs : List A)
      → All (λ x. key x ≡ n → (p x ≡ false) × (p (f x) ≡ false)) xs
      → select p (modify_rows n f xs) ≡ select p xs
  select-modify p n f [] h = refl
  select-modify p n f (x ∷ xs) h =
      let rest = select-modify p n f xs h.1 in
      elim (Bool-cases (key x == n)) [
        | inl same ↦ let off = h.0 ((==_iff _ _).0 same) in rw (same, off.0, off.1) rest
        | inr other ↦ rw (other, rest) refl
      ]

  pub select-append_off :
      (p : A → Bool) (xs : List A) (x : A) → p x ≡ false → select p (xs ++ (x ∷ [])) ≡ select p xs
  select-append_off p [] x off = rw off refl
  select-append_off p (y ∷ xs) x off = rw (select-append_off p xs x off) refl

  -- What a selection keeps is found in it as it was.
  pub find_row-select :
      (p : A → Bool) (n : ℕ) (xs : List A) (x : A)
      → find_row n xs ≡ some x
      → p x ≡ true
      → find_row n (select p xs) ≡ some x
  find_row-select p n [] x e keep = cc
  find_row-select p n (y ∷ xs) x e keep = elim (Bool-cases (key y == n)) [
    | inl same ↦
        let it : y ≡ x = some-injective _ _ (rw same at e) in
        rw (subst (λ z. p z ≡ true) (sym it) keep, same) (ap some it)
    | inr other ↦
        let rest = find_row-select p n xs x (rw other at e) keep in
        elim (Bool-cases (p y)) [ inl take ↦ rw (take, other) rest | inr skip ↦ rw skip rest ]
  ]

  pub IsUnique-select : (p : A → Bool) (xs : List A) → IsUnique xs → IsUnique (select p xs)
  IsUnique-select p [] u = tt
  IsUnique-select p (x ∷ xs) u = elim (Bool-cases (p x)) [
    | inl take ↦ rw take (All-select _ p xs u.0, IsUnique-select p xs u.1)
    | inr skip ↦ rw skip (IsUnique-select p xs u.1)
  ]

  -- Rows of other ids keep what they are through an update.
  pub find_row-none : (n : ℕ) (xs : List A) → All (λ y. key y ≢ n) xs → find_row n xs ≡ none
  find_row-none n [] h = refl
  find_row-none n (x ∷ xs) h = ground (arith, h.0, find_row-none n xs h.1)
