-- ===== src/Revenue/Rates/Laws.antt =====
-- What retiring an item and changing its rate guarantee.
use acrev360_backend.Base.{
  exists-none, ℕ, ◌≡◌, refl, ap, ◌⊎◌, Bool, true, false, Option, some, List, [], ◌∷◌, ◌++◌, inl,
  inr, arith, ◌==◌, ◌&&◌, ==_refl, is_none, Bool-cases, exists, select, select-nil, value_or, All,
  All-map,
}
use mathlib.Core.List.{head-eq_of_cons-eq, tail-eq_of_cons-eq, cons≢nil}
use acrev360_backend.Base.Table.{modify_rows}
use acrev360_backend.Base.Table.Laws.{modify_rows-All_self}
use acrev360_backend.Models.Revenue.{RevenueItem, RateSchedule, rate_keyed}
use acrev360_backend.Store.{Db, Env, ok, audit}
use acrev360_backend.Billing.Pricing.{current_rate, latest}
use acrev360_backend.Revenue.Rates.{
  is_draft_of, is_outstanding_of, retire_revenue_item, close_rate, close_current, new_rate,
  change_rate,
}

-- The open rates of an item.
abbrev pub is_open_rate : ℕ → RateSchedule → Bool
is_open_rate item r = r.item == item && is_none r.effective_to

abbrev pub open_rates : ℕ → Db → List RateSchedule
open_rates item db = select (is_open_rate item) db.rates.rows

module _ (p : RateSchedule → Bool) where
  select-nil_inv : (xs : List RateSchedule) → select p xs ≡ [] → All (λ x. p x ≡ false) xs
  select-nil_inv [] e = tt
  select-nil_inv (x ∷ xs) e = elim (Bool-cases (p x)) [
    | inl take ↦ absurd (cons≢nil (rw take at e))
    | inr skip ↦ (skip, select-nil_inv xs (rw skip at e))
  ]

  -- A selection of one row has nothing but that row.
  select-single :
      (xs : List RateSchedule) (r : RateSchedule)
      → select p xs ≡ r ∷ []
      → All (λ x. (p x ≡ false) ⊎ (x ≡ r)) xs
  select-single [] r e = tt
  select-single (x ∷ xs) r e = elim (Bool-cases (p x)) [
    | inl take ↦
        let e' = rw take at e in
        (
          inr (head-eq_of_cons-eq e'),
          All-map _ _ xs (λ y off. inl off) (select-nil_inv xs (tail-eq_of_cons-eq e')),
        )
    | inr skip ↦ (inl skip, select-single xs r (rw skip at e))
  ]

-- Closing the one open rate of an item leaves none.
close_current-open :
    (item day : ℕ) (db : Db)
    → (open_rates item db ≡ []) ⊎ ((r : RateSchedule) × (open_rates item db ≡ r ∷ []))
    → open_rates item (close_current (current_rate item db) day db) ≡ []
unfolding current_rate latest close_current
close_current-open item day db (inl nothing) = rw (nothing, latest) nothing
close_current-open item day db (inr (r, one)) =
    rw (one, latest)
      (select-nil (is_open_rate item) (modify_rows r.id (close_rate day) db.rates.rows) (
        modify_rows-All_self _ _ r.id (close_rate day) db.rates.rows (λ x same h. ground arith)
          (λ x other h. elim h [ inl off ↦ off | inr it ↦ absurd (other (ap (λ y. y.id) it)) ])
          (select-single (is_open_rate item) db.rates.rows r one)))

select-snoc_nil :
    (p : RateSchedule → Bool) (xs : List RateSchedule) (x : RateSchedule)
    → select p xs ≡ []
    → p x ≡ true
    → select p (xs ++ (x ∷ [])) ≡ x ∷ []
select-snoc_nil p [] x e take = rw take refl
select-snoc_nil p (y ∷ xs) x e take = elim (Bool-cases (p y)) [
  | inl yes_y ↦ absurd (cons≢nil (rw yes_y at e))
  | inr skip ↦ rw skip (select-snoc_nil p xs x (rw skip at e) take)
]

-- Where an item has at most one open rate, a change of its rate leaves just the new one open, with
-- the amount asked for, and that is the rate which an assessment is priced by from then on.
pub change_rate-current :
    (env : Env) (item : RevenueItem) (new_amount actor : ℕ) (effective_from : Option ℕ) (db : Db)
    → (open_rates item.id db ≡ []) ⊎ ((r : RateSchedule) × (open_rates item.id db ≡ r ∷ []))
    → let out = change_rate env item new_amount actor effective_from db in
      (open_rates item.id out.1 ≡ out.0 ∷ [])
      × (current_rate item.id out.1 ≡ some out.0)
      × (out.0.rate_amount ≡ new_amount)
unfolding change_rate audit current_rate latest
change_rate-current env item new_amount actor effective_from db h =
    let day = value_or env.today effective_from in
    let closed = close_current (current_rate item.id db) day db in
    let only =
      select-snoc_nil (is_open_rate item.id) closed.rates.rows
        (new_rate item.id new_amount day closed.rates.next) (close_current-open item.id day db h)
        (rw (==_refl item.id) refl) in
    (only, ap latest only, refl)

-- An active item is retired only when no draft assessment of it waits to be billed and no line of
-- it stands on an open bill; the assessments and the bills stay as they are.
pub retire_revenue_item-IsSettled :
    (item item' : RevenueItem) (actor : ℕ) (db db' : Db)
    → item.is_active ≡ true
    → retire_revenue_item item actor db ≡ ok (item', db')
    → (item'.is_active ≡ false)
      × All (λ a. is_draft_of item.id a ≡ false) db.assessments.rows
      × All (λ a. is_outstanding_of item.id db a ≡ false) db.assessments.rows
      × (db'.assessments ≡ db.assessments)
      × (db'.bills ≡ db.bills)
      × (db'.lines ≡ db.lines)
unfolding retire_revenue_item audit
retire_revenue_item-IsSettled item item' actor db db' active e =
    elim (Bool-cases (exists (is_draft_of item.id) db.assessments.rows)) [
      | inl drafts ↦ ground arith
      | inr none_draft ↦
          elim (Bool-cases (exists (is_outstanding_of item.id db) db.assessments.rows)) [
            | inl owed ↦ ground arith
            | inr none_owed ↦ (
              ground arith,
              exists-none _ _ none_draft,
              exists-none _ _ none_owed,
              ground arith,
              ground arith,
              ground arith,
            )
          ]
    ]
