-- ===== src/Fieldops/Worklist/Laws.antt =====
-- Whom the worklist shows, and in what order.
use mathlib.Core.List.Perm
use mathlib.Core.List.{Perm}
use acrev360_backend.Base.{
  ℕ, ◌+◌, ◌≤◌, ◌≡◌, refl, ap, sym, subst, ◌∙◌, inl, inr, Bool, true, false, none, some, List, [],
  ◌∷◌, arith, Bool-cases, select, ◌==◌, All, All-map, ◌&&◌, if-both,
}
use acrev360_backend.Models.Accounts.{AccessLevel, AppUser, FieldAgent}
use acrev360_backend.Models.Registry.{Payer}
use acrev360_backend.Store.{Db}
use acrev360_backend.Common.Scoping.{is_own, is_visible, portfolio_filter}
use acrev360_backend.Fieldops.Worklist.{
  billed, paid, owes_more, comes_first, insert_sorted, sorted, is_listed, passes, get_worklist,
}

insert_sorted-perm :
    (before : Payer → Payer → Bool) (x : Payer) (ys : List Payer)
    → Perm (insert_sorted before x ys) (x ∷ ys)
unfolding insert_sorted
insert_sorted-perm before x [] = Perm.refl (x ∷ [])
insert_sorted-perm before x (y ∷ ys) = elim (Bool-cases (before x y)) [
  | inl first ↦ rw first (Perm.refl (x ∷ (y ∷ ys)))
  | inr later ↦
      rw later (Perm.trans (Perm.cons y (insert_sorted-perm before x ys)) (Perm.swap x y ys))
]

pub sorted-perm : (before : Payer → Payer → Bool) (xs : List Payer) → Perm (sorted before xs) xs
unfolding sorted
sorted-perm before [] = Perm.refl []
sorted-perm before (x ∷ xs) =
    Perm.trans (insert_sorted-perm before x (sorted before xs))
      (Perm.cons x (sorted-perm before xs))

-- Everyone behind a payer owes no more than that payer.
abbrev OwesNoMore : Db → Payer → Payer → Type 0
OwesNoMore db a b = billed db b.id + paid db a.id ≤ billed db a.id + paid db b.id

abbrev pub IsDescending : Db → List Payer → Type 0
IsDescending db [] = Unit
IsDescending db (x ∷ xs) = All (OwesNoMore db x) xs × IsDescending db xs

insert_sorted-All {κ} :
    (P : Payer → Type κ) (before : Payer → Payer → Bool) (x : Payer) (ys : List Payer)
    → P x
    → All P ys
    → All P (insert_sorted before x ys)
unfolding insert_sorted
insert_sorted-All P before x [] h a = (h, tt)
insert_sorted-All P before x (y ∷ ys) h a =
    if-both (All P) (before x y) (h, a) (a.0, insert_sorted-All P before x ys h a.1)

module _ (db : Db) (by_name : Payer → Payer → Bool) where
  comes_first-no_more : (x y : Payer) → comes_first db by_name x y ≡ true → OwesNoMore db x y
  unfolding comes_first owes_more
  comes_first-no_more x y h = ground arith

  comes_last-no_more : (x y : Payer) → comes_first db by_name x y ≡ false → OwesNoMore db y x
  unfolding comes_first owes_more
  comes_last-no_more x y h = ground arith

  insert_sorted-IsDescending :
      (x : Payer) (ys : List Payer)
      → IsDescending db ys
      → IsDescending db (insert_sorted (comes_first db by_name) x ys)
  unfolding insert_sorted
  insert_sorted-IsDescending x [] h = (tt, tt)
  insert_sorted-IsDescending x (y ∷ ys) h = elim (Bool-cases (comes_first db by_name x y)) [
    | inl first ↦
        let lead = comes_first-no_more x y first in
        rw first (
          (
            lead,
            All-map (OwesNoMore db y) (OwesNoMore db x) ys (λ z k. omega (arith, k, lead)) h.0,
          ),
          h,
        )
    | inr later ↦ rw later (
      insert_sorted-All (OwesNoMore db y) (comes_first db by_name) x ys
          (comes_last-no_more x y later) h.0,
      insert_sorted-IsDescending x ys h.1,
    )
  ]

  sorted-IsDescending : (xs : List Payer) → IsDescending db (sorted (comes_first db by_name) xs)
  unfolding sorted
  sorted-IsDescending [] = tt
  sorted-IsDescending (x ∷ xs) =
      insert_sorted-IsDescending x (sorted (comes_first db by_name) xs) (sorted-IsDescending xs)

select-and :
    (p q r : Payer → Bool) (xs : List Payer)
    → ((x : Payer) → r x ≡ (p x && q x))
    → select r xs ≡ select q (select p xs)
select-and p q r [] h = refl
select-and p q r (x ∷ xs) h = ground (arith, h x, select-and p q r xs h)

select-all : (p : Payer → Bool) (xs : List Payer) → ((x : Payer) → p x ≡ true) → select p xs ≡ xs
select-all p [] h = refl
select-all p (x ∷ xs) h = ground (arith, h x, select-all p xs h)

-- Without a search, the worklist of an agent with a ward is the portfolio that the agent sees of the
-- payers of that council and ward, each as often, ordered so that nobody owes more than one listed
-- before.
pub get_worklist-portfolio :
    (council ward : ℕ) (agent : FieldAgent) (user : AppUser) (by_name : Payer → Payer → Bool)
    (db : Db)
    → agent.assigned_ward ≡ some ward
    → user.id ≡ agent.user
    → user.access_level ≡ AccessLevel.agent
    → let listed = get_worklist council agent none by_name db in
      IsDescending db listed
      × Perm listed (
          portfolio_filter db user
            (select (λ p. p.council == council && p.ward == ward) db.payers.rows))
unfolding get_worklist portfolio_filter is_visible
get_worklist-portfolio council ward agent user by_name db placed own level =
    let mine = select (is_listed council ward agent.user) db.payers.rows in
    let listed = select (passes none) mine in
    let whole : listed ≡ mine = select-all (passes none) mine (λ p. refl) in
    let seen : (p : Payer) → is_visible db user p ≡ is_own agent.user p = λ p. ground arith in
    let same : mine
        ≡ select (is_visible db user)
            (select (λ p. p.council == council && p.ward == ward) db.payers.rows) =
      select-and (λ p. p.council == council && p.ward == ward) (is_visible db user)
        (is_listed council ward agent.user) db.payers.rows
        (λ p. ap (λ (b : Bool). (p.council == council && p.ward == ward) && b) (sym (seen p))) in
    rw placed (
      sorted-IsDescending db by_name listed,
      Perm.trans (sorted-perm (comes_first db by_name) listed)
          (subst (Perm listed) (whole ∙ same) (Perm.refl listed)),
    )
