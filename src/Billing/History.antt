-- ===== src/Billing/History.antt =====
-- `Bill.all_arrears_lines` of apps/billing/models.py. The recursion takes fuel; `superseded_by` leads
-- to a bill that was created later, so that a bill's id is fuel enough.
use acrev360_backend.Base.{
  ℕ, zero, suc, ◌<◌, ◌≡◌, refl, inl, inr, true, Option, none, some, List, [], ◌∷◌, ◌++◌, arith,
  ==_iff, same_ref, select, All, All-map, Bool-cases,
}
use acrev360_backend.Models.Billing.{Bill, BillLine}
use acrev360_backend.Store.{Db}
use acrev360_backend.Billing.Recompute.{lines_of}
use acrev360_backend.Payments.Fifo.{by_position}

-- `self.supersedes.all()`
abbrev pub superseded_bills : ℕ → Db → List Bill
superseded_bills bill db = select (λ b. same_ref b.superseded_by (some bill)) db.bills.rows

-- `lines.extend(...)` for each of them.
unfoldable pub extend_all : (Bill → Option (List BillLine)) → List Bill → Option (List BillLine)
extend_all f [] = some []
extend_all f (b ∷ bs) = elim (f b) [
  | none ↦ none
  | some ls ↦ elim (extend_all f bs) [ none ↦ none | some rest ↦ some (ls ++ rest) ]
]

unfoldable pub all_arrears_lines : ℕ → Bill → Db → Option (List BillLine)
unfolding extend_all
all_arrears_lines zero bill db = none
all_arrears_lines (suc fuel) bill db =
    let deeper = extend_all (λ b. all_arrears_lines fuel b db) (superseded_bills bill.id db) in
    elim deeper [ none ↦ none | some rest ↦ some (by_position (lines_of bill.id db) ++ rest) ]

abbrev pub LeadsOn : Option ℕ → ℕ → Type 0
LeadsOn none id = Unit
LeadsOn (some by) id = id < by

-- A bill is superseded by one that was created later.
abbrev pub IsForward : Db → Type 0
IsForward db = All (λ b. LeadsOn b.superseded_by b.id) db.bills.rows

superseded-below :
    (bill : ℕ) (xs : List Bill)
    → All (λ b. LeadsOn b.superseded_by b.id) xs
    → All (λ b. b.id < bill) (select (λ b. same_ref b.superseded_by (some bill)) xs)
superseded-below bill [] h = tt
superseded-below bill (b ∷ xs) h = elim (Bool-cases (same_ref b.superseded_by (some bill))) [
  | inr other ↦ rw other (superseded-below bill xs h.1)
  | inl same ↦ rw same (under b.superseded_by b.id same h.0, superseded-below bill xs h.1)
]
  where
    under : (by : Option ℕ) (id : ℕ) → same_ref by (some bill) ≡ true → LeadsOn by id → id < bill
    under none id e lt = cc
    under (some n) id e lt = omega (arith, lt, (==_iff n bill).0 e)

-- Two runs that agree on all of the bills make the same list.
extend_all-agree :
    (f g : Bill → Option (List BillLine)) (bs : List Bill)
    → All (λ b. (ls : List BillLine) × (f b ≡ some ls) × (g b ≡ some ls)) bs
    → (ls : List BillLine) × (extend_all f bs ≡ some ls) × (extend_all g bs ≡ some ls)
unfolding extend_all
extend_all-agree f g [] h = ([], refl, refl)
extend_all-agree f g (b ∷ bs) h =
    let (ls, ef, eg) = h.0 in
    let (rest, rf, rg) = extend_all-agree f g bs h.1 in
    (ls ++ rest, rw (extend_all, ef, rf) refl, rw (extend_all, eg, rg) refl)

-- The collection of a bill's arrears history ends: where every bill is superseded by one created
-- later, any fuel above the bill's id gives a list, and the same list as any other such fuel.
pub all_arrears_lines-ends :
    (fuel fuel' : ℕ) (bill : Bill) (db : Db)
    → IsForward db
    → bill.id < fuel
    → bill.id < fuel'
    → (ls : List BillLine) × (all_arrears_lines fuel bill db ≡ some ls)
      × (all_arrears_lines fuel' bill db ≡ some ls)
unfolding all_arrears_lines
all_arrears_lines-ends zero fuel' bill db h lt lt' = absurd (omega (arith, lt))
all_arrears_lines-ends (suc fuel) zero bill db h lt lt' = absurd (omega (arith, lt'))
all_arrears_lines-ends (suc fuel) (suc fuel') bill db h lt lt' =
    let own = by_position (lines_of bill.id db) in
    let (rest, deep, deep') =
      extend_all-agree (λ b. all_arrears_lines fuel b db) (λ b. all_arrears_lines fuel' b db)
        (superseded_bills bill.id db)
        (All-map _ _ (superseded_bills bill.id db)
          (λ b below.
            all_arrears_lines-ends fuel fuel' b db h (omega (arith, below, lt))
              (omega (arith, below, lt')))
          (superseded-below bill.id db.bills.rows h)) in
    (own ++ rest, rw (all_arrears_lines, deep) refl, rw (all_arrears_lines, deep') refl)
