-- ===== src/Api/Bills/Laws.antt =====
-- What the deletion of a bill takes with it, and what it leaves behind.
use mathlib.Core.Option
use acrev360_backend.Base.{
  ℕ, ◌≡◌, ◌≢◌, refl, ap, subst, ◌∙◌, inl, inr, false, not, none, some, List, [], ◌∷◌, arith,
  Bool-cases, Option-cases, ◌==◌, ◌&&◌, ==_refl, select, first, exists, exists-none, map, All,
  All-of, All-first,
}
use acrev360_backend.Base.Table.{Table, find, find_row}
use acrev360_backend.Models.Accounts.{AppUser}
use acrev360_backend.Models.Audit.{bill_deleted}
use acrev360_backend.Models.Billing.{Bill, BillLine, bill_keyed}
use acrev360_backend.Models.Enforcement.{DebtCase}
use acrev360_backend.Store.{Db, Result-cases, ok, audit}
use acrev360_backend.Api.Answers.{is_visible_bill, visible_bill}
use acrev360_backend.Billing.Recompute.{lines_of}
use acrev360_backend.Enforcement.Close.{case_of}
use acrev360_backend.Payments.Ledger.{IsBalanced, bill_paid}
use acrev360_backend.Api.Bills.{
  forget_bill, delete_bill, delete_assessments, remove_bill, deleted, destroy_view,
}

-- The bills once one of them is gone.
abbrev without : ℕ → List Bill → List Bill
without id xs = map (forget_bill id) (select (λ b. not (b.id == id)) xs)

find-without :
    (n id : ℕ) (xs : List Bill)
    → n ≢ id
    → find_row n (without id xs) ≡ Option.map (forget_bill id) (find_row n xs)
find-without n id [] ne = refl
find-without n id (b ∷ xs) ne = ground (arith, find-without n id xs ne)

find-without_self : (id : ℕ) (xs : List Bill) → find_row id (without id xs) ≡ none
find-without_self id [] = refl
find-without_self id (b ∷ xs) = ground (arith, find-without_self id xs)

without-All {κ} :
    (P : Bill → Type κ) (id : ℕ) (xs : List Bill)
    → ((b : Bill) → P b → P (forget_bill id b))
    → All P xs
    → All P (without id xs)
without-All P id [] keep h = tt
without-All P id (b ∷ xs) keep h = elim (Bool-cases (b.id == id)) [
  | inl gone ↦ rw gone (without-All P id xs keep h.1)
  | inr stays ↦ rw stays (keep b h.0, without-All P id xs keep h.1)
]

-- The rows of a deletion that went through.
record Removed (id : ℕ) (db db' : Db) : Type 0 where
  pub payments_same : db'.payments ≡ db.payments
  pub allocations_same : db'.allocations ≡ db.allocations
  pub bills_left : db'.bills.rows ≡ without id db.bills.rows
  pub lines_left : db'.lines.rows ≡ select (λ l. not (l.bill == id)) db.lines.rows
  pub cases_left : db'.cases.rows ≡ select (λ c. not (c.bill == id)) db.cases.rows
  pub uncited :
      exists
        (λ l. exists (λ n. n == l.assessment) (map (λ l. l.assessment) (lines_of id db)))
        db'.lines.rows
      ≡ false

-- What the deletion of the bill itself leaves.
record Gone (id : ℕ) (db gone : Db) : Type 0 where
  pub payments_same : gone.payments ≡ db.payments
  pub allocations_same : gone.allocations ≡ db.allocations
  pub bills_left : gone.bills.rows ≡ without id db.bills.rows
  pub lines_left : gone.lines.rows ≡ select (λ l. not (l.bill == id)) db.lines.rows
  pub cases_left : gone.cases.rows ≡ select (λ c. not (c.bill == id)) db.cases.rows

delete_bill-Gone : (id : ℕ) (db gone : Db) → delete_bill id db ≡ ok gone → Gone id db gone
unfolding delete_bill
delete_bill-Gone id db gone e = elim (Bool-cases (exists (λ p. p.bill == id) db.payments.rows)) [
  | inl paid ↦ absurd (ground arith)
  | inr unpaid ↦
      elim (Bool-cases
        (exists (λ a. exists (λ l. l.id == a.bill_line) (lines_of id db)) db.allocations.rows)) [
          | inl allocated ↦ absurd (ground arith)
          | inr free ↦ record {
            payments_same = ground arith;
            allocations_same = ground arith;
            bills_left = ground arith;
            lines_left = ground arith;
            cases_left = ground arith;
          }
        ]
]

delete_assessments-uncited :
    (ids : List ℕ) (db db' : Db)
    → delete_assessments ids db ≡ ok db'
    → (exists (λ l. exists (λ n. n == l.assessment) ids) db.lines.rows ≡ false)
      × (db'.payments ≡ db.payments)
      × (db'.allocations ≡ db.allocations)
      × (db'.bills ≡ db.bills)
      × (db'.lines ≡ db.lines)
      × (db'.cases ≡ db.cases)
unfolding delete_assessments
delete_assessments-uncited ids db db' e =
    elim (Bool-cases (exists (λ l. exists (λ n. n == l.assessment) ids) db.lines.rows)) [
      | inl cited ↦ absurd (ground arith)
      | inr free ↦ (free, ground arith, ground arith, ground arith, ground arith, ground arith)
    ]

remove_bill-Removed :
    (user : AppUser) (bill : Bill) (db db' : Db)
    → remove_bill user bill db ≡ ok db'
    → Removed bill.id db db'
unfolding remove_bill audit
remove_bill-Removed user bill db db' e =
    let noted = audit bill.council (some user.id) (bill_deleted bill.total_amount) bill.id db in
    elim (Result-cases (delete_bill bill.id noted)) [
      | inl (x, bad) ↦ absurd (ground arith)
      | inr (gone, good) ↦
          let g = delete_bill-Gone bill.id noted gone good in
          let ids = map (λ l. l.assessment) (lines_of bill.id db) in
          let last : delete_assessments ids gone ≡ ok db' = ground arith in
          let d = delete_assessments-uncited ids gone db' last in
          record {
            payments_same = d.1 ∙ g.payments_same;
            allocations_same = d.2 ∙ g.allocations_same;
            bills_left = ap (λ (t : Table Bill). t.rows) d.3 ∙ g.bills_left;
            lines_left = ap (λ (t : Table BillLine). t.rows) d.4 ∙ g.lines_left;
            cases_left = ap (λ (t : Table DebtCase). t.rows) d.5 ∙ g.cases_left;
            uncited = rw d.4 d.0;
          }
    ]

first-none_of :
    (id : ℕ) (xs : List DebtCase)
    → first (λ c. c.bill == id) (select (λ c. not (c.bill == id)) xs) ≡ none
first-none_of id [] = refl
first-none_of id (c ∷ xs) = ground (arith, first-none_of id xs)

no_lines_of :
    (id : ℕ) (xs : List BillLine)
    → select (λ l. l.bill == id) (select (λ l. not (l.bill == id)) xs) ≡ []
no_lines_of id [] = refl
no_lines_of id (l ∷ xs) = ground (arith, no_lines_of id xs)

destroy_view-removes :
    (user : AppUser) (id : ℕ) (db db' : Db)
    → destroy_view user id db ≡ ok (deleted, db')
    → (bill : Bill) × (visible_bill db user id ≡ some bill)
      × (exists (λ p. p.bill == id) db.payments.rows ≡ false)
      × Removed id db db'
unfolding destroy_view
destroy_view-removes user id db db' e = elim (Option-cases (visible_bill db user id)) [
  | inl hidden ↦ absurd (ground arith)
  | inr (bill, seen) ↦ elim (Bool-cases (exists (λ p. p.bill == bill.id) db.payments.rows)) [
    | inl paid ↦ absurd (ground arith)
    | inr unpaid ↦ elim (Result-cases (remove_bill user bill db)) [
      | inl (x, bad) ↦ absurd (ground arith)
      | inr (gone, good) ↦
          let same : gone ≡ db' = ground arith in
          let tested =
            All-first (λ b. Unit {0}) (λ b. b.id == id && is_visible_bill db user b) db.bills.rows
              bill (All-of (λ b. Unit {0}) db.bills.rows (λ b. tt)) seen in
          let own : bill.id ≡ id = ground (arith, tested.1) in
          (
            bill,
            seen,
            subst (λ k. exists (λ p. p.bill == k) db.payments.rows ≡ false) own unpaid,
            subst (λ k. Removed k db db') own
                (remove_bill-Removed user bill db db'
                  (subst (λ x. remove_bill user bill db ≡ ok x) same good)),
          )
    ]
  ]
]

-- A bill that is deleted was in the caller's portfolio and had no payment. Its row, its lines and its
-- debt case are gone, and no line that is left cites an assessment of it.
pub destroy_view-deletes :
    (user : AppUser) (id : ℕ) (db db' : Db)
    → destroy_view user id db ≡ ok (deleted, db')
    → (bill : Bill) × (visible_bill db user id ≡ some bill)
      × All (λ p. (p.bill == id) ≡ false) db.payments.rows
      × (find id db'.bills ≡ none)
      × (lines_of id db' ≡ [])
      × (case_of id db' ≡ none)
      × All
          (λ l. exists (λ n. n == l.assessment) (map (λ l. l.assessment) (lines_of id db)) ≡ false)
          db'.lines.rows
destroy_view-deletes user id db db' e =
    let (bill, seen, unpaid, r) = destroy_view-removes user id db db' e in
    (
      bill,
      seen,
      exists-none _ db.payments.rows unpaid,
      ap (find_row id) r.bills_left ∙ find-without_self id db.bills.rows,
      ap (select (λ l. l.bill == id)) r.lines_left ∙ no_lines_of id db.lines.rows,
      ap (first (λ c. c.bill == id)) r.cases_left ∙ first-none_of id db.cases.rows,
      exists-none _ db'.lines.rows r.uncited,
    )

-- The deletion of a bill keeps the ledger balanced.
pub destroy_view-IsBalanced :
    (user : AppUser) (id : ℕ) (db db' : Db)
    → IsBalanced db
    → destroy_view user id db ≡ ok (deleted, db')
    → IsBalanced db'
destroy_view-IsBalanced user id db db' h e =
    let (bill, seen, unpaid, r) = destroy_view-removes user id db db' e in
    record {
      payments_below = rw r.payments_same h.payments_below;
      allocations_below = rw (r.payments_same, r.allocations_same) h.allocations_below;
      within_amount = rw (r.payments_same, r.allocations_same) h.within_amount;
      paid_agrees =
          rw (r.payments_same, r.allocations_same, r.bills_left)
            (without-All (λ b. b.amount_paid ≡ bill_paid db.payments db.allocations.rows b.id) id
              db.bills.rows (λ b agrees. ground arith) h.paid_agrees);
    }

-- A bill that the deleted one had superseded keeps its status, and refers to no bill from then on.
pub destroy_view-strands :
    (user : AppUser) (id : ℕ) (db db' : Db) (prior : Bill)
    → destroy_view user id db ≡ ok (deleted, db')
    → find prior.id db.bills ≡ some prior
    → prior.id ≢ id
    → prior.superseded_by ≡ some id
    → find prior.id db'.bills ≡ some (record prior { superseded_by = none })
destroy_view-strands user id db db' prior e there other by =
    let (bill, seen, unpaid, r) = destroy_view-removes user id db db' e in
    let forgotten : forget_bill id prior ≡ record prior { superseded_by = none } =
      rw (by, ==_refl id) refl in
    ap (find_row prior.id) r.bills_left
    ∙ find-without prior.id id db.bills.rows other
    ∙ ap (Option.map (forget_bill id)) there
    ∙ ap some forgotten
