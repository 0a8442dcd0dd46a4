-- ===== src/Payments/Ledger/Reverse.antt =====
-- A reversed payment keeps the ledger balanced.
use acrev360_backend.Base.{
  ℕ, ◌+◌, ◌-◌, ◌≡◌, ◌≢◌, refl, sym, subst, ◌∙◌, ap, true, inl, inr, Option, some, List, [], ◌∷◌,
  arith, ◌==◌, if◌then◌else◌, Bool-cases, ==_iff, ne_of_test, sum_of, sum_of-add, sum_of-congr,
  All-of,
}
use mathlib.Core.Option.{some-injective}
use acrev360_backend.Base.Table.{Table, find, modify}
use acrev360_backend.Base.Table.Laws.{
  key-find_row, find_row-modify_self, find_row-modify_ne, find_row-All, modify_rows-All,
  modify_rows-All_self,
}
use acrev360_backend.Models.Billing.{Bill, bill_keyed}
use acrev360_backend.Models.Payments.{Payment, PaymentAllocation, is_confirmed, payment_keyed}
use acrev360_backend.Store.{Db, Env, ok, audit}
use acrev360_backend.Billing.Recompute.{recompute_bill}
use acrev360_backend.Payments.Post.{save_amount_paid}
use acrev360_backend.Payments.Reverse.{
  of_payment, applied_by, mark_reversed, claw_back, undo_payment, reverse_payment,
  reverse_payment-IsUndone,
}
use acrev360_backend.Payments.Ledger.{
  share, paid_for, bill_paid, IsLedger, IsBalanced, SameTables, SameTables-IsBalanced,
  IsLedger-rollup,
}

-- The payments table once a confirmed payment has been marked.
module _ (p : Payment) (payments : Table Payment) (found : find p.id payments ≡ some p)
    (confirmed : is_confirmed p.txn_status ≡ true) where
  abbrev marked : Table Payment
  marked = modify p.id mark_reversed payments

  -- The part of an allocation that the bill loses.
  abbrev lost : ℕ → PaymentAllocation → ℕ
  lost b a = if p.bill == b then of_payment p.id a else 0

  paid_for-marked :
      (b : ℕ) (a : PaymentAllocation) → paid_for payments b a ≡ paid_for marked b a + lost b a
  paid_for-marked b a = elim (Bool-cases (a.payment == p.id)) [
    | inl same ↦
        let e = (==_iff a.payment p.id).0 same in
        let before : find a.payment payments ≡ some p = ap (λ (k : ℕ). find k payments) e ∙ found in
        let behind : find a.payment marked ≡ some (mark_reversed p) =
          ap (λ (k : ℕ). find k marked) e
          ∙ find_row-modify_self p.id mark_reversed payments.rows refl found in
        ground (arith, ap (share b a.amount) before, ap (share b a.amount) behind)
    | inr other ↦
        let ne = ne_of_test a.payment p.id other in
        let e : find a.payment marked ≡ find a.payment payments =
          find_row-modify_ne a.payment p.id mark_reversed payments.rows (λ r. refl)
            (λ s. ne (sym s)) in
        ground (arith, ap (share b a.amount) e)
  ]

  bill_paid-marked :
      (b : ℕ) (rows : List PaymentAllocation)
      → bill_paid payments rows b ≡ bill_paid marked rows b + sum_of (lost b) rows
  bill_paid-marked b rows = sum_of-add _ _ _ rows (All-of _ rows (paid_for-marked b))

  sum_of-lost_self :
      (rows : List PaymentAllocation) → sum_of (lost p.bill) rows ≡ sum_of (of_payment p.id) rows
  sum_of-lost_self rows = sum_of-congr _ _ rows (All-of _ rows (λ a. ground arith))

  sum_of-lost_other :
      (b : ℕ) (rows : List PaymentAllocation) → p.bill ≢ b → sum_of (lost b) rows ≡ 0
  sum_of-lost_other b [] ne = refl
  sum_of-lost_other b (a ∷ rows) ne = ground (arith, sum_of-lost_other b rows ne)

  -- The tables after the mark and the save of `amount_paid`.
  marked-IsLedger :
      (allocations : Table PaymentAllocation) (bills : Table Bill) (bill : Bill)
      → find p.bill bills ≡ some bill
      → IsLedger payments allocations bills
      → IsLedger marked allocations (
          modify bill.id
            (save_amount_paid (bill.amount_paid - sum_of (of_payment p.id) allocations.rows))
            bills)
  marked-IsLedger allocations bills bill found_bill h =
      let rows = allocations.rows in
      let agrees = λ (r : Bill). r.amount_paid ≡ bill_paid payments rows r.id in
      let same : bill.id ≡ p.bill = key-find_row p.bill bills.rows bill found_bill in
      record {
        payments_below =
            modify_rows-All _ p.id mark_reversed payments.rows (λ r lt. lt) h.payments_below;
        allocations_below = h.allocations_below;
        within_amount =
            modify_rows-All _ p.id mark_reversed payments.rows (λ r le. le) h.within_amount;
        paid_agrees =
            modify_rows-All_self agrees _ bill.id _ bills.rows
              (λ b e ok_b. omega (
                arith,
                find_row-All agrees p.bill bills.rows bill found_bill h.paid_agrees,
                bill_paid-marked p.bill rows,
                sum_of-lost_self rows,
                ap (bill_paid payments rows) same,
                ap (bill_paid marked rows) (e ∙ same),
              ))
              (λ b ne ok_b. omega (
                arith,
                ok_b,
                bill_paid-marked b.id rows,
                sum_of-lost_other b.id rows (λ e. ne (sym e ∙ sym same)),
              ))
              h.paid_agrees;
      }

claw_back-SameTables :
    (actor : Option ℕ) (p : Payment) (bill : Bill) (leftover : ℕ) (db : Db)
    → SameTables db (claw_back actor p bill leftover db)
unfolding claw_back
claw_back-SameTables actor p bill leftover db = ground arith

undo_payment-IsBalanced :
    (env : Env) (actor : Option ℕ) (p : Payment) (bill : Bill) (db : Db)
    → IsBalanced db
    → find p.id db.payments ≡ some p
    → is_confirmed p.txn_status ≡ true
    → find p.bill db.bills ≡ some bill
    → IsBalanced (undo_payment env actor p bill db).1
unfolding undo_payment applied_by recompute_bill audit
undo_payment-IsBalanced env actor p bill db h found confirmed found_bill =
    let applied = applied_by p.id db in
    let bill1 : Bill = record bill { amount_paid = bill.amount_paid - applied } in
    let saved = record db {
      payments = modify p.id mark_reversed db.payments;
      bills = modify bill.id (save_amount_paid bill1.amount_paid) db.bills;
    } in
    let (bill2, rolled) = recompute_bill env bill1 saved in
    let balanced : IsBalanced rolled =
      IsLedger-rollup bill.id bill2
        (marked-IsLedger p db.payments found confirmed db.allocations db.bills bill found_bill h) in
    SameTables-IsBalanced rolled (claw_back actor p bill2 (p.amount - applied) rolled)
      (claw_back-SameTables actor p bill2 (p.amount - applied) rolled) balanced

-- A reversal keeps the ledger balanced, if the payment's row is still confirmed when it is locked.
-- The code tests the caller's copy only.
pub reverse_payment-IsBalanced :
    (env : Env) (actor : Option ℕ) (payment : Payment) (db : Db) (p : Payment) (db' : Db)
    → IsBalanced db
    → find payment.id db.payments ≡ some payment
    → reverse_payment env actor payment db ≡ ok (p, db')
    → IsBalanced db'
reverse_payment-IsBalanced env actor payment db p db' h current e =
    let (row, bill, done) = reverse_payment-IsUndone env actor payment db p db' e in
    let same : payment ≡ row = some-injective _ _ (sym current ∙ done.found) in
    subst (λ (r : Payment × Db). IsBalanced r.1) done.undone
      (undo_payment-IsBalanced env actor row bill db h
        (subst (λ (r : Payment). find r.id db.payments ≡ some r) same current)
        (subst (λ (r : Payment). is_confirmed r.txn_status ≡ true) same done.was_confirmed)
        done.found_bill)
