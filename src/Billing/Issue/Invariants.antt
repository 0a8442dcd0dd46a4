-- ===== src/Billing/Issue/Invariants.antt =====
-- Two invariants that the issue of a bill keeps: the money's ledger, and the order of supersession.
use acrev360_backend.Base.{
  ℕ, ◌≡◌, ◌<◌, refl, ap, sym, ◌∙◌, inl, inr, List, [], ◌∷◌, arith, All, All-map₂, Option-cases,
}
use acrev360_backend.Base.Table.{Table, find, IsBelow}
use acrev360_backend.Base.Table.Laws.{find_row-All}
use acrev360_backend.Billing.History.{LeadsOn, IsForward}
use acrev360_backend.Billing.Issue.Run.{Request, issue_bill}
use acrev360_backend.Billing.Issue.Steady.{issue_bill-steady}
use acrev360_backend.Models.Billing.{Bill, bill_keyed}
use acrev360_backend.Models.Payments.{Payment, PaymentAllocation, payment_keyed}
use acrev360_backend.Payments.Ledger.{IsBalanced, share, paid_for, bill_paid}
use acrev360_backend.Store.{Db, Env, ok}

-- A bill that is issued keeps it so that every superseded bill is superseded by one created later,
-- where the bills' ids come from their sequence.
pub issue_bill-IsForward :
    (env : Env) (q : Request) (db : Db) (bill : Bill) (db' : Db)
    → IsBelow db.bills.next db.bills.rows
    → IsForward db
    → issue_bill env q db ≡ ok (bill, db')
    → IsForward db'
issue_bill-IsForward env q db bill db' below h e =
    (issue_bill-steady env q (λ b. LeadsOn b.superseded_by b.id) db bill db'
      (record {
        fresh = λ due_date. tt;
        marked = λ b older was. older;
        numbered = λ r b was. was;
        rolled = λ from b was. was;
      })
      (All-map₂ _ _ _ db.bills.rows (λ b was lt. (was, lt)) h below) e).0

no_share :
    (n : ℕ) (payments : Table Payment) (a : PaymentAllocation)
    → All (λ p. p.bill < n) payments.rows
    → paid_for payments n a ≡ 0
no_share n payments a h = elim (Option-cases (find a.payment payments)) [
  | inl gone ↦ ap (share n a.amount) gone
  | inr (p, found) ↦
      let older : p.bill < n = find_row-All (λ x. x.bill < n) a.payment payments.rows p found h in
      ap (share n a.amount) found ∙ ground arith
]

no_paid :
    (n : ℕ) (payments : Table Payment) (rows : List PaymentAllocation)
    → All (λ p. p.bill < n) payments.rows
    → bill_paid payments rows n ≡ 0
no_paid n payments [] h = refl
no_paid n payments (a ∷ rows) h = omega (arith, no_share n payments a h, no_paid n payments rows h)

-- The issue of a bill moves no money: it keeps the ledger balanced, where every payment is for a bill
-- whose id has come from the sequence, as the bills' own ids have.
pub issue_bill-IsBalanced :
    (env : Env) (q : Request) (db : Db) (bill : Bill) (db' : Db)
    → IsBelow db.bills.next db.bills.rows
    → All (λ p. p.bill < db.bills.next) db.payments.rows
    → IsBalanced db
    → issue_bill env q db ≡ ok (bill, db')
    → IsBalanced db'
issue_bill-IsBalanced env q db bill db' below known h e =
    let P = λ (b : Bill). b.amount_paid ≡ bill_paid db.payments db.allocations.rows b.id in
    let (agrees, payments, allocations) =
      issue_bill-steady env q P db bill db'
        (record {
          fresh = λ due_date. sym (no_paid db.bills.next db.payments db.allocations.rows known);
          marked = λ b older was. was;
          numbered = λ r b was. was;
          rolled = λ from b was. was;
        })
        (All-map₂ _ _ _ db.bills.rows (λ b was lt. (was, lt)) h.paid_agrees below) e in
    record {
      payments_below = rw payments h.payments_below;
      allocations_below = rw (payments, allocations) h.allocations_below;
      within_amount = rw (payments, allocations) h.within_amount;
      paid_agrees = rw (payments, allocations) agrees;
    }
