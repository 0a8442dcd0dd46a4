-- ===== src/Payments/Reverse.antt =====
-- `reverse_payment` of apps/payments/services.py.
use acrev360_backend.Base.{
  ℕ, ◌-◌, ◌≡◌, inl, inr, true, arith, Option-cases, Option, none, some, ltb, ◌==◌, if◌then◌else◌,
  sum_of,
}
use acrev360_backend.Base.Int.{pos, ◌-ℤ◌}
use acrev360_backend.Base.Table.{find, modify}
use acrev360_backend.Models.Audit.{payment_overpayment_credit_clawed_back, payment_reversed}
use acrev360_backend.Models.Registry.{payer_keyed}
use acrev360_backend.Models.Billing.{Bill, bill_keyed}
use acrev360_backend.Models.Payments.{
  Payment, PaymentAllocation, TxnStatus, is_confirmed, payment_keyed,
}
use acrev360_backend.Store.{Db, Env, not_confirmed, does_not_exist, Result, ok, err, Service, audit}
use acrev360_backend.Billing.Recompute.{recompute_bill}
use acrev360_backend.Payments.Post.{save_amount_paid}

-- `payment.allocations`
abbrev pub of_payment : ℕ → PaymentAllocation → ℕ
of_payment payment a = if a.payment == payment then a.amount else 0

unfoldable pub applied_by : ℕ → Db → ℕ
applied_by payment db = sum_of (of_payment payment) db.allocations.rows

abbrev pub mark_reversed : Payment → Payment
mark_reversed row = record row { txn_status = TxnStatus.reversed }

-- `leftover = payment.amount - applied` can only be negative where more was allocated than paid; it
-- is not greater than 0 then, as here.
unfoldable pub claw_back : Option ℕ → Payment → Bill → ℕ → Db → Db
unfolding audit
claw_back actor p bill leftover db =
    if ltb 0 leftover
    then audit p.council actor (payment_overpayment_credit_clawed_back leftover) bill.payer
        (record db {
          payers =
              modify bill.payer
                (λ row. record row { credit_balance = row.credit_balance -ℤ pos leftover })
                db.payers;
        })
    else db

-- Everything behind the lookups. `max(amount_paid - applied, 0)` is subtraction on ℕ.
unfoldable pub undo_payment : Env → Option ℕ → Payment → Bill → Db → Payment × Db
undo_payment env actor p bill db =
    let applied = applied_by p.id db in
    let marked = record db { payments = modify p.id mark_reversed db.payments } in
    let bill1 : Bill = record bill { amount_paid = bill.amount_paid - applied } in
    let (bill2, rolled) = recompute_bill env bill1 (record marked {
      bills = modify bill.id (save_amount_paid bill1.amount_paid) marked.bills;
    }) in
    let clawed = claw_back actor p bill2 (p.amount - applied) rolled in
    (mark_reversed p, audit p.council actor (payment_reversed p.amount applied) p.id clawed)

-- `payment` is the caller's copy: its status is what the refusal tests, and its id what is locked.
unfoldable pub reverse_payment : Env → Option ℕ → Payment → Service Payment
reverse_payment env actor payment db =
    let locked : Result (Payment × Db) = elim (find payment.id db.payments) [
      | none ↦ err does_not_exist
      | some p ↦ elim (find p.bill db.bills) [
        | none ↦ err does_not_exist
        | some bill ↦ ok (undo_payment env actor p bill db)
      ]
    ] in
    if is_confirmed payment.txn_status then locked else err not_confirmed

-- What a reversal that went through has met, and done.
pub record IsUndone (env : Env) (actor : Option ℕ) (payment row : Payment) (bill : Bill) (db : Db)
    (p : Payment) (db' : Db) : Type 0 where
  pub was_confirmed : is_confirmed payment.txn_status ≡ true
  pub found : find payment.id db.payments ≡ some row
  pub found_bill : find row.bill db.bills ≡ some bill
  pub undone : undo_payment env actor row bill db ≡ (p, db')

pub reverse_payment-IsUndone :
    (env : Env) (actor : Option ℕ) (payment : Payment) (db : Db) (p : Payment) (db' : Db)
    → reverse_payment env actor payment db ≡ ok (p, db')
    → (row : Payment) × (bill : Bill) × IsUndone env actor payment row bill db p db'
unfolding reverse_payment
reverse_payment-IsUndone env actor payment db p db' e =
    elim (Option-cases (find payment.id db.payments)) [
      | inl gone ↦ ground arith
      | inr (row, found) ↦ elim (Option-cases (find row.bill db.bills)) [
        | inl gone ↦ ground arith
        | inr (bill, found_bill) ↦ (row, bill, ground arith)
      ]
    ]
