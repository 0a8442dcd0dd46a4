-- ===== src/Payments/Outcomes.antt =====
-- When a posting is refused, the order in which it fills lines, and a reversal by an old copy.
use acrev360_backend.Base.{
  ℕ, ◌+◌, ◌-◌, min, ◌≡◌, ◌≢◌, ◌↔◌, refl, ap, ◌∙◌, true, false, inl, inr, Option, none, some, List,
  ◌∷◌, ◌++◌, arith, Option-cases, sum_of, All,
}
use acrev360_backend.Base.Table.{find, modify}
use acrev360_backend.Base.Table.Laws.{key-find_row, find_row-modify_self}
use acrev360_backend.Models.Billing.{Bill, BillLine, BillStatus, is_terminal, bill_keyed}
use acrev360_backend.Models.Payments.{Payment, TxnStatus, is_confirmed, payment_keyed}
use acrev360_backend.Store.{
  Db, Env, bill_superseded, bill_cancelled, does_not_exist, integrity, ok, err, audit,
}
use acrev360_backend.Billing.Recompute.{lines_of, save_rollup, recompute_bill}
use acrev360_backend.Payments.Fifo.{Progress, paid_amount, by_position, fifo_loop, allocate_fifo}
use acrev360_backend.Payments.Fifo.Laws.{owed, on_line, fifo_loop-takes}
use acrev360_backend.Payments.Post.{
  Posting, is_too_long, is_ref_taken, post_payment, save_amount_paid,
}
use acrev360_backend.Payments.Reverse.{
  applied_by, mark_reversed, claw_back, undo_payment, reverse_payment,
}

-- A posting is refused with a given error exactly when: the caller's copy of the bill is superseded;
-- it is cancelled; it is neither and the bill's row is gone; or the row is there and a reference
-- that is not too long and not blank has already funded a payment of that channel.
pub post_payment_refusals :
    (env : Env) (q : Posting) (bill : Bill) (db : Db)
    → let outcome = post_payment env q bill db in
      ((outcome ≡ err bill_superseded) ↔ (bill.status ≡ BillStatus.superseded))
      × ((outcome ≡ err bill_cancelled) ↔ (bill.status ≡ BillStatus.cancelled))
      × ((outcome ≡ err does_not_exist)
          ↔ ((is_terminal bill.status ≡ false) × (find bill.id db.bills ≡ none)))
      × ((outcome ≡ err integrity) ↔ (
          (is_terminal bill.status ≡ false)
          × (find bill.id db.bills ≢ none)
          × (is_too_long q.bank_txn_ref ≡ false)
          × (is_ref_taken q.channel q.bank_txn_ref db ≡ true)))
unfolding post_payment
post_payment_refusals env q bill db = elim (Option-cases (find bill.id db.bills)) [
  | inl gone ↦ ground arith
  | inr (row, found) ↦ ground arith
]

-- Lines are filled oldest first: on a line that stands once among the bill's lines in their order,
-- the allocations grow by what the lines before it leave of the payment, up to what it owes.
pub allocate_fifo-order :
    (p : Payment) (bill : ℕ) (db : Db) (before : List BillLine) (l : BillLine)
    (behind : List BillLine)
    → by_position (lines_of bill db) ≡ before ++ (l ∷ behind)
    → All (λ m. m.id ≢ l.id) before
    → All (λ m. m.id ≢ l.id) behind
    → let db' = (allocate_fifo p bill db).0 in
      sum_of (on_line l.id) db'.allocations.rows
      ≡ sum_of (on_line l.id) db.allocations.rows
        + min
            (p.amount - sum_of (owed (paid_amount db)) before)
            (l.line_amount - paid_amount db l.id)
unfolding allocate_fifo
allocate_fifo-order p bill db before l behind order h k =
    let start : Progress = record { table = db.allocations; remaining = p.amount; applied = 0 } in
    let done = λ (ls : List BillLine).
      sum_of (on_line l.id) (fifo_loop p.id (paid_amount db) ls start).table.rows in
    ap done order ∙ fifo_loop-takes p.id (paid_amount db) before l behind start h k

claw_back-bills :
    (actor : Option ℕ) (p : Payment) (bill : Bill) (leftover : ℕ) (db : Db)
    → (claw_back actor p bill leftover db).bills ≡ db.bills
unfolding claw_back
claw_back-bills actor p bill leftover db = ground arith

-- A copy of a payment that was read while it was confirmed is accepted by `reverse_payment` also
-- after the payment's row has been reversed: the applied amount is taken off the bill's
-- `amount_paid` once more.
pub reverse_payment-stale :
    (env : Env) (actor : Option ℕ) (payment row : Payment) (bill : Bill) (db : Db)
    → is_confirmed payment.txn_status ≡ true
    → find payment.id db.payments ≡ some row
    → row.txn_status ≡ TxnStatus.reversed
    → find row.bill db.bills ≡ some bill
    → (p : Payment) × (db' : Db) × (bill' : Bill) × (reverse_payment env actor payment db
        ≡ ok (p, db'))
      × (find bill.id db'.bills ≡ some bill')
      × (bill'.amount_paid ≡ bill.amount_paid - applied_by row.id db)
unfolding reverse_payment undo_payment recompute_bill audit
reverse_payment-stale env actor payment row bill db copy found reversed_row found_bill =
    let bill1_paid = bill.amount_paid - applied_by row.id db in
    let bill1 : Bill = record bill { amount_paid = bill1_paid } in
    let saved_db = record db {
      payments = modify row.id mark_reversed db.payments;
      bills = modify bill.id (save_amount_paid bill1_paid) db.bills;
    } in
    let (bill2, rolled) = recompute_bill env bill1 saved_db in
    let id = key-find_row row.bill db.bills.rows bill found_bill in
    let found_again : find bill.id db.bills ≡ some bill =
      ap (λ (k : ℕ). find k db.bills) id ∙ found_bill in
    let saved : find bill.id saved_db.bills ≡ some (save_amount_paid bill1_paid bill) =
      find_row-modify_self bill.id (save_amount_paid bill1_paid) db.bills.rows refl found_again in
    let clawed = claw_back actor row bill2 (row.amount - applied_by row.id db) rolled in
    (
      mark_reversed row,
      (undo_payment env actor row bill db).1,
      save_rollup bill2 (save_amount_paid bill1_paid bill),
      ground arith,
      rw (claw_back-bills actor row bill2 (row.amount - applied_by row.id db) rolled)
          (find_row-modify_self bill.id (save_rollup bill2) _ refl saved),
      refl,
    )
