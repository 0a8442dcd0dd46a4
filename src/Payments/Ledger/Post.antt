-- ===== src/Payments/Ledger/Post.antt =====
-- A posted payment keeps the ledger balanced.
use acrev360_backend.Base.{
  ℕ, ◌+◌, ◌≤◌, ◌<◌, ◌≡◌, ◌≢◌, refl, sym, subst, ◌∙◌, ap, some, List, [], ◌∷◌, arith, ◌==◌,
  if◌then◌else◌, ==_refl, sum_of, All, sum_of-congr, All-append, All-map, All-map₂,
}
use acrev360_backend.Base.Table.{Table, insert, find, modify, IsBelow}
use acrev360_backend.Base.Table.Laws.{
  find_row-new, find_row-append_ne, find_row-modify_self, find_row-modify_ne, find_row-All,
  key-find_row, modify_rows-All, modify_rows-All_self,
}
use acrev360_backend.Models.Billing.{Bill, BillLine, bill_keyed}
use acrev360_backend.Models.Payments.{Payment, PaymentAllocation, payment_keyed}
use acrev360_backend.Store.{Db, Env, ok, audit}
use acrev360_backend.Billing.Recompute.{lines_of, recompute_bill}
use acrev360_backend.Payments.Fifo.{
  Progress, allocation, fifo_loop, allocate_fifo, counted_on, is_confirmed_row, paid_amount,
  by_position,
}
use acrev360_backend.Payments.Fifo.Laws.{
  fifo_loop-remaining, fifo_loop-sum, fifo_loop-kept, fifo_loop-All,
}
use acrev360_backend.Payments.Post.{
  Posting, new_payment, with_ref, create_payment, save_amount_paid, credit_leftover, issue_receipt,
  close_if_paid, apply_to_bill, record_payment, post_payment, post_payment-IsPosted,
}
use acrev360_backend.Payments.Reverse.{of_payment}
use acrev360_backend.Payments.Ledger.{
  share, paid_for, bill_paid, IsLedger, IsBalanced, SameTables, SameTables-IsBalanced,
  IsLedger-rollup,
}

-- The payments table once the payment has been created.
module _ (env : Env) (q : Posting) (bill : ℕ) (payments : Table Payment) where
  abbrev pub with_payment : Table Payment
  with_payment = modify payments.next with_ref (insert (new_payment env q bill) payments)

  find-with_payment_new :
      IsBelow payments.next payments.rows
      → find payments.next with_payment ≡ some (with_ref (new_payment env q bill payments.next))
  find-with_payment_new h =
      find_row-modify_self payments.next with_ref _ refl
        (find_row-new payments.next (new_payment env q bill payments.next) payments.rows h refl)

  pub find-with_payment_old : (n : ℕ) → n < payments.next → find n with_payment ≡ find n payments
  find-with_payment_old n h =
      find_row-modify_ne n payments.next with_ref _ (λ p. refl) (omega arith)
      ∙ find_row-append_ne n (new_payment env q bill payments.next) payments.rows (omega arith)

  paid_for-old :
      (b : ℕ) (a : PaymentAllocation)
      → a.payment < payments.next
      → paid_for with_payment b a ≡ paid_for payments b a
  paid_for-old b a h = ap (share b a.amount) (find-with_payment_old a.payment h)

  -- What lines have been paid does not change by the creation.
  pub paid_on-old :
      (line : ℕ) (rows : List PaymentAllocation)
      → All (λ a. a.payment < payments.next) rows
      → sum_of (counted_on with_payment line) rows ≡ sum_of (counted_on payments line) rows
  paid_on-old line [] h = refl
  paid_on-old line (a ∷ rows) h =
      ground (
        arith,
        ap is_confirmed_row (find-with_payment_old a.payment h.0),
        paid_on-old line rows h.1,
      )

  bill_paid-old :
      (b : ℕ) (rows : List PaymentAllocation)
      → All (λ a. a.payment < payments.next) rows
      → bill_paid with_payment rows b ≡ bill_paid payments rows b
  bill_paid-old b rows h = sum_of-congr _ _ rows (All-map _ _ rows (λ a. paid_for-old b a) h)

  paid_for-new :
      IsBelow payments.next payments.rows
      → (b line take id : ℕ)
      → paid_for with_payment b (allocation payments.next line take id)
        ≡ (if bill == b then take else 0)
  paid_for-new h b line take id = ap (share b take) (find-with_payment_new h) ∙ ground arith

-- No allocation carries an id that the sequence has not given out.
pub none_before :
    (n : ℕ) (rows : List PaymentAllocation)
    → All (λ a. a.payment < n) rows
    → sum_of (of_payment n) rows ≡ 0
none_before n [] b = refl
none_before n (a ∷ rows) b = ground (arith, none_before n rows b.1)

-- The loop over the lines, behind the new payment.
module _ (env : Env) (q : Posting) (bill : Bill) (db : Db) (paid : ℕ → ℕ) (ls : List BillLine)
    (h : IsBalanced db) (found : find bill.id db.bills ≡ some bill) where
  abbrev n : ℕ
  n = db.payments.next

  abbrev start : Progress
  start = record { table = db.allocations; remaining = env.column q.amount; applied = 0 }

  abbrev after : Progress
  after = fifo_loop n paid ls start

  abbrev payments' : Table Payment
  payments' = with_payment env q bill.id db.payments

  bill_paid_self :
      bill_paid payments' after.table.rows bill.id
      ≡ bill_paid db.payments db.allocations.rows bill.id + after.applied
  bill_paid_self =
      let w = paid_for payments' bill.id in
      let grown = fifo_loop-sum n paid w ls start λ line take id.
        paid_for-new env q bill.id db.payments h.payments_below bill.id line take id
        ∙ rw (==_refl bill.id) in
      omega (
        arith,
        grown,
        bill_paid-old env q bill.id db.payments bill.id db.allocations.rows h.allocations_below,
      )

  bill_paid-other :
      (b : ℕ)
      → bill.id ≢ b
      → bill_paid payments' after.table.rows b ≡ bill_paid db.payments db.allocations.rows b
  bill_paid-other b ne =
      fifo_loop-kept n paid (paid_for payments' b) ls start (λ line take id.
        paid_for-new env q bill.id db.payments h.payments_below b line take id ∙ ground arith)
      ∙ bill_paid-old env q bill.id db.payments b db.allocations.rows h.allocations_below

  applied-old :
      (m : ℕ)
      → m < n
      → sum_of (of_payment m) after.table.rows ≡ sum_of (of_payment m) db.allocations.rows
  applied-old m lt = fifo_loop-kept n paid (of_payment m) ls start (λ line take id. ground arith)

  applied-le : sum_of (of_payment n) after.table.rows ≤ env.column q.amount
  applied-le = omega (
    arith,
    fifo_loop-sum n paid (of_payment n) ls start (λ line take id. ground arith),
    none_before n db.allocations.rows h.allocations_below,
    fifo_loop-remaining n paid ls start,
  )

  -- The tables after the allocation and the save of `amount_paid`.
  after-IsLedger :
      IsLedger payments' after.table
        (modify bill.id (save_amount_paid (bill.amount_paid + after.applied)) db.bills)
  after-IsLedger = record {
    payments_below =
        modify_rows-All _ n with_ref _ (λ p lt. lt)
          (All-append _ db.payments.rows _
            (All-map _ _ db.payments.rows (λ p lt. omega arith) h.payments_below)
            (omega arith, tt));
    allocations_below =
        fifo_loop-All n paid (λ a. a.payment < n + 1) ls start (λ line take id. omega arith)
          (All-map _ _ db.allocations.rows (λ a lt. omega arith) h.allocations_below);
    within_amount =
        modify_rows-All _ n with_ref _ (λ p le. le)
          (All-append _ db.payments.rows _
            (All-map₂ _ _ _ db.payments.rows (λ p lt le. omega (arith, applied-old p.id lt))
              h.payments_below h.within_amount)
            (applied-le, tt));
    paid_agrees =
        modify_rows-All_self (λ b. b.amount_paid ≡ bill_paid db.payments db.allocations.rows b.id) _
          bill.id (save_amount_paid (bill.amount_paid + after.applied)) db.bills.rows
          (λ b e agrees. omega (
            arith,
            find_row-All (λ r. r.amount_paid ≡ bill_paid db.payments db.allocations.rows r.id)
                bill.id db.bills.rows bill found h.paid_agrees,
            bill_paid_self,
            ap (bill_paid payments' after.table.rows) e,
          ))
          (λ b ne agrees. agrees ∙ sym (bill_paid-other b.id (λ e. ne (sym e)))) h.paid_agrees;
  }

-- Credit, receipt and closing of the case leave the ledger's tables alone.
pub credit_leftover-SameTables :
    (q : Posting) (bill : Bill) (leftover : ℕ) (db : Db)
    → SameTables db (credit_leftover q bill leftover db)
unfolding credit_leftover
credit_leftover-SameTables q bill leftover db = ground arith

pub issue_receipt-SameTables :
    (council : ℕ) (p : Payment) (db : Db) → SameTables db (issue_receipt council p db)
unfolding issue_receipt
issue_receipt-SameTables council p db = (refl, refl, refl)

pub close_if_paid-SameTables :
    (env : Env) (bill : Bill) (db : Db) → SameTables db (close_if_paid env bill db)
unfolding close_if_paid
close_if_paid-SameTables env bill db = ground arith

record_payment-IsBalanced :
    (env : Env) (q : Posting) (bill : Bill) (db : Db)
    → IsBalanced db
    → find bill.id db.bills ≡ some bill
    → IsBalanced (record_payment env q bill db).1
unfolding record_payment create_payment apply_to_bill allocate_fifo recompute_bill audit
record_payment-IsBalanced env q bill db h found =
    let (p, created) = create_payment env q bill.id db in
    let (bill2, rolled, leftover) = apply_to_bill env p bill created in
    let credited = credit_leftover q bill2 leftover rolled in
    let receipted = issue_receipt q.council p credited in
    let closed = close_if_paid env bill2 receipted in
    let balanced : IsBalanced rolled = IsLedger-rollup bill.id bill2 (
      after-IsLedger env q bill db (paid_amount created) (by_position (lines_of bill.id created)) h
        found) in
    SameTables-IsBalanced receipted closed (close_if_paid-SameTables env bill2 receipted) (
      SameTables-IsBalanced credited receipted (issue_receipt-SameTables q.council p credited) (
        SameTables-IsBalanced rolled credited (credit_leftover-SameTables q bill2 leftover rolled)
          balanced))

-- A payment that is posted keeps the ledger balanced: every bill's `amount_paid` is still the sum of
-- what confirmed payments for that bill have been allocated, and no payment is allocated beyond its
-- amount. The caller's copy of the bill need not be up to date.
pub post_payment-IsBalanced :
    (env : Env) (q : Posting) (bill : Bill) (db : Db) (p : Payment) (db' : Db)
    → IsBalanced db
    → post_payment env q bill db ≡ ok (p, db')
    → IsBalanced db'
post_payment-IsBalanced env q bill db p db' h e =
    let (row, posted) = post_payment-IsPosted env q bill db p db' e in
    let same = key-find_row bill.id db.bills.rows row posted.found in
    subst (λ (r : Payment × Db). IsBalanced r.1) posted.recorded
      (record_payment-IsBalanced env q row db h
        (ap (λ (k : ℕ). find k db.bills) same ∙ posted.found))
