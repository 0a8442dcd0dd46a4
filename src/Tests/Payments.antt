-- ===== src/Tests/Payments.antt =====
-- Payments posted to the sample bill, and reversed.
use acrev360_backend.Base.{◌≡◌, ◌+◌, ◌-◌, min, refl, none, some, arith, [], ◌∷◌, sum_of}
use acrev360_backend.Base.Int.{◌+ℤ◌, ◌-ℤ◌}
use acrev360_backend.Base.Table.{find}
use acrev360_backend.Models.Billing.{Bill, BillStatus, bill_keyed, line_keyed}
use acrev360_backend.Models.Payments.{Payment, Channel, TxnStatus, payment_keyed}
use acrev360_backend.Models.Registry.{payer_keyed}
use acrev360_backend.Models.Ref.{payment_number}
use acrev360_backend.Store.{Db, ok, audit}
use acrev360_backend.Billing.Recompute.{recompute_bill, recomputed_status, settled_status}
use acrev360_backend.Enforcement.Close.{close_debt_case_for_bill}
use acrev360_backend.Payments.Fifo.{
  paid_amount, insert_by_position, by_position, fifo_loop, allocate_fifo,
}
use acrev360_backend.Payments.Fifo.Laws.{on_line, owed}
use acrev360_backend.Payments.Post.{
  Posting, is_ref_taken, is_too_long, create_payment, credit_leftover, issue_receipt, close_if_paid,
  apply_to_bill, record_payment, post_payment,
}
use acrev360_backend.Payments.Reverse.{applied_by, claw_back, undo_payment, reverse_payment}
use acrev360_backend.Payments.Ledger.{IsBalanced}
use acrev360_backend.Payments.Ledger.Post.{post_payment-IsBalanced}
use acrev360_backend.Payments.Ledger.Reverse.{reverse_payment-IsBalanced}
use acrev360_backend.Payments.Effects.{Settles, due, post_payment-Settles}
use acrev360_backend.Payments.Outcomes.{allocate_fifo-order, reverse_payment-stale}
use acrev360_backend.Tests.Sample.{sample-IsBalanced, from_ok, env, payer, bill, line, db}

abbrev posting : Posting
posting = record {
  council = 1;
  channel = Channel.pos;
  terminal = none;
  amount = 400000;
  bank_txn_ref = "T1";
  posted_by = some 1;
  geo_lat = none;
  geo_lng = none;
}

abbrev payment : Payment
payment = record {
  id = 1;
  council = 1;
  payment_ref = payment_number 1;
  bill = 1;
  channel = Channel.pos;
  terminal = none;
  amount = 400000;
  bank_txn_ref = "T1";
  txn_status = TxnStatus.confirmed;
  posted_by = some 1;
  geo_lat = none;
  geo_lng = none;
  created_on = 100;
}

abbrev posted : Payment × Db
unfolding post_payment record_payment create_payment apply_to_bill allocate_fifo fifo_loop
    paid_amount by_position insert_by_position recompute_bill recomputed_status settled_status
    credit_leftover issue_receipt close_if_paid close_debt_case_for_bill is_ref_taken is_too_long
    audit ◌+ℤ◌
posted = from_ok (payment, db) (post_payment env posting bill db)

posting-ok : post_payment env posting bill db ≡ ok posted
unfolding posted post_payment record_payment create_payment apply_to_bill allocate_fifo fifo_loop
    paid_amount by_position insert_by_position recompute_bill recomputed_status settled_status
    credit_leftover issue_receipt close_if_paid close_debt_case_for_bill is_ref_taken is_too_long
    audit ◌+ℤ◌
posting-ok = refl

post_payment-IsBalanced_example : IsBalanced posted.1
post_payment-IsBalanced_example =
    post_payment-IsBalanced env posting bill db posted.0 posted.1 sample-IsBalanced posting-ok

stored : find payment.id posted.1.payments ≡ some payment
unfolding posted post_payment record_payment create_payment apply_to_bill allocate_fifo fifo_loop
    paid_amount by_position insert_by_position recompute_bill recomputed_status settled_status
    credit_leftover issue_receipt close_if_paid close_debt_case_for_bill is_ref_taken is_too_long
    audit ◌+ℤ◌
stored = refl

abbrev undone : Payment × Db
unfolding reverse_payment undo_payment claw_back applied_by posted post_payment record_payment
    create_payment apply_to_bill allocate_fifo fifo_loop paid_amount by_position insert_by_position
    recompute_bill recomputed_status settled_status credit_leftover issue_receipt close_if_paid
    close_debt_case_for_bill is_ref_taken is_too_long audit ◌+ℤ◌ ◌-ℤ◌
undone = from_ok (payment, db) (reverse_payment env (some 1) payment posted.1)

undoing-ok : reverse_payment env (some 1) payment posted.1 ≡ ok undone
unfolding undone reverse_payment undo_payment claw_back applied_by posted post_payment
    record_payment create_payment apply_to_bill allocate_fifo fifo_loop paid_amount by_position
    insert_by_position recompute_bill recomputed_status settled_status credit_leftover issue_receipt
    close_if_paid close_debt_case_for_bill is_ref_taken is_too_long audit ◌+ℤ◌ ◌-ℤ◌
undoing-ok = refl

reverse_payment-IsBalanced_example : IsBalanced undone.1
reverse_payment-IsBalanced_example =
    reverse_payment-IsBalanced env (some 1) payment posted.1 undone.0 undone.1
      (post_payment-IsBalanced env posting bill db posted.0 posted.1 sample-IsBalanced posting-ok)
      stored undoing-ok

post_payment-Settles_example : Settles bill payer 400000 (due 1 db) posted.1
post_payment-Settles_example =
    post_payment-Settles env posting bill db bill payer posted.0 posted.1 sample-IsBalanced refl
      refl posting-ok

-- The second line gets what the first leaves of the payment.
allocate_fifo-order_example :
    sum_of (on_line 2) (allocate_fifo payment 1 db).0.allocations.rows
    ≡ 0
      + min
          (400000 - sum_of (owed (paid_amount db)) (line 1 300000 0 ∷ []))
          (200000 - paid_amount db 2)
unfolding by_position insert_by_position
allocate_fifo-order_example =
    allocate_fifo-order payment 1 db (line 1 300000 0 ∷ []) (line 2 200000 1) [] refl
      (λ e. omega arith, tt) tt

abbrev superseded_bill : Bill
superseded_bill = record bill { status = BillStatus.superseded }

row_after : find 1 undone.1.payments ≡ some (record payment { txn_status = TxnStatus.reversed })
unfolding undone reverse_payment undo_payment claw_back applied_by posted post_payment
    record_payment create_payment apply_to_bill allocate_fifo fifo_loop paid_amount by_position
    insert_by_position recompute_bill recomputed_status settled_status credit_leftover issue_receipt
    close_if_paid close_debt_case_for_bill is_ref_taken is_too_long audit ◌+ℤ◌ ◌-ℤ◌
row_after = refl

bill_after : find 1 undone.1.bills ≡ some bill
unfolding undone reverse_payment undo_payment claw_back applied_by posted post_payment
    record_payment create_payment apply_to_bill allocate_fifo fifo_loop paid_amount by_position
    insert_by_position recompute_bill recomputed_status settled_status credit_leftover issue_receipt
    close_if_paid close_debt_case_for_bill is_ref_taken is_too_long audit ◌+ℤ◌ ◌-ℤ◌
bill_after = refl

reverse_payment-stale_example :
    (p : Payment) × (db' : Db) × (bill' : Bill) × (reverse_payment env (some 1) payment undone.1
      ≡ ok (p, db'))
    × (find 1 db'.bills ≡ some bill')
    × (bill'.amount_paid ≡ bill.amount_paid - applied_by 1 undone.1)
reverse_payment-stale_example =
    reverse_payment-stale env (some 1) payment (record payment { txn_status = TxnStatus.reversed })
      bill undone.1 refl row_after refl bill_after
