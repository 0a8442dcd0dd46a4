-- ===== src/Tests/Handlers.antt =====
-- The handlers on the sample council: a posting, and the deletion of a consolidated bill.
use acrev360_backend.Base.{
  ◌≡◌, ◌⊎◌, refl, true, false, none, some, [], ◌∷◌, ◌==◌, arith, exists, map, All,
}
use acrev360_backend.Base.Int.{◌+ℤ◌}
use acrev360_backend.Base.Table.{find}
use acrev360_backend.Common.Scoping.{is_visible}
use acrev360_backend.Models.Billing.{Bill, BillStatus, is_terminal, bill_keyed, line_keyed}
use acrev360_backend.Models.Payments.{Payment, Channel, TxnStatus, payment_keyed}
use acrev360_backend.Models.Ref.{payment_number}
use acrev360_backend.Models.Registry.{payer_keyed}
use acrev360_backend.Store.{Db, bill_superseded, bill_cancelled, integrity, ok, audit}
use acrev360_backend.Api.Answers.{Answer, done, bad_request, conflict, not_found, visible_bill}
use acrev360_backend.Api.Bills.{
  delete_bill, delete_assessments, remove_bill, Destroyed, deleted, no_such_bill, destroy_view,
}
use acrev360_backend.Api.Bills.Laws.{destroy_view-deletes, destroy_view-strands}
use acrev360_backend.Api.Payments.{create_payment_view}
use acrev360_backend.Api.Payments.Laws.{
  create_payment_view-scoped, IsOwnTerminal, create_payment_view-answers,
}
use acrev360_backend.Billing.Recompute.{lines_of, recompute_bill, recomputed_status, settled_status}
use acrev360_backend.Enforcement.Close.{case_of, close_debt_case_for_bill}
use acrev360_backend.Payments.Fifo.{
  paid_amount, insert_by_position, by_position, fifo_loop, allocate_fifo,
}
use acrev360_backend.Payments.Ledger.{IsBalanced}
use acrev360_backend.Payments.Post.{
  is_ref_taken, is_too_long, create_payment, credit_leftover, issue_receipt, close_if_paid,
  apply_to_bill, record_payment, post_payment,
}
use acrev360_backend.Payments.Request.{PaymentData}
use acrev360_backend.Tests.Sample.{env, user, bill, db, table, from_ok, sample-IsBalanced}

abbrev paying : PaymentData
paying = record {
  bill_id = 1;
  amount = 400000;
  channel_code = Channel.cash;
  bank_txn_ref = "";
  terminal_id = none;
  geo_lat = none;
  geo_lng = none;
  geo_is_numeric = true;
}

abbrev created_payment : Payment
created_payment = record {
  id = 1;
  council = 1;
  payment_ref = payment_number 1;
  bill = 1;
  channel = Channel.cash;
  terminal = none;
  amount = 400000;
  bank_txn_ref = "";
  txn_status = TxnStatus.confirmed;
  posted_by = some 1;
  geo_lat = none;
  geo_lng = none;
  created_on = 100;
}

abbrev created : Answer Payment × Db
unfolding create_payment_view is_visible post_payment record_payment create_payment apply_to_bill
    allocate_fifo fifo_loop paid_amount by_position insert_by_position recompute_bill
    recomputed_status settled_status credit_leftover issue_receipt close_if_paid
    close_debt_case_for_bill is_ref_taken is_too_long audit ◌+ℤ◌
created = from_ok (not_found, db) (create_payment_view env user (some paying) db)

created-ok : create_payment_view env user (some paying) db ≡ ok (done created_payment, created.1)
unfolding created create_payment_view is_visible post_payment record_payment create_payment
    apply_to_bill allocate_fifo fifo_loop paid_amount by_position insert_by_position recompute_bill
    recomputed_status settled_status credit_leftover issue_receipt close_if_paid
    close_debt_case_for_bill is_ref_taken is_too_long audit ◌+ℤ◌
created-ok = refl

create_payment_view-scoped_example :
    (b : Bill) × (visible_bill db user 1 ≡ some b)
    × (is_terminal b.status ≡ false)
    × (find 1 created.1.payments ≡ some created_payment)
    × (created_payment.bill ≡ b.id)
    × (created_payment.council ≡ b.council)
    × (created_payment.amount ≡ env.column paying.amount)
    × (created_payment.channel ≡ paying.channel_code)
    × (created_payment.bank_txn_ref ≡ paying.bank_txn_ref)
    × (created_payment.posted_by ≡ some 1)
    × (created_payment.geo_lat ≡ paying.geo_lat)
    × (created_payment.geo_lng ≡ paying.geo_lng)
    × (created_payment.txn_status ≡ TxnStatus.confirmed)
    × (created_payment.terminal ≡ paying.terminal_id)
    × IsOwnTerminal (some 1) none db
create_payment_view-scoped_example =
    create_payment_view-scoped env user paying db created_payment created.1 sample-IsBalanced
      created-ok

create_payment_view-answers_example :
    ((p : Payment) × (db' : Db) × (create_payment_view env user (some paying) db
        ≡ ok (done p, db')))
    ⊎ (create_payment_view env user (some paying) db ≡ ok (not_found, db))
    ⊎ (create_payment_view env user (some paying) db ≡ ok (bad_request bill_superseded, db))
    ⊎ (create_payment_view env user (some paying) db ≡ ok (bad_request bill_cancelled, db))
    ⊎ (create_payment_view env user (some paying) db ≡ ok (conflict integrity, db))
create_payment_view-answers_example =
    create_payment_view-answers env user paying db refl (omega arith)

-- A bill that the sample bill has superseded.
abbrev prior : Bill
prior = record bill { id = 2; status = BillStatus.superseded; superseded_by = some 1 }

abbrev consolidated : Db
consolidated = record db { bills = table (bill ∷ prior ∷ []) 3 }

abbrev destroyed : Destroyed × Db
unfolding destroy_view remove_bill delete_bill delete_assessments audit is_visible
destroyed = from_ok (no_such_bill, db) (destroy_view user 1 consolidated)

destroyed-ok : destroy_view user 1 consolidated ≡ ok (deleted, destroyed.1)
unfolding destroyed destroy_view remove_bill delete_bill delete_assessments audit is_visible
destroyed-ok = refl

consolidated-IsBalanced : IsBalanced consolidated
consolidated-IsBalanced = record {
  payments_below = tt;
  allocations_below = tt;
  within_amount = tt;
  paid_agrees = (refl, (refl, tt));
}

destroy_view-deletes_example :
    (b : Bill) × (visible_bill consolidated user 1 ≡ some b)
    × All (λ p. (p.bill == 1) ≡ false) consolidated.payments.rows
    × (find 1 destroyed.1.bills ≡ none)
    × (lines_of 1 destroyed.1 ≡ [])
    × (case_of 1 destroyed.1 ≡ none)
    × All
        (λ l.
          exists (λ n. n == l.assessment) (map (λ l. l.assessment) (lines_of 1 consolidated))
          ≡ false)
        destroyed.1.lines.rows
destroy_view-deletes_example = destroy_view-deletes user 1 consolidated destroyed.1 destroyed-ok

destroy_view-strands_example :
    find 2 destroyed.1.bills ≡ some (record prior { superseded_by = none })
destroy_view-strands_example =
    destroy_view-strands user 1 consolidated destroyed.1 prior destroyed-ok refl (omega arith) refl
