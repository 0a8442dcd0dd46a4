-- ===== src/Payments/Post.antt =====
-- `post_payment` of apps/payments/services.py, in the order in which it writes.
use Prim.Native.String.{String, count as char_count}
use text.Mathlib.Text.{◌==◌ as str_eq}
use acrev360_backend.Base.{
  ℕ, ◌+◌, ◌≡◌, inl, inr, false, arith, Option-cases, Bool, not, Option, none, some, ltb, ◌==◌, ◌&&◌,
  if◌then◌else◌, exists,
}
use acrev360_backend.Base.Int.{ℤ, pos, ◌+ℤ◌}
use acrev360_backend.Base.Table.{insert, find, modify}
use acrev360_backend.Models.Ref.{placeholder, payment_number, receipt_number}
use acrev360_backend.Models.Audit.{payment_overpayment_credited, payment_posted}
use acrev360_backend.Models.Registry.{payer_keyed}
use acrev360_backend.Models.Billing.{Bill, BillStatus, is_terminal, bill_keyed}
use acrev360_backend.Models.Payments.{
  Payment, Channel, TxnStatus, channel_index, payment_keyed, receipt_keyed,
}
use acrev360_backend.Store.{
  Db, Env, bill_superseded, bill_cancelled, does_not_exist, integrity, data_error, Result, ok, err,
  Service, audit,
}
use acrev360_backend.Billing.Recompute.{recompute_bill}
use acrev360_backend.Enforcement.Close.{close_debt_case_for_bill}
use acrev360_backend.Payments.Fifo.{allocate_fifo}

-- The arguments of `post_payment` other than the bill.
pub record Posting : Type 0 where
  pub council : ℕ
  pub channel : Channel
  pub terminal : Option ℕ
  pub amount : ℕ
  pub bank_txn_ref : String
  pub posted_by : Option ℕ
  pub geo_lat : Option ℤ
  pub geo_lng : Option ℤ

-- `uniq_channel_bank_txn_ref_nonblank`: a reference that is not blank funds one payment a channel.
unfoldable pub is_ref_taken : Channel → String → Db → Bool
is_ref_taken channel ref db =
    not (str_eq ref "")
    && exists (λ p. channel_index p.channel == channel_index channel && str_eq p.bank_txn_ref ref)
        db.payments.rows

-- The column of the reference holds 64 characters.
unfoldable pub is_too_long : String → Bool
is_too_long ref = ltb 64 (char_count ref)

-- The amount has the two decimals of its column from here on.
abbrev pub new_payment : Env → Posting → ℕ → ℕ → Payment
new_payment env q bill id = record {
  id = id;
  council = q.council;
  payment_ref = placeholder;
  bill = bill;
  channel = q.channel;
  terminal = q.terminal;
  amount = env.column q.amount;
  bank_txn_ref = q.bank_txn_ref;
  txn_status = TxnStatus.confirmed;
  posted_by = q.posted_by;
  geo_lat = q.geo_lat;
  geo_lng = q.geo_lng;
  created_on = env.today;
}

abbrev pub with_ref : Payment → Payment
with_ref p = record p { payment_ref = payment_number p.id }

-- `Payment.objects.create(...)`, then `finalize_ref`.
unfoldable pub create_payment : Env → Posting → ℕ → Db → Payment × Db
create_payment env q bill db =
    let p = with_ref (new_payment env q bill db.payments.next) in
    (p, record db { payments = modify p.id with_ref (insert (new_payment env q bill) db.payments) })

abbrev pub save_amount_paid : ℕ → Bill → Bill
save_amount_paid paid row = record row { amount_paid = paid }

-- What is left of an overpayment becomes the payer's credit.
unfoldable pub credit_leftover : Posting → Bill → ℕ → Db → Db
unfolding audit
credit_leftover q bill leftover db =
    if ltb 0 leftover
    then audit q.council q.posted_by (payment_overpayment_credited leftover) bill.payer (record db {
      payers =
          modify bill.payer
            (λ row. record row { credit_balance = row.credit_balance +ℤ pos leftover }) db.payers;
    })
    else db

-- `Receipt.objects.create(...)`, then `finalize_ref`. The random `qr_token` is left out.
unfoldable pub issue_receipt : ℕ → Payment → Db → Db
issue_receipt council p db =
    let id = db.receipts.next in
    record db {
      receipts =
          modify id (λ row. record row { receipt_ref = receipt_number row.id })
            (insert
              (λ n. record { id = n; council = council; receipt_ref = placeholder; payment = p.id })
              db.receipts);
    }

unfoldable pub close_if_paid : Env → Bill → Db → Db
unfolding close_debt_case_for_bill
close_if_paid env bill db = elim bill.status [
  | BillStatus.paid ↦ close_debt_case_for_bill env bill.id db
  | _ ↦ db
]

-- The allocation to lines, the save of `amount_paid` and the roll-up: the bill as it then stands, the
-- database and what is left over.
unfoldable pub apply_to_bill : Env → Payment → Bill → Db → Bill × Db × ℕ
apply_to_bill env p bill db =
    let (allocated, applied, leftover) = allocate_fifo p bill.id db in
    let bill1 : Bill = record bill { amount_paid = bill.amount_paid + applied } in
    let (bill2, rolled) = recompute_bill env bill1 (record allocated {
      bills = modify bill.id (save_amount_paid bill1.amount_paid) allocated.bills;
    }) in
    (bill2, rolled, leftover)

-- Everything behind the checks; `bill` is the row that was locked and read again.
unfoldable pub record_payment : Env → Posting → Bill → Db → Payment × Db
record_payment env q bill db =
    let (p, created) = create_payment env q bill.id db in
    let (bill2, rolled, leftover) = apply_to_bill env p bill created in
    let receipted = issue_receipt q.council p (credit_leftover q bill2 leftover rolled) in
    (
      p,
      audit q.council q.posted_by (payment_posted q.amount) p.id
          (close_if_paid env bill2 receipted),
    )

-- `bill` is the caller's copy: its status is what the refusals test, and its id what is locked.
unfoldable pub post_payment : Env → Posting → Bill → Service Payment
post_payment env q bill db =
    let locked : Result (Payment × Db) = elim (find bill.id db.bills) [
      | none ↦ err does_not_exist
      | some row ↦
          if is_too_long q.bank_txn_ref
          then err data_error
          else (if is_ref_taken q.channel q.bank_txn_ref db
              then err integrity
              else ok (record_payment env q row db))
    ] in
    elim bill.status [
      | BillStatus.superseded ↦ err bill_superseded
      | BillStatus.cancelled ↦ err bill_cancelled
      | _ ↦ locked
    ]

-- What a posting that went through has met, and done.
pub record IsPosted (env : Env) (q : Posting) (bill row : Bill) (db : Db) (p : Payment) (db' : Db)
    : Type 0 where
  pub open_status : is_terminal bill.status ≡ false
  pub found : find bill.id db.bills ≡ some row
  pub ref_free : is_ref_taken q.channel q.bank_txn_ref db ≡ false
  pub recorded : record_payment env q row db ≡ (p, db')

pub post_payment-IsPosted :
    (env : Env) (q : Posting) (bill : Bill) (db : Db) (p : Payment) (db' : Db)
    → post_payment env q bill db ≡ ok (p, db')
    → (row : Bill) × IsPosted env q bill row db p db'
unfolding post_payment
post_payment-IsPosted env q bill db p db' e = elim (Option-cases (find bill.id db.bills)) [
  | inl gone ↦ ground arith
  | inr (row, found) ↦ (row, ground arith)
]
