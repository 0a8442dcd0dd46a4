-- ===== src/Api/Payments.antt =====
-- `PaymentViewSet.create` and `.reverse` of apps/payments/api/views.py.
pub mod Laws
use acrev360_backend.Base.{
  ℕ, Bool, true, false, Option, none, some, ◌==◌, ◌&&◌, ◌||◌, if◌then◌else◌, same_ref, first,
}
use acrev360_backend.Base.Table.{find}
use acrev360_backend.Models.Accounts.{AppUser}
use acrev360_backend.Models.Billing.{Bill, bill_keyed}
use acrev360_backend.Models.Payments.{Payment, PosTerminal}
use acrev360_backend.Store.{Db, Env, Error, integrity, type_error, Result, ok, err, Service}
use acrev360_backend.Api.Answers.{
  Answer, done, bad_request, conflict, not_found, invalid, Handler, is_payment_rejected,
  is_visible_bill, visible_bill,
}
use acrev360_backend.Payments.Post.{Posting, post_payment}
use acrev360_backend.Payments.Request.{PaymentData}
use acrev360_backend.Payments.Reverse.{reverse_payment}

-- The terminal that is asked for: none at all, or one of the council; `none` is a 404.
abbrev pub terminal_for : Option ℕ → Option ℕ → Db → Option (Option ℕ)
terminal_for council none db = some none
terminal_for council (some id) db =
    elim (first (λ (t : PosTerminal). t.id == id && same_ref council (some t.council))
      db.terminals.rows) [ none ↦ none | some t ↦ some (some t.id) ]

abbrev pub posting_of : ℕ → AppUser → Option ℕ → PaymentData → Posting
posting_of council user terminal q = record {
  council = council;
  channel = q.channel_code;
  terminal = terminal;
  amount = q.amount;
  bank_txn_ref = q.bank_txn_ref;
  posted_by = some user.id;
  geo_lat = q.geo_lat;
  geo_lng = q.geo_lng;
}

abbrev pub is_integrity : Error → Bool
is_integrity integrity = true
is_integrity _ = false

-- The answer to what the service did.
abbrev pub payment_answer : Db → Result (Payment × Db) → Result (Answer Payment × Db)
payment_answer db (ok (p, db')) = ok (done p, db')
payment_answer db (err e) =
    if is_payment_rejected e
    then ok (bad_request e, db)
    else if is_integrity e
    then ok (conflict e, db)
    else err e

-- A coordinate that is no number stops the payment's row, behind the refusals.
abbrev pub checked : Bool → Result (Payment × Db) → Result (Payment × Db)
checked true r = r
checked false (ok r) = err type_error
checked false (err e) = if is_payment_rejected e then err e else err type_error

-- `PaymentViewSet.create`; the caller's council is the bill's.
unfoldable pub create_payment_view : Env → AppUser → Option PaymentData → Handler Payment
create_payment_view env user none db = ok (invalid, db)
create_payment_view env user (some q) db = elim (visible_bill db user q.bill_id) [
  | none ↦ ok (not_found, db)
  | some bill ↦ elim (terminal_for user.council q.terminal_id db) [
    | none ↦ ok (not_found, db)
    | some terminal ↦ payment_answer db (
        checked q.geo_is_numeric
          (post_payment env (posting_of bill.council user terminal q) bill db))
  ]
]

-- `bill__payer` of the payments' queryset.
abbrev pub sees_bill : Db → AppUser → Option Bill → Bool
sees_bill db user none = false
sees_bill db user (some b) = is_visible_bill db user b

abbrev pub visible_payment : Db → AppUser → ℕ → Option Payment
visible_payment db user id =
    first
      (λ p.
        p.id == id
        && same_ref user.council (some p.council)
        && sees_bill db user (find p.bill db.bills))
      db.payments.rows

-- `PaymentViewSet.reverse`
unfoldable pub reverse_payment_view : Env → AppUser → ℕ → Handler Payment
reverse_payment_view env user id db = elim (visible_payment db user id) [
  | none ↦ ok (not_found, db)
  | some p ↦ elim (reverse_payment env (some user.id) p db) [
    | ok (p', db') ↦ ok (done p', db')
    | err e ↦ if is_payment_rejected e then ok (bad_request e, db) else err e
  ]
]
