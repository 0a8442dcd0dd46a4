-- ===== src/Api/Answers.antt =====
-- What a handler answers, and the rows that the caller's portfolio shows.
use acrev360_backend.Base.{ℕ, Bool, true, false, Option, none, some, ◌==◌, ◌&&◌, same_ref, first}
use acrev360_backend.Base.Table.{find}
use acrev360_backend.Common.Scoping.{is_visible}
use acrev360_backend.Models.Accounts.{AppUser}
use acrev360_backend.Models.Billing.{Bill}
use acrev360_backend.Models.Registry.{Payer, payer_keyed}
use acrev360_backend.Store.{
  Db, Error, bad_quantity, band_required, amount_required, amount_out_of_range, tier_required,
  no_active_rate, empty_bill, line_amount_not_positive, line_amount_below_arrears, last_line,
  duplicate_bill, bill_superseded, bill_cancelled, not_confirmed, line_has_payments, Service,
}

-- 200, 201 or 204 with the result; 400 and 409 with the error; 404; and 400 of a serializer.
pub data Answer {ℓ} (A : Type ℓ) : Type ℓ where
  done : A → Answer A
  bad_request : Error → Answer A
  conflict : Error → Answer A
  not_found : Answer A
  invalid : Answer A

-- A handler that raises is answered with 500.
abbrev pub Handler : Type 0 → Type 0
Handler A = Service (Answer A)

-- `BillingError`, but for `DuplicateBill`
abbrev pub is_billing_error : Error → Bool
is_billing_error bad_quantity = true
is_billing_error band_required = true
is_billing_error amount_required = true
is_billing_error amount_out_of_range = true
is_billing_error tier_required = true
is_billing_error no_active_rate = true
is_billing_error empty_bill = true
is_billing_error line_amount_not_positive = true
is_billing_error line_amount_below_arrears = true
is_billing_error last_line = true
is_billing_error _ = false

-- `PaymentRejected`
abbrev pub is_payment_rejected : Error → Bool
is_payment_rejected bill_superseded = true
is_payment_rejected bill_cancelled = true
is_payment_rejected not_confirmed = true
is_payment_rejected _ = false

-- The errors that the bills' handlers answer with 409: a duplicate bill and a line with allocations.
abbrev pub is_conflict : Error → Bool
is_conflict (duplicate_bill n) = true
is_conflict line_has_payments = true
is_conflict _ = false

abbrev pub sees_payer : Db → AppUser → Option Payer → Bool
sees_payer db user none = false
sees_payer db user (some p) = is_visible db user p

-- The handlers' querysets, without the filters of the query string.
abbrev pub is_visible_bill : Db → AppUser → Bill → Bool
is_visible_bill db user b =
    same_ref user.council (some b.council) && sees_payer db user (find b.payer db.payers)

abbrev pub visible_bill : Db → AppUser → ℕ → Option Bill
visible_bill db user id = first (λ b. b.id == id && is_visible_bill db user b) db.bills.rows
