-- ===== src/Payments/Ledger.antt =====
-- The invariant of the money tables: what a bill is marked as paid is what the confirmed payments
-- for it have been allocated to lines, and no payment is allocated beyond its amount.
pub mod Post
pub mod Reverse
use acrev360_backend.Base.{
  ℕ, ◌≤◌, ◌<◌, ◌≡◌, Option, none, some, List, ◌==◌, ◌&&◌, if◌then◌else◌, sum_of, All,
}
use acrev360_backend.Base.Table.{Table, find, IsBelow, modify}
use acrev360_backend.Base.Table.Laws.{modify_rows-All}
use acrev360_backend.Billing.Recompute.{save_rollup}
use acrev360_backend.Models.Billing.{Bill, bill_keyed}
use acrev360_backend.Models.Payments.{Payment, PaymentAllocation, is_confirmed, payment_keyed}
use acrev360_backend.Payments.Reverse.{of_payment}
use acrev360_backend.Store.{Db}

-- What an allocation of a payment adds to a bill.
abbrev pub share : ℕ → ℕ → Option Payment → ℕ
share bill amount none = 0
share bill amount (some p) = if p.bill == bill && is_confirmed p.txn_status then amount else 0

abbrev pub paid_for : Table Payment → ℕ → PaymentAllocation → ℕ
paid_for payments bill a = share bill a.amount (find a.payment payments)

abbrev pub bill_paid : Table Payment → List PaymentAllocation → ℕ → ℕ
bill_paid payments allocations bill = sum_of (paid_for payments bill) allocations

pub record IsLedger (payments : Table Payment) (allocations : Table PaymentAllocation)
    (bills : Table Bill) : Type 0 where
  pub payments_below : IsBelow payments.next payments.rows
  pub allocations_below : All (λ a. a.payment < payments.next) allocations.rows
  pub within_amount : All (λ p. sum_of (of_payment p.id) allocations.rows ≤ p.amount) payments.rows
  pub paid_agrees : All (λ b. b.amount_paid ≡ bill_paid payments allocations.rows b.id) bills.rows

abbrev pub IsBalanced : Db → Type 0
IsBalanced db = IsLedger db.payments db.allocations db.bills

-- The tables of the invariant are the same in both.
abbrev pub SameTables : Db → Db → Type 0
SameTables db db' =
    (db'.payments ≡ db.payments) × (db'.allocations ≡ db.allocations) × (db'.bills ≡ db.bills)

pub SameTables-IsBalanced : (db db' : Db) → SameTables db db' → IsBalanced db → IsBalanced db'
SameTables-IsBalanced db db' (p, a, b) h = rw (p, a, b) h

-- The roll-up of a bill writes nothing that the invariant reads.
pub IsLedger-rollup :
    {payments : Table Payment} {allocations : Table PaymentAllocation} {bills : Table Bill} (id : ℕ)
    (from : Bill)
    → IsLedger payments allocations bills
    → IsLedger payments allocations (modify id (save_rollup from) bills)
IsLedger-rollup {bills = bills} id from h = record {
  payments_below = h.payments_below;
  allocations_below = h.allocations_below;
  within_amount = h.within_amount;
  paid_agrees = modify_rows-All _ id (save_rollup from) bills.rows (λ b e. e) h.paid_agrees;
}
