-- ===== src/Payments/Fifo.antt =====
-- `_allocate_fifo` of apps/payments/services.py: one payment over a bill's lines, oldest first.
pub mod Laws
use acrev360_backend.Base.{
  ℕ, ◌+◌, ◌-◌, min, Bool, false, Option, none, some, List, [], ◌∷◌, ltb, leb, ◌==◌, ◌&&◌,
  if◌then◌else◌, sum_of,
}
use acrev360_backend.Base.Table.{Table, insert, find}
use acrev360_backend.Models.Billing.{BillLine}
use acrev360_backend.Models.Payments.{Payment, PaymentAllocation, is_confirmed, payment_keyed}
use acrev360_backend.Billing.Recompute.{lines_of}
use acrev360_backend.Store.{Db}

-- `payment__txn_status=CONFIRMED`, through the allocation's foreign key.
abbrev pub is_confirmed_row : Option Payment → Bool
is_confirmed_row none = false
is_confirmed_row (some p) = is_confirmed p.txn_status

abbrev pub counted_on : Table Payment → ℕ → PaymentAllocation → ℕ
counted_on payments line a =
    if a.bill_line == line && is_confirmed_row (find a.payment payments) then a.amount else 0

-- A line's entry of `paid_by_line`, which is also `BillLine.paid_amount`.
unfoldable pub paid_amount : Db → ℕ → ℕ
paid_amount db line = sum_of (counted_on db.payments line) db.allocations.rows

-- `order_by("position", "id")`: rows stand in the order of their ids, and the sort is stable.
unfoldable pub insert_by_position : BillLine → List BillLine → List BillLine
insert_by_position l [] = l ∷ []
insert_by_position l (m ∷ ms) =
    if leb l.position m.position then l ∷ m ∷ ms else m ∷ insert_by_position l ms

unfoldable pub by_position : List BillLine → List BillLine
unfolding insert_by_position
by_position [] = []
by_position (l ∷ ls) = insert_by_position l (by_position ls)

-- `PaymentAllocation.objects.create(...)`
abbrev pub allocation : ℕ → ℕ → ℕ → ℕ → PaymentAllocation
allocation payment line take id = record {
  id = id;
  payment = payment;
  bill_line = line;
  amount = take;
}

-- What the loop carries.
pub record Progress : Type 0 where
  pub table : Table PaymentAllocation
  pub remaining : ℕ
  pub applied : ℕ

abbrev pub take_from : ℕ → (ℕ → ℕ) → BillLine → Progress → Progress
take_from payment paid l s =
    let take = min s.remaining (l.line_amount - paid l.id) in
    record {
      table = insert (allocation payment l.id take) s.table;
      remaining = s.remaining - take;
      applied = s.applied + take;
    }

-- `outstanding <= 0` is read as `line_amount <= paid`: the difference can be negative there.
unfoldable pub fifo_loop : ℕ → (ℕ → ℕ) → List BillLine → Progress → Progress
fifo_loop payment paid [] s = s
fifo_loop payment paid (l ∷ ls) s =
    let skip = fifo_loop payment paid ls s in
    let more = fifo_loop payment paid ls (take_from payment paid l s) in
    if leb s.remaining 0 then s else if leb l.line_amount (paid l.id) then skip else more

-- The database with the new allocations, what was applied and what is left over.
unfoldable pub allocate_fifo : Payment → ℕ → Db → Db × ℕ × ℕ
unfolding by_position
allocate_fifo payment bill db =
    let s =
      fifo_loop payment.id (paid_amount db) (by_position (lines_of bill db))
        (record { table = db.allocations; remaining = payment.amount; applied = 0 }) in
    (record db { allocations = s.table }, s.applied, s.remaining)
