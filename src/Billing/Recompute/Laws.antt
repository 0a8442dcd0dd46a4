-- ===== src/Billing/Recompute/Laws.antt =====
-- What the status roll-up decides.
use acrev360_backend.Base.{◌≤◌, ◌<◌, ◌≡◌, ◌↔◌, true, false, arith}
use acrev360_backend.Models.Billing.{Bill, BillStatus, part_paid, paid, overdue, is_terminal}
use acrev360_backend.Store.{Db, Env}
use acrev360_backend.Billing.Recompute.{
  lines_of, line_total, settled_status, recomputed_status, recompute_bill,
}

-- A bill that is not cancelled or superseded is marked paid exactly when it has a positive total
-- that its payments reach; overdue exactly when it is not so paid and its due date has passed; part
-- paid exactly when it is neither, and something has been paid; and issued exactly when it is
-- neither, and nothing has been paid.
pub recompute_bill-status :
    (env : Env) (bill : Bill) (db : Db)
    → is_terminal bill.status ≡ false
    → let new = (recompute_bill env bill db).0 in
      let total = line_total (lines_of bill.id db) in
      let IsCovered = (total ≤ bill.amount_paid) × (0 < total) in
      ((new.status ≡ paid) ↔ IsCovered)
      × ((new.status ≡ overdue) ↔ (¬ IsCovered × (bill.due_date < env.today)))
      × ((new.status ≡ part_paid)
          ↔ (¬ IsCovered × (env.today ≤ bill.due_date) × (0 < bill.amount_paid)))
      × ((new.status ≡ BillStatus.issued)
          ↔ (¬ IsCovered × (env.today ≤ bill.due_date) × (bill.amount_paid ≡ 0)))
unfolding recompute_bill recomputed_status settled_status
recompute_bill-status env bill db open_bill = ground arith

-- A cancelled or superseded bill keeps its status, whatever its lines and payments say.
pub recompute_bill-terminal :
    (env : Env) (bill : Bill) (db : Db)
    → is_terminal bill.status ≡ true
    → (recompute_bill env bill db).0.status ≡ bill.status
unfolding recompute_bill recomputed_status
recompute_bill-terminal env bill db done = ground arith
