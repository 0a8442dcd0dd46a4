-- ===== src/Billing/Recompute.antt =====
-- `recompute_bill` of apps/billing/services.py: a bill's totals and status from its lines.
pub mod Laws
use acrev360_backend.Base.{
  ℕ, Bool, true, false, List, ltb, leb, ◌&&◌, ◌==◌, if◌then◌else◌, select, sum_of,
}
use acrev360_backend.Base.Table.{modify}
use acrev360_backend.Models.Billing.{
  Bill, BillLine, BillStatus, issued, part_paid, paid, overdue, is_terminal, bill_keyed,
}
use acrev360_backend.Store.{Db, Env}

-- `bill.lines.all()`, up to order.
abbrev pub lines_of : ℕ → Db → List BillLine
lines_of bill db = select (λ l. l.bill == bill) db.lines.rows

abbrev pub line_total : List BillLine → ℕ
line_total = sum_of λ l. l.line_amount

abbrev pub arrears_total : List BillLine → ℕ
arrears_total = sum_of λ l. l.arrears_amount

-- The branches on a status that is not terminal.
unfoldable pub settled_status : (today total amount_paid due_date : ℕ) → BillStatus
settled_status today total amount_paid due_date =
    if leb total amount_paid && ltb 0 total
    then paid
    else if ltb due_date today
    then overdue
    else if ltb 0 amount_paid
    then part_paid
    else issued

unfoldable pub recomputed_status : Env → Bill → ℕ → BillStatus
unfolding settled_status
recomputed_status env bill total =
    if is_terminal bill.status
    then bill.status
    else settled_status env.today total bill.amount_paid bill.due_date

-- `bill.save(update_fields=["total_amount", "arrears_amount", "status", "updated_at"])`
abbrev pub save_rollup : Bill → Bill → Bill
save_rollup from row = record row {
  total_amount = from.total_amount;
  arrears_amount = from.arrears_amount;
  status = from.status;
}

-- The caller's bill, with what is re-derived, and the database after the save.
unfoldable pub recompute_bill : Env → Bill → Db → Bill × Db
recompute_bill env bill db =
    let lines = lines_of bill.id db in
    let bill' : Bill = record bill {
      arrears_amount = arrears_total lines;
      total_amount = line_total lines;
      status = recomputed_status env bill (line_total lines);
    } in
    (bill', record db { bills = modify bill.id (save_rollup bill') db.bills })
