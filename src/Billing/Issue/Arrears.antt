-- ===== src/Billing/Issue/Arrears.antt =====
-- `issue_bill`: the lines of the new bill, and the balances that it takes over from open bills.
use acrev360_backend.Base.{
  ℕ, ◌+◌, ◌-◌, not, Option, none, some, List, [], ◌∷◌, leb, ◌==◌, ◌&&◌, if◌then◌else◌, select,
}
use acrev360_backend.Base.Table.{insert, find, modify}
use acrev360_backend.Models.Billing.{
  Assessment, AssessmentStatus, Bill, BillLine, BillStatus, is_open, assessment_keyed, bill_keyed,
  line_keyed,
}
use acrev360_backend.Store.{Db, Env, does_not_exist, Result, ok, err}
use acrev360_backend.Billing.Recompute.{lines_of}
use acrev360_backend.Billing.Lines.{fresh_line, stored_line, save_status}
use acrev360_backend.Enforcement.Close.{close_debt_case_for_bill}
use acrev360_backend.Payments.Fifo.{by_position, paid_amount}

-- `fresh_lines_by_item.setdefault(...)`: the first line of an item stays, as it is in memory.
abbrev pub set_default : ℕ → BillLine → List (ℕ × BillLine) → List (ℕ × BillLine)
set_default item l [] = (item, l) ∷ []
set_default item l ((i, m) ∷ rest) =
    if i == item then (i, m) ∷ rest else (i, m) ∷ set_default item l rest

abbrev pub get_line : ℕ → List (ℕ × BillLine) → Option BillLine
get_line item [] = none
get_line item ((i, m) ∷ rest) = if i == item then some m else get_line item rest

-- The loop that creates the fresh lines: the next position, the lines by item, the database.
unfoldable pub create_lines :
    Env → ℕ → List Assessment → ℕ → List (ℕ × BillLine) → Db → ℕ × List (ℕ × BillLine) × Db
create_lines env bill [] position fresh db = (position, fresh, db)
create_lines env bill (a ∷ rest) position fresh db =
    let line = fresh_line bill a position db.lines.next in
    let created = record db {
      lines = insert (λ n. stored_line env (fresh_line bill a position n)) db.lines;
    } in
    create_lines env bill rest (position + 1) (set_default a.item line fresh)
      (save_status a.id AssessmentStatus.billed created)

-- An item's arrears and the assessment that stands for it.
pub record Arrears : Type 0 where
  pub item : ℕ
  pub amount : ℕ
  pub representative : ℕ

-- `arrears_by_item[item_id] = ... + outstanding`, `representative_assessment[item_id] = ...`
unfoldable pub add_arrears : ℕ → ℕ → ℕ → List Arrears → List Arrears
add_arrears item outstanding assessment [] =
    record { item = item; amount = outstanding; representative = assessment } ∷ []
add_arrears item outstanding assessment (r ∷ rs) =
    if r.item == item
    then record r { amount = r.amount + outstanding; representative = assessment } ∷ rs
    else r ∷ add_arrears item outstanding assessment rs

-- The loop over one prior bill's lines; `outstanding <= 0` is read as `line_amount <= paid_amount`.
unfoldable pub collect_lines : Db → List BillLine → List Arrears → Result (List Arrears)
unfolding add_arrears
collect_lines db [] found = ok found
collect_lines db (l ∷ ls) found =
    let paid = paid_amount db l.id in
    let skip = collect_lines db ls found in
    let more = λ (a : Assessment).
      collect_lines db ls (add_arrears a.item (l.line_amount - paid) a.id found) in
    if leb l.line_amount paid
    then skip
    else elim (find l.assessment db.assessments) [ none ↦ err does_not_exist | some a ↦ more a ]

abbrev pub mark_superseded : ℕ → Bill → Bill
mark_superseded by row = record row { status = BillStatus.superseded; superseded_by = some by }

-- The loop over the open bills.
unfoldable pub supersede : Env → ℕ → List Bill → List Arrears → Db → Result (List Arrears × Db)
unfolding collect_lines close_debt_case_for_bill
supersede env by [] found db = ok (found, db)
supersede env by (prior ∷ rest) found db =
    let marked = record db { bills = modify prior.id (mark_superseded by) db.bills } in
    let closed = close_debt_case_for_bill env prior.id marked in
    let next = λ (more : List Arrears). supersede env by rest more closed in
    elim (collect_lines closed (by_position (lines_of prior.id closed)) found) [
      | err e ↦ err e
      | ok more ↦ next more
    ]

-- `filter(payer=payer, status__in=[ISSUED, PART_PAID, OVERDUE]).exclude(id=bill.id)`
unfoldable pub open_bills : ℕ → ℕ → Db → List Bill
open_bills payer bill db =
    select (λ b. b.payer == payer && is_open b.status && not (b.id == bill)) db.bills.rows

-- A fresh line takes the arrears: `save(update_fields=["arrears_amount", "line_amount"])`.
abbrev pub take_arrears : Env → BillLine → ℕ → BillLine → BillLine
take_arrears env line arrears row = record row {
  arrears_amount = env.column (line.arrears_amount + arrears);
  line_amount = env.column (line.current_amount + (line.arrears_amount + arrears));
}

abbrev pub arrears_line : ℕ → Arrears → ℕ → ℕ → BillLine
arrears_line bill r position id = record {
  id = id;
  bill = bill;
  assessment = r.representative;
  line_amount = r.amount;
  current_amount = 0;
  arrears_amount = r.amount;
  position = position;
}

-- The loop over `arrears_by_item`.
unfoldable pub place_arrears : Env → ℕ → List (ℕ × BillLine) → List Arrears → ℕ → Db → Db
place_arrears env bill fresh [] position db = db
place_arrears env bill fresh (r ∷ rs) position db =
    let onto = λ (line : BillLine).
      place_arrears env bill fresh rs position
        (record db { lines = modify line.id (take_arrears env line r.amount) db.lines }) in
    let alone = place_arrears env bill fresh rs (position + 1) (record db {
      lines = insert (λ n. stored_line env (arrears_line bill r position n)) db.lines;
    }) in
    elim (get_line r.item fresh) [ none ↦ alone | some line ↦ onto line ]
