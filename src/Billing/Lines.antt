-- ===== src/Billing/Lines.antt =====
-- `add_bill_line`, `update_bill_line` and `delete_bill_line` of apps/billing/services.py.
pub mod Laws
pub mod Order
pub mod Deletion
use acrev360_backend.Base.{
  ℕ, ◌+◌, ◌-◌, Bool, Option, none, some, List, [], ◌∷◌, ltb, leb, ◌==◌, ◌&&◌, if◌then◌else◌,
  same_ref, value_or, length, first, exists,
}
use acrev360_backend.Base.Table.{insert, find, modify, remove}
use acrev360_backend.Models.Audit.{
  bill_line_merged, bill_line_added, bill_line_edited, bill_line_deleted,
}
use acrev360_backend.Models.Billing.{
  Assessment, AssessmentStatus, Bill, BillLine, assessment_keyed, bill_keyed, line_keyed,
}
use acrev360_backend.Models.Registry.{payer_keyed}
use acrev360_backend.Store.{
  Db, Env, line_amount_not_positive, line_amount_below_arrears, line_has_payments, last_line,
  does_not_exist, Result, ok, err, Service, audit,
}
use acrev360_backend.Billing.Recompute.{lines_of, recompute_bill}
use acrev360_backend.Billing.Pricing.{Charge, id_of_band, id_of_tier, create_draft_assessment}
use acrev360_backend.Payments.Fifo.{by_position}

-- The filter of `existing_line`: same item, and the band and tier that the caller passed.
abbrev pub cites : Charge → Db → BillLine → Bool
cites c db l = elim (find l.assessment db.assessments) [
  | none ↦ Bool.false
  | some a ↦
      a.item == c.item
      && same_ref a.rate_band (id_of_band c.rate_band)
      && same_ref a.rate_tier (id_of_tier c.rate_tier)
]

-- `save(update_fields=["quantity", "amount"])`
abbrev pub save_assessment : Env → Assessment → Db → Db
save_assessment env a db = record db {
  assessments =
      modify a.id (λ row. record row { quantity = a.quantity; amount = env.column a.amount })
        db.assessments;
}

abbrev pub set_status : AssessmentStatus → Assessment → Assessment
set_status s a = record a { status = s }

-- `assessment.status = ...; assessment.save(update_fields=["status"])`
abbrev pub save_status : ℕ → AssessmentStatus → Db → Db
save_status assessment s db = record db {
  assessments = modify assessment (set_status s) db.assessments;
}

-- A line as a `create` or a `save` stores its amounts.
abbrev pub stored_line : Env → BillLine → BillLine
stored_line env l = record l {
  line_amount = env.column l.line_amount;
  current_amount = env.column l.current_amount;
  arrears_amount = env.column l.arrears_amount;
}

-- `save(update_fields=["current_amount", "line_amount"])` from the object in memory.
abbrev pub save_amounts : Env → BillLine → BillLine → BillLine
save_amounts env from row = record row {
  current_amount = env.column from.current_amount;
  line_amount = env.column from.line_amount;
}

abbrev pub save_line : Env → BillLine → Db → Db
save_line env l db = record db { lines = modify l.id (save_amounts env l) db.lines }

abbrev pub max_position : List BillLine → Option ℕ
max_position [] = none
max_position (l ∷ ls) = elim (max_position ls) [
  | none ↦ some l.position
  | some m ↦ some (if ltb l.position m then m else l.position)
]

-- `(Max("position") or -1) + 1`: a maximum of 0 is as good as none to Python's `or`.
unfoldable pub next_position : List BillLine → ℕ
next_position ls = elim (max_position ls) [ none ↦ 0 | some m ↦ if m == 0 then 0 else m + 1 ]

abbrev pub fresh_line : ℕ → Assessment → ℕ → ℕ → BillLine
fresh_line bill a position id = record {
  id = id;
  bill = bill;
  assessment = a.id;
  line_amount = a.amount;
  current_amount = a.amount;
  arrears_amount = 0;
  position = position;
}

-- The line with a new current part, and with a new total.
abbrev pub with_current : ℕ → BillLine → BillLine
with_current current line = record line {
  current_amount = current;
  line_amount = current + line.arrears_amount;
}

abbrev pub with_total : ℕ → BillLine → BillLine
with_total line_amount line = record line {
  current_amount = line_amount - line.arrears_amount;
  line_amount = line_amount;
}

-- The charge is folded into a line that is there.
unfoldable pub merge_into_line :
    Env → Bill → BillLine → Assessment → Assessment → ℕ → Db → BillLine × Db
merge_into_line env bill line existing added actor db =
    let merged : Assessment = record existing {
      quantity = existing.quantity + added.quantity;
      amount = existing.amount + added.amount;
    } in
    let line' = with_current merged.amount line in
    let saved =
      save_status added.id AssessmentStatus.cancelled
        (save_line env line' (save_assessment env merged db)) in
    let recomputed = (recompute_bill env bill saved).1 in
    (
      line',
      audit bill.council (some actor)
          (bill_line_merged line.id added.quantity added.amount line'.line_amount) bill.id
          recomputed,
    )

-- The charge becomes a line of its own.
unfoldable pub append_line : Env → Bill → Assessment → ℕ → Db → BillLine × Db
append_line env bill added actor db =
    let billed = save_status added.id AssessmentStatus.billed db in
    let position = next_position (lines_of bill.id billed) in
    let line = fresh_line bill.id added position db.lines.next in
    let created = record billed {
      lines = insert (λ n. stored_line env (fresh_line bill.id added position n)) billed.lines;
    } in
    let recomputed = (recompute_bill env bill created).1 in
    (
      line,
      audit bill.council (some actor) (bill_line_added line.id line.line_amount) bill.id recomputed,
    )

unfoldable pub add_bill_line : Env → Bill → Charge → ℕ → Service BillLine
add_bill_line env bill c actor db = elim (find bill.payer db.payers) [
  | none ↦ err does_not_exist
  | some payer ↦ elim (create_draft_assessment env payer c actor db) [
    | err e ↦ err e
    | ok (added, drafted) ↦
        elim (first (cites c drafted) (by_position (lines_of bill.id drafted))) [
          | none ↦ ok (append_line env bill added actor drafted)
          | some line ↦ elim (find line.assessment drafted.assessments) [
            | none ↦ err does_not_exist
            | some existing ↦ ok (merge_into_line env bill line existing added actor drafted)
          ]
        ]
  ]
]

unfoldable pub write_line : Env → BillLine → Assessment → Bill → ℕ → ℕ → Db → BillLine × Db
write_line env line assessment bill line_amount actor db =
    let line' = with_total line_amount line in
    let saved = save_line env line' db in
    let priced = record saved {
      assessments =
          modify assessment.id (λ a. record a { amount = env.column line'.current_amount })
            saved.assessments;
    } in
    let recomputed = (recompute_bill env bill priced).1 in
    (
      line',
      audit bill.council (some actor) (bill_line_edited line.id line.line_amount line_amount)
          bill.id recomputed,
    )

-- `line` is the caller's copy; its assessment and bill are read from the database.
unfoldable pub update_bill_line : Env → BillLine → ℕ → ℕ → Service BillLine
update_bill_line env line line_amount actor db =
    if leb line_amount 0
    then err line_amount_not_positive
    else if ltb line_amount line.arrears_amount
    then err line_amount_below_arrears
    else elim (find line.assessment db.assessments) [
      | none ↦ err does_not_exist
      | some assessment ↦ elim (find line.bill db.bills) [
        | none ↦ err does_not_exist
        | some bill ↦ ok (write_line env line assessment bill line_amount actor db)
      ]
    ]

unfoldable pub erase_line : Env → BillLine → Bill → ℕ → Db → Db
erase_line env line bill actor db =
    let cancelled = save_status line.assessment AssessmentStatus.cancelled db in
    let erased = record cancelled { lines = remove line.id cancelled.lines } in
    let recomputed = (recompute_bill env bill erased).1 in
    audit bill.council (some actor) (bill_line_deleted line.id) bill.id recomputed

unfoldable pub delete_bill_line : Env → BillLine → ℕ → Db → Result Db
delete_bill_line env line actor db = elim (find line.bill db.bills) [
  | none ↦ err does_not_exist
  | some bill ↦
      if exists (λ a. a.bill_line == line.id) db.allocations.rows
      then err line_has_payments
      else if leb (length (lines_of bill.id db)) 1
      then err last_line
      else ok (erase_line env line bill actor db)
]
