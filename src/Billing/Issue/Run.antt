-- ===== src/Billing/Issue/Run.antt =====
-- `issue_bill`: the duplicate check, the new bill and its numbers.
use acrev360_backend.Base.{
  ℕ, ◌+◌, Bool, true, false, not, Option, none, some, List, [], ◌∷◌, ◌++◌, ◌==◌, ◌&&◌,
  if◌then◌else◌, length, first,
}
use acrev360_backend.Base.Table.{insert, find, modify}
use acrev360_backend.Models.Ref.{placeholder, bill_number}
use acrev360_backend.Models.Audit.{bill_issued, bill_issued_forced_duplicate}
use acrev360_backend.Models.Billing.{
  Assessment, Bill, BillLine, BillStatus, is_terminal, bill_keyed,
}
use acrev360_backend.Models.Registry.{Payer, payer_keyed}
use acrev360_backend.Store.{
  Config, config_keyed, Db, Env, duplicate_bill, empty_bill, does_not_exist, Result, ok, err,
  Service, audit,
}
use acrev360_backend.Billing.Recompute.{recompute_bill}
use acrev360_backend.Billing.Pricing.{Charge}
use acrev360_backend.Billing.Issue.Merge.{draft_lines, swept, merge_loop, save_kept, cancel_all}
use acrev360_backend.Billing.Issue.Arrears.{create_lines, supersede, open_bills, place_arrears}

-- The arguments of `issue_bill`.
pub record Request : Type 0 where
  pub council : ℕ
  pub payer : Payer
  pub due_date : Option ℕ
  pub lines : List Charge
  pub bill_all_drafts : Bool
  pub roll_arrears : Bool
  pub actor : ℕ
  pub force : Bool

-- A bill of the payer that was created this year and is not terminal.
unfoldable pub existing_bill : Env → ℕ → Db → Option Bill
existing_bill env payer db =
    first
      (λ b.
        b.payer == payer
        && env.year_of b.created_on == env.year_of env.today
        && not (is_terminal b.status))
      db.bills.rows

-- The duplicate check: what was bypassed, if the request forces it.
unfoldable pub check_duplicate : Env → Request → Db → Result (Option Bill)
check_duplicate env q db =
    if q.roll_arrears then ok none else elim (existing_bill env q.payer.id db) [
      | none ↦ ok none
      | some b ↦ if q.force then ok (some b) else err (duplicate_bill b.id)
    ]

abbrev pub new_bill : Env → Request → ℕ → ℕ → Bill
new_bill env q due_date id = record {
  id = id;
  council = q.council;
  bill_ref = placeholder;
  payer = q.payer.id;
  total_amount = 0;
  amount_paid = 0;
  arrears_amount = 0;
  status = BillStatus.issued;
  due_date = due_date;
  superseded_by = none;
  issued_by = q.actor;
  created_on = env.today;
}

-- The kept assessments and the database once the charges are drafted, swept in, merged and saved.
unfoldable pub gather : Env → Request → Service (List Assessment)
gather env q db = elim (draft_lines env q.payer q.actor q.lines db) [
  | err e ↦ err e
  | ok (drafted, db1) ↦
      let all = if q.bill_all_drafts then drafted ++ swept q.payer drafted db1 else drafted in
      let (kept, superseded) = merge_loop all [] [] in
      ok (kept, cancel_all superseded (save_kept env kept db1))
]

-- `due_date`, or today and the council's `bill_due_days`.
unfoldable pub due_date_of : Env → Request → Db → Result ℕ
due_date_of env q db = elim q.due_date [
  | some d ↦ ok d
  | none ↦ elim (find q.payer.council db.configs) [
    | none ↦ err does_not_exist
    | some c ↦ ok (env.today + c.bill_due_days)
  ]
]

-- The consolidation, where it is asked for: how many bills were superseded, and the database.
unfoldable pub roll : Env → Request → ℕ → ℕ → List (ℕ × BillLine) → Service ℕ
roll env q bill position fresh db =
    if q.roll_arrears
    then (let priors = open_bills q.payer.id bill db in
        elim (supersede env bill priors [] db) [
          | err e ↦ err e
          | ok (arrears, db1) ↦
              ok (length priors, place_arrears env bill fresh arrears position db1)
        ])
    else ok (0, db)

-- The reference, the roll-up and the audit entries.
unfoldable pub finish : Env → Request → Option Bill → Bill → ℕ → Config → Db → Bill × Db
finish env q bypassed bill superseded config db =
    let bill1 : Bill = record bill {
      bill_ref = bill_number config.bill_ref_prefix (env.year_of env.today) bill.id;
    } in
    let numbered = record db {
      bills = modify bill.id (λ row. record row { bill_ref = bill1.bill_ref }) db.bills;
    } in
    let (bill2, rolled) = recompute_bill env bill1 numbered in
    let logged =
      audit q.council (some q.actor) (bill_issued bill2.total_amount superseded) bill2.id rolled in
    (
      bill2,
      elim bypassed [
        | none ↦ logged
        | some old ↦
            audit q.council (some q.actor) (bill_issued_forced_duplicate old.id) bill2.id logged
      ],
    )

-- The bill with its fresh lines and its arrears, behind the checks.
unfoldable pub build_bill : Env → Request → Option Bill → List Assessment → ℕ → Service Bill
build_bill env q bypassed kept due_date db =
    let bill = new_bill env q due_date db.bills.next in
    let opened = record db { bills = insert (new_bill env q due_date) db.bills } in
    let (position, fresh, lined) = create_lines env bill.id kept 0 [] opened in
    elim (roll env q bill.id position fresh lined) [
      | err e ↦ err e
      | ok (superseded, rolled) ↦ elim (find q.council rolled.configs) [
        | none ↦ err does_not_exist
        | some config ↦ ok (finish env q bypassed bill superseded config rolled)
      ]
    ]

abbrev pub is_empty : List Assessment → Bool
is_empty [] = true
is_empty (_ ∷ _) = false

unfoldable pub issue_bill : Env → Request → Service Bill
issue_bill env q db = elim (find q.payer.id db.payers) [
  | none ↦ err does_not_exist
  | some _ ↦ elim (check_duplicate env q db) [
    | err e ↦ err e
    | ok bypassed ↦ elim (gather env q db) [
      | err e ↦ err e
      | ok (kept, gathered) ↦
          if is_empty kept && not q.roll_arrears
          then err empty_bill
          else elim (due_date_of env q gathered) [
            | err e ↦ err e
            | ok due_date ↦ build_bill env q bypassed kept due_date gathered
          ]
    ]
  ]
]
