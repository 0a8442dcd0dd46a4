-- ===== src/Tests/Issue.antt =====
-- The sample payer's bill, consolidated into a new one, and what follows from that.
use acrev360_backend.Base.{◌≡◌, refl, true, false, none, some, List, [], ◌∷◌, arith}
use acrev360_backend.Models.Billing.{Bill, BillLine, assessment_keyed, bill_keyed, line_keyed}
use acrev360_backend.Models.Enforcement.{DebtCase, Bucket, Stage, case_keyed}
use acrev360_backend.Models.Registry.{payer_keyed}
use acrev360_backend.Store.{Db, config_keyed, ok, audit}
use acrev360_backend.Billing.Pricing.{
  active_bands, current_rate, latest, price, price_by_band, price_by_rate, price_by_mode,
  price_in_range, create_draft_assessment,
}
use acrev360_backend.Billing.Recompute.{recompute_bill, recomputed_status, settled_status}
use acrev360_backend.Billing.History.{IsForward, all_arrears_lines, all_arrears_lines-ends}
use acrev360_backend.Billing.Issue.Merge.{
  draft_lines, swept, merge_loop, merge_one, save_kept, cancel_all,
}
use acrev360_backend.Billing.Issue.Arrears.{
  create_lines, supersede, open_bills, collect_lines, add_arrears, place_arrears,
}
use acrev360_backend.Billing.Issue.Run.{
  Request, existing_bill, check_duplicate, gather, due_date_of, roll, finish, build_bill,
  issue_bill,
}
use acrev360_backend.Billing.Issue.Invariants.{issue_bill-IsForward, issue_bill-IsBalanced}
use acrev360_backend.Enforcement.Close.{close_debt_case_for_bill}
use acrev360_backend.Enforcement.Ladder.{escalate_times, Ended, escalate-ends}
use acrev360_backend.Payments.Fifo.{paid_amount, insert_by_position, by_position}
use acrev360_backend.Payments.Ledger.{IsBalanced}
use acrev360_backend.Registry.Payers.{plain_charge}
use acrev360_backend.Tests.Sample.{env, payer, bill, db, table, from_ok, sample-IsBalanced}

abbrev request : Request
request = record {
  council = 1;
  payer = payer;
  due_date = none;
  lines = plain_charge 1 ∷ [];
  bill_all_drafts = false;
  roll_arrears = true;
  actor = 1;
  force = false;
}

abbrev issued : Bill × Db
unfolding issue_bill check_duplicate existing_bill gather draft_lines swept merge_loop merge_one
    save_kept cancel_all due_date_of build_bill create_lines roll supersede open_bills collect_lines
    add_arrears place_arrears finish recompute_bill recomputed_status settled_status paid_amount
    by_position insert_by_position create_draft_assessment active_bands current_rate latest price
    price_by_band price_by_rate price_by_mode price_in_range close_debt_case_for_bill audit
issued = from_ok (bill, db) (issue_bill env request db)

issued-ok : issue_bill env request db ≡ ok issued
unfolding issued issue_bill check_duplicate existing_bill gather draft_lines swept merge_loop
    merge_one save_kept cancel_all due_date_of build_bill create_lines roll supersede open_bills
    collect_lines add_arrears place_arrears finish recompute_bill recomputed_status settled_status
    paid_amount by_position insert_by_position create_draft_assessment active_bands current_rate
    latest price price_by_band price_by_rate price_by_mode price_in_range close_debt_case_for_bill
    audit
issued-ok = refl

sample-IsForward : IsForward db
sample-IsForward = (tt, tt)

issue_bill-IsForward_example : IsForward issued.1
issue_bill-IsForward_example =
    issue_bill-IsForward env request db issued.0 issued.1 (omega arith) sample-IsForward issued-ok

issue_bill-IsBalanced_example : IsBalanced issued.1
issue_bill-IsBalanced_example =
    issue_bill-IsBalanced env request db issued.0 issued.1 (omega arith) tt sample-IsBalanced
      issued-ok

all_arrears_lines-ends_example :
    (ls : List BillLine) × (all_arrears_lines 3 issued.0 issued.1 ≡ some ls)
    × (all_arrears_lines 9 issued.0 issued.1 ≡ some ls)
unfolding issued issue_bill check_duplicate existing_bill gather draft_lines swept merge_loop
    merge_one save_kept cancel_all due_date_of build_bill create_lines roll supersede open_bills
    collect_lines add_arrears place_arrears finish recompute_bill recomputed_status settled_status
    paid_amount by_position insert_by_position create_draft_assessment active_bands current_rate
    latest price price_by_band price_by_rate price_by_mode price_in_range close_debt_case_for_bill
    audit
all_arrears_lines-ends_example =
    all_arrears_lines-ends 3 9 issued.0 issued.1
      (issue_bill-IsForward env request db issued.0 issued.1 (omega arith) sample-IsForward
        issued-ok)
      (omega arith) (omega arith)

abbrev debt_case : DebtCase
debt_case = record {
  id = 1;
  council = 1;
  bill = 1;
  ageing_bucket = Bucket.days_0_30;
  enforcement_stage = Stage.final_notice;
  reminder_count = 2;
  closed_at = none;
}

abbrev in_arrears : Db
in_arrears = record db { cases = table (debt_case ∷ []) 2 }

escalate-ends_example :
    (c : DebtCase) × (db' : Db) × (escalate_times 3 env debt_case none in_arrears ≡ ok (c, db'))
    × Ended env debt_case none c db'
escalate-ends_example = escalate-ends env debt_case none in_arrears refl
