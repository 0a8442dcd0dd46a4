-- ===== src/Tests/Councils.antt =====
-- Debts, settlements, reconciliation runs and rates of the sample council.
use mathlib.Core.List.{Mem}
use acrev360_backend.Reconciliation.Run.Covered.{uncovered, is_covered, is_match}
use acrev360_backend.Base.{
  ◌==◌, ◌&&◌, ◌≡◌, ◌⊎◌, true, refl, false, none, some, List, [], ◌∷◌, inr, map, select, All,
}
use acrev360_backend.Base.Table.{find}
use acrev360_backend.Models.Billing.{Bill, BillStatus, bill_keyed}
use acrev360_backend.Models.Enforcement.{Bucket, Stage, DebtCase}
use acrev360_backend.Models.Payments.{Channel, Payment, MatchStatus, feed_keyed}
use acrev360_backend.Models.Reconciliation.{Run}
use acrev360_backend.Models.Revenue.{RevenueItem, RateBand, RateMode}
use acrev360_backend.Models.Settlements.{Settlement, SettlementStatus, settlement_keyed}
use acrev360_backend.Store.{Db, ok, audit}
use acrev360_backend.Enforcement.Cases.{
  bucket_for, mark_overdue, age_case, refresh_loop, refresh_debt, escalate,
}
use acrev360_backend.Settlements.Compute.{compute_settlements}
use acrev360_backend.Settlements.Compute.Terms.{AllDue, compute_settlements-terms}
use acrev360_backend.Reconciliation.Match.{is_feed_row}
use acrev360_backend.Reconciliation.Run.{match_run, run_reconciliation}
use acrev360_backend.Reconciliation.Run.Laws.{exception_rows, Concluded, run_reconciliation-outcome}
use acrev360_backend.Reconciliation.Run.Marks.{match_run-marks}
use acrev360_backend.Billing.Pricing.{current_rate, active_bands}
use acrev360_backend.Revenue.Rates.{
  is_draft_of, is_billed_open, is_outstanding_of, retire_revenue_item, change_rate,
}
use acrev360_backend.Revenue.Rates.Laws.{
  open_rates, change_rate-current, retire_revenue_item-IsSettled,
}
use acrev360_backend.Revenue.Bands.{BandSpec, replace_rate_bands, is_valid_spec}
use acrev360_backend.Revenue.Bands.Laws.{IsPriced, replace_rate_bands-opens}
use acrev360_backend.Tests.Sample.{from_ok, env, item, rate, bill, feed_row, db}

abbrev debt_case : DebtCase
debt_case = record {
  id = 1;
  council = 1;
  bill = 1;
  ageing_bucket = Bucket.over_90;
  enforcement_stage = Stage.legal;
  reminder_count = 3;
  closed_at = none;
}

abbrev climbed : DebtCase × Db
unfolding escalate audit
climbed = from_ok (debt_case, db) (escalate env debt_case (some 1) db)

climbing-ok : escalate env debt_case (some 1) db ≡ ok climbed
unfolding climbed escalate audit
climbing-ok = refl

-- The sample council with its bill past due.
abbrev late_bill : Bill
late_bill = record bill { due_date = 60 }

abbrev late_db : Db
late_db = record db { bills = record { rows = late_bill ∷ []; next = 2 } }

late_row :
    find 1 (refresh_debt env 1 none late_db).db.bills
    ≡ some (record late_bill { status = BillStatus.overdue })
unfolding refresh_debt refresh_loop mark_overdue age_case bucket_for audit
late_row = refl

compute_settlements-terms_example :
    AllDue 1 90 120 db
      (select (λ c. c.council == 1 && c.is_active) db.consultants.rows)
      (compute_settlements (λ cs. cs) 1 90 120 1 db).0
compute_settlements-terms_example = compute_settlements-terms (λ cs. cs) 1 90 120 1 db

abbrev settlement : Settlement
settlement = record {
  id = 1;
  council = 1;
  consultant = 1;
  period_start = 60;
  period_end = 89;
  gross_collections = 400000;
  commission_rate = 1000;
  commission_amount = 40000;
  status = SettlementStatus.computed;
  computed_by = 1;
}

run_reconciliation-outcome_example :
    (run : Run) × (db' : Db) × (run_reconciliation 1 Channel.pos 100 1 db ≡ ok (run, db'))
    × Concluded run.status (uncovered 1 Channel.pos 100 db)
    × (exception_rows run.id db'.exceptions.rows
        ≡ map (λ r. some r.id) (uncovered 1 Channel.pos 100 db))
run_reconciliation-outcome_example = run_reconciliation-outcome 1 Channel.pos 100 1 db (tt, tt) refl

match_run-marks_example :
    let feed = (match_run 1 Channel.pos 100 1 db).1.feed in
    ((is_covered 1 Channel.pos 100 db feed_row ≡ false)
      × (find 1 feed ≡ some (record feed_row { match_status = MatchStatus.exception })))
    ⊎ ((p : Payment) × Mem p db.payments.rows
        × (is_match 1 Channel.pos 100 feed_row p ≡ true)
        × (find 1 feed
            ≡ some (record feed_row {
              match_status = MatchStatus.matched;
              matched_payment = some p.id;
            })))
unfolding is_feed_row
match_run-marks_example = match_run-marks 1 Channel.pos 100 1 db feed_row (tt, tt) refl refl

change_rate-current_example :
    let out = change_rate env (item 1) 450000 1 none db in
    (open_rates 1 out.1 ≡ out.0 ∷ [])
    × (current_rate 1 out.1 ≡ some out.0)
    × (out.0.rate_amount ≡ 450000)
change_rate-current_example = change_rate-current env (item 1) 450000 1 none db (inr (rate, refl))

abbrev retired : RevenueItem × Db
unfolding retire_revenue_item is_billed_open audit
retired = from_ok (item 9, db) (retire_revenue_item (item 2) 1 db)

retiring-ok : retire_revenue_item (item 2) 1 db ≡ ok retired
unfolding retired retire_revenue_item is_billed_open audit
retiring-ok = refl

retire_revenue_item-IsSettled_example :
    (retired.0.is_active ≡ false)
    × All (λ a. is_draft_of 2 a ≡ false) db.assessments.rows
    × All (λ a. is_outstanding_of 2 db a ≡ false) db.assessments.rows
    × (retired.1.assessments ≡ db.assessments)
    × (retired.1.bills ≡ db.bills)
    × (retired.1.lines ≡ db.lines)
retire_revenue_item-IsSettled_example =
    retire_revenue_item-IsSettled (item 2) retired.0 1 db retired.1 refl retiring-ok

abbrev specs : List BandSpec
specs =
    record {
      label = "Kiosk";
      rate_mode = some RateMode.range;
      flat_amount = none;
      min_amount = some 100000;
      max_amount = some 700000;
      tiers = [];
    }
    ∷ record {
      label = "Mall";
      rate_mode = some RateMode.flat;
      flat_amount = some 900000;
      min_amount = none;
      max_amount = none;
      tiers = [];
    }
    ∷ []

replace_rate_bands-opens_example :
    (bs : List RateBand) × (db' : Db) × (replace_rate_bands env (item 2) specs 1 none db
      ≡ ok (bs, db'))
    × (active_bands 2 db' ≡ bs)
    × (map (λ b. b.label) bs ≡ map (λ s. s.label) specs)
    × All IsPriced bs
unfolding is_valid_spec
replace_rate_bands-opens_example = replace_rate_bands-opens env (item 2) specs 1 none db refl refl
