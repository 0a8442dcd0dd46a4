-- ===== src/Tests/Billing.antt =====
-- Charges priced, merged, added to the sample bill and consolidated.
use acrev360_backend.Base.{
  ℕ, ◌≡◌, ◌≢◌, ◌↔◌, ◌+◌, ◌≤◌, ◌<◌, refl, none, some, arith, List, [], ◌∷◌, sum_of,
}
use mathlib.Core.List.{cons≢nil}
use acrev360_backend.Models.Billing.{
  Assessment, AssessmentStatus, BillStatus, BillLine, bill_keyed, line_keyed,
}
use acrev360_backend.Models.Revenue.{RateBand}
use acrev360_backend.Store.{Db, ok, audit}
use acrev360_backend.Billing.Recompute.{
  recompute_bill, recomputed_status, settled_status, lines_of, line_total,
}
use acrev360_backend.Billing.Recompute.Laws.{recompute_bill-status}
use acrev360_backend.Billing.Pricing.{
  Charge, active_bands, latest, current_rate, price_in_range, price_by_mode, price_by_band,
  price_by_rate, price, times, create_draft_assessment,
}
use acrev360_backend.Billing.Pricing.Laws.{IsAllowed, create_draft_assessment-IsAllowed}
use acrev360_backend.Billing.Lines.{
  erase_line, delete_bill_line, merge_into_line, next_position, append_line, add_bill_line,
  write_line, update_bill_line,
}
use acrev360_backend.Billing.Lines.Laws.{
  AllSplit, add_bill_line-AllSplit, update_bill_line-AllSplit,
}
use acrev360_backend.Billing.Issue.Arrears.{
  Arrears, add_arrears, collect_lines, supersede, open_bills,
}
use acrev360_backend.Billing.Issue.ArrearsLaws.{carried, supersede-carried, supersede-open_bills}
use acrev360_backend.Billing.Issue.Merge.{merge_loop}
use acrev360_backend.Billing.Issue.MergeLaws.{amounts, quantities, IsDistinct, merge_loop-keeps}
use acrev360_backend.Enforcement.Close.{close_debt_case_for_bill}
use acrev360_backend.Payments.Fifo.{paid_amount, insert_by_position, by_position}
use acrev360_backend.Payments.Effects.{due}
use acrev360_backend.Tests.Sample.{
  from_ok, env, env-IsRounding, payer, band, assessment, bill, line, db,
}

abbrev flat_charge : Charge
flat_charge = record {
  item = 1;
  quantity = 200;
  asset = none;
  rate_band = none;
  rate_tier = none;
  amount_override = none;
}

abbrev band_charge : Charge
band_charge = record {
  item = 2;
  quantity = 150;
  asset = none;
  rate_band = some band;
  rate_tier = none;
  amount_override = some 500000;
}

abbrev drafted : Assessment × Db
unfolding create_draft_assessment price price_by_rate price_by_band price_by_mode price_in_range
    active_bands current_rate latest
drafted =
    from_ok (assessment 9 2 AssessmentStatus.draft, db)
      (create_draft_assessment env payer band_charge 1 db)

drafting-ok : create_draft_assessment env payer band_charge 1 db ≡ ok drafted
unfolding drafted create_draft_assessment price price_by_rate price_by_band price_by_mode
    price_in_range active_bands current_rate latest
drafting-ok = refl

has_bands : active_bands 2 db ≢ []
unfolding active_bands
has_bands e = cons≢nil e

create_draft_assessment-IsAllowed_example :
    (b : RateBand) × (unit : ℕ) × (band_charge.rate_band ≡ some b)
    × (b.item ≡ 2)
    × (b.effective_to ≡ none)
    × IsAllowed band_charge b unit
    × (drafted.0.amount ≡ times unit 150)
create_draft_assessment-IsAllowed_example =
    create_draft_assessment-IsAllowed env payer band_charge 1 db drafted.0 drafted.1 has_bands
      drafting-ok

sample-AllSplit : AllSplit env db
sample-AllSplit =
    (record { total = refl; storable = refl }, (record { total = refl; storable = refl }, tt))

abbrev added : BillLine × Db
unfolding add_bill_line merge_into_line append_line next_position recompute_bill recomputed_status
    settled_status by_position insert_by_position audit create_draft_assessment price price_by_rate
    price_by_band price_by_mode price_in_range active_bands current_rate latest
added = from_ok (line 9 0 0, db) (add_bill_line env bill flat_charge 1 db)

adding-ok : add_bill_line env bill flat_charge 1 db ≡ ok added
unfolding added add_bill_line merge_into_line append_line next_position recompute_bill
    recomputed_status settled_status by_position insert_by_position audit create_draft_assessment
    price price_by_rate price_by_band price_by_mode price_in_range active_bands current_rate latest
adding-ok = refl

add_bill_line-AllSplit_example : AllSplit env added.1
add_bill_line-AllSplit_example =
    add_bill_line-AllSplit env env-IsRounding bill flat_charge 1 db added.0 added.1
      ((λ e. omega arith, tt), (tt, tt)) sample-AllSplit adding-ok

abbrev edited : BillLine × Db
unfolding update_bill_line write_line recompute_bill recomputed_status settled_status audit
edited = from_ok (line 9 0 0, db) (update_bill_line env (line 1 300000 0) 450000 1 db)

editing-ok : update_bill_line env (line 1 300000 0) 450000 1 db ≡ ok edited
unfolding edited update_bill_line write_line recompute_bill recomputed_status settled_status audit
editing-ok = refl

update_bill_line-AllSplit_example : AllSplit env edited.1
update_bill_line-AllSplit_example =
    update_bill_line-AllSplit env env-IsRounding (line 1 300000 0) 450000 1 db edited.0 edited.1
      (λ e. refl, (λ e. absurd (omega (arith, e)), tt)) sample-AllSplit editing-ok

abbrev consolidated : List Arrears × Db
unfolding supersede collect_lines add_arrears open_bills by_position insert_by_position paid_amount
    close_debt_case_for_bill
consolidated = from_ok ([], db) (supersede env 7 (open_bills 1 7 db) [] db)

consolidating-ok : supersede env 7 (open_bills 1 7 db) [] db ≡ ok consolidated
unfolding consolidated supersede collect_lines add_arrears open_bills by_position insert_by_position
    paid_amount close_debt_case_for_bill
consolidating-ok = refl

supersede-carried_example :
    carried consolidated.0 ≡ 0 + sum_of (λ b. due b.id db) (open_bills 1 7 db)
supersede-carried_example =
    supersede-carried env 7 (open_bills 1 7 db) [] db consolidated.0 consolidated.1 consolidating-ok

supersede-open_bills_example : open_bills 1 7 consolidated.1 ≡ []
supersede-open_bills_example =
    supersede-open_bills env 1 7 db consolidated.0 consolidated.1 consolidating-ok

-- Two charges of one item and one of another.
abbrev gathered : List Assessment
gathered =
    assessment 1 1 AssessmentStatus.draft
    ∷ assessment 2 3 AssessmentStatus.draft
    ∷ assessment 3 1 AssessmentStatus.draft
    ∷ []

merge_loop-keeps_example :
    let kept = (merge_loop gathered [] []).0 in
    (amounts kept ≡ amounts gathered) × (quantities kept ≡ quantities gathered) × IsDistinct kept
merge_loop-keeps_example = merge_loop-keeps gathered

recompute_bill-status_example :
    let new = (recompute_bill env bill db).0 in
    let total = line_total (lines_of bill.id db) in
    let IsCovered = (total ≤ bill.amount_paid) × (0 < total) in
    ((new.status ≡ BillStatus.paid) ↔ IsCovered)
    × ((new.status ≡ BillStatus.overdue) ↔ (¬ IsCovered × (bill.due_date < env.today)))
    × ((new.status ≡ BillStatus.part_paid)
        ↔ (¬ IsCovered × (env.today ≤ bill.due_date) × (0 < bill.amount_paid)))
    × ((new.status ≡ BillStatus.issued)
        ↔ (¬ IsCovered × (env.today ≤ bill.due_date) × (bill.amount_paid ≡ 0)))
recompute_bill-status_example = recompute_bill-status env bill db refl

abbrev erased : Db
unfolding delete_bill_line erase_line recompute_bill recomputed_status settled_status audit
erased = from_ok db (delete_bill_line env (line 2 200000 1) 1 db)

erasing-ok : delete_bill_line env (line 2 200000 1) 1 db ≡ ok erased
unfolding erased delete_bill_line erase_line recompute_bill recomputed_status settled_status audit
erasing-ok = refl
