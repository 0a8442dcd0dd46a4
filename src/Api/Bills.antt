-- ===== src/Api/Bills.antt =====
-- The handlers of `BillViewSet` of apps/billing/api/views.py that write.
pub mod Laws
use acrev360_backend.Base.{
  ℕ, Bool, true, false, not, Option, none, some, List, [], ◌∷◌, ◌==◌, ◌&&◌, ◌||◌, if◌then◌else◌,
  same_ref, select, first, exists, map,
}
use acrev360_backend.Base.Table.{Table, find, find_row}
use acrev360_backend.Common.Scoping.{is_visible}
use acrev360_backend.Models.Accounts.{AppUser}
use acrev360_backend.Models.Audit.{bill_deleted}
use acrev360_backend.Models.Billing.{Bill, BillLine, line_keyed, assessment_keyed}
use acrev360_backend.Models.Registry.{Payer}
use acrev360_backend.Models.Revenue.{RevenueItem, RateBand, RateTier, band_keyed}
use acrev360_backend.Store.{Db, Env, Error, protected, Result, ok, err, Service, audit}
use acrev360_backend.Api.Answers.{
  Answer, done, bad_request, conflict, not_found, Handler, is_billing_error, is_conflict,
  is_visible_bill, visible_bill,
}
use acrev360_backend.Billing.Pricing.{Charge}
use acrev360_backend.Billing.Recompute.{lines_of}
use acrev360_backend.Billing.Lines.{add_bill_line, update_bill_line, delete_bill_line}
use acrev360_backend.Billing.Issue.Run.{Request, issue_bill}

-- An entry of the request's lines, validated.
pub record Entry : Type 0 where
  pub revenue_item_id : ℕ
  pub quantity : ℕ
  pub rate_band_id : Option ℕ
  pub rate_tier_id : Option ℕ
  pub amount_override : Option ℕ

abbrev pub item_of : Option ℕ → ℕ → Db → Option RevenueItem
item_of council id db =
    first (λ (i : RevenueItem). i.id == id && same_ref council (some i.council) && i.is_active)
      db.items.rows

-- The band of the item with that id: `some none` where none is asked for, `none` is a 404.
abbrev pub band_for : ℕ → Option ℕ → Db → Option (Option RateBand)
band_for item none db = some none
band_for item (some id) db =
    elim (first (λ (b : RateBand). b.id == id && b.item == item) db.bands.rows) [
      | none ↦ none
      | some b ↦ some (some b)
    ]

abbrev pub is_band_of : ℕ → Option RateBand → Bool
is_band_of item none = false
is_band_of item (some b) = b.item == item

abbrev pub tier_for : ℕ → Option ℕ → Db → Option (Option RateTier)
tier_for item none db = some none
tier_for item (some id) db =
    elim (first (λ (t : RateTier). t.id == id && is_band_of item (find t.band db.bands))
      db.tiers.rows) [ none ↦ none | some t ↦ some (some t) ]

abbrev pub charge_with : ℕ → Entry → Option RateBand → Option RateTier → Charge
charge_with item entry band tier = record {
  item = item;
  quantity = entry.quantity;
  asset = none;
  rate_band = band;
  rate_tier = tier;
  amount_override = entry.amount_override;
}

-- An entry's item, then `_resolve_band_and_tier`; none is a 404.
unfoldable pub resolve_charge : Option ℕ → Entry → Db → Option Charge
resolve_charge council entry db = elim (item_of council entry.revenue_item_id db) [
  | none ↦ none
  | some item ↦ elim (band_for item.id entry.rate_band_id db) [
    | none ↦ none
    | some band ↦ elim (tier_for item.id entry.rate_tier_id db) [
      | none ↦ none
      | some tier ↦ some (charge_with item.id entry band tier)
    ]
  ]
]

unfoldable pub resolve_charges : Option ℕ → List Entry → Db → Option (List Charge)
unfolding resolve_charge
resolve_charges council [] db = some []
resolve_charges council (entry ∷ entries) db = elim (resolve_charge council entry db) [
  | none ↦ none
  | some c ↦ elim (resolve_charges council entries db) [ none ↦ none | some cs ↦ some (c ∷ cs) ]
]

-- What `IssueBillSerializer` has validated.
pub record IssueData : Type 0 where
  pub payer_id : ℕ
  pub due_date : Option ℕ
  pub lines : List Entry
  pub bill_all_drafts : Bool
  pub roll_arrears : Bool
  pub force : Bool

abbrev pub visible_payer : Db → AppUser → ℕ → Option Payer
visible_payer db user id =
    first
      (λ (p : Payer). p.id == id && same_ref user.council (some p.council) && is_visible db user p)
      db.payers.rows

abbrev pub issue_request : AppUser → Payer → List Charge → IssueData → Request
issue_request user payer charges q = record {
  council = payer.council;
  payer = payer;
  due_date = q.due_date;
  lines = charges;
  bill_all_drafts = q.bill_all_drafts;
  roll_arrears = q.roll_arrears;
  actor = user.id;
  force = q.force;
}

-- The answer to what a billing service did.
abbrev pub billing_answer {ℓ} : {A : Type ℓ} → Db → Result (A × Db) → Result (Answer A × Db)
billing_answer db (ok (a, db')) = ok (done a, db')
billing_answer db (err e) =
    if is_conflict e
    then ok (conflict e, db)
    else if is_billing_error e
    then ok (bad_request e, db)
    else err e

-- `BillViewSet.create`
unfoldable pub create_bill_view : Env → AppUser → IssueData → Handler Bill
unfolding resolve_charges
create_bill_view env user q db = elim (visible_payer db user q.payer_id) [
  | none ↦ ok (not_found, db)
  | some payer ↦ elim (resolve_charges user.council q.lines db) [
    | none ↦ ok (not_found, db)
    | some charges ↦ billing_answer db (issue_bill env (issue_request user payer charges q) db)
  ]
]

-- `BillViewSet.add_line`
unfoldable pub add_line_view : Env → AppUser → ℕ → Entry → Handler BillLine
unfolding resolve_charge
add_line_view env user id entry db = elim (visible_bill db user id) [
  | none ↦ ok (not_found, db)
  | some bill ↦ elim (resolve_charge user.council entry db) [
    | none ↦ ok (not_found, db)
    | some charge ↦ billing_answer db (add_bill_line env bill charge user.id db)
  ]
]

-- `get_object_or_404(BillLine, pk=line_id, bill=bill)`
abbrev pub line_of : Bill → ℕ → Db → Option BillLine
line_of bill id db = first (λ l. l.id == id && l.bill == bill.id) db.lines.rows

abbrev pub erased : Result Db → Result (Unit {0} × Db)
erased (ok db') = ok (tt, db')
erased (err e) = err e

-- `BillViewSet.line_detail`: DELETE; the handler's own test of the allocations is the service's.
unfoldable pub delete_line_view : Env → AppUser → ℕ → ℕ → Handler (Unit {0})
delete_line_view env user id line db = elim (visible_bill db user id) [
  | none ↦ ok (not_found, db)
  | some bill ↦ elim (line_of bill line db) [
    | none ↦ ok (not_found, db)
    | some l ↦ billing_answer db (erased (delete_bill_line env l user.id db))
  ]
]

-- `BillViewSet.line_detail`: PUT.
unfoldable pub update_line_view : Env → AppUser → ℕ → ℕ → ℕ → Handler BillLine
update_line_view env user id line amount db = elim (visible_bill db user id) [
  | none ↦ ok (not_found, db)
  | some bill ↦ elim (line_of bill line db) [
    | none ↦ ok (not_found, db)
    | some l ↦ billing_answer db (update_bill_line env l amount user.id db)
  ]
]

abbrev pub keep_rows {ℓ} : {A : Type ℓ} → (A → Bool) → Table A → Table A
keep_rows p t = record t { rows = select p t.rows }

-- `superseded_by` is `SET_NULL`.
abbrev pub forget_bill : ℕ → Bill → Bill
forget_bill id b =
    if same_ref b.superseded_by (some id) then record b { superseded_by = none } else b

-- `bill.delete()`: its lines and its debt case go with it; a payment for it, or an allocation to one
-- of its lines, stops it.
unfoldable pub delete_bill : ℕ → Db → Result Db
delete_bill id db =
    if exists (λ p. p.bill == id) db.payments.rows
      || exists (λ a. exists (λ l. l.id == a.bill_line) (lines_of id db)) db.allocations.rows
    then err protected
    else ok (record db {
      lines = keep_rows (λ l. not (l.bill == id)) db.lines;
      cases = keep_rows (λ c. not (c.bill == id)) db.cases;
      bills = record db.bills {
        rows = map (forget_bill id) (select (λ b. not (b.id == id)) db.bills.rows);
      };
    })

-- `Assessment.objects.filter(id__in=ids).delete()`: a line that still cites one stops it.
unfoldable pub delete_assessments : List ℕ → Db → Result Db
delete_assessments ids db =
    if exists (λ l. exists (λ n. n == l.assessment) ids) db.lines.rows
    then err protected
    else ok (record db {
      assessments = keep_rows (λ a. not (exists (λ n. n == a.id) ids)) db.assessments;
    })

-- The deletion itself, with its audit entry.
unfoldable pub remove_bill : AppUser → Bill → Db → Result Db
unfolding audit delete_bill delete_assessments
remove_bill user bill db =
    let ids = map (λ l. l.assessment) (lines_of bill.id db) in
    elim (delete_bill bill.id
      (audit bill.council (some user.id) (bill_deleted bill.total_amount) bill.id db)) [
        | err e ↦ err e
        | ok gone ↦ delete_assessments ids gone
      ]

-- What `BillViewSet.destroy` answers.
pub data Destroyed : Type 0 where
  no_such_bill has_payments deleted : Destroyed

unfoldable pub destroy_view : AppUser → ℕ → Service Destroyed
unfolding remove_bill
destroy_view user id db = elim (visible_bill db user id) [
  | none ↦ ok (no_such_bill, db)
  | some bill ↦
      if exists (λ p. p.bill == bill.id) db.payments.rows
      then ok (has_payments, db)
      else elim (remove_bill user bill db) [ err e ↦ err e | ok db' ↦ ok (deleted, db') ]
]
