-- ===== src/Revenue/Rates.antt =====
-- `create_revenue_item`, `retire_revenue_item` and `change_rate` of apps/revenue/services.py.
pub mod Laws
use Prim.Native.String.{String}
use acrev360_backend.Base.{
  ℕ, Bool, true, false, Option, none, some, ◌==◌, ◌&&◌, if◌then◌else◌, value_or, exists,
}
use acrev360_backend.Base.Table.{find, insert, modify}
use acrev360_backend.Models.Audit.{revenue_item_activated, revenue_item_retired, rate_changed}
use acrev360_backend.Models.Billing.{Assessment, AssessmentStatus, is_open, bill_keyed}
use acrev360_backend.Models.Revenue.{RevenueItem, RateSchedule, item_keyed, rate_keyed}
use acrev360_backend.Store.{Db, Env, ok, err, Service, has_drafts, has_outstanding_bill, audit}
use acrev360_backend.Billing.Pricing.{current_rate}

-- The arguments of `create_revenue_item`, the price and the actor aside.
pub record NewItem : Type 0 where
  pub council : ℕ
  pub template : Option ℕ
  pub harmonised_code : String
  pub item_name : String
  pub category : ℕ
  pub unit_of_charge : String
  pub department : Option ℕ
  pub bye_law_reference : String
  pub bye_law_description : String

abbrev pub new_item : NewItem → ℕ → RevenueItem
new_item args id = record {
  id = id;
  council = args.council;
  template = args.template;
  harmonised_code = args.harmonised_code;
  item_name = args.item_name;
  category = args.category;
  unit_of_charge = args.unit_of_charge;
  is_active = true;
  department = args.department;
  bye_law_reference = args.bye_law_reference;
  bye_law_description = args.bye_law_description;
}

abbrev pub new_rate : ℕ → ℕ → ℕ → ℕ → RateSchedule
new_rate item amount effective_from id = record {
  id = id;
  item = item;
  rate_amount = amount;
  effective_from = effective_from;
  effective_to = none;
}

unfoldable pub create_revenue_item : Env → NewItem → ℕ → ℕ → Db → RevenueItem × Db
create_revenue_item env args rate_amount actor db =
    let item = new_item args db.items.next in
    (
      item,
      audit args.council (some actor) (revenue_item_activated rate_amount) item.id (record db {
        items = insert (new_item args) db.items;
        rates = insert (new_rate item.id rate_amount env.today) db.rates;
      }),
    )

abbrev pub is_draft : Assessment → Bool
is_draft a = elim a.status [ AssessmentStatus.draft ↦ true | _ ↦ false ]

abbrev pub is_draft_of : ℕ → Assessment → Bool
is_draft_of item a = a.item == item && is_draft a

-- `bill_lines__bill__status__in`, for the lines of one assessment.
unfoldable pub is_billed_open : ℕ → Db → Bool
is_billed_open assessment db =
    exists
      (λ l.
        l.assessment == assessment
        && elim (find l.bill db.bills) [ none ↦ false | some b ↦ is_open b.status ])
      db.lines.rows

abbrev pub is_outstanding_of : ℕ → Db → Assessment → Bool
is_outstanding_of item db a = a.item == item && is_billed_open a.id db

unfoldable pub retire_revenue_item : RevenueItem → ℕ → Service RevenueItem
retire_revenue_item item actor db =
    if item.is_active
    then if exists (is_draft_of item.id) db.assessments.rows
      then err has_drafts
      else if exists (is_outstanding_of item.id db) db.assessments.rows
      then err has_outstanding_bill
      else ok (
        record item { is_active = false },
        audit item.council (some actor) revenue_item_retired item.id (record db {
          items = modify item.id (λ row. record row { is_active = false }) db.items;
        }),
      )
    else ok (item, db)

abbrev pub close_rate : ℕ → RateSchedule → RateSchedule
close_rate day row = record row { effective_to = some day }

abbrev pub amount_of_rate : Option RateSchedule → Option ℕ
amount_of_rate none = none
amount_of_rate (some r) = some r.rate_amount

-- The open row, closed.
unfoldable pub close_current : Option RateSchedule → ℕ → Db → Db
close_current none day db = db
close_current (some r) day db = record db { rates = modify r.id (close_rate day) db.rates }

-- `first()` follows the model's ordering, by the newest `effective_from`, as `current_rate` does.
unfoldable pub change_rate : Env → RevenueItem → ℕ → ℕ → Option ℕ → Db → RateSchedule × Db
change_rate env item new_amount actor effective_from db =
    let day = value_or env.today effective_from in
    let current = current_rate item.id db in
    let closed = close_current current day db in
    let make = new_rate item.id new_amount day in
    (
      make closed.rates.next,
      audit item.council (some actor) (rate_changed (amount_of_rate current) new_amount) item.id
          (record closed { rates = insert make closed.rates }),
    )
