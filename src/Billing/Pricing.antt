-- ===== src/Billing/Pricing.antt =====
-- `create_draft_assessment` of apps/billing/services.py, and the prices it reads
-- (`CouncilRevenueItem.active_bands` and `current_rate` of apps/revenue/models.py).
pub mod Laws
use acrev360_backend.Base.{
  ℕ, ◌*◌, ◌/◌, ◌+◌, Bool, not, Option, none, some, List, [], ◌∷◌, ltb, leb, ◌==◌, ◌&&◌, ◌||◌,
  if◌then◌else◌, is_none, select,
}
use acrev360_backend.Base.Table.{insert}
use acrev360_backend.Models.Billing.{Assessment, AssessmentStatus}
use acrev360_backend.Models.Revenue.{RateSchedule, RateBand, RateTier, RateMode}
use acrev360_backend.Models.Registry.{Payer}
use acrev360_backend.Store.{
  Db, Env, bad_quantity, band_required, amount_required, amount_out_of_range, tier_required,
  no_active_rate, type_error, Result, ok, err, Service,
}

-- The arguments that price one assessment: amounts in ten-thousandths of a naira, a quantity in
-- hundredths.
pub record Charge : Type 0 where
  pub item : ℕ
  pub quantity : ℕ
  pub asset : Option ℕ
  pub rate_band : Option RateBand
  pub rate_tier : Option RateTier
  pub amount_override : Option ℕ

abbrev pub id_of_band : Option RateBand → Option ℕ
id_of_band none = none
id_of_band (some b) = some b.id

abbrev pub id_of_tier : Option RateTier → Option ℕ
id_of_tier none = none
id_of_tier (some t) = some t.id

-- `active_bands`; only whether there are any matters here.
unfoldable pub active_bands : ℕ → Db → List RateBand
active_bands item db = select (λ b. b.item == item && is_none b.effective_to) db.bands.rows

abbrev pub later : RateSchedule → Option RateSchedule → Option RateSchedule
later r none = some r
later r (some s) = if ltb r.effective_from s.effective_from then some s else some r

-- `.order_by("-effective_from").first()`
unfoldable pub latest : List RateSchedule → Option RateSchedule
latest [] = none
latest (r ∷ rs) = later r (latest rs)

unfoldable pub current_rate : ℕ → Db → Option RateSchedule
unfolding latest
current_rate item db = latest (select (λ r. r.item == item && is_none r.effective_to) db.rates.rows)

-- What a charge is priced by: the amount of one unit and the references that are stored.
pub record Price : Type 0 where
  pub unit : ℕ
  pub schedule : Option ℕ
  pub band : Option ℕ
  pub tier : Option ℕ

abbrev pub banded : RateBand → Option ℕ → ℕ → Price
banded b tier unit = record { unit = unit; schedule = none; band = some b.id; tier = tier }

-- `rate_band.min_amount <= amount_override <= rate_band.max_amount`
unfoldable pub price_in_range : RateBand → ℕ → Option ℕ → Option ℕ → Result Price
price_in_range b amount (some low) (some high) =
    if leb low amount && leb amount high then ok (banded b none amount) else err amount_out_of_range
price_in_range b amount _ _ = err type_error

unfoldable pub price_by_mode : RateMode → RateBand → Charge → Result Price
unfolding price_in_range
price_by_mode RateMode.flat b c = elim b.flat_amount [
  | none ↦ err type_error
  | some amount ↦ ok (banded b (id_of_tier c.rate_tier) amount)
]
price_by_mode RateMode.range b c = elim c.amount_override [
  | none ↦ err amount_required
  | some amount ↦ price_in_range b amount b.min_amount b.max_amount
]
price_by_mode RateMode.tiered b c = elim c.rate_tier [
  | none ↦ err tier_required
  | some t ↦ if t.band == b.id then ok (banded b (some t.id) t.amount) else err tier_required
]

unfoldable pub price_by_band : Charge → Result Price
unfolding price_by_mode
price_by_band c = elim c.rate_band [
  | none ↦ err band_required
  | some b ↦
      if not (b.item == c.item) || not (is_none b.effective_to)
      then err band_required
      else price_by_mode b.rate_mode b c
]

unfoldable pub price_by_rate : Charge → Db → Result Price
price_by_rate c db = elim (current_rate c.item db) [
  | none ↦ err no_active_rate
  | some r ↦ ok (record { unit = r.rate_amount; schedule = some r.id; band = none; tier = none })
]

unfoldable pub price : Charge → Db → Result Price
unfolding price_by_band price_by_rate
price c db = elim (active_bands c.item db) [ [] ↦ price_by_rate c db | ◌∷◌ _ _ ↦ price_by_band c ]

-- `unit_amount * quantity`, the quantity in hundredths.
abbrev pub times : ℕ → ℕ → ℕ
times unit quantity = unit * quantity / 100

abbrev pub draft_assessment : Payer → Charge → Price → ℕ → ℕ → Assessment
draft_assessment payer c p actor id = record {
  id = id;
  council = payer.council;
  payer = payer.id;
  item = c.item;
  rate_schedule = p.schedule;
  rate_band = p.band;
  rate_tier = p.tier;
  asset = c.asset;
  quantity = c.quantity;
  amount = times p.unit c.quantity;
  status = AssessmentStatus.draft;
  created_by = actor;
}

-- The row that a `create` or a `save` of an assessment stores.
abbrev pub stored_assessment : Env → Assessment → Assessment
stored_assessment env a = record a { amount = env.column a.amount }

-- The caller gets the object in memory, whose amount is not rounded.
unfoldable pub create_draft_assessment : Env → Payer → Charge → ℕ → Service Assessment
unfolding price
create_draft_assessment env payer c actor db =
    if leb c.quantity 0 then err bad_quantity else elim (price c db) [
      | err e ↦ err e
      | ok p ↦ ok (
        draft_assessment payer c p actor db.assessments.next,
        record db {
          assessments =
              insert (λ n. stored_assessment env (draft_assessment payer c p actor n))
                db.assessments;
        },
      )
    ]
