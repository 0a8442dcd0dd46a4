-- ===== src/Billing/Pricing/Laws.antt =====
-- What an assessment is priced by.
use acrev360_backend.Base.{
  ℕ, ◌≤◌, ◌<◌, ◌≡◌, ◌≢◌, ◌↔◌, ◌⊎◌, inl, inr, not, refl, Option, none, some, [], Option-cases, arith,
  is_none,
}
use acrev360_backend.Models.Billing.{Assessment}
use acrev360_backend.Models.Revenue.{RateBand, RateTier, RateMode}
use acrev360_backend.Models.Registry.{Payer}
use acrev360_backend.Store.{Db, Env, ok, Result-cases}
use acrev360_backend.Billing.Pricing.{
  Charge, Price, times, active_bands, price_in_range, price_by_mode, price_by_band,
  create_draft_assessment,
}

-- An assessment cites exactly one source of its price: a rate schedule row, or a band. It cites a
-- band exactly when its item has open bands. Its quantity is positive.
pub create_draft_assessment-source :
    (env : Env) (payer : Payer) (c : Charge) (actor : ℕ) (db : Db) (a : Assessment) (db' : Db)
    → create_draft_assessment env payer c actor db ≡ ok (a, db')
    → (is_none a.rate_schedule ≡ not (is_none a.rate_band))
      × ((active_bands c.item db ≢ []) ↔ (a.rate_schedule ≡ none))
      × (0 < a.quantity)
unfolding create_draft_assessment
create_draft_assessment-source env payer c actor db a db' e = ground arith

-- A unit amount that a band allows: its flat amount, an amount between its minimum and its maximum,
-- or the amount of the tier that was chosen, which is one of the band's own.
abbrev pub IsAllowed : Charge → RateBand → ℕ → Type 0
IsAllowed c b unit =
    ((b.rate_mode ≡ RateMode.flat) × (b.flat_amount ≡ some unit))
    ⊎ ((low : ℕ) × (high : ℕ) × (b.rate_mode ≡ RateMode.range)
        × (b.min_amount ≡ some low)
        × (b.max_amount ≡ some high)
        × (low ≤ unit)
        × (unit ≤ high))
    ⊎ ((t : RateTier) × (b.rate_mode ≡ RateMode.tiered)
        × (c.rate_tier ≡ some t)
        × (t.band ≡ b.id)
        × (t.amount ≡ unit))

price_in_range-bounds :
    (b : RateBand) (amount : ℕ) (low high : Option ℕ) (p : Price)
    → price_in_range b amount low high ≡ ok p
    → (l : ℕ) × (h : ℕ) × (low ≡ some l) × (high ≡ some h) × (l ≤ p.unit) × (p.unit ≤ h)
unfolding price_in_range
price_in_range-bounds b amount none high p e = cc
price_in_range-bounds b amount (some l) none p e = cc
price_in_range-bounds b amount (some l) (some h) p e =
    (l, h, refl, refl, ground arith, ground arith)

price_by_mode-IsAllowed :
    (m : RateMode) (b : RateBand) (c : Charge) (p : Price)
    → b.rate_mode ≡ m
    → price_by_mode m b c ≡ ok p
    → IsAllowed c b p.unit
unfolding price_by_mode
price_by_mode-IsAllowed RateMode.flat b c p m e = inl (m, ground arith)
price_by_mode-IsAllowed RateMode.range b c p m e = elim (Option-cases c.amount_override) [
  | inl missing ↦ ground arith
  | inr (amount, given) ↦
      let (l, h, el, eh, above, below) =
        price_in_range-bounds b amount b.min_amount b.max_amount p (ground arith) in
      inr (inl (l, h, m, el, eh, above, below))
]
price_by_mode-IsAllowed RateMode.tiered b c p m e = elim (Option-cases c.rate_tier) [
  | inl missing ↦ ground arith
  | inr (t, given) ↦ inr (inr (t, m, given, ground arith, ground arith))
]

price_by_band-IsAllowed :
    (c : Charge) (p : Price)
    → price_by_band c ≡ ok p
    → (b : RateBand) × (c.rate_band ≡ some b)
      × (b.item ≡ c.item)
      × (b.effective_to ≡ none)
      × (p.band ≡ some b.id)
      × IsAllowed c b p.unit
unfolding price_by_band
price_by_band-IsAllowed c p e = elim (Option-cases c.rate_band) [
  | inl missing ↦ ground arith
  | inr (b, given) ↦ (
    b,
    given,
    ground arith,
    ground arith,
    ground arith,
    price_by_mode-IsAllowed b.rate_mode b c p refl (ground arith),
  )
]

-- A charge on an item with open bands that is accepted names an open band of that item, and costs
-- its quantity times a unit amount that this band allows.
pub create_draft_assessment-IsAllowed :
    (env : Env) (payer : Payer) (c : Charge) (actor : ℕ) (db : Db) (a : Assessment) (db' : Db)
    → active_bands c.item db ≢ []
    → create_draft_assessment env payer c actor db ≡ ok (a, db')
    → (b : RateBand) × (unit : ℕ) × (c.rate_band ≡ some b)
      × (b.item ≡ c.item)
      × (b.effective_to ≡ none)
      × IsAllowed c b unit
      × (a.amount ≡ times unit c.quantity)
unfolding create_draft_assessment
create_draft_assessment-IsAllowed env payer c actor db a db' has_bands e =
    elim (Result-cases (price_by_band c)) [
      | inl (x, failed) ↦ ground arith
      | inr (p, priced) ↦
          let (b, given, of_item, open_band, cited, allowed) = price_by_band-IsAllowed c p priced in
          (b, p.unit, given, of_item, open_band, allowed, ground arith)
    ]
