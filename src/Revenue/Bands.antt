-- ===== src/Revenue/Bands.antt =====
-- `_validate_band_spec` and `replace_rate_bands` of apps/revenue/services.py. A label is the text
-- that `strip` has left; of the tiers the fields that the code reads are kept.
pub mod Laws
use Prim.Native.String.{String}
use acrev360_backend.Base.{
  ℕ, ◌+◌, Bool, true, false, not, Option, none, some, List, [], ◌∷◌, ltb, leb, ◌==◌, ◌&&◌, ◌||◌,
  if◌then◌else◌, is_none, value_or, same_text, length, exists, map,
}
use acrev360_backend.Base.Table.{insert}
use acrev360_backend.Models.Audit.{rate_bands_replaced}
use acrev360_backend.Models.Revenue.{RevenueItem, RateBand, RateTier, RateMode}
use acrev360_backend.Store.{Db, Env, Result, ok, err, Service, bad_bands, integrity, audit}
use acrev360_backend.Billing.Pricing.{active_bands}

pub record TierSpec : Type 0 where
  pub label : String
  pub amount : Option ℕ

-- `rate_mode` is none where the spec's is not one of the three.
pub record BandSpec : Type 0 where
  pub label : String
  pub rate_mode : Option RateMode
  pub flat_amount : Option ℕ
  pub min_amount : Option ℕ
  pub max_amount : Option ℕ
  pub tiers : List TierSpec

-- `len(set(labels)) != len(labels)`
abbrev pub has_repeats : List String → Bool
has_repeats [] = false
has_repeats (l ∷ ls) = exists (same_text l) ls || has_repeats ls

abbrev pub is_nil {ℓ} : {A : Type ℓ} → List A → Bool
is_nil [] = true
is_nil (x ∷ xs) = false

-- `min_amount > max_amount`, of two that are there.
abbrev pub is_range : Option ℕ → Option ℕ → Bool
is_range (some low) (some high) = leb low high
is_range _ _ = false

-- What a spec of each mode has to be; where it is not, `_validate_band_spec` raises.
unfoldable pub is_valid_spec : BandSpec → Bool
is_valid_spec s = elim s.rate_mode [
  | none ↦ false
  | some RateMode.flat ↦
      not (is_none s.flat_amount) && is_none s.min_amount && is_none s.max_amount && is_nil s.tiers
  | some RateMode.range ↦
      is_range s.min_amount s.max_amount && is_none s.flat_amount && is_nil s.tiers
  | some RateMode.tiered ↦
      leb 2 (length s.tiers)
      && not (has_repeats (map (λ t. t.label) s.tiers))
      && not (exists (λ t. is_none t.amount) s.tiers)
      && is_none s.flat_amount
      && is_none s.min_amount
      && is_none s.max_amount
]

-- The open bands of the item, closed one by one: each save is of its own row.
abbrev pub close_band : ℕ → ℕ → RateBand → RateBand
close_band item day row =
    if row.item == item && is_none row.effective_to
    then record row { effective_to = some day }
    else row

unfoldable pub close_bands : ℕ → ℕ → Db → Db
close_bands item day db = record db {
  bands = record db.bands { rows = map (close_band item day) db.bands.rows };
}

abbrev pub new_band : ℕ → BandSpec → RateMode → ℕ → ℕ → ℕ → RateBand
new_band item s mode sort_order day id = record {
  id = id;
  item = item;
  label = s.label;
  sort_order = sort_order;
  rate_mode = mode;
  flat_amount = s.flat_amount;
  min_amount = s.min_amount;
  max_amount = s.max_amount;
  effective_from = day;
  effective_to = none;
}

abbrev pub new_tier : ℕ → TierSpec → ℕ → ℕ → ℕ → RateTier
new_tier band t amount sort_order id = record {
  id = id;
  band = band;
  label = t.label;
  amount = amount;
  sort_order = sort_order;
}

-- The inner loop; an amount that is missing would break a `NOT NULL`.
unfoldable pub create_tiers : ℕ → ℕ → List TierSpec → Db → Result Db
create_tiers band j [] db = ok db
create_tiers band j (t ∷ ts) db = elim t.amount [
  | none ↦ err integrity
  | some amount ↦
      create_tiers band (j + 1) ts
        (record db { tiers = insert (new_tier band t amount j) db.tiers })
]

-- What the outer loop has made of the rest, with the band before it.
abbrev pub cons_band : RateBand → Result (List RateBand × Db) → Result (List RateBand × Db)
cons_band b (err x) = err x
cons_band b (ok r) = ok (b ∷ r.0, r.1)

unfoldable pub create_bands : ℕ → ℕ → ℕ → List BandSpec → Db → Result (List RateBand × Db)
create_bands item day i [] db = ok ([], db)
create_bands item day i (s ∷ ss) db = elim s.rate_mode [
  | none ↦ err integrity
  | some mode ↦
      let make = new_band item s mode i day in
      elim (create_tiers db.bands.next 0 s.tiers (record db { bands = insert make db.bands })) [
        | err x ↦ err x
        | ok db' ↦ cons_band (make db.bands.next) (create_bands item day (i + 1) ss db')
      ]
]

unfoldable pub replace_rate_bands :
    Env → RevenueItem → List BandSpec → ℕ → Option ℕ → Service (List RateBand)
replace_rate_bands env item specs actor effective_from db =
    let day = value_or env.today effective_from in
    if has_repeats (map (λ s. s.label) specs)
    then err bad_bands
    else if exists (λ s. not (is_valid_spec s)) specs
    then err bad_bands
    else elim (create_bands item.id day 0 specs (close_bands item.id day db)) [
      | err x ↦ err x
      | ok r ↦ ok (
        r.0,
        audit item.council (some actor)
            (rate_bands_replaced (length (active_bands item.id db)) (length r.0)) item.id r.1,
      )
    ]
