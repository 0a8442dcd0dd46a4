-- ===== src/Models/Revenue.antt =====
-- apps/revenue/models.py: a council's revenue items and their versioned prices.
use Prim.Native.String.{String}
use acrev360_backend.Base.{ℕ, Bool, Option}
use acrev360_backend.Base.Table.{Keyed}

pub record RevenueItem : Type 0 where
  pub id : ℕ
  pub council : ℕ
  pub template : Option ℕ
  pub harmonised_code : String
  pub item_name : String
  pub category : ℕ
  pub unit_of_charge : String
  pub is_active : Bool
  pub department : Option ℕ
  pub bye_law_reference : String
  pub bye_law_description : String

pub record RateSchedule : Type 0 where
  pub id : ℕ
  pub item : ℕ
  pub rate_amount : ℕ
  pub effective_from : ℕ
  pub effective_to : Option ℕ

pub data RateMode : Type 0 where
  flat range tiered : RateMode

pub record RateBand : Type 0 where
  pub id : ℕ
  pub item : ℕ
  pub label : String
  pub sort_order : ℕ
  pub rate_mode : RateMode
  pub flat_amount : Option ℕ
  pub min_amount : Option ℕ
  pub max_amount : Option ℕ
  pub effective_from : ℕ
  pub effective_to : Option ℕ

pub record RateTier : Type 0 where
  pub id : ℕ
  pub band : ℕ
  pub label : String
  pub amount : ℕ
  pub sort_order : ℕ

instance abbrev pub item_keyed : Keyed RevenueItem
item_keyed = record { key = λ i. i.id }

instance abbrev pub rate_keyed : Keyed RateSchedule
rate_keyed = record { key = λ r. r.id }

instance abbrev pub band_keyed : Keyed RateBand
band_keyed = record { key = λ b. b.id }

instance abbrev pub tier_keyed : Keyed RateTier
tier_keyed = record { key = λ t. t.id }
