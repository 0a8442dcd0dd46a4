-- ===== src/Models/Settlements.antt =====
-- apps/settlements/models.py: commission settlements.
use acrev360_backend.Base.{ℕ}
use acrev360_backend.Base.Table.{Keyed}

pub data SettlementStatus : Type 0 where
  computed approved settled disputed : SettlementStatus

-- `commission_rate` is in hundredths of a percent, the amounts in ten-thousandths of a naira.
pub record Settlement : Type 0 where
  pub id : ℕ
  pub council : ℕ
  pub consultant : ℕ
  pub period_start : ℕ
  pub period_end : ℕ
  pub gross_collections : ℕ
  pub commission_rate : ℕ
  pub commission_amount : ℕ
  pub status : SettlementStatus
  pub computed_by : ℕ

instance abbrev pub settlement_keyed : Keyed Settlement
settlement_keyed = record { key = λ s. s.id }
