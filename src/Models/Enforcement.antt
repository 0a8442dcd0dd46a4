-- ===== src/Models/Enforcement.antt =====
-- apps/enforcement/models.py: debt cases.
use acrev360_backend.Base.{ℕ, Bool, true, false, Option}
use acrev360_backend.Base.Table.{Keyed}

pub data Bucket : Type 0 where
  days_0_30 days_31_60 days_61_90 over_90 : Bucket

pub data Stage : Type 0 where
  none_yet first_notice final_notice enforcement legal closed : Stage

abbrev pub is_closed : Stage → Bool
is_closed Stage.closed = true
is_closed _ = false

pub record DebtCase : Type 0 where
  pub id : ℕ
  pub council : ℕ
  pub bill : ℕ
  pub ageing_bucket : Bucket
  pub enforcement_stage : Stage
  pub reminder_count : ℕ
  pub closed_at : Option ℕ

instance abbrev pub case_keyed : Keyed DebtCase
case_keyed = record { key = λ c. c.id }
