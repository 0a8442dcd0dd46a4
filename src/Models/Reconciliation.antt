-- ===== src/Models/Reconciliation.antt =====
-- apps/reconciliation/models.py: runs and their exceptions. The note of an exception is left out.
use acrev360_backend.Base.{ℕ, Option}
use acrev360_backend.Base.Table.{Keyed}
use acrev360_backend.Models.Payments.{Channel}

pub data RunStatus : Type 0 where
  open_run balanced exceptions closed : RunStatus

pub record Run : Type 0 where
  pub id : ℕ
  pub council : ℕ
  pub channel : Channel
  pub run_date : ℕ
  pub total_platform : ℕ
  pub total_bank : ℕ
  pub status : RunStatus
  pub run_by : ℕ

pub record RunException : Type 0 where
  pub id : ℕ
  pub council : ℕ
  pub run : ℕ
  pub feed_row : Option ℕ
  pub resolved_at : Option ℕ
  pub resolved_by : Option ℕ

instance abbrev pub run_keyed : Keyed Run
run_keyed = record { key = λ r. r.id }

instance abbrev pub exception_keyed : Keyed RunException
exception_keyed = record { key = λ e. e.id }
