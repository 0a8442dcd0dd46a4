-- ===== src/Models/Billing.antt =====
-- apps/billing/models.py: assessments, bills and their lines.
use acrev360_backend.Base.{ℕ, Bool, true, false, Option}
use acrev360_backend.Base.Int.{ℤ, sub_ℕ}
use acrev360_backend.Base.Table.{Keyed}
use acrev360_backend.Models.Ref.{Ref}

pub data AssessmentStatus : Type 0 where
  draft approved billed cancelled : AssessmentStatus

pub record Assessment : Type 0 where
  pub id : ℕ
  pub council : ℕ
  pub payer : ℕ
  pub item : ℕ
  pub rate_schedule : Option ℕ
  pub rate_band : Option ℕ
  pub rate_tier : Option ℕ
  pub asset : Option ℕ
  pub quantity : ℕ
  pub amount : ℕ
  pub status : AssessmentStatus
  pub created_by : ℕ

pub data BillStatus : Type 0 where
  issued part_paid paid overdue cancelled superseded : BillStatus

-- `TERMINAL_STATUSES`
abbrev pub is_terminal : BillStatus → Bool
is_terminal BillStatus.cancelled = true
is_terminal BillStatus.superseded = true
is_terminal _ = false

-- `status__in=[ISSUED, PART_PAID, OVERDUE]`
abbrev pub is_open : BillStatus → Bool
is_open BillStatus.issued = true
is_open BillStatus.part_paid = true
is_open BillStatus.overdue = true
is_open _ = false

pub record Bill : Type 0 where
  pub id : ℕ
  pub council : ℕ
  pub bill_ref : Ref
  pub payer : ℕ
  pub total_amount : ℕ
  pub amount_paid : ℕ
  pub arrears_amount : ℕ
  pub status : BillStatus
  pub due_date : ℕ
  pub superseded_by : Option ℕ
  pub issued_by : ℕ
  -- the local date of `created_at`
  pub created_on : ℕ

-- `Bill.balance`, which is negative after an edit below what was paid.
abbrev pub balance : Bill → ℤ
balance b = sub_ℕ b.total_amount b.amount_paid

pub record BillLine : Type 0 where
  pub id : ℕ
  pub bill : ℕ
  pub assessment : ℕ
  pub line_amount : ℕ
  pub current_amount : ℕ
  pub arrears_amount : ℕ
  pub position : ℕ

instance abbrev pub assessment_keyed : Keyed Assessment
assessment_keyed = record { key = λ a. a.id }

instance abbrev pub bill_keyed : Keyed Bill
bill_keyed = record { key = λ b. b.id }

instance abbrev pub line_keyed : Keyed BillLine
line_keyed = record { key = λ l. l.id }
