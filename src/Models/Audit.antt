-- ===== src/Models/Audit.antt =====
-- apps/audit/models.py: the append-only audit log. Of an entry's JSON detail the numbers that the
-- code writes into it are kept, with the action.
use acrev360_backend.Base.{ℕ, Option}
use acrev360_backend.Models.Enforcement.{Stage}
use acrev360_backend.Models.Settlements.{SettlementStatus}
use acrev360_backend.Models.Reconciliation.{RunStatus}

pub data Action : Type 0 where
  bill_issued : (total superseded : ℕ) → Action
  bill_issued_forced_duplicate : (bypassed_bill : ℕ) → Action
  bill_deleted : (total : ℕ) → Action
  bill_line_merged : (line added_quantity added_amount new_line_amount : ℕ) → Action
  bill_line_added : (line amount : ℕ) → Action
  bill_line_edited : (line old_amount new_amount : ℕ) → Action
  bill_line_deleted : (line : ℕ) → Action
  payment_overpayment_credited : (credited : ℕ) → Action
  payment_posted : (amount : ℕ) → Action
  payment_overpayment_credit_clawed_back : (clawed_back : ℕ) → Action
  payment_reversed : (amount applied : ℕ) → Action
  revenue_item_activated : (rate : ℕ) → Action
  revenue_item_retired : Action
  rate_changed : (old_rate : Option ℕ) (new_rate : ℕ) → Action
  rate_bands_replaced : (old_band_count new_band_count : ℕ) → Action
  debt_refreshed : (opened updated : ℕ) → Action
  debt_escalated : (old_stage new_stage : Stage) → Action
  settlements_computed : (period_start period_end count : ℕ) → Action
  settlement_status_changed : (old_status new_status : SettlementStatus) → Action
  reconciliation_run : (run_date exceptions : ℕ) (status : RunStatus) → Action
  payer_enumerated : (draft_assessments_created : ℕ) → Action
  payer_delegation_granted : (proxy_user : ℕ) → Action
  payer_delegation_revoked : (proxy_user : ℕ) → Action

pub record AuditLog : Type 0 where
  pub council : ℕ
  pub actor : Option ℕ
  pub action : Action
  pub entity_id : ℕ
