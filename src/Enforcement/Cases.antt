-- ===== src/Enforcement/Cases.antt =====
-- `refresh_debt` and `escalate` of apps/enforcement/services.py.
pub mod Laws
use acrev360_backend.Base.{
  ℕ, ◌+◌, ◌-◌, Bool, true, false, not, Option, none, some, List, [], ◌∷◌, ltb, leb, ◌==◌, ◌&&◌,
  if◌then◌else◌, select,
}
use acrev360_backend.Base.Table.{insert, modify}
use acrev360_backend.Models.Audit.{debt_refreshed, debt_escalated}
use acrev360_backend.Models.Billing.{Bill, BillStatus, is_open, bill_keyed}
use acrev360_backend.Models.Enforcement.{Bucket, Stage, is_closed, DebtCase, case_keyed}
use acrev360_backend.Store.{Db, Env, final_stage, Result, ok, err, Service, audit}
use acrev360_backend.Enforcement.Close.{case_of}

-- `_bucket_for`
unfoldable pub bucket_for : ℕ → Bucket
bucket_for days =
    if leb days 30
    then Bucket.days_0_30
    else if leb days 60
    then Bucket.days_31_60
    else if leb days 90
    then Bucket.days_61_90
    else Bucket.over_90

abbrev pub bucket_index : Bucket → ℕ
bucket_index Bucket.days_0_30 = 0
bucket_index Bucket.days_31_60 = 1
bucket_index Bucket.days_61_90 = 2
bucket_index Bucket.over_90 = 3

abbrev pub is_overdue_status : BillStatus → Bool
is_overdue_status BillStatus.overdue = true
is_overdue_status _ = false

-- What the filter of `overdue_bills` tests.
abbrev pub is_past_due : Env → ℕ → Bill → Bool
is_past_due env council b = b.council == council && is_open b.status && ltb b.due_date env.today

abbrev pub set_overdue : Bill → Bill
set_overdue row = record row { status = BillStatus.overdue }

abbrev pub new_case : ℕ → ℕ → Bucket → ℕ → DebtCase
new_case council bill bucket id = record {
  id = id;
  council = council;
  bill = bill;
  ageing_bucket = bucket;
  enforcement_stage = Stage.first_notice;
  reminder_count = 0;
  closed_at = none;
}

-- The counters of the loop, and the database.
pub record Refreshed : Type 0 where
  pub opened : ℕ
  pub updated : ℕ
  pub db : Db

unfoldable pub mark_overdue : Bill → Db → Db
mark_overdue b db =
    if is_overdue_status b.status
    then db
    else record db { bills = modify b.id set_overdue db.bills }

-- The part of the loop's body that opens or re-ages the case.
unfoldable pub age_case : ℕ → Bill → Bucket → Refreshed → Refreshed
age_case council b bucket s = elim (case_of b.id s.db) [
  | none ↦ record s {
    opened = s.opened + 1;
    db = record s.db { cases = insert (new_case council b.id bucket) s.db.cases };
  }
  | some c ↦
      if not (bucket_index c.ageing_bucket == bucket_index bucket)
        && not (is_closed c.enforcement_stage)
      then record s {
        updated = s.updated + 1;
        db = record s.db {
          cases = modify c.id (λ row. record row { ageing_bucket = bucket }) s.db.cases;
        };
      }
      else s
]

unfoldable pub refresh_loop : Env → ℕ → List Bill → Refreshed → Refreshed
unfolding age_case mark_overdue
refresh_loop env council [] s = s
refresh_loop env council (b ∷ bs) s = refresh_loop env council bs (
    age_case council b (bucket_for (env.today - b.due_date))
      (record s { db = mark_overdue b s.db }))

unfoldable pub refresh_debt : Env → ℕ → Option ℕ → Db → Refreshed
refresh_debt env council actor db =
    let s =
      refresh_loop env council (select (is_past_due env council) db.bills.rows)
        (record { opened = 0; updated = 0; db = db }) in
    record s { db = audit council actor (debt_refreshed s.opened s.updated) council s.db }

-- The step from a stage to the one behind it in `ENFORCEMENT_LADDER`.
abbrev pub next_stage : Stage → Option Stage
next_stage Stage.none_yet = some Stage.first_notice
next_stage Stage.first_notice = some Stage.final_notice
next_stage Stage.final_notice = some Stage.enforcement
next_stage Stage.enforcement = some Stage.legal
next_stage Stage.legal = some Stage.closed
next_stage Stage.closed = none

abbrev pub escalated : Env → DebtCase → Stage → DebtCase
escalated env c stage = record c {
  enforcement_stage = stage;
  reminder_count = c.reminder_count + 1;
  closed_at = if is_closed stage then some env.now else c.closed_at;
}

-- `save(update_fields=["enforcement_stage", "reminder_count", "closed_at", "updated_at"])`
abbrev pub save_case : DebtCase → DebtCase → DebtCase
save_case from row = record row {
  enforcement_stage = from.enforcement_stage;
  reminder_count = from.reminder_count;
  closed_at = from.closed_at;
}

unfoldable pub escalate : Env → DebtCase → Option ℕ → Service DebtCase
escalate env c actor db = elim (next_stage c.enforcement_stage) [
  | none ↦ err final_stage
  | some stage ↦
      let c' = escalated env c stage in
      ok (
        c',
        audit c.council actor (debt_escalated c.enforcement_stage stage) c.id
            (record db { cases = modify c.id (save_case c') db.cases }),
      )
]
