-- ===== src/Enforcement/Cases/Laws.antt =====
-- Ageing, and the ladder of stages.
use acrev360_backend.Base.{
  ℕ, ◌+◌, ◌-◌, ◌≤◌, ◌≡◌, ◌↔◌, refl, sym, subst, inl, inr, true, false, not, Option, some, List, [],
  ◌∷◌, arith, ◌==◌, ◌&&◌, if◌then◌else◌, if-both, ==_refl, Bool-cases, exists, exists-cons, select,
  All, All-map,
}
use acrev360_backend.Base.Table.{find}
use acrev360_backend.Base.Table.Laws.{modify_rows-All_self, find_row-All}
use acrev360_backend.Models.Billing.{Bill, BillStatus, bill_keyed}
use acrev360_backend.Models.Enforcement.{Bucket, Stage, is_closed, DebtCase}
use acrev360_backend.Store.{Db, Env, ok, audit}
use acrev360_backend.Enforcement.Cases.{
  bucket_for, is_overdue_status, is_past_due, set_overdue, Refreshed, mark_overdue, age_case,
  refresh_loop, refresh_debt, escalate,
}

-- The buckets partition the days a bill is overdue as their names say.
pub bucket_for-days :
    (days : ℕ)
    → ((bucket_for days ≡ Bucket.days_0_30) ↔ (days ≤ 30))
      × ((bucket_for days ≡ Bucket.days_31_60) ↔ ((31 ≤ days) × (days ≤ 60)))
      × ((bucket_for days ≡ Bucket.days_61_90) ↔ ((61 ≤ days) × (days ≤ 90)))
      × ((bucket_for days ≡ Bucket.over_90) ↔ (91 ≤ days))
unfolding bucket_for
bucket_for-days days = ground arith

-- The rungs of the ladder that are left above a stage.
abbrev pub rungs : Stage → ℕ
rungs Stage.none_yet = 5
rungs Stage.first_notice = 4
rungs Stage.final_notice = 3
rungs Stage.enforcement = 2
rungs Stage.legal = 1
rungs Stage.closed = 0

-- An escalation climbs one rung and adds one reminder, and stamps the time of closing exactly when
-- it reaches the final stage; so it is refused at that stage.
pub escalate-step :
    (env : Env) (c : DebtCase) (actor : Option ℕ) (db : Db) (c' : DebtCase) (db' : Db)
    → escalate env c actor db ≡ ok (c', db')
    → (rungs c'.enforcement_stage + 1 ≡ rungs c.enforcement_stage)
      × (c'.reminder_count ≡ c.reminder_count + 1)
      × (c'.closed_at ≡ (if is_closed c'.enforcement_stage then some env.now else c.closed_at))
unfolding escalate
escalate-step env c actor db c' db' e = ground arith

-- What the loop still has to do for a row that is past due and not marked.
abbrev IsPending : Env → ℕ → List Bill → Bill → Type 0
IsPending env council bs row =
    (is_past_due env council row ≡ true)
    → (is_overdue_status row.status ≡ false)
    → (exists (λ p. p.id == row.id && not (is_overdue_status p.status)) bs ≡ true)

age_case-bills :
    (council : ℕ) (b : Bill) (bucket : Bucket) (s : Refreshed)
    → (age_case council b bucket s).db.bills ≡ s.db.bills
unfolding age_case
age_case-bills council b bucket s = ground arith

mark_overdue-IsPending :
    (env : Env) (council : ℕ) (b : Bill) (bs : List Bill) (db : Db)
    → All (IsPending env council (b ∷ bs)) db.bills.rows
    → All (IsPending env council bs) (mark_overdue b db).bills.rows
unfolding mark_overdue
mark_overdue-IsPending env council b bs db h = elim (Bool-cases (is_overdue_status b.status)) [
  | inl already ↦
      rw already (All-map _ _ db.bills.rows (λ row p due new. ground (arith, p due new)) h)
  | inr fresh ↦ rw fresh (
      modify_rows-All_self (IsPending env council (b ∷ bs)) _ b.id set_overdue db.bills.rows
        (λ row same p due new. cc) (λ row other p due new. ground (arith, p due new)) h)
]

refresh_loop-IsPending :
    (env : Env) (council : ℕ) (bs : List Bill) (s : Refreshed)
    → All (IsPending env council bs) s.db.bills.rows
    → All (IsPending env council []) (refresh_loop env council bs s).db.bills.rows
unfolding refresh_loop
refresh_loop-IsPending env council [] s h = h
refresh_loop-IsPending env council (b ∷ bs) s h =
    let bucket = bucket_for (env.today - b.due_date) in
    let marked = record s { db = mark_overdue b s.db } in
    refresh_loop-IsPending env council bs (age_case council b bucket marked) (
      subst (λ t. All (IsPending env council bs) t.rows)
        (sym (age_case-bills council b bucket marked))
        (mark_overdue-IsPending env council b bs s.db h))

select-IsPending :
    (env : Env) (council : ℕ) (rows : List Bill)
    → All (IsPending env council (select (is_past_due env council) rows)) rows
select-IsPending env council [] = tt
select-IsPending env council (b ∷ rows) =
    let rest = select (is_past_due env council) rows in
    (
      λ due new. rw (due, ==_refl b.id, new) refl,
      All-map _ _ rows
          (λ x pending due new.
            if-both (λ bs. exists (λ p. p.id == x.id && not (is_overdue_status p.status)) bs ≡ true)
              (is_past_due env council b) (exists-cons _ b rest (pending due new))
              (pending due new))
          (select-IsPending env council rows),
    )

-- After a refresh every bill of the council that is open and past its due date is marked overdue.
pub refresh_debt-overdue :
    (env : Env) (council : ℕ) (actor : Option ℕ) (db : Db) (n : ℕ) (b : Bill)
    → find n (refresh_debt env council actor db).db.bills ≡ some b
    → is_past_due env council b ≡ true
    → b.status ≡ BillStatus.overdue
unfolding refresh_debt audit
refresh_debt-overdue env council actor db n b found due =
    let s : Refreshed = record { opened = 0; updated = 0; db = db } in
    let done =
      refresh_loop-IsPending env council (select (is_past_due env council) db.bills.rows) s
        (select-IsPending env council db.bills.rows) in
    let pending = find_row-All (IsPending env council []) n _ b found done in
    ground (arith, pending due)
