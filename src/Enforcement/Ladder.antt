-- ===== src/Enforcement/Ladder.antt =====
-- The enforcement ladder of `escalate` ends: how often a case can be escalated.
use acrev360_backend.Base.{ℕ, suc, zero, ◌+◌, ◌≡◌, refl, subst, ◌∙◌, Option, some, arith}
use acrev360_backend.Base.Table.{find, modify}
use acrev360_backend.Base.Table.Laws.{find_row-modify_self}
use acrev360_backend.Models.Audit.{debt_escalated}
use acrev360_backend.Models.Enforcement.{DebtCase, Stage, case_keyed}
use acrev360_backend.Store.{Db, Env, final_stage, ok, err, Service, audit}
use acrev360_backend.Enforcement.Cases.{next_stage, escalated, save_case, escalate}
use acrev360_backend.Enforcement.Cases.Laws.{rungs}

-- So many escalations, one after another.
unfoldable pub escalate_times : ℕ → Env → DebtCase → Option ℕ → Service DebtCase
escalate_times zero env c actor db = ok (c, db)
escalate_times (suc n) env c actor db = elim (escalate env c actor db) [
  | err e ↦ err e
  | ok (c', db') ↦ escalate_times n env c' actor db'
]

-- Where a case stands after all its escalations.
abbrev pub Ended : Env → DebtCase → Option ℕ → DebtCase → Db → Type 0
Ended env c actor c' db' =
    (c'.enforcement_stage ≡ Stage.closed)
    × (c'.reminder_count ≡ c.reminder_count + rungs c.enforcement_stage)
    × (find c.id db'.cases ≡ some c')
    × (escalate env c' actor db' ≡ err final_stage)

next_rung :
    (s : Stage) (n : ℕ) → rungs s ≡ suc n → (t : Stage) × (next_stage s ≡ some t) × (rungs t ≡ n)
next_rung Stage.none_yet n h = (Stage.first_notice, refl, omega (arith, h))
next_rung Stage.first_notice n h = (Stage.final_notice, refl, omega (arith, h))
next_rung Stage.final_notice n h = (Stage.enforcement, refl, omega (arith, h))
next_rung Stage.enforcement n h = (Stage.legal, refl, omega (arith, h))
next_rung Stage.legal n h = (Stage.closed, refl, omega (arith, h))
next_rung Stage.closed n h = absurd (omega (arith, h))

top : (s : Stage) → rungs s ≡ 0 → s ≡ Stage.closed
top Stage.closed h = refl
top Stage.none_yet h = absurd (omega (arith, h))
top Stage.first_notice h = absurd (omega (arith, h))
top Stage.final_notice h = absurd (omega (arith, h))
top Stage.enforcement h = absurd (omega (arith, h))
top Stage.legal h = absurd (omega (arith, h))

rung :
    (env : Env) (c : DebtCase) (actor : Option ℕ) (db : Db) (n : ℕ)
    → rungs c.enforcement_stage ≡ suc n
    → find c.id db.cases ≡ some c
    → (c' : DebtCase) × (db' : Db) × (escalate env c actor db ≡ ok (c', db'))
      × (rungs c'.enforcement_stage ≡ n)
      × (c'.reminder_count ≡ c.reminder_count + 1)
      × (c'.id ≡ c.id)
      × (find c'.id db'.cases ≡ some c')
unfolding escalate audit
rung env c actor db n h there =
    let (stage, next, left) = next_rung c.enforcement_stage n h in
    let c' = escalated env c stage in
    (
      c',
      audit c.council actor (debt_escalated c.enforcement_stage stage) c.id
          (record db { cases = modify c.id (save_case c') db.cases }),
      rw (escalate, next) refl,
      left,
      refl,
      refl,
      find_row-modify_self c.id (save_case c') db.cases.rows {x = c} refl there,
    )

climb :
    (env : Env) (actor : Option ℕ) (n : ℕ) (c : DebtCase) (db : Db)
    → rungs c.enforcement_stage ≡ n
    → find c.id db.cases ≡ some c
    → (c' : DebtCase) × (db' : Db) × (escalate_times n env c actor db ≡ ok (c', db'))
      × (c'.enforcement_stage ≡ Stage.closed)
      × (c'.reminder_count ≡ c.reminder_count + n)
      × (c'.id ≡ c.id)
      × (find c'.id db'.cases ≡ some c')
unfolding escalate_times
climb env actor zero c db h there =
    (c, db, refl, top c.enforcement_stage h, omega arith, refl, there)
climb env actor (suc n) c db h there =
    let (c1, db1, stepped, left, counted, same, here) = rung env c actor db n h there in
    let (c', db', done, closed, total, same', found) = climb env actor n c1 db1 left here in
    (
      c',
      db',
      rw (escalate_times, stepped) done,
      closed,
      omega (arith, total, counted),
      same' ∙ same,
      found,
    )

-- A case that is stored can be escalated exactly as often as its stage has rungs above it: so many
-- escalations go through, the case is then closed, with one reminder more for each, and stored so; and
-- the next escalation is refused.
pub escalate-ends :
    (env : Env) (c : DebtCase) (actor : Option ℕ) (db : Db)
    → find c.id db.cases ≡ some c
    → (c' : DebtCase) × (db' : Db) × (escalate_times (rungs c.enforcement_stage) env c actor db
        ≡ ok (c', db'))
      × Ended env c actor c' db'
unfolding escalate
escalate-ends env c actor db there =
    let (c', db', done, closed, total, same, found) =
      climb env actor (rungs c.enforcement_stage) c db refl there in
    (
      c',
      db',
      done,
      (
        closed,
        total,
        subst (λ k. find k db'.cases ≡ some c') same found,
        rw (escalate, closed) refl,
      ),
    )
