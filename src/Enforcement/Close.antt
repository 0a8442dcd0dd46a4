-- ===== src/Enforcement/Close.antt =====
-- `close_debt_case_for_bill` of apps/enforcement/services.py.
use acrev360_backend.Base.{ℕ, Option, none, some, first, ◌==◌, if◌then◌else◌}
use acrev360_backend.Base.Table.{modify}
use acrev360_backend.Models.Enforcement.{DebtCase, Stage, is_closed, case_keyed}
use acrev360_backend.Store.{Db, Env}

-- `bill.debt_case`: the relation is one to one.
abbrev pub case_of : ℕ → Db → Option DebtCase
case_of bill db = first (λ c. c.bill == bill) db.cases.rows

abbrev pub close_case : Env → DebtCase → DebtCase
close_case env c = record c { enforcement_stage = Stage.closed; closed_at = some env.now }

unfoldable pub close_debt_case_for_bill : Env → ℕ → Db → Db
close_debt_case_for_bill env bill db = elim (case_of bill db) [
  | none ↦ db
  | some c ↦
      if is_closed c.enforcement_stage
      then db
      else record db { cases = modify c.id (close_case env) db.cases }
]
