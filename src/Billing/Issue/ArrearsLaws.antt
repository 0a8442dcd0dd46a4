-- ===== src/Billing/Issue/ArrearsLaws.antt =====
-- Consolidation takes over exactly what the superseded bills' lines owe.
use acrev360_backend.Base.{
  ℕ, ◌+◌, ◌-◌, ◌≡◌, sym, inl, inr, true, false, List, [], ◌∷◌, arith, ◌==◌, Option-cases, sum_of,
  select-nil, exists-cons, ==_refl, if-both, sum_of-congr, All, All-of, All-map, Bool, not, ◌&&◌,
  exists, select, subst,
}
use acrev360_backend.Base.Table.{find, modify}
use acrev360_backend.Base.Table.Laws.{modify_rows-All_self}
use acrev360_backend.Models.Billing.{Bill, BillLine, is_open, assessment_keyed, bill_keyed}
use acrev360_backend.Store.{Db, Env, ok, Result-cases}
use acrev360_backend.Billing.Recompute.{lines_of}
use acrev360_backend.Billing.Issue.Arrears.{
  Arrears, open_bills, add_arrears, collect_lines, mark_superseded, supersede,
}
use acrev360_backend.Enforcement.Close.{close_debt_case_for_bill}
use acrev360_backend.Payments.Fifo.{by_position, paid_amount}
use acrev360_backend.Payments.Fifo.Laws.{owed}
use acrev360_backend.Payments.Effects.{due, sum_of-by_position}

abbrev pub carried : List Arrears → ℕ
carried = sum_of λ r. r.amount

add_arrears-carried :
    (item outstanding assessment : ℕ) (rs : List Arrears)
    → carried (add_arrears item outstanding assessment rs) ≡ carried rs + outstanding
unfolding add_arrears
add_arrears-carried item outstanding assessment [] = omega arith
add_arrears-carried item outstanding assessment (r ∷ rs) =
    ground (arith, add_arrears-carried item outstanding assessment rs)

collect_lines-carried :
    (db : Db) (ls : List BillLine) (found out : List Arrears)
    → collect_lines db ls found ≡ ok out
    → carried out ≡ carried found + sum_of (owed (paid_amount db)) ls
unfolding collect_lines
collect_lines-carried db [] found out e = ground arith
collect_lines-carried db (l ∷ ls) found out e =
    let paid = paid_amount db l.id in
    elim (Option-cases (find l.assessment db.assessments)) [
      | inl gone ↦ ground (arith, collect_lines-carried db ls found out)
      | inr (a, there) ↦ ground (
        arith,
        collect_lines-carried db ls found out,
        collect_lines-carried db ls (add_arrears a.item (l.line_amount - paid) a.id found) out,
        add_arrears-carried a.item (l.line_amount - paid) a.id found,
      )
    ]

close-lines :
    (env : Env) (bill : ℕ) (db : Db)
    → let db' = close_debt_case_for_bill env bill db in
      (db'.lines ≡ db.lines)
      × (db'.allocations ≡ db.allocations)
      × (db'.payments ≡ db.payments)
      × (db'.bills ≡ db.bills)
unfolding close_debt_case_for_bill
close-lines env bill db = ground arith

due-congr :
    (bill : ℕ) (db db' : Db)
    → db'.lines ≡ db.lines
    → db'.allocations ≡ db.allocations
    → db'.payments ≡ db.payments
    → due bill db' ≡ due bill db
unfolding paid_amount
due-congr bill db db' l a p = rw (l, a, p)

-- The database once one prior bill has been marked and its case closed.
abbrev step : Env → ℕ → Bill → Db → Db
step env by prior db =
    close_debt_case_for_bill env prior.id
      (record db { bills = modify prior.id (mark_superseded by) db.bills })

due-step :
    (env : Env) (by bill : ℕ) (prior : Bill) (db : Db)
    → due bill (step env by prior db) ≡ due bill db
due-step env by bill prior db =
    let same =
      close-lines env prior.id
        (record db { bills = modify prior.id (mark_superseded by) db.bills }) in
    due-congr bill db (step env by prior db) same.0 same.1 same.2

sum_of-due-step :
    (env : Env) (by : ℕ) (prior : Bill) (bs : List Bill) (db : Db)
    → sum_of (λ b. due b.id (step env by prior db)) bs ≡ sum_of (λ b. due b.id db) bs
sum_of-due-step env by prior bs db =
    sum_of-congr _ _ bs (All-of _ bs (λ b. due-step env by b.id prior db))

-- What consolidation carries over is what the lines of the superseded bills owed before, line by
-- line: nothing twice, and nothing lost.
pub supersede-carried :
    (env : Env) (by : ℕ) (priors : List Bill) (found : List Arrears) (db : Db) (out : List Arrears)
    (db' : Db)
    → supersede env by priors found db ≡ ok (out, db')
    → carried out ≡ carried found + sum_of (λ b. due b.id db) priors
unfolding supersede
supersede-carried env by [] found db out db' e = ground arith
supersede-carried env by (prior ∷ rest) found db out db' e =
    let closed = step env by prior db in
    let ls = by_position (lines_of prior.id closed) in
    elim (Result-cases (collect_lines closed ls found)) [
      | inl (x, failed) ↦ ground arith
      | inr (more, collected) ↦
          let onward : supersede env by rest more closed ≡ ok (out, db') = ground arith in
          omega (
            arith,
            supersede-carried env by rest more closed out db' onward,
            collect_lines-carried closed ls found more collected,
            sum_of-by_position (owed (paid_amount closed)) (lines_of prior.id closed),
            due-step env by prior.id prior db,
            sum_of-due-step env by prior rest db,
          )
    ]

-- An open bill of the payer other than the new one.
abbrev pub candidate : ℕ → ℕ → Bill → Bool
candidate payer bill b = b.payer == payer && is_open b.status && not (b.id == bill)

-- A bill that is open is among those still to be superseded.
abbrev IsPending : ℕ → ℕ → List Bill → Bill → Type 0
IsPending payer bill priors b =
    (candidate payer bill b ≡ true) → (exists (λ p. p.id == b.id) priors ≡ true)

supersede-IsPending :
    (env : Env) (payer by : ℕ) (priors : List Bill) (found : List Arrears) (db : Db)
    (out : List Arrears) (db' : Db)
    → All (IsPending payer by priors) db.bills.rows
    → supersede env by priors found db ≡ ok (out, db')
    → All (λ b. candidate payer by b ≡ false) db'.bills.rows
unfolding supersede
supersede-IsPending env payer by [] found db out db' h e =
    let same : db ≡ db' = ground arith in
    subst (λ (d : Db). All (λ b. candidate payer by b ≡ false) d.bills.rows) same
      (All-map _ _ db.bills.rows (λ b pending. ground arith) h)
supersede-IsPending env payer by (prior ∷ rest) found db out db' h e =
    let closed = step env by prior db in
    let marked = record db { bills = modify prior.id (mark_superseded by) db.bills } in
    let ls = by_position (lines_of prior.id closed) in
    let kept : closed.bills ≡ marked.bills = (close-lines env prior.id marked).3 in
    let pending : All (IsPending payer by rest) closed.bills.rows =
      subst (λ t. All (IsPending payer by rest) t.rows) (sym kept)
        (modify_rows-All_self (IsPending payer by (prior ∷ rest)) (IsPending payer by rest) prior.id
          (mark_superseded by) db.bills.rows (λ b same p c. ground arith)
          (λ b other p c. ground (arith, p c)) h) in
    elim (Result-cases (collect_lines closed ls found)) [
      | inl (x, failed) ↦ ground arith
      | inr (more, collected) ↦
          supersede-IsPending env payer by rest more closed out db' pending (ground arith)
    ]

select-IsPending :
    (payer bill : ℕ) (rows : List Bill)
    → All (IsPending payer bill (select (candidate payer bill) rows)) rows
select-IsPending payer bill [] = tt
select-IsPending payer bill (b ∷ rows) =
    let rest = select (candidate payer bill) rows in
    (
      λ c. rw c (rw (==_refl b.id)),
      All-map _ _ rows
          (λ x pending c.
            if-both (λ bs. exists (λ p. p.id == x.id) bs ≡ true) (candidate payer bill b)
              (exists-cons (λ p. p.id == x.id) b rest (pending c)) (pending c))
          (select-IsPending payer bill rows),
    )

-- After a consolidation the payer has no open bill but the new one.
pub supersede-open_bills :
    (env : Env) (payer by : ℕ) (db : Db) (out : List Arrears) (db' : Db)
    → supersede env by (open_bills payer by db) [] db ≡ ok (out, db')
    → open_bills payer by db' ≡ []
unfolding open_bills
supersede-open_bills env payer by db out db' e = select-nil (candidate payer by) db'.bills.rows (
    supersede-IsPending env payer by (select (candidate payer by) db.bills.rows) [] db out db'
      (select-IsPending payer by db.bills.rows) e)
