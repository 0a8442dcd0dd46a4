-- ===== src/Billing/Issue/Frame.antt =====
-- What the issue of a bill does to the table of bills, and what it leaves alone.
use acrev360_backend.Base.{
  ℕ, ◌+◌, ◌≡◌, refl, subst, ◌∙◌, inl, inr, List, [], ◌∷◌, ◌++◌, arith, if◌then◌else◌, Option-cases,
}
use acrev360_backend.Models.Billing.{Assessment, AssessmentStatus, BillLine, bill_keyed}
use acrev360_backend.Billing.Lines.{save_assessment, save_status}
use acrev360_backend.Models.Registry.{Payer}
use acrev360_backend.Store.{config_keyed, Db, Env, Result-cases, ok}
use acrev360_backend.Billing.Pricing.{Charge, create_draft_assessment}
use acrev360_backend.Billing.Issue.Merge.{draft_lines, swept, merge_loop, save_kept, cancel_all}
use acrev360_backend.Billing.Issue.Arrears.{Arrears, create_lines, place_arrears, get_line}
use acrev360_backend.Billing.Issue.Run.{Request, gather}
use acrev360_backend.Enforcement.Close.{close_debt_case_for_bill}

-- The money's tables are the same.
abbrev pub SameMoney : Db → Db → Type 0
SameMoney db db' = (db'.payments ≡ db.payments) × (db'.allocations ≡ db.allocations)

abbrev pub SameBills : Db → Db → Type 0
SameBills db db' = (db'.bills ≡ db.bills) × SameMoney db db'

pub SameMoney-trans : (a b c : Db) → SameMoney a b → SameMoney b c → SameMoney a c
SameMoney-trans a b c h k = (k.0 ∙ h.0, k.1 ∙ h.1)

SameBills-trans : (a b c : Db) → SameBills a b → SameBills b c → SameBills a c
SameBills-trans a b c h k = (k.0 ∙ h.0, SameMoney-trans a b c h.1 k.1)

draft-SameBills :
    (env : Env) (payer : Payer) (c : Charge) (actor : ℕ) (db : Db) (a : Assessment) (db' : Db)
    → create_draft_assessment env payer c actor db ≡ ok (a, db')
    → SameBills db db'
unfolding create_draft_assessment
draft-SameBills env payer c actor db a db' e = ground arith

draft_lines-SameBills :
    (env : Env) (payer : Payer) (actor : ℕ) (cs : List Charge) (db : Db) (out : List Assessment)
    (db' : Db)
    → draft_lines env payer actor cs db ≡ ok (out, db')
    → SameBills db db'
unfolding draft_lines
draft_lines-SameBills env payer actor [] db out db' e = ground arith
draft_lines-SameBills env payer actor (c ∷ cs) db out db' e =
    elim (Result-cases (create_draft_assessment env payer c actor db)) [
      | inl (x, bad) ↦ absurd (ground arith)
      | inr ((a, db1), good) ↦ elim (Result-cases (draft_lines env payer actor cs db1)) [
        | inl (x, bad) ↦ absurd (ground arith)
        | inr ((rest, db2), more) ↦
            SameBills-trans db db1 db' (draft-SameBills env payer c actor db a db1 good)
              (draft_lines-SameBills env payer actor cs db1 rest db' (ground arith))
      ]
    ]

save_kept-SameBills :
    (env : Env) (kept : List Assessment) (db : Db) → SameBills db (save_kept env kept db)
unfolding save_kept
save_kept-SameBills env [] db = (refl, (refl, refl))
save_kept-SameBills env (a ∷ rest) db = save_kept-SameBills env rest (save_assessment env a db)

cancel_all-SameBills : (gone : List Assessment) (db : Db) → SameBills db (cancel_all gone db)
unfolding cancel_all
cancel_all-SameBills [] db = (refl, (refl, refl))
cancel_all-SameBills (a ∷ rest) db =
    cancel_all-SameBills rest (save_status a.id AssessmentStatus.cancelled db)

pub gather-SameBills :
    (env : Env) (q : Request) (db : Db) (kept : List Assessment) (db' : Db)
    → gather env q db ≡ ok (kept, db')
    → SameBills db db'
unfolding gather
gather-SameBills env q db kept db' e =
    elim (Result-cases (draft_lines env q.payer q.actor q.lines db)) [
      | inl (x, bad) ↦ absurd (ground arith)
      | inr ((drafted, db1), good) ↦
          let all = if q.bill_all_drafts then drafted ++ swept q.payer drafted db1 else drafted in
          let (kept1, gone) = merge_loop all [] [] in
          let same : cancel_all gone (save_kept env kept1 db1) ≡ db' = ground arith in
          subst (SameBills db) same (
            SameBills-trans db db1 (cancel_all gone (save_kept env kept1 db1))
              (draft_lines-SameBills env q.payer q.actor q.lines db drafted db1 good)
              (SameBills-trans db1 (save_kept env kept1 db1)
                (cancel_all gone (save_kept env kept1 db1)) (save_kept-SameBills env kept1 db1)
                (cancel_all-SameBills gone (save_kept env kept1 db1))))
    ]

pub create_lines-SameBills :
    (env : Env) (bill : ℕ) (kept : List Assessment) (position : ℕ) (fresh : List (ℕ × BillLine))
    (db : Db)
    → SameBills db (create_lines env bill kept position fresh db).2
unfolding create_lines
create_lines-SameBills env bill [] position fresh db = (refl, (refl, refl))
create_lines-SameBills env bill (a ∷ rest) position fresh db =
    create_lines-SameBills env bill rest (position + 1) _ _

pub place_arrears-SameBills :
    (env : Env) (bill : ℕ) (fresh : List (ℕ × BillLine)) (rs : List Arrears) (position : ℕ)
    (db : Db)
    → SameBills db (place_arrears env bill fresh rs position db)
unfolding place_arrears
place_arrears-SameBills env bill fresh [] position db = (refl, (refl, refl))
place_arrears-SameBills env bill fresh (r ∷ rs) position db =
    elim (Option-cases (get_line r.item fresh)) [
      | inl alone ↦
          rw (place_arrears, alone) (place_arrears-SameBills env bill fresh rs (position + 1) _)
      | inr (line, onto) ↦
          rw (place_arrears, onto) (place_arrears-SameBills env bill fresh rs position _)
    ]

pub close-SameBills :
    (env : Env) (bill : ℕ) (db : Db) → SameBills db (close_debt_case_for_bill env bill db)
unfolding close_debt_case_for_bill
close-SameBills env bill db = ground arith
