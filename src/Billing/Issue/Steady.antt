-- ===== src/Billing/Issue/Steady.antt =====
-- What every bill has before the issue of a bill, and behind it.
use acrev360_backend.Base.{
  ℕ, ◌+◌, ◌≡◌, ◌<◌, refl, subst, ◌∙◌, inl, inr, not, Option, none, some, List, [], ◌∷◌, arith, ◌==◌,
  ◌&&◌, select, All, All-map, All-append, Bool-cases, Option-cases,
}
use acrev360_backend.Base.Table.{insert, find, modify}
use acrev360_backend.Base.Table.Laws.{modify_rows-All, modify_rows-All_self}
use acrev360_backend.Models.Billing.{Assessment, Bill, BillLine, is_open, bill_keyed}
use acrev360_backend.Models.Ref.{Ref, bill_number}
use acrev360_backend.Models.Registry.{payer_keyed}
use acrev360_backend.Store.{Config, config_keyed, Db, Env, Result-cases, ok, audit}
use acrev360_backend.Billing.Recompute.{lines_of, save_rollup, recompute_bill}
use acrev360_backend.Billing.Issue.Arrears.{
  Arrears, create_lines, collect_lines, mark_superseded, supersede, open_bills, place_arrears,
}
use acrev360_backend.Billing.Issue.Run.{
  Request, new_bill, check_duplicate, gather, due_date_of, roll, finish, build_bill, is_empty,
  issue_bill,
}
use acrev360_backend.Enforcement.Close.{close_debt_case_for_bill}
use acrev360_backend.Payments.Fifo.{by_position}
use acrev360_backend.Billing.Issue.Frame.{
  SameMoney, SameMoney-trans, gather-SameBills, create_lines-SameBills, place_arrears-SameBills,
  close-SameBills,
}

-- A fact of every bill that a new bill has, and that marking an older bill as superseded, numbering
-- and the roll-up keep.
pub record IsSteady (env : Env) (q : Request) (next : ℕ) (P : Bill → Type 0) : Type 0 where
  pub fresh : (due_date : ℕ) → P (new_bill env q due_date next)
  pub marked : (b : Bill) → b.id < next → P b → P (mark_superseded next b)
  pub numbered : (r : Ref) (b : Bill) → P b → P (record b { bill_ref = r })
  pub rolled : (from b : Bill) → P b → P (save_rollup from b)

module _ (env : Env) (q : Request) (next : ℕ) (P : Bill → Type 0)
    (steady : IsSteady env q next P) where
  -- The fact, and that no bill is newer than the new one.
  abbrev Sound : Db → Type 0
  Sound db = All (λ b. P b × (b.id < next + 1)) db.bills.rows

  supersede-Sound :
      (priors : List Bill) (found : List Arrears) (db : Db) (out : List Arrears) (db' : Db)
      → All (λ b. b.id < next) priors
      → Sound db
      → supersede env next priors found db ≡ ok (out, db')
      → Sound db' × SameMoney db db'
  unfolding supersede
  supersede-Sound [] found db out db' older h e =
      let same : db ≡ db' = ground arith in
      subst (λ x. Sound x × SameMoney db x) same (h, (refl, refl))
  supersede-Sound (prior ∷ rest) found db out db' older h e =
      let marked = record db { bills = modify prior.id (mark_superseded next) db.bills } in
      let closed = close_debt_case_for_bill env prior.id marked in
      let same = close-SameBills env prior.id marked in
      let sound : Sound marked =
        modify_rows-All_self (λ b. P b × (b.id < next + 1)) (λ b. P b × (b.id < next + 1)) prior.id
          (mark_superseded next) db.bills.rows
          (λ b own p. (steady.marked b (omega (arith, own, older.0)) p.0, p.1)) (λ b other p. p)
          h in
      elim (Result-cases (collect_lines closed (by_position (lines_of prior.id closed)) found)) [
        | inl (x, bad) ↦ absurd (ground arith)
        | inr (more, good) ↦
            let rest_of =
              supersede-Sound rest more closed out db' older.1 (rw same.0 sound) (ground arith) in
            (rest_of.0, SameMoney-trans db closed db' same.1 rest_of.1)
      ]

  open_bills-older :
      (payer : ℕ) (db : Db) → Sound db → All (λ b. b.id < next) (open_bills payer next db)
  unfolding open_bills
  open_bills-older payer db h = older db.bills.rows h
    where
      older :
          (xs : List Bill)
          → All (λ b. P b × (b.id < next + 1)) xs
          → All
              (λ b. b.id < next)
              (select (λ b. b.payer == payer && is_open b.status && not (b.id == next)) xs)
      older [] h = tt
      older (b ∷ xs) h =
          elim (Bool-cases (b.payer == payer && is_open b.status && not (b.id == next))) [
            | inr off ↦ rw off (older xs h.1)
            | inl on ↦ rw on (ground arith, older xs h.1)
          ]

  roll-Sound :
      (position : ℕ) (fresh : List (ℕ × BillLine)) (db : Db) (n : ℕ) (db' : Db)
      → Sound db
      → roll env q next position fresh db ≡ ok (n, db')
      → Sound db' × SameMoney db db'
  unfolding roll
  roll-Sound position fresh db n db' h e = elim (Bool-cases q.roll_arrears) [
    | inr off ↦
        let same : db ≡ db' = ground arith in
        subst (λ x. Sound x × SameMoney db x) same (h, (refl, refl))
    | inl on ↦ elim (Result-cases (supersede env next (open_bills q.payer.id next db) [] db)) [
      | inl (x, bad) ↦ absurd (ground arith)
      | inr ((arrears, db1), good) ↦
          let first =
            supersede-Sound (open_bills q.payer.id next db) [] db arrears db1
              (open_bills-older q.payer.id db h) h good in
          let placed = place_arrears env next fresh arrears position db1 in
          let same = place_arrears-SameBills env next fresh arrears position db1 in
          let last : placed ≡ db' = ground arith in
          subst (λ x. Sound x × SameMoney db x) last
            (rw same.0 first.0, SameMoney-trans db db1 placed first.1 same.1)
    ]
  ]

  recompute_bill-Sound :
      (bill : Bill) (db : Db)
      → Sound db
      → let db' = (recompute_bill env bill db).1 in Sound db' × SameMoney db db'
  unfolding recompute_bill
  recompute_bill-Sound bill db h = (
    modify_rows-All (λ b. P b × (b.id < next + 1)) bill.id
        (save_rollup (recompute_bill env bill db).0) db.bills.rows
        (λ b p. (steady.rolled (recompute_bill env bill db).0 b p.0, p.1)) h,
    (refl, refl),
  )

  finish-Sound :
      (bypassed : Option Bill) (bill : Bill) (n : ℕ) (config : Config) (db : Db)
      → Sound db
      → let db' = (finish env q bypassed bill n config db).1 in Sound db' × SameMoney db db'
  unfolding finish audit
  finish-Sound none bill n config db h =
      let ref = bill_number config.bill_ref_prefix (env.year_of env.today) bill.id in
      recompute_bill-Sound (record bill { bill_ref = ref })
        (record db { bills = modify bill.id (λ row. record row { bill_ref = ref }) db.bills })
        (modify_rows-All (λ b. P b × (b.id < next + 1)) bill.id
          (λ row. record row { bill_ref = ref }) db.bills.rows
          (λ b p. (steady.numbered ref b p.0, p.1)) h)
  finish-Sound (some old) bill n config db h =
      let ref = bill_number config.bill_ref_prefix (env.year_of env.today) bill.id in
      recompute_bill-Sound (record bill { bill_ref = ref })
        (record db { bills = modify bill.id (λ row. record row { bill_ref = ref }) db.bills })
        (modify_rows-All (λ b. P b × (b.id < next + 1)) bill.id
          (λ row. record row { bill_ref = ref }) db.bills.rows
          (λ b p. (steady.numbered ref b p.0, p.1)) h)

-- Every bill's id has come from the sequence, and every bill has the fact.
abbrev pub Holds : (Bill → Type 0) → Db → Type 0
Holds P db = All (λ b. P b × (b.id < db.bills.next)) db.bills.rows

build_bill-Sound :
    (env : Env) (q : Request) (P : Bill → Type 0) (db : Db)
    (steady : IsSteady env q db.bills.next P) (bypassed : Option Bill) (kept : List Assessment)
    (due_date : ℕ) (bill : Bill) (db' : Db)
    → Holds P db
    → build_bill env q bypassed kept due_date db ≡ ok (bill, db')
    → Sound env q db.bills.next P steady db' × SameMoney db db'
unfolding build_bill
build_bill-Sound env q P db steady bypassed kept due_date bill db' h e =
    let next = db.bills.next in
    let made = new_bill env q due_date next in
    let opened = record db { bills = insert (new_bill env q due_date) db.bills } in
    let (position, fresh, lined) = create_lines env next kept 0 [] opened in
    let lines_same = create_lines-SameBills env next kept 0 [] opened in
    let sound : Sound env q next P steady opened =
      All-append _ db.bills.rows _ (All-map _ _ db.bills.rows (λ b p. (p.0, omega (arith, p.1))) h)
        ((steady.fresh due_date, omega arith), tt) in
    elim (Result-cases (roll env q next position fresh lined)) [
      | inl (x, bad) ↦ absurd (ground arith)
      | inr ((n, rolled), good) ↦ elim (Option-cases (find q.council rolled.configs)) [
        | inl gone ↦ absurd (ground arith)
        | inr (config, found) ↦
            let r =
              roll-Sound env q next P steady position fresh lined n rolled (rw lines_same.0 sound)
                good in
            let f = finish-Sound env q next P steady bypassed made n config rolled r.0 in
            let last : (finish env q bypassed made n config rolled).1 ≡ db' = ground arith in
            subst (λ x. Sound env q next P steady x × SameMoney db x) last
              (
                f.0,
                SameMoney-trans db rolled (finish env q bypassed made n config rolled).1
                    (SameMoney-trans db lined rolled lines_same.1 r.1) f.1,
              )
      ]
    ]

-- A steady fact that every bill has before the issue of a bill, every bill has behind it; and no
-- payment and no allocation is written.
pub issue_bill-steady :
    (env : Env) (q : Request) (P : Bill → Type 0) (db : Db) (bill : Bill) (db' : Db)
    → IsSteady env q db.bills.next P
    → Holds P db
    → issue_bill env q db ≡ ok (bill, db')
    → All P db'.bills.rows × (db'.payments ≡ db.payments) × (db'.allocations ≡ db.allocations)
unfolding issue_bill
issue_bill-steady env q P db bill db' steady h e = elim (Option-cases (find q.payer.id db.payers)) [
  | inl gone ↦ absurd (ground arith)
  | inr (payer, there) ↦ elim (Result-cases (check_duplicate env q db)) [
    | inl (x, bad) ↦ absurd (ground arith)
    | inr (bypassed, passed) ↦ elim (Result-cases (gather env q db)) [
      | inl (x, bad) ↦ absurd (ground arith)
      | inr ((kept, gathered), good) ↦ elim (Bool-cases (is_empty kept && not q.roll_arrears)) [
        | inl nothing ↦ absurd (ground arith)
        | inr some_lines ↦ elim (Result-cases (due_date_of env q gathered)) [
          | inl (x, bad) ↦ absurd (ground arith)
          | inr (due_date, dated) ↦
              let built : build_bill env q bypassed kept due_date gathered ≡ ok (bill, db') =
                ground arith in
              let same = gather-SameBills env q db kept gathered good in
              let r =
                build_bill-Sound env q P gathered (rw same.0 steady) bypassed kept due_date bill db'
                  (rw same.0 h) built in
              (All-map _ _ db'.bills.rows (λ b p. p.0) r.0, r.1.0 ∙ same.1.0, r.1.1 ∙ same.1.1)
        ]
      ]
    ]
  ]
]
