-- ===== src/Api/Payments/Laws.antt =====
-- Whose bills a caller can post payments to, and that every posting is answered.
use Prim.Native.String.{count as char_count}
use acrev360_backend.Base.{
  ◌≤◌, ℕ, ◌≡◌, ◌≢◌, refl, ◌⊎◌, inl, inr, Bool, true, false, Option, none, some, List, [], ◌∷◌,
  arith, Bool-cases, Option-cases, ◌==◌, ◌&&◌, first, same_ref, sym, ap, ◌∙◌, ==_iff, All-first,
  All-of,
}
use acrev360_backend.Base.Table.{find, find_row}
use acrev360_backend.Models.Accounts.{AppUser}
use acrev360_backend.Models.Billing.{Bill, BillStatus, is_terminal, bill_keyed}
use acrev360_backend.Models.Payments.{Payment, PosTerminal, TxnStatus, payment_keyed}
use acrev360_backend.Store.{Db, Env, bill_superseded, bill_cancelled, integrity, Result, ok, err}
use acrev360_backend.Api.Answers.{
  done, bad_request, conflict, not_found, is_visible_bill, visible_bill,
}
use acrev360_backend.Api.Payments.{
  terminal_for, posting_of, payment_answer, checked, create_payment_view,
}
use acrev360_backend.Payments.Frame.{post_payment-stored, post_payment-Carries}
use acrev360_backend.Payments.Ledger.{IsBalanced}
use acrev360_backend.Payments.Post.{
  Posting, is_too_long, is_ref_taken, record_payment, post_payment, post_payment-IsPosted,
}
use acrev360_backend.Payments.Request.{PaymentData}

same_ref-some : (r : Option ℕ) (n : ℕ) → same_ref r (some n) ≡ true → r ≡ some n
same_ref-some none n h = cc
same_ref-some (some m) n h = ap some ((==_iff m n).0 h)

first-find_row :
    (p : Bill → Bool) (xs : List Bill) (b : Bill) → first p xs ≡ some b → find_row b.id xs ≢ none
first-find_row p [] b e = cc
first-find_row p (x ∷ xs) b e = ground (arith, first-find_row p xs b)

-- A terminal that is named is one of the council.
abbrev pub IsOwnTerminal : Option ℕ → Option ℕ → Db → Type 0
IsOwnTerminal council none db = Unit
IsOwnTerminal council (some id) db =
    (t : PosTerminal) × (council ≡ some t.council)
    × (first (λ x. x.id == id && same_ref council (some x.council)) db.terminals.rows ≡ some t)

terminal_for-own :
    (council asked : Option ℕ) (db : Db) (terminal : Option ℕ)
    → terminal_for council asked db ≡ some terminal
    → (terminal ≡ asked) × IsOwnTerminal council asked db
terminal_for-own council none db terminal e = (ground arith, tt)
terminal_for-own council (some id) db terminal e =
    let test = λ (t : PosTerminal). t.id == id && same_ref council (some t.council) in
    elim (Option-cases (first test db.terminals.rows)) [
      | inl gone ↦ absurd (ground arith)
      | inr (t, found) ↦
          let own : (t.id == id && same_ref council (some t.council)) ≡ true =
            (All-first (λ _. Unit {0}) test db.terminals.rows t (All-of _ _ λ _. tt) found).1 in
          let same : t.id ≡ id = ground arith in
          let given : some t.id ≡ terminal = ground arith in
          (sym given ∙ ap some same, (t, same_ref-some council t.council (ground arith), found))
    ]

-- A payment that the handler creates, on a balanced ledger, is for a bill of the caller's portfolio
-- that is neither superseded nor cancelled, and is stored with the request's values, the amount rounded
-- to its column, and the caller as its poster; the terminal that the request names, if any, is of the
-- caller's council.
pub create_payment_view-scoped :
    (env : Env) (user : AppUser) (q : PaymentData) (db : Db) (p : Payment) (db' : Db)
    → IsBalanced db
    → create_payment_view env user (some q) db ≡ ok (done p, db')
    → (bill : Bill) × (visible_bill db user q.bill_id ≡ some bill)
      × (is_terminal bill.status ≡ false)
      × (find p.id db'.payments ≡ some p)
      × (p.bill ≡ bill.id)
      × (p.council ≡ bill.council)
      × (p.amount ≡ env.column q.amount)
      × (p.channel ≡ q.channel_code)
      × (p.bank_txn_ref ≡ q.bank_txn_ref)
      × (p.posted_by ≡ some user.id)
      × (p.geo_lat ≡ q.geo_lat)
      × (p.geo_lng ≡ q.geo_lng)
      × (p.txn_status ≡ TxnStatus.confirmed)
      × (p.terminal ≡ q.terminal_id)
      × IsOwnTerminal user.council q.terminal_id db
unfolding create_payment_view
create_payment_view-scoped env user q db p db' h e =
    elim (Option-cases (visible_bill db user q.bill_id)) [
      | inl hidden ↦ absurd (ground arith)
      | inr (bill, seen) ↦ elim (Option-cases (terminal_for user.council q.terminal_id db)) [
        | inl gone ↦ absurd (ground arith)
        | inr (terminal, given) ↦
            let posting = posting_of bill.council user terminal q in
            let answered = rw (create_payment_view, seen, given) at e in
            let good : post_payment env posting bill db ≡ ok (p, db') =
              answer_done db (post_payment env posting bill db) q.geo_is_numeric p db' answered in
            let (row, posted) = post_payment-IsPosted env posting bill db p db' good in
            let carries = post_payment-Carries env posting bill db p db' good in
            let (same, own) = terminal_for-own user.council q.terminal_id db terminal given in
            (
              bill,
              seen,
              posted.open_status,
              post_payment-stored env posting bill db p db' h good,
              carries.4,
              carries.3,
              carries.0,
              carries.1,
              carries.2,
              carries.6,
              carries.7,
              carries.8,
              carries.9,
              carries.5 ∙ same,
              own,
            )
      ]
    ]
  where
    answer_done :
        (db : Db) (r : Result (Payment × Db)) (numeric : Bool) (p : Payment) (db' : Db)
        → payment_answer db (checked numeric r) ≡ ok (done p, db')
        → r ≡ ok (p, db')
    answer_done db (ok r) true p db' e = ground arith
    answer_done db (ok r) false p db' e = absurd (ground arith)
    answer_done db (err x) true p db' e = absurd (ground arith)
    answer_done db (err x) false p db' e = absurd (ground arith)

status_cases :
    (s : BillStatus)
    → (s ≡ BillStatus.superseded) ⊎ (s ≡ BillStatus.cancelled) ⊎ (is_terminal s ≡ false)
status_cases BillStatus.superseded = inl refl
status_cases BillStatus.cancelled = inr (inl refl)
status_cases BillStatus.issued = inr (inr refl)
status_cases BillStatus.part_paid = inr (inr refl)
status_cases BillStatus.paid = inr (inr refl)
status_cases BillStatus.overdue = inr (inr refl)

post_payment-found :
    (env : Env) (q : Posting) (bill row : Bill) (db : Db)
    → find bill.id db.bills ≡ some row
    → is_too_long q.bank_txn_ref ≡ false
    → (post_payment env q bill db ≡ err bill_superseded)
      ⊎ (post_payment env q bill db ≡ err bill_cancelled)
      ⊎ (post_payment env q bill db ≡ err integrity)
      ⊎ (post_payment env q bill db ≡ ok (record_payment env q row db))
unfolding post_payment
post_payment-found env q bill row db found fits = elim (status_cases bill.status) [
  | inl gone ↦ inl (ground arith)
  | inr (inl gone) ↦ inr (inl (ground arith))
  | inr (inr live) ↦ elim (Bool-cases (is_ref_taken q.channel q.bank_txn_ref db)) [
    | inl taken ↦ inr (inr (inl (ground arith)))
    | inr free ↦ inr (inr (inr (ground arith)))
  ]
]

-- A posting whose coordinates are numbers of their columns and whose bank reference has at most 64
-- characters is answered (a money column that overflows is not modelled): with the payment, with 404
-- for a bill outside the portfolio or a terminal of another council, with 400 for a superseded or
-- cancelled bill, or with 409 for a reference that is recorded; in all but the first nothing is
-- written.
pub create_payment_view-answers :
    (env : Env) (user : AppUser) (q : PaymentData) (db : Db)
    → q.geo_is_numeric ≡ true
    → char_count q.bank_txn_ref ≤ 64
    → ((p : Payment) × (db' : Db) × (create_payment_view env user (some q) db ≡ ok (done p, db')))
      ⊎ (create_payment_view env user (some q) db ≡ ok (not_found, db))
      ⊎ (create_payment_view env user (some q) db ≡ ok (bad_request bill_superseded, db))
      ⊎ (create_payment_view env user (some q) db ≡ ok (bad_request bill_cancelled, db))
      ⊎ (create_payment_view env user (some q) db ≡ ok (conflict integrity, db))
unfolding create_payment_view is_too_long
create_payment_view-answers env user q db numeric short =
    elim (Option-cases (visible_bill db user q.bill_id)) [
      | inl hidden ↦ inr (inl (ground arith))
      | inr (bill, seen) ↦ elim (Option-cases (terminal_for user.council q.terminal_id db)) [
        | inl gone ↦ inr (inl (ground arith))
        | inr (terminal, given) ↦ elim (Option-cases (find bill.id db.bills)) [
          | inl missing ↦ absurd (
              first-find_row (λ b. b.id == q.bill_id && is_visible_bill db user b) db.bills.rows
                bill seen missing)
          | inr (row, found) ↦
              let posting = posting_of bill.council user terminal q in
              elim (post_payment-found env posting bill row db found (ground arith)) [
                | inl e ↦ inr (inr (inl (rw (create_payment_view, seen, given, numeric, e) refl)))
                | inr (inl e) ↦
                    inr (inr (inr (inl (rw (create_payment_view, seen, given, numeric, e) refl))))
                | inr (inr (inl e)) ↦
                    inr (inr (inr (inr (rw (create_payment_view, seen, given, numeric, e) refl))))
                | inr (inr (inr e)) ↦
                    let (p, db') = record_payment env posting row db in
                    inl (p, db', rw (create_payment_view, seen, given, numeric, e) refl)
              ]
        ]
      ]
    ]
