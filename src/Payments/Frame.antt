-- ===== src/Payments/Frame.antt =====
-- What a posting leaves alone, and the payment's row that it leaves behind.
use acrev360_backend.Base.{
  ℕ, Bool, Option, none, first, ◌==◌, ◌&&◌, ◌⊎◌, ◌≡◌, refl, subst, ◌∙◌, some, arith,
}
use acrev360_backend.Base.Table.{find}
use acrev360_backend.Base.Table.Laws.{key-find_row, find_row-new, find_row-modify_self}
use acrev360_backend.Models.Billing.{Bill, bill_keyed}
use acrev360_backend.Models.Payments.{Payment, PosTerminal, TxnStatus, payment_keyed}
use acrev360_backend.Store.{Db, Env, ok, audit}
use acrev360_backend.Billing.Recompute.{recompute_bill}
use acrev360_backend.Payments.Fifo.{allocate_fifo}
use acrev360_backend.Payments.Post.{
  Posting, new_payment, with_ref, create_payment, credit_leftover, issue_receipt, close_if_paid,
  apply_to_bill, record_payment, post_payment, post_payment-IsPosted,
}
use acrev360_backend.Payments.Ledger.{IsBalanced}
use acrev360_backend.Payments.Ledger.Post.{credit_leftover-SameTables, close_if_paid-SameTables}

-- The tables that are no part of the ledger.
abbrev pub SameRest : Db → Db → Type 0
SameRest db db' =
    (db'.feed ≡ db.feed)
    × (db'.clients ≡ db.clients)
    × (db'.councils ≡ db.councils)
    × (db'.configs ≡ db.configs)
    × (db'.agents ≡ db.agents)
    × (db'.sync_records ≡ db.sync_records)
    × (db'.assets ≡ db.assets)

pub SameRest-trans : (a b c : Db) → SameRest a b → SameRest b c → SameRest a c
SameRest-trans a b c h k =
    (k.0 ∙ h.0, k.1 ∙ h.1, k.2 ∙ h.2, k.3 ∙ h.3, k.4 ∙ h.4, k.5 ∙ h.5, k.6 ∙ h.6)

credit_leftover-SameRest :
    (q : Posting) (bill : Bill) (leftover : ℕ) (db : Db)
    → SameRest db (credit_leftover q bill leftover db)
unfolding credit_leftover
credit_leftover-SameRest q bill leftover db = ground arith

close_if_paid-SameRest :
    (env : Env) (bill : Bill) (db : Db) → SameRest db (close_if_paid env bill db)
unfolding close_if_paid
close_if_paid-SameRest env bill db = ground arith

record_payment-SameRest :
    (env : Env) (q : Posting) (bill : Bill) (db : Db) → SameRest db (record_payment env q bill db).1
unfolding record_payment create_payment apply_to_bill allocate_fifo recompute_bill issue_receipt
    audit
record_payment-SameRest env q bill db =
    let (p, created) = create_payment env q bill.id db in
    let (bill2, rolled, leftover) = apply_to_bill env p bill created in
    let credited = credit_leftover q bill2 leftover rolled in
    let receipted = issue_receipt q.council p credited in
    SameRest-trans db receipted (close_if_paid env bill2 receipted)
      (credit_leftover-SameRest q bill2 leftover rolled)
      (close_if_paid-SameRest env bill2 receipted)

-- A posting that went through leaves these tables as they were.
pub post_payment-SameRest :
    (env : Env) (q : Posting) (bill : Bill) (db : Db) (p : Payment) (db' : Db)
    → post_payment env q bill db ≡ ok (p, db')
    → SameRest db db'
post_payment-SameRest env q bill db p db' e =
    let (row, posted) = post_payment-IsPosted env q bill db p db' e in
    subst (λ (r : Payment × Db). SameRest db r.1) posted.recorded
      (record_payment-SameRest env q row db)

record_payment-stored :
    (env : Env) (q : Posting) (bill : Bill) (db : Db)
    → IsBalanced db
    → let (p, db') = record_payment env q bill db in find p.id db'.payments ≡ some p
unfolding record_payment create_payment apply_to_bill allocate_fifo recompute_bill issue_receipt
    audit
record_payment-stored env q bill db h =
    let (p, created) = create_payment env q bill.id db in
    let (bill2, rolled, leftover) = apply_to_bill env p bill created in
    let credited = credit_leftover q bill2 leftover rolled in
    let receipted = issue_receipt q.council p credited in
    let same = close_if_paid-SameTables env bill2 receipted in
    let same' = credit_leftover-SameTables q bill2 leftover rolled in
    let own = find_row-modify_self db.payments.next with_ref _ refl (
      find_row-new db.payments.next (new_payment env q bill.id db.payments.next) db.payments.rows
        h.payments_below refl) in
    rw (same.0, same'.0) own

-- The payment that a posting returns is the row that it stored.
pub post_payment-stored :
    (env : Env) (q : Posting) (bill : Bill) (db : Db) (p : Payment) (db' : Db)
    → IsBalanced db
    → post_payment env q bill db ≡ ok (p, db')
    → find p.id db'.payments ≡ some p
post_payment-stored env q bill db p db' h e =
    let (row, posted) = post_payment-IsPosted env q bill db p db' e in
    subst (λ (r : Payment × Db). find r.0.id r.1.payments ≡ some r.0) posted.recorded
      (record_payment-stored env q row db h)

-- The terminal of a payment: none if none is named; if one is, that one where it passes the test, and
-- none where there is none that does.
abbrev pub IsTerminal : (PosTerminal → Bool) → Option ℕ → Db → Option ℕ → Type 0
IsTerminal own none db terminal = terminal ≡ none
IsTerminal own (some id) db terminal =
    ((t : PosTerminal) × (first (λ x. x.id == id && own x) db.terminals.rows ≡ some t)
      × (terminal ≡ some id))
    ⊎ ((terminal ≡ none) × (first (λ x. x.id == id && own x) db.terminals.rows ≡ none))

-- The payment carries the posting's values, for the bill with that id.
abbrev pub Carries : Env → Posting → ℕ → Payment → Type 0
Carries env q bill p =
    (p.amount ≡ env.column q.amount)
    × (p.channel ≡ q.channel)
    × (p.bank_txn_ref ≡ q.bank_txn_ref)
    × (p.council ≡ q.council)
    × (p.bill ≡ bill)
    × (p.terminal ≡ q.terminal)
    × (p.posted_by ≡ q.posted_by)
    × (p.geo_lat ≡ q.geo_lat)
    × (p.geo_lng ≡ q.geo_lng)
    × (p.txn_status ≡ TxnStatus.confirmed)

record_payment-Carries :
    (env : Env) (q : Posting) (bill : Bill) (db : Db)
    → Carries env q bill.id (record_payment env q bill db).0
unfolding record_payment create_payment
record_payment-Carries env q bill db = (refl, refl, refl, refl, refl, refl, refl, refl, refl, refl)

pub post_payment-Carries :
    (env : Env) (q : Posting) (bill : Bill) (db : Db) (p : Payment) (db' : Db)
    → post_payment env q bill db ≡ ok (p, db')
    → Carries env q bill.id p
post_payment-Carries env q bill db p db' e =
    let (row, posted) = post_payment-IsPosted env q bill db p db' e in
    subst (λ (k : ℕ). Carries env q k p) (key-find_row bill.id db.bills.rows row posted.found)
      (subst (λ (r : Payment × Db). Carries env q row.id r.0) posted.recorded
        (record_payment-Carries env q row db))
