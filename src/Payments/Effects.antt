-- ===== src/Payments/Effects.antt =====
-- What one posting does to the bill and to the payer.
use acrev360_backend.Base.{
  ℕ, ◌+◌, ◌-◌, min, ◌≡◌, refl, sym, ap, subst, ◌∙◌, inl, inr, some, List, [], ◌∷◌, arith,
  Bool-cases, ltb, sum_of,
}
use mathlib.Core.Path.{fun_ext}
use mathlib.Core.Option.{some-injective}
use acrev360_backend.Base.Int.{pos, ◌+ℤ◌, +ℤ-zero}
use acrev360_backend.Base.Table.{find, modify}
use acrev360_backend.Base.Table.Laws.{key-find_row, find_row-modify_self}
use acrev360_backend.Models.Billing.{Bill, BillLine, bill_keyed}
use acrev360_backend.Models.Registry.{Payer, payer_keyed}
use acrev360_backend.Models.Payments.{Payment, payment_keyed}
use acrev360_backend.Store.{Db, Env, ok, audit}
use acrev360_backend.Billing.Recompute.{lines_of, save_rollup, recompute_bill}
use acrev360_backend.Payments.Fifo.{
  Progress, paid_amount, insert_by_position, by_position, allocate_fifo,
}
use acrev360_backend.Payments.Fifo.Laws.{owed, fifo_loop-remaining}
use acrev360_backend.Payments.Post.{
  Posting, create_payment, credit_leftover, issue_receipt, close_if_paid, apply_to_bill,
  record_payment, post_payment, save_amount_paid, post_payment-IsPosted,
}
use acrev360_backend.Payments.Ledger.{IsBalanced}
use acrev360_backend.Payments.Ledger.Post.{
  paid_on-old, credit_leftover-SameTables, close_if_paid-SameTables,
}

-- Sorting by position keeps every sum.
sum_of-insert_by_position :
    (f : BillLine → ℕ) (l : BillLine) (ls : List BillLine)
    → sum_of f (insert_by_position l ls) ≡ f l + sum_of f ls
unfolding insert_by_position
sum_of-insert_by_position f l [] = refl
sum_of-insert_by_position f l (m ∷ ms) = ground (arith, sum_of-insert_by_position f l ms)

pub sum_of-by_position :
    (f : BillLine → ℕ) (ls : List BillLine) → sum_of f (by_position ls) ≡ sum_of f ls
unfolding by_position
sum_of-by_position f [] = refl
sum_of-by_position f (l ∷ ls) =
    omega (arith, sum_of-insert_by_position f l (by_position ls), sum_of-by_position f ls)

-- What the lines of a bill owe before the payment.
abbrev pub due : ℕ → Db → ℕ
due bill db = sum_of (owed (paid_amount db)) (lines_of bill db)

close_if_paid-payers :
    (env : Env) (bill : Bill) (db : Db) → (close_if_paid env bill db).payers ≡ db.payers
unfolding close_if_paid
close_if_paid-payers env bill db = ground arith

paid_amount-created :
    (env : Env) (q : Posting) (bill : ℕ) (db : Db)
    → IsBalanced db
    → paid_amount (create_payment env q bill db).1 ≡ paid_amount db
unfolding paid_amount create_payment
paid_amount-created env q bill db h =
    fun_ext λ line. paid_on-old env q bill db.payments line db.allocations.rows h.allocations_below

applied-eq :
    (env : Env) (q : Posting) (bill : Bill) (db : Db)
    → IsBalanced db
    → let (p, created) = create_payment env q bill.id db in
      let out = allocate_fifo p bill.id created in
      (out.1 ≡ min (env.column q.amount) (due bill.id db))
      × (out.2 ≡ env.column q.amount - due bill.id db)
unfolding create_payment allocate_fifo
applied-eq env q bill db h =
    let (p, created) = create_payment env q bill.id db in
    let paid = paid_amount created in
    let ls = by_position (lines_of bill.id created) in
    let start : Progress = record {
      table = created.allocations;
      remaining = env.column q.amount;
      applied = 0;
    } in
    let same : sum_of (owed paid) ls ≡ due bill.id db =
      sum_of-by_position (owed paid) (lines_of bill.id db)
      ∙ ap (λ (f : ℕ → ℕ). sum_of (owed f) (lines_of bill.id db))
          (paid_amount-created env q bill.id db h) in
    let loop = fifo_loop-remaining p.id paid ls start in
    (omega (arith, loop.0, loop.1, same), omega (arith, loop.0, same))

credit_leftover-credit :
    (q : Posting) (bill : Bill) (leftover : ℕ) (db : Db) (y : Payer)
    → find bill.payer db.payers ≡ some y
    → (y' : Payer) × (find bill.payer (credit_leftover q bill leftover db).payers ≡ some y')
      × (y'.credit_balance ≡ y.credit_balance +ℤ pos leftover)
unfolding credit_leftover audit
credit_leftover-credit q bill leftover db y found = elim (Bool-cases (ltb 0 leftover)) [
  | inl over ↦ (
    record y { credit_balance = y.credit_balance +ℤ pos leftover },
    rw over (
        find_row-modify_self bill.payer
          (λ row. record row { credit_balance = row.credit_balance +ℤ pos leftover }) db.payers.rows
          (key-find_row bill.payer db.payers.rows y found) found),
    refl,
  )
  | inr none_left ↦ (
    y,
    rw none_left found,
    let zero_left : leftover ≡ 0 = ground arith in rw zero_left (sym (+ℤ-zero y.credit_balance)),
  )
]

-- What a posting has done to the bill's row and to the payer's.
pub record Settles (bill : Bill) (y : Payer) (amount owing : ℕ) (db' : Db) : Type 0 where
  pub row : Bill
  pub payer : Payer
  pub found : find bill.id db'.bills ≡ some row
  pub paid_more : row.amount_paid ≡ bill.amount_paid + min amount owing
  pub found_payer : find bill.payer db'.payers ≡ some payer
  pub credited : payer.credit_balance ≡ y.credit_balance +ℤ pos (amount - owing)

record_payment-Settles :
    (env : Env) (q : Posting) (bill : Bill) (db : Db) (y : Payer)
    → IsBalanced db
    → find bill.id db.bills ≡ some bill
    → find bill.payer db.payers ≡ some y
    → Settles bill y (env.column q.amount) (due bill.id db) (record_payment env q bill db).1
unfolding record_payment create_payment apply_to_bill allocate_fifo recompute_bill issue_receipt
    audit
record_payment-Settles env q bill db y h found found_payer =
    let (p, created) = create_payment env q bill.id db in
    let (bill2, rolled, leftover) = apply_to_bill env p bill created in
    let credited = credit_leftover q bill2 leftover rolled in
    let receipted = issue_receipt q.council p credited in
    let bill1_paid = bill.amount_paid + (allocate_fifo p bill.id created).1 in
    let (applied_min, leftover_min) = applied-eq env q bill db h in
    let (y', found_y, credit) = credit_leftover-credit q bill2 leftover rolled y found_payer in
    let saved : find bill.id (modify bill.id (save_amount_paid bill1_paid) db.bills)
        ≡ some (save_amount_paid bill1_paid bill) =
      find_row-modify_self bill.id (save_amount_paid bill1_paid) db.bills.rows refl found in
    record {
      row = save_rollup bill2 (save_amount_paid bill1_paid bill);
      payer = y';
      found =
          rw
            (
              (close_if_paid-SameTables env bill2 receipted).2,
              (credit_leftover-SameTables q bill2 leftover rolled).2,
            )
            (find_row-modify_self bill.id (save_rollup bill2) _ refl saved);
      paid_more = omega (arith, applied_min);
      found_payer = rw (close_if_paid-payers env bill2 receipted) found_y;
      credited = credit ∙ ap (λ (n : ℕ). y.credit_balance +ℤ pos n) leftover_min;
    }

-- A posting to a bill of a balanced ledger: the bill's `amount_paid` grows by the payment's amount
-- (rounded to its column) or by all that the bill's lines still owe, whichever is less, and the payer's
-- credit by what is left of the amount.
pub post_payment-Settles :
    (env : Env) (q : Posting) (bill : Bill) (db : Db) (row : Bill) (y : Payer) (p : Payment)
    (db' : Db)
    → IsBalanced db
    → find bill.id db.bills ≡ some row
    → find row.payer db.payers ≡ some y
    → post_payment env q bill db ≡ ok (p, db')
    → Settles row y (env.column q.amount) (due row.id db) db'
post_payment-Settles env q bill db row y p db' h found found_payer e =
    let (locked, posted) = post_payment-IsPosted env q bill db p db' e in
    let same : locked ≡ row = some-injective _ _ (sym posted.found ∙ found) in
    let id : row.id ≡ bill.id = key-find_row bill.id db.bills.rows row found in
    subst (λ (r : Payment × Db). Settles row y (env.column q.amount) (due row.id db) r.1)
      (ap (λ (b : Bill). record_payment env q b db) (sym same) ∙ posted.recorded)
      (record_payment-Settles env q row db y h (ap (λ (k : ℕ). find k db.bills) id ∙ found)
        found_payer)
