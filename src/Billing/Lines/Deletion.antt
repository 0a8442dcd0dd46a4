-- ===== src/Billing/Lines/Deletion.antt =====
-- What the deletion of a line leaves behind.
use acrev360_backend.Base.{
  exists-none, ℕ, ◌≡◌, ◌≢◌, ◌≤◌, refl, sym, subst, inl, inr, some, List, [], ◌∷◌, arith, leb, ◌==◌,
  ne_of_test, Bool-cases, Option-cases, exists, length, All, All-map,
}
use acrev360_backend.Base.Table.{find, remove_rows}
use acrev360_backend.Models.Billing.{Bill, BillLine, bill_keyed, line_keyed}
use acrev360_backend.Store.{Db, Env, Error, ok, err, audit}
use acrev360_backend.Billing.Recompute.{lines_of, recompute_bill}
use acrev360_backend.Billing.Lines.{erase_line, delete_bill_line}

remove_rows-gone : (n : ℕ) (xs : List BillLine) → All (λ l. l.id ≢ n) (remove_rows n xs)
remove_rows-gone n [] = tt
remove_rows-gone n (x ∷ xs) = elim (Bool-cases (x.id == n)) [
  | inl same ↦ rw same (remove_rows-gone n xs)
  | inr other ↦ rw other (ne_of_test _ _ other, remove_rows-gone n xs)
]

erase_line-lines :
    (env : Env) (line : BillLine) (bill : Bill) (actor : ℕ) (db : Db)
    → let db' = erase_line env line bill actor db in
      (db'.lines.rows ≡ remove_rows line.id db.lines.rows) × (db'.allocations ≡ db.allocations)
unfolding erase_line recompute_bill audit
erase_line-lines env line bill actor db = (refl, refl)

-- A line is deleted only when no payment was allocated to it and it is not the last line of its
-- bill; afterwards no line has its id, and the allocations are what they were.
pub delete_bill_line-IsFree :
    (env : Env) (line : BillLine) (actor : ℕ) (db db' : Db)
    → delete_bill_line env line actor db ≡ ok db'
    → All (λ a. a.bill_line ≢ line.id) db.allocations.rows
      × All (λ l. l.id ≢ line.id) db'.lines.rows
      × (db'.allocations ≡ db.allocations)
      × ((b : Bill) × (find line.bill db.bills ≡ some b) × (2 ≤ length (lines_of b.id db)))
unfolding delete_bill_line
delete_bill_line-IsFree env line actor db db' e = elim (Option-cases (find line.bill db.bills)) [
  | inl gone ↦ absurd (refused (rw (delete_bill_line, gone) at e))
  | inr (b, there) ↦ elim (Bool-cases (exists (λ a. a.bill_line == line.id) db.allocations.rows)) [
    | inl paid ↦ absurd (refused (rw (delete_bill_line, there, paid) at e))
    | inr free ↦ elim (Bool-cases (leb (length (lines_of b.id db)) 1)) [
      | inl last ↦ absurd (refused (rw (delete_bill_line, there, free, last) at e))
      | inr more ↦
          let done : erase_line env line b actor db ≡ db' =
            cc (rw (delete_bill_line, there, free, more) at e) in
          let left = erase_line-lines env line b actor db in
          subst
            (λ d.
              All (λ a. a.bill_line ≢ line.id) db.allocations.rows
              × All (λ l. l.id ≢ line.id) d.lines.rows
              × (d.allocations ≡ db.allocations)
              × ((c : Bill) × (find line.bill db.bills ≡ some c) × (2 ≤ length (lines_of c.id db))))
            done
            (
              All-map _ _ db.allocations.rows (λ a t. ne_of_test _ _ t)
                  (exists-none _ db.allocations.rows free),
              subst (All (λ l. l.id ≢ line.id)) (sym left.0)
                  (remove_rows-gone line.id db.lines.rows),
              left.1,
              (b, there, ground arith),
            )
    ]
  ]
]
  where
    refused : {x : Error} → err x ≢ ok db'
    refused q = cc
