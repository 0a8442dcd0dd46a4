-- ===== src/Billing/Lines/Laws.antt =====
-- The split of a line's amount, the order of added lines, and the refusals of an edit.
use acrev360_backend.Base.{
  ℕ, ◌+◌, ◌-◌, ◌≤◌, ◌<◌, ◌≡◌, ◌↔◌, ◌⊎◌, refl, ap, subst, ◌∙◌, sym, inl, inr, none, some, List, [],
  ◌∷◌, arith, leb, if-both, Option-cases, All, first, Bool, ◌==◌, All-map₂, All-append, All-select,
  All-first,
}
use acrev360_backend.Base.Table.{find, modify_rows, IsUnique}
use acrev360_backend.Base.Table.Laws.{modify_rows-All_self, IsUnique-same}
use acrev360_backend.Models.Billing.{
  Bill, BillLine, Assessment, bill_keyed, assessment_keyed, line_keyed,
}
use acrev360_backend.Models.Registry.{Payer, payer_keyed}
use acrev360_backend.Store.{
  Db, Env, Storable, IsRounding, ok, err, Result-cases, audit, line_amount_not_positive,
  line_amount_below_arrears, does_not_exist,
}
use acrev360_backend.Billing.Recompute.{lines_of, recompute_bill}
use acrev360_backend.Billing.Pricing.{Charge, create_draft_assessment}
use acrev360_backend.Billing.Lines.{
  cites, save_amounts, stored_line, fresh_line, with_current, with_total, merge_into_line,
  append_line, add_bill_line, write_line, update_bill_line,
}
use acrev360_backend.Payments.Fifo.{insert_by_position, by_position}

-- A stored line's amount is its current part and its arrears.
pub record IsSplit (env : Env) (l : BillLine) : Type 0 where
  pub total : l.line_amount ≡ l.current_amount + l.arrears_amount
  pub storable : Storable env l.arrears_amount

abbrev pub AllSplit : Env → Db → Type 0
AllSplit env db = All (IsSplit env) db.lines.rows

by_position-All {κ} :
    (P : BillLine → Type κ) (ls : List BillLine) → All P ls → All P (by_position ls)
unfolding by_position
by_position-All P [] h = tt
by_position-All P (l ∷ ls) h = insert-All l (by_position ls) h.0 (by_position-All P ls h.1)
  where
    insert-All :
        (m : BillLine) (ms : List BillLine) → P m → All P ms → All P (insert_by_position m ms)
    insert-All m [] p a = (p, tt)
    insert-All m (n ∷ ms) p a =
        if-both (All P) (leb m.position n.position) (p, a) (a.0, insert-All m ms p a.1)

create_draft_assessment-lines :
    (env : Env) (payer : Payer) (c : Charge) (actor : ℕ) (db : Db) (a : Assessment) (db' : Db)
    → create_draft_assessment env payer c actor db ≡ ok (a, db')
    → db'.lines ≡ db.lines
unfolding create_draft_assessment
create_draft_assessment-lines env payer c actor db a db' e = ground arith

-- The line that a filter chooses is the one row of its id.
chosen-same :
    (bill : ℕ) (p : BillLine → Bool) (db : Db) (line : BillLine)
    → IsUnique db.lines.rows
    → first p (by_position (lines_of bill db)) ≡ some line
    → All (λ y. y.id ≡ line.id → y ≡ line) db.lines.rows
chosen-same bill p db line unique e =
    let rows = db.lines.rows in
    let Same = λ (x : BillLine). All (λ y. y.id ≡ x.id → y ≡ x) rows in
    (All-first Same p (by_position (lines_of bill db)) line
      (by_position-All Same (lines_of bill db)
        (All-select Same (λ l. l.bill == bill) rows (IsUnique-same rows unique)))
      e).0

module _ (env : Env) (r : IsRounding env) where
  save_amounts-IsSplit :
      (current : ℕ) (from row : BillLine)
      → from.current_amount ≡ current
      → from.line_amount ≡ current + row.arrears_amount
      → IsSplit env row
      → IsSplit env (save_amounts env from row)
  save_amounts-IsSplit current from row ec el h = record {
    total =
        ap env.column el
        ∙ r.column-add current row.arrears_amount h.storable
        ∙ ap (λ (n : ℕ). env.column n + row.arrears_amount) (sym ec);
    storable = h.storable;
  }

  stored_line-IsSplit :
      (bill position id : ℕ) (a : Assessment)
      → IsSplit env (stored_line env (fresh_line bill a position id))
  stored_line-IsSplit bill position id a = record {
    total = omega (arith, r.column-zero);
    storable = r.column_idem 0;
  }

  -- A save of a line's amounts, where the object in memory is the row that is stored.
  saved-AllSplit :
      (line from : BillLine) (current : ℕ) (rows : List BillLine)
      → from.current_amount ≡ current
      → from.line_amount ≡ current + line.arrears_amount
      → All (λ y. y.id ≡ line.id → y ≡ line) rows
      → All (IsSplit env) rows
      → All (IsSplit env) (modify_rows line.id (save_amounts env from) rows)
  saved-AllSplit line from current rows ec el same h =
      modify_rows-All_self (λ y. (y.id ≡ line.id → y ≡ line) × IsSplit env y) (IsSplit env) line.id
        (save_amounts env from) rows
        (λ y e both.
          save_amounts-IsSplit current from y ec
            (el ∙ ap (λ (z : BillLine). current + z.arrears_amount) (sym (both.0 e))) both.1)
        (λ y ne both. both.1) (All-map₂ _ _ _ rows (λ y s t. (s, t)) same h)

  merge_into_line-AllSplit :
      (bill : Bill) (line : BillLine) (existing added : Assessment) (actor : ℕ) (db : Db)
      → All (λ y. y.id ≡ line.id → y ≡ line) db.lines.rows
      → AllSplit env db
      → AllSplit env (merge_into_line env bill line existing added actor db).1
  unfolding merge_into_line recompute_bill audit
  merge_into_line-AllSplit bill line existing added actor db same h =
      saved-AllSplit line (with_current (existing.amount + added.amount) line)
        (existing.amount + added.amount) db.lines.rows refl refl same h

  append_line-AllSplit :
      (bill : Bill) (added : Assessment) (actor : ℕ) (db : Db)
      → AllSplit env db
      → AllSplit env (append_line env bill added actor db).1
  unfolding append_line recompute_bill audit
  append_line-AllSplit bill added actor db h =
      All-append _ db.lines.rows _ h (stored_line-IsSplit bill.id _ db.lines.next added, tt)

  -- Adding a charge to a bill, as a line of its own or folded into one that is there, keeps every
  -- stored line's amount the sum of its current part and its arrears.
  pub add_bill_line-AllSplit :
      (bill : Bill) (c : Charge) (actor : ℕ) (db : Db) (l : BillLine) (db' : Db)
      → IsUnique db.lines.rows
      → AllSplit env db
      → add_bill_line env bill c actor db ≡ ok (l, db')
      → AllSplit env db'
  unfolding add_bill_line
  add_bill_line-AllSplit bill c actor db l db' unique h e =
      elim (Option-cases (find bill.payer db.payers)) [
        | inl gone ↦ ground arith
        | inr (payer, found) ↦ elim (Result-cases (create_draft_assessment env payer c actor db)) [
          | inl (x, failed) ↦ ground arith
          | inr ((added, drafted), priced) ↦
              let kept : drafted.lines ≡ db.lines =
                create_draft_assessment-lines env payer c actor db added drafted priced in
              let h' : AllSplit env drafted = subst (λ t. All (IsSplit env) t.rows) (sym kept) h in
              let u' : IsUnique drafted.lines.rows =
                subst (λ t. IsUnique t.rows) (sym kept) unique in
              elim (Option-cases
                (first (cites c drafted) (by_position (lines_of bill.id drafted)))) [
                  | inl fresh ↦
                      let result : append_line env bill added actor drafted ≡ (l, db') =
                        ground arith in
                      subst (λ (o : BillLine × Db). AllSplit env o.1) result
                        (append_line-AllSplit bill added actor drafted h')
                  | inr (line, chosen) ↦
                      elim (Option-cases (find line.assessment drafted.assessments)) [
                        | inl gone ↦ ground arith
                        | inr (existing, there) ↦
                            let result : merge_into_line env bill line existing added actor drafted
                                ≡ (l, db') =
                              ground arith in
                            subst (λ (o : BillLine × Db). AllSplit env o.1) result
                              (merge_into_line-AllSplit bill line existing added actor drafted
                                (chosen-same bill.id (cites c drafted) drafted line u' chosen) h')
                      ]
                ]
        ]
      ]

  write_line-AllSplit :
      (line : BillLine) (assessment : Assessment) (bill : Bill) (line_amount actor : ℕ) (db : Db)
      → line.arrears_amount ≤ line_amount
      → All (λ y. y.id ≡ line.id → y ≡ line) db.lines.rows
      → AllSplit env db
      → AllSplit env (write_line env line assessment bill line_amount actor db).1
  unfolding write_line recompute_bill audit
  write_line-AllSplit line assessment bill line_amount actor db covers same h =
      saved-AllSplit line (with_total line_amount line) (line_amount - line.arrears_amount)
        db.lines.rows refl (omega arith) same h

  -- An edit of a line by its stored copy keeps every stored line's amount the sum of its current
  -- part and its arrears.
  pub update_bill_line-AllSplit :
      (line : BillLine) (line_amount actor : ℕ) (db : Db) (l : BillLine) (db' : Db)
      → All (λ y. y.id ≡ line.id → y ≡ line) db.lines.rows
      → AllSplit env db
      → update_bill_line env line line_amount actor db ≡ ok (l, db')
      → AllSplit env db'
  unfolding update_bill_line
  update_bill_line-AllSplit line line_amount actor db l db' same h e =
      elim (Option-cases (find line.assessment db.assessments)) [
        | inl gone ↦ ground arith
        | inr (assessment, found) ↦ elim (Option-cases (find line.bill db.bills)) [
          | inl gone ↦ ground arith
          | inr (bill, there) ↦
              let covers : line.arrears_amount ≤ line_amount = ground arith in
              let result : write_line env line assessment bill line_amount actor db ≡ (l, db') =
                ground arith in
              subst (λ (o : BillLine × Db). AllSplit env o.1) result
                (write_line-AllSplit line assessment bill line_amount actor db covers same h)
        ]
      ]

-- An edit is refused exactly when the new amount is not positive, or is less than the line's arrears,
-- or the line's assessment or bill is gone: what has been paid on the line plays no part.
pub update_bill_line_refusals :
    (env : Env) (line : BillLine) (line_amount actor : ℕ) (db : Db)
    → let outcome = update_bill_line env line line_amount actor db in
      ((outcome ≡ err line_amount_not_positive) ↔ (line_amount ≡ 0))
      × ((outcome ≡ err line_amount_below_arrears)
          ↔ ((0 < line_amount) × (line_amount < line.arrears_amount)))
      × ((outcome ≡ err does_not_exist) ↔ (
          (0 < line_amount)
          × (line.arrears_amount ≤ line_amount)
          × ((find line.assessment db.assessments ≡ none) ⊎ (find line.bill db.bills ≡ none))))
unfolding update_bill_line
update_bill_line_refusals env line line_amount actor db =
    elim (Option-cases (find line.assessment db.assessments)) [
      | inl gone ↦ ground arith
      | inr (assessment, found) ↦ elim (Option-cases (find line.bill db.bills)) [
        | inl gone ↦ ground arith
        | inr (bill, there) ↦ ground arith
      ]
    ]
