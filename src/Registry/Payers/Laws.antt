-- ===== src/Registry/Payers/Laws.antt =====
-- What an enumeration stores, and that it does not enter a phone number twice.
use acrev360_backend.Base.{
  first-none, ℕ, ◌+◌, ◌≡◌, subst, ◌⊎◌, ◌≢◌, refl, ap, ◌∙◌, inl, inr, true, false, none, some, List,
  sym, map, [], ◌∷◌, ◌++◌, arith, same_text, length, All, Bool-cases, Option-cases,
}
use mathlib.Core.List.{append-nil, append_assoc}
use acrev360_backend.Base.Table.{find, find_row, IsBelow}
use acrev360_backend.Base.Table.Laws.{find_row-new, find_row-modify_self}
use acrev360_backend.Models.Billing.{Assessment, AssessmentStatus}
use acrev360_backend.Models.Registry.{Payer, payer_keyed}
use acrev360_backend.Models.Ref.{payer_number}
use acrev360_backend.Store.{Db, Env, Error, ok, err, Result-cases, audit}
use acrev360_backend.Billing.Pricing.{
  price, draft_assessment, stored_assessment, create_draft_assessment,
}
use acrev360_backend.Registry.Payers.{
  Enumeration, is_same_phone, find_duplicate, prefix_of, new_payer, with_payer_ref, plain_charge,
  draft_items, insert_payer, create_payer,
}

draft-payers :
    (env : Env) (payer : Payer) (item actor : ℕ) (db : Db) (a : Assessment) (db' : Db)
    → create_draft_assessment env payer (plain_charge item) actor db ≡ ok (a, db')
    → db'.payers ≡ db.payers
unfolding create_draft_assessment
draft-payers env payer item actor db a db' e = ground arith

draft_items-payers :
    (env : Env) (payer : Payer) (actor : ℕ) (items : List ℕ) (count : ℕ) (db : Db) (n : ℕ)
    (db' : Db)
    → draft_items env payer actor items count db ≡ ok (n, db')
    → (db'.payers ≡ db.payers) × (n ≡ count + length items)
unfolding draft_items
draft_items-payers env payer actor [] count db n db' e = (ground arith, ground arith)
draft_items-payers env payer actor (item ∷ items) count db n db' e =
    elim (Result-cases (create_draft_assessment env payer (plain_charge item) actor db)) [
      | inl (x, bad) ↦ absurd (ground arith)
      | inr ((a, db1), good) ↦
          let rest =
            draft_items-payers env payer actor items (count + 1) db1 n db'
              (rw (draft_items, good) at e) in
          (rest.0 ∙ draft-payers env payer item actor db a db1 good, omega (arith, rest.1))
    ]

-- A draft of one unit for the payer.
abbrev pub IsDraftOf : ℕ → ℕ → ℕ → Assessment → Type 0
IsDraftOf council payer actor a =
    (a.council ≡ council)
    × (a.payer ≡ payer)
    × (a.status ≡ AssessmentStatus.draft)
    × (a.quantity ≡ 100)
    × (a.created_by ≡ actor)

draft-stored :
    (env : Env) (payer : Payer) (item actor : ℕ) (db : Db) (a : Assessment) (db' : Db)
    → create_draft_assessment env payer (plain_charge item) actor db ≡ ok (a, db')
    → (x : Assessment) × (db'.assessments.rows ≡ db.assessments.rows ++ (x ∷ []))
      × (x.item ≡ item)
      × IsDraftOf payer.council payer.id actor x
unfolding create_draft_assessment
draft-stored env payer item actor db a db' e =
    let c = plain_charge item in
    elim (Result-cases (price c db)) [
      | inl (x, bad) ↦ absurd (ground arith)
      | inr (p, good) ↦ (
        stored_assessment env (draft_assessment payer c p actor db.assessments.next),
        ground arith,
        refl,
        (refl, refl, refl, refl, refl),
      )
    ]

-- The drafts that the loop stores, behind the assessments that were there.
abbrev pub Drafted : ℕ → ℕ → ℕ → List ℕ → Db → Db → Type 0
Drafted council payer actor items db db' =
    (drafts : List Assessment) × (db'.assessments.rows ≡ db.assessments.rows ++ drafts)
    × (map (λ a. a.item) drafts ≡ items)
    × All (IsDraftOf council payer actor) drafts

draft_items-Drafted :
    (env : Env) (payer : Payer) (actor : ℕ) (items : List ℕ) (count : ℕ) (db : Db) (n : ℕ)
    (db' : Db)
    → draft_items env payer actor items count db ≡ ok (n, db')
    → Drafted payer.council payer.id actor items db db'
unfolding draft_items
draft_items-Drafted env payer actor [] count db n db' e =
    let same : db ≡ db' = ground arith in
    ([], ap (λ d. d.assessments.rows) (sym same) ∙ sym (append-nil db.assessments.rows), refl, tt)
draft_items-Drafted env payer actor (item ∷ items) count db n db' e =
    elim (Result-cases (create_draft_assessment env payer (plain_charge item) actor db)) [
      | inl (x, bad) ↦ absurd (ground arith)
      | inr ((a, db1), good) ↦
          let (x, one, of_item, draft) = draft-stored env payer item actor db a db1 good in
          let (drafts, rest, of_items, all) =
            draft_items-Drafted env payer actor items (count + 1) db1 n db'
              (rw (draft_items, good) at e) in
          (
            x ∷ drafts,
            rest ∙ ap (λ xs. xs ++ drafts) one ∙ append_assoc db.assessments.rows (x ∷ []) drafts,
            rw (of_item, of_items) refl,
            (draft, all),
          )
    ]

find_duplicate-none :
    (q : Enumeration) (db : Db)
    → find_duplicate q db ≡ none
    → (same_text q.phone "" ≡ true)
      ⊎ (q.force ≡ true)
      ⊎ All (λ y. is_same_phone q.council q.phone y ≡ false) db.payers.rows
unfolding find_duplicate
find_duplicate-none q db e = elim (Bool-cases (same_text q.phone "")) [
  | inl blank ↦ inl blank
  | inr named ↦ elim (Bool-cases q.force) [
    | inl forced ↦ inr (inl forced)
    | inr unforced ↦ inr (inr (first-none _ db.payers.rows (rw (named, unforced) at e)))
  ]
]

below-none : (n : ℕ) (xs : List Payer) → IsBelow n xs → find_row n xs ≡ none
below-none n [] h = refl
below-none n (x ∷ xs) h = ground (arith, h.0, below-none n xs h.1)

insert_payer-stored :
    (q : Enumeration) (db : Db)
    → IsBelow db.payers.next db.payers.rows
    → let made = insert_payer q db in
      (find made.0.id made.1.payers ≡ some made.0)
      × (find made.0.id db.payers ≡ none)
      × (made.0.payer_ref ≡ payer_number (prefix_of q.payer_type) made.0.id)
unfolding insert_payer
insert_payer-stored q db below =
    let n = db.payers.next in
    (
      find_row-modify_self n with_payer_ref (db.payers.rows ++ (new_payer q n ∷ [])) refl
          (find_row-new n (new_payer q n) db.payers.rows below refl),
      below-none n db.payers.rows below,
      refl,
    )

-- An enumeration that is accepted stores a payer under a new id with the reference of that id; behind
-- the assessments that were there it stores a draft of one unit for each item in their order, for that
-- payer, and counts them; unless it is forced or names no phone, no payer of the council
-- had that phone before.
pub create_payer-registers :
    (env : Env) (q : Enumeration) (db : Db) (p : Payer) (count : ℕ) (db' : Db)
    → IsBelow db.payers.next db.payers.rows
    → create_payer env q db ≡ ok ((p, count), db')
    → (find p.id db'.payers ≡ some p)
      × (p.payer_ref ≡ payer_number (prefix_of q.payer_type) p.id)
      × (find p.id db.payers ≡ none)
      × (count ≡ length q.items)
      × Drafted q.council p.id q.actor q.items db db'
      × ((same_text q.phone "" ≡ true)
          ⊎ (q.force ≡ true)
          ⊎ All (λ y. is_same_phone q.council q.phone y ≡ false) db.payers.rows)
unfolding create_payer audit insert_payer
create_payer-registers env q db p count db' below e = elim (Option-cases (find_duplicate q db)) [
  | inr (y, there) ↦ absurd (refused (rw (create_payer, there) at e))
  | inl free ↦
      let made = insert_payer q db in
      elim (Result-cases (draft_items env made.0 q.actor q.items 0 made.1)) [
        | inl (x, bad) ↦ absurd (refused (rw (create_payer, free, bad) at e))
        | inr ((n, db1), good) ↦
            let e' = rw (create_payer, free, good) at e in
            let stored = insert_payer-stored q db below in
            let drafted = draft_items-payers env made.0 q.actor q.items 0 made.1 n db1 good in
            let same : made.0 ≡ p = cc e' in
            let kept : db'.payers ≡ db1.payers = cc e' in
            let counted : count ≡ n = cc e' in
            let filed = draft_items-Drafted env made.0 q.actor q.items 0 made.1 n db1 good in
            let kept_drafts : db'.assessments ≡ db1.assessments = cc e' in
            subst
              (λ y.
                (find y.id db'.payers ≡ some y)
                × (y.payer_ref ≡ payer_number (prefix_of q.payer_type) y.id)
                × (find y.id db.payers ≡ none)
                × (count ≡ length q.items)
                × Drafted q.council y.id q.actor q.items db db'
                × ((same_text q.phone "" ≡ true)
                    ⊎ (q.force ≡ true)
                    ⊎ All (λ z. is_same_phone q.council q.phone z ≡ false) db.payers.rows))
              same
              (
                ap (find made.0.id) (kept ∙ drafted.0) ∙ stored.0,
                stored.2,
                stored.1,
                omega (arith, counted, drafted.1),
                (filed.0, ap (λ t. t.rows) kept_drafts ∙ filed.1, filed.2, filed.3),
                find_duplicate-none q db free,
              )
      ]
]
  where
    refused : {x : Error} {r : (Payer × ℕ) × Db} → err x ≢ ok r
    refused e = cc
