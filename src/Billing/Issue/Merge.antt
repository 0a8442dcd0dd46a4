-- ===== src/Billing/Issue/Merge.antt =====
-- `issue_bill`: the assessments of the new bill, and the merge of those that charge the same.
use acrev360_backend.Base.{
  ℕ, ◌+◌, Bool, true, false, not, List, [], ◌∷◌, ◌++◌, ◌==◌, ◌&&◌, if◌then◌else◌, same_ref, exists,
  select,
}
use acrev360_backend.Models.Billing.{Assessment, AssessmentStatus}
use acrev360_backend.Models.Registry.{Payer}
use acrev360_backend.Store.{Db, Env, ok, err, Service}
use acrev360_backend.Billing.Pricing.{Charge, create_draft_assessment}
use acrev360_backend.Billing.Lines.{save_assessment, save_status}

-- The loop over `lines`.
unfoldable pub draft_lines : Env → Payer → ℕ → List Charge → Service (List Assessment)
draft_lines env payer actor [] db = ok ([], db)
draft_lines env payer actor (c ∷ cs) db = elim (create_draft_assessment env payer c actor db) [
  | err e ↦ err e
  | ok (a, db1) ↦ elim (draft_lines env payer actor cs db1) [
    | err e ↦ err e
    | ok (rest, db2) ↦ ok (a ∷ rest, db2)
  ]
]

abbrev pub is_draft : AssessmentStatus → Bool
is_draft AssessmentStatus.draft = true
is_draft _ = false

-- The drafts that `bill_all_drafts` sweeps in.
unfoldable pub swept : Payer → List Assessment → Db → List Assessment
swept payer drafted db =
    select
      (λ a. a.payer == payer.id && is_draft a.status && not (exists (λ d. d.id == a.id) drafted))
      db.assessments.rows

-- `key = (council_revenue_item_id, rate_band_id, rate_tier_id)`
abbrev pub same_charge : Assessment → Assessment → Bool
same_charge a b =
    a.item == b.item && same_ref a.rate_band b.rate_band && same_ref a.rate_tier b.rate_tier

-- `kept.quantity += ...; kept.amount += ...`
abbrev pub add_charge : Assessment → Assessment → Assessment
add_charge a kept = record kept {
  quantity = kept.quantity + a.quantity;
  amount = kept.amount + a.amount;
}

-- `merged[key] = a` of a new key: the dict keeps the order of insertion. Of a key that is there, the
-- kept assessment takes the charge.
unfoldable pub merge_one : Assessment → List Assessment → List Assessment
merge_one a [] = a ∷ []
merge_one a (k ∷ ks) = if same_charge k a then add_charge a k ∷ ks else k ∷ merge_one a ks

-- The loop over the assessments: what is kept, and what is superseded.
unfoldable pub merge_loop :
    List Assessment → List Assessment → List Assessment → List Assessment × List Assessment
unfolding merge_one
merge_loop [] kept superseded = (kept, superseded)
merge_loop (a ∷ rest) kept superseded =
    merge_loop rest (merge_one a kept)
      (if exists (λ k. same_charge k a) kept then superseded ++ (a ∷ []) else superseded)

-- The saves behind the loop.
unfoldable pub save_kept : Env → List Assessment → Db → Db
save_kept env [] db = db
save_kept env (a ∷ rest) db = save_kept env rest (save_assessment env a db)

unfoldable pub cancel_all : List Assessment → Db → Db
cancel_all [] db = db
cancel_all (a ∷ rest) db = cancel_all rest (save_status a.id AssessmentStatus.cancelled db)
