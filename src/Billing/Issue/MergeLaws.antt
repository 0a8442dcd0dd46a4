-- ===== src/Billing/Issue/MergeLaws.antt =====
-- The merge of assessments keeps the amounts charged and leaves each charge once.
use acrev360_backend.Base.{
  ℕ, ◌+◌, ◌≡◌, inl, inr, false, List, [], ◌∷◌, ◌++◌, arith, if◌then◌else◌, exists, Bool-cases,
  sum_of, All,
}
use acrev360_backend.Models.Billing.{Assessment}
use acrev360_backend.Billing.Issue.Merge.{same_charge, merge_one, merge_loop}

abbrev pub amounts : List Assessment → ℕ
amounts = sum_of λ a. a.amount

abbrev pub quantities : List Assessment → ℕ
quantities = sum_of λ a. a.quantity

-- No two charge the same item under the same band and tier.
abbrev pub IsDistinct : List Assessment → Type 0
IsDistinct [] = Unit
IsDistinct (k ∷ ks) = All (λ m. same_charge k m ≡ false) ks × IsDistinct ks

merge_one-amounts :
    (a : Assessment) (ks : List Assessment)
    → (amounts (merge_one a ks) ≡ amounts ks + a.amount)
      × (quantities (merge_one a ks) ≡ quantities ks + a.quantity)
unfolding merge_one
merge_one-amounts a [] = omega arith
merge_one-amounts a (k ∷ ks) = elim (Bool-cases (same_charge k a)) [
  | inl same ↦ rw same (omega arith)
  | inr other ↦ let (m, q) = merge_one-amounts a ks in rw other (omega (arith, m), omega (arith, q))
]

merge_one-apart :
    (k a : Assessment) (ks : List Assessment)
    → same_charge k a ≡ false
    → All (λ m. same_charge k m ≡ false) ks
    → All (λ m. same_charge k m ≡ false) (merge_one a ks)
unfolding merge_one
merge_one-apart k a [] e h = (e, tt)
merge_one-apart k a (m ∷ ms) e h = elim (Bool-cases (same_charge m a)) [
  | inl same ↦ rw same h
  | inr other ↦ rw other (h.0, merge_one-apart k a ms e h.1)
]

merge_one-IsDistinct :
    (a : Assessment) (ks : List Assessment) → IsDistinct ks → IsDistinct (merge_one a ks)
unfolding merge_one
merge_one-IsDistinct a [] h = (tt, tt)
merge_one-IsDistinct a (k ∷ ks) h = elim (Bool-cases (same_charge k a)) [
  | inl same ↦ rw same h
  | inr other ↦ rw other (merge_one-apart k a ks other h.0, merge_one-IsDistinct a ks h.1)
]

merge_loop-totals :
    (rest kept superseded : List Assessment)
    → IsDistinct kept
    → let kept' = (merge_loop rest kept superseded).0 in
      (amounts kept' ≡ amounts kept + amounts rest)
      × (quantities kept' ≡ quantities kept + quantities rest)
      × IsDistinct kept'
unfolding merge_loop
merge_loop-totals [] kept superseded h = (omega arith, omega arith, h)
merge_loop-totals (a ∷ rest) kept superseded h =
    let (m, q) = merge_one-amounts a kept in
    let (ms, qs, d) =
      merge_loop-totals rest (merge_one a kept)
        (if exists (λ k. same_charge k a) kept then superseded ++ (a ∷ []) else superseded)
        (merge_one-IsDistinct a kept h) in
    (omega (arith, m, ms), omega (arith, q, qs), d)

-- The assessments that a new bill keeps charge as much, in amount and in quantity, as all that were
-- gathered, and no two of them charge the same item under the same band and tier.
pub merge_loop-keeps :
    (all : List Assessment)
    → let kept = (merge_loop all [] []).0 in
      (amounts kept ≡ amounts all) × (quantities kept ≡ quantities all) × IsDistinct kept
merge_loop-keeps all =
    let (m, q, d) = merge_loop-totals all [] [] tt in (omega (arith, m), omega (arith, q), d)
