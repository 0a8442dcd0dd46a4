-- ===== src/Billing/Lines/Order.antt =====
-- Where an added line stands in the order in which payments fill lines.
use acrev360_backend.Base.{
  ℕ, ◌≤◌, ◌≡◌, refl, ap, ◌∙◌, inl, inr, none, some, List, [], ◌∷◌, ◌++◌, arith, Option-cases, All,
  All-map,
}
use acrev360_backend.Models.Billing.{BillLine}
use acrev360_backend.Billing.Lines.{max_position, next_position}
use acrev360_backend.Payments.Fifo.{insert_by_position, by_position}

-- Only no lines have no greatest position.
max_position-none : (P : BillLine → Type 0) (ls : List BillLine) → max_position ls ≡ none → All P ls
max_position-none P [] e = tt
max_position-none P (l ∷ ls) e = elim (Option-cases (max_position ls)) [
  | inl empty ↦ ground arith
  | inr (n, rest) ↦ ground arith
]

max_position-All :
    (ls : List BillLine) (m : ℕ) → max_position ls ≡ some m → All (λ l. l.position ≤ m) ls
max_position-All [] m e = cc
max_position-All (l ∷ ls) m e = elim (Option-cases (max_position ls)) [
  | inl empty ↦ (ground arith, max_position-none (λ x. x.position ≤ m) ls empty)
  | inr (n, rest) ↦
      let bounded = max_position-All ls n rest in
      let le : n ≤ m = ground arith in (ground arith, All-map _ _ ls (λ x h. omega arith) bounded)
]

next_position-All : (ls : List BillLine) → All (λ l. l.position ≤ next_position ls) ls
unfolding next_position
next_position-All ls = elim (Option-cases (max_position ls)) [
  | inl empty ↦ max_position-none (λ x. x.position ≤ next_position ls) ls empty
  | inr (m, e) ↦
      let le : m ≤ next_position ls = ground arith in
      All-map _ _ ls (λ x h. omega arith) (max_position-All ls m e)
]

insert_by_position-last :
    (l new : BillLine) (ls : List BillLine)
    → l.position ≤ new.position
    → insert_by_position l (ls ++ (new ∷ [])) ≡ insert_by_position l ls ++ (new ∷ [])
unfolding insert_by_position
insert_by_position-last l new [] h = ground arith
insert_by_position-last l new (m ∷ ms) h = ground (arith, insert_by_position-last l new ms h)

by_position-last :
    (new : BillLine) (ls : List BillLine)
    → All (λ l. l.position ≤ new.position) ls
    → by_position (ls ++ (new ∷ [])) ≡ by_position ls ++ (new ∷ [])
unfolding by_position
by_position-last new [] h = refl
by_position-last new (l ∷ ls) h =
    ap (insert_by_position l) (by_position-last new ls h.1)
    ∙ insert_by_position-last l new (by_position ls) h.0

-- The next position is not below any position on the bill, so a line that takes it, and is created
-- last, is filled last.
pub by_position-next :
    (ls : List BillLine) (new : BillLine)
    → new.position ≡ next_position ls
    → by_position (ls ++ (new ∷ [])) ≡ by_position ls ++ (new ∷ [])
by_position-next ls new h =
    by_position-last new ls (All-map _ _ ls (λ l le. omega arith) (next_position-All ls))

-- A bill whose greatest position is 0 gives that position out again: positions need not differ.
pub next_position-zero : (ls : List BillLine) → All (λ l. l.position ≡ 0) ls → next_position ls ≡ 0
unfolding next_position
next_position-zero [] h = refl
next_position-zero (l ∷ ls) h = ground (arith, next_position-zero ls h.1)
