-- ===== src/Settlements/Compute/Terms.antt =====
-- What the settlements of a computation say, told of the books themselves.
use mathlib.Core.List.{cons-eq-cons}
use acrev360_backend.Base.{
  ℕ, ◌+◌, ◌*◌, ◌%◌, ◌≤◌, ◌≡◌, refl, sym, ap, subst, ◌∙◌, inl, inr, true, false, ◌&&◌, some, none,
  Option, List, [], ◌∷◌, arith, ◌==◌, Bool-cases, Option-cases, same_ref, map, select, sum_of,
}
use acrev360_backend.Base.Table.{find}
use acrev360_backend.Models.Accounts.{AppUser, SubConsultant, user_keyed}
use acrev360_backend.Models.Billing.{Bill, bill_keyed}
use acrev360_backend.Models.Payments.{Payment, TxnStatus, is_confirmed}
use acrev360_backend.Models.Registry.{Payer, payer_keyed}
use acrev360_backend.Models.Settlements.{Settlement, SettlementStatus}
use acrev360_backend.Store.{Db}
use acrev360_backend.Settlements.Compute.{
  commission_of, half_even, consultant_of, is_collected, gross_of, compute_settlements,
}
use acrev360_backend.Settlements.Compute.Laws.{
  terms_of, due_terms, commission_of-near, compute_settlements-due,
}

-- A confirmed payment of the council from within the period, for a bill of a payer whom a user of the
-- consultant has enumerated.
abbrev pub IsCollection : ℕ → ℕ → ℕ → ℕ → Db → Payment → Type 0
IsCollection council consultant period_start period_end db p =
    (bill : Bill) × (payer : Payer) × (user : AppUser) × (p.council ≡ council)
    × (find p.bill db.bills ≡ some bill)
    × (find bill.payer db.payers ≡ some payer)
    × (find payer.enumerated_by db.users ≡ some user)
    × (user.consultant ≡ some consultant)
    × (p.txn_status ≡ TxnStatus.confirmed)
    × (period_start ≤ p.created_on)
    × (p.created_on ≤ period_end)

-- The sum of the amounts of the collections among the payments.
pub data Collects (P : Payment → Type 0) : List Payment → ℕ → Type 0 where
  nothing : Collects P [] 0
  takes :
      {p : Payment} {ps : List Payment} {n : ℕ}
      → P p
      → Collects P ps n
      → Collects P (p ∷ ps) (p.amount + n)
  skips :
      {p : Payment} {ps : List Payment} {n : ℕ} → ¬ P p → Collects P ps n → Collects P (p ∷ ps) n

module _ (council consultant period_start period_end : ℕ) (db : Db) where
  same_ref-some : (r : Option ℕ) (n : ℕ) → same_ref r (some n) ≡ true → r ≡ some n
  same_ref-some none n h = cc
  same_ref-some (some m) n h = ap some (ground arith)

  confirmed_lem : (s : TxnStatus) → is_confirmed s ≡ true → s ≡ TxnStatus.confirmed
  confirmed_lem TxnStatus.confirmed h = refl
  confirmed_lem _ h = cc

  consultant_of-rows :
      (p : Payment)
      → consultant_of db p ≡ some consultant
      → (bill : Bill) × (payer : Payer) × (user : AppUser) × (find p.bill db.bills ≡ some bill)
        × (find bill.payer db.payers ≡ some payer)
        × (find payer.enumerated_by db.users ≡ some user)
        × (user.consultant ≡ some consultant)
  unfolding consultant_of
  consultant_of-rows p h = elim (Option-cases (find p.bill db.bills)) [
    | inl gone ↦ absurd (ground arith)
    | inr (bill, found) ↦ elim (Option-cases (find bill.payer db.payers)) [
      | inl gone ↦ absurd (ground arith)
      | inr (payer, found_payer) ↦ elim (Option-cases (find payer.enumerated_by db.users)) [
        | inl gone ↦ absurd (ground arith)
        | inr (user, found_user) ↦ (bill, payer, user, found, found_payer, found_user, ground arith)
      ]
    ]
  ]

  collected-IsCollection :
      (p : Payment)
      → is_collected council consultant period_start period_end db p ≡ true
      → IsCollection council consultant period_start period_end db p
  unfolding is_collected
  collected-IsCollection p h =
      let own : consultant_of db p ≡ some consultant =
        same_ref-some (consultant_of db p) consultant (ground arith) in
      let (bill, payer, user, found, found_payer, found_user, of_user) = consultant_of-rows p own in
      (
        bill,
        payer,
        user,
        ground arith,
        found,
        found_payer,
        found_user,
        of_user,
        confirmed_lem p.txn_status (ground arith),
        ground arith,
        ground arith,
      )

  IsCollection-collected :
      (p : Payment)
      → IsCollection council consultant period_start period_end db p
      → is_collected council consultant period_start period_end db p ≡ true
  unfolding is_collected consultant_of
  IsCollection-collected p (bill, payer, user, own, found, by, who, of_user, state, from, until) =
      rw (found, by, who, of_user, state) (ground arith)

  sum-Collects :
      (ps : List Payment)
      → Collects (IsCollection council consultant period_start period_end db) ps (
          sum_of
            (λ p. p.amount)
            (select (is_collected council consultant period_start period_end db) ps))
  sum-Collects [] = Collects.nothing
  sum-Collects (p ∷ ps) =
      elim (Bool-cases (is_collected council consultant period_start period_end db p)) [
        | inl take ↦ rw take (Collects.takes (collected-IsCollection p take) (sum-Collects ps))
        | inr skip ↦ rw skip (
            Collects.skips (λ own. differ (sym (IsCollection-collected p own) ∙ skip))
              (sum-Collects ps))
      ]
    where
      differ : true ≡ false → ⊥
      differ e = cc

-- What a settlement says of a consultant's contract and the books. The commission is in whole kobo and
-- within half a kobo of the share that the contract gives. (An amount times 10,000 is compared.)
abbrev pub IsDue : ℕ → ℕ → ℕ → Db → SubConsultant → Settlement → Type 0
IsDue council period_start period_end db c s =
    (s.consultant ≡ c.id)
    × (s.period_start ≡ period_start)
    × (s.period_end ≡ period_end)
    × (s.commission_rate ≡ c.commission_rate)
    × (s.status ≡ SettlementStatus.computed)
    × Collects (IsCollection council c.id period_start period_end db) db.payments.rows
        s.gross_collections
    × (s.commission_amount % 100 ≡ 0)
    × (s.commission_amount * 10000 ≤ s.gross_collections * c.commission_rate + 500000)
    × (s.gross_collections * c.commission_rate ≤ s.commission_amount * 10000 + 500000)

-- Settlements for the consultants, one each, in their order.
pub data AllDue (council period_start period_end : ℕ) (db : Db)
    : List SubConsultant → List Settlement → Type 0 where
  no_more : AllDue council period_start period_end db [] []
  one_more :
      {c : SubConsultant} {s : Settlement} {cs : List SubConsultant} {ss : List Settlement}
      → IsDue council period_start period_end db c s
      → AllDue council period_start period_end db cs ss
      → AllDue council period_start period_end db (c ∷ cs) (s ∷ ss)

commission_of-whole : (gross rate : ℕ) → commission_of gross rate % 100 ≡ 0
unfolding commission_of
commission_of-whole gross rate = whole (half_even (gross * rate) 1000000)
  where
    whole : (n : ℕ) → (100 * n) % 100 ≡ 0
    whole n = omega arith

terms-IsDue :
    (council period_start period_end : ℕ) (db : Db) (c : SubConsultant) (s : Settlement)
    → terms_of s ≡ due_terms council period_start period_end db c
    → IsDue council period_start period_end db c s
unfolding gross_of
terms-IsDue council period_start period_end db c s e =
    let gross = gross_of council c.id period_start period_end db in
    let near = commission_of-near gross c.commission_rate in
    let same : s.gross_collections ≡ gross = ap (λ t. t.gross) e in
    let paid : s.commission_amount ≡ commission_of gross c.commission_rate =
      ap (λ t. t.commission) e in
    (
      ap (λ t. t.consultant) e,
      ap (λ t. t.period_start) e,
      ap (λ t. t.period_end) e,
      ap (λ t. t.rate) e,
      ap (λ t. t.status) e,
      subst (Collects (IsCollection council c.id period_start period_end db) db.payments.rows)
          (sym same) (sum-Collects council c.id period_start period_end db db.payments.rows),
      ap (λ n. n % 100) paid ∙ commission_of-whole gross c.commission_rate,
      rw (paid, same) near.0,
      rw (paid, same) near.1,
    )

terms-AllDue :
    (council period_start period_end : ℕ) (db : Db) (cs : List SubConsultant) (ss : List Settlement)
    → map terms_of ss ≡ map (due_terms council period_start period_end db) cs
    → AllDue council period_start period_end db cs ss
terms-AllDue council period_start period_end db [] [] e = AllDue.no_more
terms-AllDue council period_start period_end db [] (s ∷ ss) e = cc
terms-AllDue council period_start period_end db (c ∷ cs) [] e = cc
terms-AllDue council period_start period_end db (c ∷ cs) (s ∷ ss) e =
    let both = cons-eq-cons.0 e in
    AllDue.one_more (terms-IsDue council period_start period_end db c s both.0)
      (terms-AllDue council period_start period_end db cs ss both.1)

-- A computation returns a settlement for each active consultant of the council, in the order of their
-- names: with the sum of the confirmed collections of the period, the rate of the contract as it is
-- now, the commission at that rate to the nearest kobo, and the status of a computed one, whatever the
-- status of a settlement of that period was before.
pub compute_settlements-terms :
    (by_name : List SubConsultant → List SubConsultant) (council period_start period_end actor : ℕ)
    (db : Db)
    → AllDue council period_start period_end db
        (by_name (select (λ c. c.council == council && c.is_active) db.consultants.rows))
        (compute_settlements by_name council period_start period_end actor db).0
compute_settlements-terms by_name council period_start period_end actor db =
    terms-AllDue council period_start period_end db _ _
      (compute_settlements-due by_name council period_start period_end actor db)
