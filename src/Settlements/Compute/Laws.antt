-- ===== src/Settlements/Compute/Laws.antt =====
-- What a computation of settlements returns, what it leaves alone, and how far it rounds.
use acrev360_backend.Base.{
  ℕ, ◌+◌, ◌*◌, ◌≤◌, ◌≡◌, refl, sym, subst, ◌∙◌, Bool, true, false, not, ◌&&◌, some, List, [], ◌∷◌,
  inl, inr, arith, ◌==◌, Option-cases, map, first, select, All-map, All-of, All-first,
}
use acrev360_backend.Base.Table.{IsKeyed}
use acrev360_backend.Base.Table.Laws.{
  insert-IsKeyed, modify-IsKeyed, select-modify, select-append_off, IsUnique-same,
}
use acrev360_backend.Models.Accounts.{SubConsultant}
use acrev360_backend.Models.Settlements.{Settlement, SettlementStatus, settlement_keyed}
use acrev360_backend.Store.{Db, audit}
use acrev360_backend.Settlements.Compute.{
  half_even, commission_of, consultant_of, is_collected, gross_of, is_of, assign, new_settlement,
  settle, settle_loop, is_active_in, compute_settlements,
}

-- The commission is within half a kobo of the exact share. (An amount times 10,000 is compared,
-- where half a kobo is 500,000.)
pub commission_of-near :
    (gross rate : ℕ)
    → (commission_of gross rate * 10000 ≤ gross * rate + 500000)
      × (gross * rate ≤ commission_of gross rate * 10000 + 500000)
unfolding commission_of
commission_of-near gross rate = near (gross * rate)
  where
    near :
        (n : ℕ)
        → (100 * half_even n 1000000 * 10000 ≤ n + 500000)
          × (n ≤ 100 * half_even n 1000000 * 10000 + 500000)
    near n = (ground arith, ground arith)

-- The part of the database that the sums read.
SameBooks : Db → Db → Type 0
SameBooks db db' =
    (db'.payments ≡ db.payments)
    × (db'.bills ≡ db.bills)
    × (db'.payers ≡ db.payers)
    × (db'.users ≡ db.users)

settle-SameBooks :
    (council period_start period_end actor : ℕ) (c : SubConsultant) (db : Db)
    → SameBooks db (settle council period_start period_end actor c db).1
unfolding SameBooks settle
settle-SameBooks council period_start period_end actor c db = ground arith

gross_of-SameBooks :
    (council consultant period_start period_end : ℕ) (db db' : Db)
    → SameBooks db db'
    → gross_of council consultant period_start period_end db'
      ≡ gross_of council consultant period_start period_end db
unfolding SameBooks gross_of is_collected consultant_of
gross_of-SameBooks council consultant period_start period_end db db' h =
    rw (h.0, h.1, h.2, h.3) refl

-- What a settlement says, its id and who computed it aside.
pub record Terms : Type 0 where
  pub consultant : ℕ
  pub period_start : ℕ
  pub period_end : ℕ
  pub gross : ℕ
  pub rate : ℕ
  pub commission : ℕ
  pub status : SettlementStatus

abbrev pub terms_of : Settlement → Terms
terms_of s = record {
  consultant = s.consultant;
  period_start = s.period_start;
  period_end = s.period_end;
  gross = s.gross_collections;
  rate = s.commission_rate;
  commission = s.commission_amount;
  status = s.status;
}

-- What the contract and the books make them.
abbrev pub due_terms : ℕ → ℕ → ℕ → Db → SubConsultant → Terms
due_terms council period_start period_end db c =
    let gross = gross_of council c.id period_start period_end db in
    record {
      consultant = c.id;
      period_start = period_start;
      period_end = period_end;
      gross = gross;
      rate = c.commission_rate;
      commission = commission_of gross c.commission_rate;
      status = SettlementStatus.computed;
    }

-- What the lookup of `update_or_create` has tested.
is_of-fields :
    (council consultant period_start period_end : ℕ) (s : Settlement)
    → is_of council consultant period_start period_end s ≡ true
    → (s.consultant ≡ consultant) × (s.period_start ≡ period_start) × (s.period_end ≡ period_end)
is_of-fields council consultant period_start period_end s e =
    (ground arith, ground arith, ground arith)

first-is_of :
    (council consultant period_start period_end : ℕ) (xs : List Settlement) (s : Settlement)
    → first (is_of council consultant period_start period_end) xs ≡ some s
    → is_of council consultant period_start period_end s ≡ true
first-is_of council consultant period_start period_end xs s e =
    (All-first (λ x. x ≡ x) _ xs s (All-of _ xs λ x. refl) e).1

settle-terms :
    (council period_start period_end actor : ℕ) (c : SubConsultant) (db : Db)
    → terms_of (settle council period_start period_end actor c db).0
      ≡ due_terms council period_start period_end db c
unfolding settle
settle-terms council period_start period_end actor c db =
    let rows = db.settlements.rows in
    elim (Option-cases (first (is_of council c.id period_start period_end) rows)) [
      | inl new ↦ rw (settle, new) refl
      | inr (s, there) ↦
          let same =
            is_of-fields council c.id period_start period_end s
              (first-is_of council c.id period_start period_end rows s there) in
          rw (settle, there, same.0, same.1, same.2) refl
    ]

SameBooks-trans : (a b c : Db) → SameBooks a b → SameBooks b c → SameBooks a c
unfolding SameBooks
SameBooks-trans a b c h k = (cc, cc, cc, cc)

due-SameBooks :
    (council period_start period_end : ℕ) (db db' : Db) (cs : List SubConsultant)
    → SameBooks db db'
    → map (due_terms council period_start period_end db') cs
      ≡ map (due_terms council period_start period_end db) cs
due-SameBooks council period_start period_end db db' [] h = refl
due-SameBooks council period_start period_end db db' (c ∷ cs) h =
    rw
      (
        gross_of-SameBooks council c.id period_start period_end db db' h,
        due-SameBooks council period_start period_end db db' cs h,
      )
      refl

settle_loop-terms :
    (council period_start period_end actor : ℕ) (cs : List SubConsultant) (db : Db)
    → map terms_of (settle_loop council period_start period_end actor cs db).0
      ≡ map (due_terms council period_start period_end db) cs
unfolding settle_loop
settle_loop-terms council period_start period_end actor [] db = refl
settle_loop-terms council period_start period_end actor (c ∷ cs) db =
    let next = (settle council period_start period_end actor c db).1 in
    rw
      (
        settle-terms council period_start period_end actor c db,
        settle_loop-terms council period_start period_end actor cs next,
        due-SameBooks council period_start period_end db next cs
            (settle-SameBooks council period_start period_end actor c db),
      )
      refl

-- The terms of what a computation returns, by the program's own sums.
pub compute_settlements-due :
    (by_name : List SubConsultant → List SubConsultant) (council period_start period_end actor : ℕ)
    (db : Db)
    → map terms_of (compute_settlements by_name council period_start period_end actor db).0
      ≡ map
          (due_terms council period_start period_end db)
          (by_name (select (is_active_in council) db.consultants.rows))
unfolding compute_settlements
compute_settlements-due by_name council period_start period_end actor db =
    settle_loop-terms council period_start period_end actor
      (by_name (select (is_active_in council) db.consultants.rows)) db

-- The settlements of other councils and periods.
abbrev pub is_past : ℕ → ℕ → ℕ → Settlement → Bool
is_past council period_start period_end s =
    not (s.council == council && s.period_start == period_start && s.period_end == period_end)

past_off :
    (council consultant period_start period_end : ℕ) (s : Settlement)
    → is_of council consultant period_start period_end s ≡ true
    → is_past council period_start period_end s ≡ false
past_off council consultant period_start period_end s e = ground arith

settle-keeps :
    (council period_start period_end actor : ℕ) (c : SubConsultant) (db : Db)
    → IsKeyed db.settlements
    → let db' = (settle council period_start period_end actor c db).1 in
      IsKeyed db'.settlements
      × (select (is_past council period_start period_end) db'.settlements.rows
          ≡ select (is_past council period_start period_end) db.settlements.rows)
unfolding settle
settle-keeps council period_start period_end actor c db h =
    let rows = db.settlements.rows in
    let gross = gross_of council c.id period_start period_end db in
    let past = is_past council period_start period_end in
    elim (Option-cases (first (is_of council c.id period_start period_end) rows)) [
      | inl new ↦
          let make =
            new_settlement council c.id period_start period_end gross c.commission_rate actor in
          rw (settle, new)
            (
              insert-IsKeyed make db.settlements refl h,
              select-append_off past rows (make db.settlements.next) (ground arith),
            )
      | inr (s, there) ↦
          let f = assign gross c.commission_rate actor in
          let own = All-first _ _ rows s (IsUnique-same rows h.1) there in
          let off = past_off council c.id period_start period_end s own.1 in
          rw (settle, there)
            (
              modify-IsKeyed s.id f db.settlements (λ x. refl) h,
              select-modify past s.id f rows (
                  All-map _ _ rows
                    (λ y one same.
                      let it = one same in
                      (
                        subst (λ z. past z ≡ false) (sym it) off,
                        subst (λ z. past (f z) ≡ false) (sym it) off,
                      ))
                    own.0),
            )
    ]

settle_loop-keeps :
    (council period_start period_end actor : ℕ) (cs : List SubConsultant) (db : Db)
    → IsKeyed db.settlements
    → let db' = (settle_loop council period_start period_end actor cs db).1 in
      IsKeyed db'.settlements
      × (select (is_past council period_start period_end) db'.settlements.rows
          ≡ select (is_past council period_start period_end) db.settlements.rows)
unfolding settle_loop
settle_loop-keeps council period_start period_end actor [] db h = (h, refl)
settle_loop-keeps council period_start period_end actor (c ∷ cs) db h =
    let one = settle-keeps council period_start period_end actor c db h in
    let rest =
      settle_loop-keeps council period_start period_end actor cs
        (settle council period_start period_end actor c db).1 one.0 in
    (rest.0, rest.1 ∙ one.1)

-- Where the ids of the settlements are unique, a computation leaves them so, and every settlement
-- of another council or period as it is, in order.
pub compute_settlements-keeps_past :
    (by_name : List SubConsultant → List SubConsultant) (council period_start period_end actor : ℕ)
    (db : Db)
    → IsKeyed db.settlements
    → let db' = (compute_settlements by_name council period_start period_end actor db).1 in
      IsKeyed db'.settlements
      × (select (is_past council period_start period_end) db'.settlements.rows
          ≡ select (is_past council period_start period_end) db.settlements.rows)
unfolding compute_settlements audit
compute_settlements-keeps_past by_name council period_start period_end actor db h =
    settle_loop-keeps council period_start period_end actor
      (by_name (select (is_active_in council) db.consultants.rows)) db h
