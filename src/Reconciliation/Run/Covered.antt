-- ===== src/Reconciliation/Run/Covered.antt =====
-- Which feed rows a payment covers, told of the tables themselves, and that the program's look-up of a
-- match agrees.
use mathlib.Core.List.{Mem, mem-cons_self, mem-cons_of_mem}
use mathlib.Core.Option.{some-injective}
use acrev360_backend.Base.{
  ℕ, ◌≡◌, refl, sym, ap, subst, ◌∙◌, inl, inr, Bool, true, not, ◌&&◌, some, List, [], ◌∷◌, arith,
  ◌==◌, is_none, same_text, Bool-cases, first, select, exists,
}
use acrev360_backend.Models.Payments.{Channel, Payment, FeedRow, channel_index, is_confirmed}
use acrev360_backend.Store.{Db}
use acrev360_backend.Reconciliation.Match.{is_platform_payment, is_feed_row, feed_rows, match_of}

select-select :
    {A : Type 0} (p q : A → Bool) (xs : List A)
    → select p (select q xs) ≡ select (λ x. q x && p x) xs
select-select p q [] = refl
select-select p q (x ∷ xs) =
    let rest = select-select p q xs in
    elim (Bool-cases (q x)) [
      | inl take ↦ rw take (elim (Bool-cases (p x)) [
        | inl keep ↦ rw (keep, rest) refl
        | inr drop ↦ rw (drop, rest) refl
      ])
      | inr skip ↦ rw (skip, rest) refl
    ]

select-congr :
    {A : Type 0} (p q : A → Bool) (xs : List A) → ((x : A) → p x ≡ q x) → select p xs ≡ select q xs
select-congr p q [] same = refl
select-congr p q (x ∷ xs) same = rw (same x, select-congr p q xs same) refl

first-select :
    {A : Type 0} (p q : A → Bool) (xs : List A)
    → is_none (first p (select q xs)) ≡ not (exists (λ x. q x && p x) xs)
first-select p q [] = refl
first-select p q (x ∷ xs) =
    let rest = first-select p q xs in
    elim (Bool-cases (q x)) [
      | inl take ↦
          rw take (elim (Bool-cases (p x)) [ inl keep ↦ rw keep refl | inr drop ↦ rw drop rest ])
      | inr skip ↦ rw skip rest
    ]

exists-congr :
    {A : Type 0} (p q : A → Bool) (xs : List A) → ((x : A) → p x ≡ q x) → exists p xs ≡ exists q xs
exists-congr p q [] same = refl
exists-congr p q (x ∷ xs) same = rw (same x, exists-congr p q xs same) refl

first-found :
    {A : Type 0} (p q : A → Bool) (xs : List A) (x : A)
    → first p (select q xs) ≡ some x
    → Mem x xs × ((q x && p x) ≡ true)
first-found p q [] x e = cc
first-found {A} p q (y ∷ xs) x e = elim (Bool-cases (q y)) [
  | inr skip ↦ let rest = first-found p q xs x (rw skip at e) in (mem-cons_of_mem y rest.0, rest.1)
  | inl take ↦ elim (Bool-cases (p y)) [
    | inr drop ↦
        let rest = first-found p q xs x (rw (take, drop) at e) in (mem-cons_of_mem y rest.0, rest.1)
    | inl keep ↦
        let it : y ≡ x = some-injective _ _ (rw (take, keep) at e) in
        (subst (λ z. Mem z (y ∷ xs)) it mem-cons_self, rw (← it, take, keep) refl)
  ]
]

module _ (council : ℕ) (channel : Channel) (run_date : ℕ) where
  -- A confirmed payment of that council, channel and day, with the row's reference and amount.
  abbrev pub is_match : FeedRow → Payment → Bool
  is_match r p =
      p.council == council
      && channel_index p.channel == channel_index channel
      && is_confirmed p.txn_status
      && p.created_on == run_date
      && same_text p.bank_txn_ref r.bank_txn_ref
      && p.amount == r.amount

  abbrev pub is_covered : Db → FeedRow → Bool
  is_covered db r = exists (is_match r) db.payments.rows

  -- The rows of the day's feed that no payment covers.
  abbrev pub uncovered : Db → List FeedRow
  uncovered db =
      select
        (λ r.
          r.council == council
          && channel_index r.channel == channel_index channel
          && r.received_on == run_date
          && not (is_covered db r))
        db.feed.rows

  and-assoc4 :
      (a b c d e f : Bool) → ((a && b && c && d) && (e && f)) ≡ (a && b && c && d && e && f)
  and-assoc4 a b c d e f = ground arith

  and-assoc3 : (a b c d : Bool) → ((a && b && c) && d) ≡ (a && b && c && d)
  and-assoc3 a b c d = ground arith

  test-is_match :
      (r : FeedRow) (p : Payment)
      → (is_platform_payment council channel run_date p
          && (same_text p.bank_txn_ref r.bank_txn_ref && p.amount == r.amount))
        ≡ is_match r p
  unfolding is_platform_payment
  test-is_match r p =
      and-assoc4 (p.council == council) (channel_index p.channel == channel_index channel)
        (is_confirmed p.txn_status) (p.created_on == run_date)
        (same_text p.bank_txn_ref r.bank_txn_ref) (p.amount == r.amount)

  pub match_of-covered :
      (db : Db) (r : FeedRow)
      → is_none (match_of council channel run_date db r) ≡ not (is_covered db r)
  unfolding match_of
  match_of-covered db r =
      first-select (λ p. same_text p.bank_txn_ref r.bank_txn_ref && p.amount == r.amount)
        (is_platform_payment council channel run_date) db.payments.rows
      ∙ ap not (exists-congr _ (is_match r) db.payments.rows (test-is_match r))

  pub match_of-found :
      (db : Db) (r : FeedRow) (p : Payment)
      → match_of council channel run_date db r ≡ some p
      → Mem p db.payments.rows × (is_match r p ≡ true)
  unfolding match_of
  match_of-found db r p e =
      let found =
        first-found (λ x. same_text x.bank_txn_ref r.bank_txn_ref && x.amount == r.amount)
          (is_platform_payment council channel run_date) db.payments.rows p e in
      (found.0, sym (test-is_match r p) ∙ found.1)

  pub unmatched-uncovered :
      (db : Db)
      → select
          (λ r. is_none (match_of council channel run_date db r))
          (feed_rows council channel run_date db)
        ≡ uncovered db
  unfolding is_feed_row
  unmatched-uncovered db =
      select-select _ _ db.feed.rows
      ∙ select-congr _ _ db.feed.rows (λ r.
        ap
          (λ b.
            (r.council == council
              && channel_index r.channel == channel_index channel
              && r.received_on == run_date)
            && b)
          (match_of-covered db r)
        ∙ and-assoc3 (r.council == council) (channel_index r.channel == channel_index channel)
            (r.received_on == run_date) (not (is_covered db r)))
