-- ===== src/Revenue/Bands/Laws.antt =====
-- What replacing an item's bands leaves behind, and that a band made so can be priced.
use acrev360_backend.Base.{
  ℕ, ◌+◌, ◌≡◌, ◌≢◌, ◌↔◌, ◌⊎◌, refl, sym, ap, ◌∙◌, Bool, true, false, not, Option, none, some, List,
  [], ◌∷◌, ◌++◌, inl, inr, arith, ◌==◌, ◌&&◌, ==_refl, is_none, Bool-cases, Option-cases, exists,
  length, select, map, value_or, All,
}
use mathlib.Core.List.{append_assoc, append-nil}
use acrev360_backend.Base.Table.{insert}
use acrev360_backend.Models.Audit.{rate_bands_replaced}
use acrev360_backend.Models.Revenue.{RevenueItem, RateBand, RateMode}
use acrev360_backend.Store.{Db, Env, type_error, ok, err, bad_bands, audit}
use acrev360_backend.Billing.Pricing.{Charge, active_bands, price_in_range, price_by_mode}
use acrev360_backend.Revenue.Bands.{
  TierSpec, BandSpec, has_repeats, is_valid_spec, close_band, close_bands, create_tiers,
  create_bands, new_band, replace_rate_bands,
}

create_tiers-total :
    (band j : ℕ) (ts : List TierSpec) (db : Db)
    → exists (λ t. is_none t.amount) ts ≡ false
    → (db' : Db) × (create_tiers band j ts db ≡ ok db') × (db'.bands ≡ db.bands)
unfolding create_tiers
create_tiers-total band j [] db e = (db, refl, refl)
create_tiers-total band j (t ∷ ts) db e = elim (Option-cases t.amount) [
  | inl gone ↦ absurd (ground arith)
  | inr (a, there) ↦ rw there (create_tiers-total band (j + 1) ts _ (ground arith))
]

-- A band that no charge of the right kind fails on with a missing figure.
abbrev pub IsPriced : RateBand → Type 0
IsPriced b = (c : Charge) → price_by_mode b.rate_mode b c ≢ err type_error

new_band-IsPriced :
    (item : ℕ) (s : BandSpec) (mode : RateMode) (i day id : ℕ)
    → s.rate_mode ≡ some mode
    → is_valid_spec s ≡ true
    → IsPriced (new_band item s mode i day id)
unfolding is_valid_spec price_by_mode price_in_range
new_band-IsPriced item s RateMode.flat i day id e v c = ground arith
new_band-IsPriced item s RateMode.range i day id e v c = ground arith
new_band-IsPriced item s RateMode.tiered i day id e v c = ground arith

tiers-present :
    (s : BandSpec) → is_valid_spec s ≡ true → exists (λ t. is_none t.amount) s.tiers ≡ false
unfolding is_valid_spec
tiers-present s v = ground arith

no_mode : (s : BandSpec) → s.rate_mode ≡ none → is_valid_spec s ≢ true
unfolding is_valid_spec
no_mode s gone v = ground arith

-- The open bands of an item.
abbrev pub is_open_band : ℕ → RateBand → Bool
is_open_band item b = b.item == item && is_none b.effective_to

create_bands-total :
    (item day i : ℕ) (specs : List BandSpec) (db : Db)
    → exists (λ s. not (is_valid_spec s)) specs ≡ false
    → (bs : List RateBand) × (db' : Db) × (create_bands item day i specs db ≡ ok (bs, db'))
      × (db'.bands.rows ≡ db.bands.rows ++ bs)
      × (map (λ b. b.label) bs ≡ map (λ s. s.label) specs)
      × All (λ b. is_open_band item b ≡ true) bs
      × All IsPriced bs
unfolding create_bands
create_bands-total item day i [] db e = ([], db, refl, sym (append-nil _), refl, tt, tt)
create_bands-total item day i (s ∷ ss) db e =
    let valid : is_valid_spec s ≡ true = ground arith in
    elim (Option-cases s.rate_mode) [
      | inl gone ↦ absurd (no_mode s gone valid)
      | inr (mode, there) ↦
          let b = new_band item s mode i day db.bands.next in
          let tiered =
            create_tiers-total db.bands.next 0 s.tiers
              (record db { bands = insert (new_band item s mode i day) db.bands })
              (tiers-present s valid) in
          let rest = create_bands-total item day (i + 1) ss tiered.0 (ground arith) in
          (
            b ∷ rest.0,
            rest.1,
            rw (there, tiered.1, rest.2) refl,
            rest.3
                ∙ ap (λ t. t.rows ++ rest.0) tiered.2
                ∙ append_assoc db.bands.rows (b ∷ []) rest.0,
            ap (λ ls. s.label ∷ ls) rest.4,
            (rw (==_refl item) refl, rest.5),
            (new_band-IsPriced item s mode i day db.bands.next there valid, rest.6),
          )
    ]

select-closed :
    (item day : ℕ) (xs bs : List RateBand)
    → All (λ b. is_open_band item b ≡ true) bs
    → select (is_open_band item) (map (close_band item day) xs ++ bs) ≡ bs
select-closed item day [] [] h = refl
select-closed item day [] (b ∷ bs) h = rw h.0 (ap (λ ys. b ∷ ys) (select-closed item day [] bs h.1))
select-closed item day (x ∷ xs) bs h =
    let rest = select-closed item day xs bs h in
    elim (Bool-cases (is_open_band item x)) [
      | inl was_open ↦ rw was_open (rw (shut item day x was_open) rest)
      | inr was_closed ↦ rw was_closed (rw was_closed rest)
    ]
  where
    shut :
        (item day : ℕ) (x : RateBand)
        → is_open_band item x ≡ true
        → is_open_band item (record x { effective_to = some day }) ≡ false
    shut item day x h = ground arith

-- A set of specs that are each valid, with no label twice, always replaces the open bands of the
-- item: afterwards just the new ones are open, in the order of the specs and with their labels, and
-- no charge fails on one of them for a figure that is missing.
pub replace_rate_bands-opens :
    (env : Env) (item : RevenueItem) (specs : List BandSpec) (actor : ℕ) (day : Option ℕ) (db : Db)
    → has_repeats (map (λ s. s.label) specs) ≡ false
    → exists (λ s. not (is_valid_spec s)) specs ≡ false
    → (bs : List RateBand) × (db' : Db) × (replace_rate_bands env item specs actor day db
        ≡ ok (bs, db'))
      × (active_bands item.id db' ≡ bs)
      × (map (λ b. b.label) bs ≡ map (λ s. s.label) specs)
      × All IsPriced bs
unfolding replace_rate_bands close_bands active_bands audit
replace_rate_bands-opens env item specs actor day db r i =
    let on = value_or env.today day in
    let made = create_bands-total item.id on 0 specs (close_bands item.id on db) i in
    (
      made.0,
      audit item.council (some actor)
          (rate_bands_replaced (length (active_bands item.id db)) (length made.0)) item.id made.1,
      rw (r, i, made.2) refl,
      ap (select (is_open_band item.id)) made.3
          ∙ select-closed item.id on db.bands.rows made.0 made.5,
      made.4,
      made.6,
    )

refuse-bad :
    (env : Env) (item : RevenueItem) (specs : List BandSpec) (actor : ℕ) (day : Option ℕ) (db : Db)
    → (has_repeats (map (λ s. s.label) specs) ≡ true)
      ⊎ (exists (λ s. not (is_valid_spec s)) specs ≡ true)
    → replace_rate_bands env item specs actor day db ≡ err bad_bands
unfolding replace_rate_bands
refuse-bad env item specs actor day db (inl r) = rw r refl
refuse-bad env item specs actor day db (inr i) =
    elim (Bool-cases (has_repeats (map (λ s. s.label) specs))) [
      | inl r ↦ rw r refl
      | inr r ↦ rw (r, i) refl
    ]

-- A set is refused exactly when a label stands twice in it, or a spec is not valid.
pub replace_rate_bands_refusals :
    (env : Env) (item : RevenueItem) (specs : List BandSpec) (actor : ℕ) (day : Option ℕ) (db : Db)
    → (replace_rate_bands env item specs actor day db ≡ err bad_bands) ↔ (
        (has_repeats (map (λ s. s.label) specs) ≡ true)
        ⊎ (exists (λ s. not (is_valid_spec s)) specs ≡ true))
replace_rate_bands_refusals env item specs actor day db =
    let back = refuse-bad env item specs actor day db in
    elim (Bool-cases (has_repeats (map (λ s. s.label) specs))) [
      | inl r ↦ (λ e. inl r, back)
      | inr r ↦ elim (Bool-cases (exists (λ s. not (is_valid_spec s)) specs)) [
        | inl i ↦ (λ e. inr i, back)
        | inr i ↦
            let opens = replace_rate_bands-opens env item specs actor day db r i in
            (λ e. absurd (apart (sym opens.2 ∙ e)), back)
      ]
    ]
  where
    apart : {A : Type 0} {a : A} → ok a ≢ err bad_bands
    apart e = cc
