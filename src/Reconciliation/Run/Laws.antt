-- ===== src/Reconciliation/Run/Laws.antt =====
-- What a run leaves behind: its status and its exceptions.
use acrev360_backend.Base.{
  ℕ, ◌+◌, ◌≡◌, refl, sym, ap, subst, ◌∙◌, true, false, not, Option, some, List, [], ◌∷◌, ◌++◌, inl,
  inr, arith, ◌==◌, ==_refl, is_none, Bool-cases, Option-cases, map, length, select, All, All-map,
  All-map₂,
}
use mathlib.Core.List.{append-nil, append_assoc}
use acrev360_backend.Base.Table.{find_row, IsUnique}
use acrev360_backend.Base.Table.Laws.{IsUnique-select}
use acrev360_backend.Models.Payments.{Channel, Payment, FeedRow, no_feed_expected, feed_keyed}
use acrev360_backend.Models.Reconciliation.{Run, RunException, RunStatus}
use acrev360_backend.Store.{Db, ok, audit}
use acrev360_backend.Reconciliation.Match.{
  Matches, feed_rows, is_feed_row, match_of, get_match, match_loop, match_feed_rows_for_channel,
  total_platform,
}
use acrev360_backend.Reconciliation.Run.Covered.{uncovered, unmatched-uncovered}
use acrev360_backend.Reconciliation.Run.{
  Matching, open_run_of, delete_exceptions, save_match, save_loop, outcome, match_run,
  run_reconciliation,
}

module _ (council : ℕ) (channel : Channel) (run_date : ℕ) (db : Db) where
  -- A feed row of the list has its own match in the dictionary.
  pub get_match-own :
      (n : ℕ) (r : FeedRow) (rows : List FeedRow)
      → find_row n rows ≡ some r
      → get_match n (match_loop council channel run_date db rows).0
        ≡ match_of council channel run_date db r
  unfolding get_match match_loop
  get_match-own n r [] e = cc
  get_match-own n r (y ∷ rows) e = ground (arith, get_match-own n r rows)

  pub match_loop-unmatched :
      (rows : List FeedRow)
      → (match_loop council channel run_date db rows).1
        ≡ select (λ r. is_none (match_of council channel run_date db r)) rows
  unfolding match_loop
  match_loop-unmatched [] = refl
  match_loop-unmatched (y ∷ rows) = rw (match_loop-unmatched rows) refl

module _ (rows : List FeedRow) where
  -- Where the ids are unique, each row is found under its own.
  find_row_own : IsUnique rows → All (λ r. find_row r.id rows ≡ some r) rows
  find_row_own u = own rows u
    where
      own : (xs : List FeedRow) → IsUnique xs → All (λ r. find_row r.id xs ≡ some r) xs
      own [] u = tt
      own (x ∷ xs) u = (
        rw (==_refl x.id) refl,
        All-map₂ _ _ _ xs (λ r ne found. ground (arith, ne, found)) u.0 (own xs u.1),
      )

-- The feed rows that a run's exceptions name, in their order.
abbrev pub exception_rows : ℕ → List RunException → List (Option ℕ)
exception_rows run xs = map (λ e. e.feed_row) (select (λ e. e.run == run) xs)

exception_rows-new :
    (run : ℕ) (xs : List RunException) (e : RunException)
    → (e.run == run) ≡ true
    → exception_rows run (xs ++ (e ∷ [])) ≡ exception_rows run xs ++ (e.feed_row ∷ [])
exception_rows-new run [] e own = rw own refl
exception_rows-new run (x ∷ xs) e own =
    let rest = exception_rows-new run xs e own in
    elim (Bool-cases (x.run == run)) [
      | inl take ↦ rw take (ap (λ ys. x.feed_row ∷ ys) rest)
      | inr skip ↦ rw skip rest
    ]

module _ (council run : ℕ) (ms : Matches) (m : FeedRow → Option Payment) where
  -- The exceptions of the run are the rows without a match, in their order, and are counted.
  save_loop-exceptions :
      (rows : List FeedRow) (s : Matching)
      → All (λ r. get_match r.id ms ≡ m r) rows
      → let out = save_loop council run ms rows s in
        (exception_rows run out.db.exceptions.rows
          ≡ exception_rows run s.db.exceptions.rows
            ++ map (λ r. some r.id) (select (λ r. is_none (m r)) rows))
        × (out.exceptions_created
            ≡ s.exceptions_created + length (select (λ r. is_none (m r)) rows))
  unfolding save_loop save_match
  save_loop-exceptions [] s h = (sym (append-nil _), omega arith)
  save_loop-exceptions (r ∷ rows) s h =
      let rest = save_loop-exceptions rows (save_match council run r (get_match r.id ms) s) h.1 in
      elim (Option-cases (m r)) [
        | inl gone ↦
            let got = h.0 ∙ gone in
            rw gone (
              rest.0
                  ∙ (rw (save_match, got)
                        (ap (λ ys. ys ++ map (λ x. some x.id) (select (λ x. is_none (m x)) rows))
                          (exception_rows-new run s.db.exceptions.rows _ (==_refl run)))
                      ∙ append_assoc (exception_rows run s.db.exceptions.rows) (some r.id ∷ []) _),
              rest.1 ∙ rw (save_match, got) (omega arith),
            )
        | inr (p, there) ↦
            let got = h.0 ∙ there in
            rw there (rest.0 ∙ rw (save_match, got) refl, rest.1 ∙ rw (save_match, got) refl)
      ]

exception_rows-cleared :
    (run : ℕ) (xs : List RunException)
    → exception_rows run (select (λ e. not (e.run == run)) xs) ≡ []
exception_rows-cleared run [] = refl
exception_rows-cleared run (x ∷ xs) =
    let rest = exception_rows-cleared run xs in
    elim (Bool-cases (x.run == run)) [ inl take ↦ rw take rest | inr skip ↦ rw (skip, skip) rest ]

pub opened-feed :
    (council : ℕ) (channel : Channel) (run_date platform bank actor : ℕ) (db : Db)
    → (open_run_of council channel run_date platform bank actor db).1.feed ≡ db.feed
unfolding open_run_of
opened-feed council channel run_date platform bank actor db = ground arith

-- The rows of the day's feed that no confirmed payment of that reference and amount matches.
abbrev pub unmatched : ℕ → Channel → ℕ → Db → List FeedRow
unmatched council channel run_date db =
    select (λ r. is_none (match_of council channel run_date db r))
      (feed_rows council channel run_date db)

zero_add : (n : ℕ) → 0 + n ≡ n
zero_add n = omega arith

-- The status by the rows that no payment covers.
abbrev pub Concluded : RunStatus → List FeedRow → Type 0
Concluded status [] = status ≡ RunStatus.balanced
Concluded status (r ∷ rows) = status ≡ RunStatus.exceptions

outcome-Concluded : (rows : List FeedRow) (n : ℕ) → n ≡ length rows → Concluded (outcome n) rows
outcome-Concluded [] n e = ground arith
outcome-Concluded (r ∷ rows) n e = ground arith

-- A channel with a feed can always be reconciled, and the run's status and exceptions are made
-- from scratch: its exceptions name just the rows of the day's feed that no confirmed payment of that
-- day covers by its reference and amount, in their order, whatever an earlier run left; it is balanced
-- when there are none, and has exceptions when there are some.
pub run_reconciliation-outcome :
    (council : ℕ) (channel : Channel) (run_date actor : ℕ) (db : Db)
    → IsUnique db.feed.rows
    → no_feed_expected channel ≡ false
    → (run : Run) × (db' : Db) × (run_reconciliation council channel run_date actor db
        ≡ ok (run, db'))
      × Concluded run.status (uncovered council channel run_date db)
      × (exception_rows run.id db'.exceptions.rows
          ≡ map (λ r. some r.id) (uncovered council channel run_date db))
unfolding run_reconciliation match_run match_feed_rows_for_channel delete_exceptions audit
run_reconciliation-outcome council channel run_date actor db u has_feed =
    let rows = feed_rows council channel run_date db in
    let found = match_feed_rows_for_channel council channel run_date db in
    let opened =
      open_run_of council channel run_date (total_platform council channel run_date db)
        found.total_bank actor db in
    let cleared = delete_exceptions opened.0.id opened.1 in
    let same =
      opened-feed council channel run_date (total_platform council channel run_date db)
        found.total_bank actor db in
    let rows' = feed_rows council channel run_date cleared in
    let same-rows : rows' ≡ rows =
      ap (λ t. select (is_feed_row council channel run_date) t.rows) same in
    let m = match_of council channel run_date db in
    let own =
      All-map _ _ rows (λ r e. get_match-own council channel run_date db r.id r rows e)
        (find_row_own rows
          (IsUnique-select (is_feed_row council channel run_date) db.feed.rows u)) in
    let saved =
      save_loop-exceptions council opened.0.id found.matches m rows'
        (record { exceptions_created = 0; db = cleared })
        (subst (All (λ r. get_match r.id found.matches ≡ m r)) (sym same-rows) own) in
    let left = exception_rows-cleared opened.0.id opened.1.exceptions.rows in
    let bare = unmatched-uncovered council channel run_date db in
    (
      (match_run council channel run_date actor db).0,
      (match_run council channel run_date actor db).1,
      rw has_feed refl,
      outcome-Concluded (uncovered council channel run_date db) _ (
          saved.1
          ∙ zero_add (length (select (λ r. is_none (m r)) rows'))
          ∙ ap (λ xs. length (select (λ r. is_none (m r)) xs)) same-rows
          ∙ ap length bare),
      saved.0
          ∙ ap (λ xs. xs ++ map (λ r. some r.id) (select (λ r. is_none (m r)) rows')) left
          ∙ ap (λ xs. map (λ r. some r.id) (select (λ r. is_none (m r)) xs)) same-rows
          ∙ ap (map (λ r. some r.id)) bare,
    )
