-- ===== src/Reconciliation/Run/Marks.antt =====
-- The marks that a run puts on the feed rows.
use mathlib.Core.List.{Mem}
use acrev360_backend.Base.{
  Bool, false, not, ◌⊎◌, is_none, Option-cases, ℕ, ◌≡◌, ◌≢◌, refl, sym, ap, subst, ◌∙◌, true,
  Option, none, some, List, [], ◌∷◌, inl, inr, ◌==◌, ==_iff, ne_of_test, Bool-cases, select, All,
  All-map,
}
use acrev360_backend.Base.Table.{find, find_row, modify_rows, IsUnique}
use acrev360_backend.Base.Table.Laws.{
  find_row-modify_self, find_row-modify_ne, find_row-select, IsUnique-select, key-find_row,
}
use acrev360_backend.Models.Payments.{Channel, Payment, FeedRow, MatchStatus, feed_keyed}
use acrev360_backend.Store.{Db, audit}
use acrev360_backend.Reconciliation.Match.{
  Matches, feed_rows, is_feed_row, match_of, get_match, match_feed_rows_for_channel, total_platform,
}
use acrev360_backend.Reconciliation.Run.{
  Matching, open_run_of, delete_exceptions, set_matched, set_exception, save_match, save_loop,
  match_run,
}
use acrev360_backend.Reconciliation.Run.Covered.{
  is_match, is_covered, match_of-covered, match_of-found,
}
use acrev360_backend.Reconciliation.Run.Laws.{get_match-own, opened-feed}

-- The mark on a feed row.
abbrev pub mark : Option Payment → FeedRow → FeedRow
mark none r = set_exception r
mark (some match) r = set_matched match r

-- The mark that the loop puts on one feed row; the rows of other ids stay.
module _ (council run : ℕ) (ms : Matches) where
  save_match-feed :
      (r : FeedRow) (o : Option Payment) (s : Matching)
      → (save_match council run r o s).db.feed.rows ≡ modify_rows r.id (mark o) s.db.feed.rows
  unfolding save_match
  save_match-feed r none s = refl
  save_match-feed r (some p) s = refl

  mark-id : (o : Option Payment) (r : FeedRow) → (mark o r).id ≡ r.id
  mark-id none r = refl
  mark-id (some p) r = refl

  save_loop-others :
      (n : ℕ) (rows : List FeedRow) (s : Matching)
      → All (λ r. r.id ≢ n) rows
      → find_row n (save_loop council run ms rows s).db.feed.rows ≡ find_row n s.db.feed.rows
  unfolding save_loop
  save_loop-others n [] s h = refl
  save_loop-others n (r ∷ rows) s h =
      let o = get_match r.id ms in
      save_loop-others n rows (save_match council run r o s) h.1
      ∙ (rw (save_match-feed r o s)
          (find_row-modify_ne n r.id (mark o) s.db.feed.rows (mark-id o) h.0))

  save_loop-marks :
      (n : ℕ) (r now : FeedRow) (rows : List FeedRow) (s : Matching)
      → IsUnique rows
      → find_row n rows ≡ some r
      → find_row n s.db.feed.rows ≡ some now
      → find_row n (save_loop council run ms rows s).db.feed.rows ≡ some (mark (get_match n ms) now)
  unfolding save_loop
  save_loop-marks n r now [] s u own there = cc
  save_loop-marks n r now (y ∷ rows) s u own there =
      let o = get_match y.id ms in
      let feed = s.db.feed.rows in
      elim (Bool-cases (y.id == n)) [
        | inl same ↦
            let e = (==_iff _ _).0 same in
            save_loop-others n rows (save_match council run y o s)
              (All-map _ _ rows (λ z ne q. ne (q ∙ sym e)) u.0)
            ∙ (rw (save_match-feed y o s, e)
                (find_row-modify_self n (mark (get_match n ms)) feed
                  (mark-id (get_match n ms) now ∙ key-find_row n feed now there) there))
        | inr other ↦
            save_loop-marks n r now rows (save_match council run y o s) u.1 (rw other at own) (
              rw (save_match-feed y o s) (
                find_row-modify_ne n y.id (mark o) feed (mark-id o) (ne_of_test _ _ other) ∙ there))
      ]

match_run-marked :
    (council : ℕ) (channel : Channel) (run_date actor : ℕ) (db : Db) (r : FeedRow)
    → IsUnique db.feed.rows
    → find r.id db.feed ≡ some r
    → is_feed_row council channel run_date r ≡ true
    → find r.id (match_run council channel run_date actor db).1.feed
      ≡ some (mark (match_of council channel run_date db r) r)
unfolding match_run match_feed_rows_for_channel delete_exceptions audit
match_run-marked council channel run_date actor db r u there today =
    let rows = feed_rows council channel run_date db in
    let found = match_feed_rows_for_channel council channel run_date db in
    let opened =
      open_run_of council channel run_date (total_platform council channel run_date db)
        found.total_bank actor db in
    let cleared = delete_exceptions opened.0.id opened.1 in
    let same =
      opened-feed council channel run_date (total_platform council channel run_date db)
        found.total_bank actor db in
    let own =
      find_row-select (is_feed_row council channel run_date) r.id db.feed.rows r there today in
    let rows' = feed_rows council channel run_date cleared in
    let same-rows : rows' ≡ rows =
      ap (λ t. select (is_feed_row council channel run_date) t.rows) same in
    let unique = IsUnique-select (is_feed_row council channel run_date) db.feed.rows u in
    save_loop-marks council opened.0.id found.matches r.id r r rows'
      (record { exceptions_created = 0; db = cleared }) (subst IsUnique (sym same-rows) unique)
      (ap (find_row r.id) same-rows ∙ own) (ap (λ t. find_row r.id t.rows) same ∙ there)
    ∙ ap (λ o. some (mark o r)) (get_match-own council channel run_date db r.id r rows own)

-- A run (behind its guard on the channel) marks each feed row of the day: one that a confirmed payment
-- of that day covers by its reference and amount is matched with such a payment; any other becomes an
-- exception, and keeps the payment that an earlier run matched it with. The ids of the feed rows are
-- unique.
pub match_run-marks :
    (council : ℕ) (channel : Channel) (run_date actor : ℕ) (db : Db) (r : FeedRow)
    → IsUnique db.feed.rows
    → find r.id db.feed ≡ some r
    → is_feed_row council channel run_date r ≡ true
    → let feed = (match_run council channel run_date actor db).1.feed in
      ((is_covered council channel run_date db r ≡ false)
        × (find r.id feed ≡ some (record r { match_status = MatchStatus.exception })))
      ⊎ ((p : Payment) × Mem p db.payments.rows
          × (is_match council channel run_date r p ≡ true)
          × (find r.id feed
              ≡ some
                  (record r { match_status = MatchStatus.matched; matched_payment = some p.id })))
match_run-marks council channel run_date actor db r u there today =
    let marked = match_run-marked council channel run_date actor db r u there today in
    elim (Option-cases (match_of council channel run_date db r)) [
      | inl gone ↦
          let covered = match_of-covered council channel run_date db r in
          inl (
            not-true (is_covered council channel run_date db r) (sym covered ∙ ap is_none gone),
            marked ∙ ap (λ o. some (mark o r)) gone,
          )
      | inr (p, found) ↦
          let (mem, own) = match_of-found council channel run_date db r p found in
          inr (p, mem, own, marked ∙ ap (λ o. some (mark o r)) found)
    ]
  where
    not-true : (b : Bool) → not b ≡ true → b ≡ false
    not-true true h = cc
    not-true false h = refl
