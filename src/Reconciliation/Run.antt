-- ===== src/Reconciliation/Run.antt =====
-- `run_reconciliation` of apps/reconciliation/services.py and `resolve_exception` of its view.
pub mod Covered
pub mod Laws
pub mod Marks
use acrev360_backend.Base.{
  ℕ, ◌+◌, Bool, not, Option, none, some, List, [], ◌∷◌, ltb, ◌==◌, ◌&&◌, if◌then◌else◌, select,
  first,
}
use acrev360_backend.Base.Table.{find, insert, modify}
use acrev360_backend.Models.Audit.{reconciliation_run}
use acrev360_backend.Models.Payments.{
  Channel, Payment, FeedRow, MatchStatus, no_feed_expected, channel_index, feed_keyed,
}
use acrev360_backend.Models.Reconciliation.{
  Run, RunException, RunStatus, run_keyed, exception_keyed,
}
use acrev360_backend.Store.{Db, Env, ok, err, Service, no_feed, does_not_exist, audit}
use acrev360_backend.Reconciliation.Match.{
  Matches, feed_rows, get_match, match_feed_rows_for_channel, total_platform,
}

-- The lookup of `update_or_create`.
abbrev pub is_run_of : ℕ → Channel → ℕ → Run → Bool
is_run_of council channel run_date r =
    r.council == council
    && channel_index r.channel == channel_index channel
    && r.run_date == run_date

-- Its defaults, assigned to a row that is there.
abbrev pub reopen : ℕ → ℕ → ℕ → Run → Run
reopen platform bank actor r = record r {
  total_platform = platform;
  total_bank = bank;
  run_by = actor;
  status = RunStatus.open_run;
}

abbrev pub new_run : ℕ → Channel → ℕ → ℕ → ℕ → ℕ → ℕ → Run
new_run council channel run_date platform bank actor id = record {
  id = id;
  council = council;
  channel = channel;
  run_date = run_date;
  total_platform = platform;
  total_bank = bank;
  status = RunStatus.open_run;
  run_by = actor;
}

-- `update_or_create`
unfoldable pub open_run_of : ℕ → Channel → ℕ → ℕ → ℕ → ℕ → Db → Run × Db
open_run_of council channel run_date platform bank actor db =
    elim (first (is_run_of council channel run_date) db.runs.rows) [
      | none ↦
          let make = new_run council channel run_date platform bank actor in
          (make db.runs.next, record db { runs = insert make db.runs })
      | some r ↦ (
        reopen platform bank actor r,
        record db { runs = modify r.id (reopen platform bank actor) db.runs },
      )
    ]

-- `run.exceptions.all().delete()`
unfoldable pub delete_exceptions : ℕ → Db → Db
delete_exceptions run db = record db {
  exceptions = record db.exceptions { rows = select (λ e. not (e.run == run)) db.exceptions.rows };
}

abbrev pub set_matched : Payment → FeedRow → FeedRow
set_matched match r = record r {
  match_status = MatchStatus.matched;
  matched_payment = some match.id;
}

abbrev pub set_exception : FeedRow → FeedRow
set_exception r = record r { match_status = MatchStatus.exception }

abbrev pub new_exception : ℕ → ℕ → ℕ → ℕ → RunException
new_exception council run row id = record {
  id = id;
  council = council;
  run = run;
  feed_row = some row;
  resolved_at = none;
  resolved_by = none;
}

-- The counter of the loop, and the database.
pub record Matching : Type 0 where
  pub exceptions_created : ℕ
  pub db : Db

-- The body of the loop.
unfoldable pub save_match : ℕ → ℕ → FeedRow → Option Payment → Matching → Matching
save_match council run row (some match) s = record s {
  db = record s.db { feed = modify row.id (set_matched match) s.db.feed };
}
save_match council run row none s = record {
  exceptions_created = s.exceptions_created + 1;
  db = record s.db {
    feed = modify row.id set_exception s.db.feed;
    exceptions = insert (new_exception council run row.id) s.db.exceptions;
  };
}

unfoldable pub save_loop : ℕ → ℕ → Matches → List FeedRow → Matching → Matching
save_loop council run ms [] s = s
save_loop council run ms (row ∷ rows) s =
    save_loop council run ms rows (save_match council run row (get_match row.id ms) s)

abbrev pub outcome : ℕ → RunStatus
outcome exceptions_created =
    if ltb 0 exceptions_created then RunStatus.exceptions else RunStatus.balanced

-- The body behind the guard.
unfoldable pub match_run : ℕ → Channel → ℕ → ℕ → Db → Run × Db
match_run council channel run_date actor db =
    let platform = total_platform council channel run_date db in
    let found = match_feed_rows_for_channel council channel run_date db in
    let opened = open_run_of council channel run_date platform found.total_bank actor db in
    let run = opened.0 in
    let cleared = delete_exceptions run.id opened.1 in
    let saved =
      save_loop council run.id found.matches (feed_rows council channel run_date cleared)
        (record { exceptions_created = 0; db = cleared }) in
    let status = outcome saved.exceptions_created in
    (
      record run { status = status },
      audit council (some actor) (reconciliation_run run_date saved.exceptions_created status)
          run.id
          (record saved.db {
            runs = modify run.id (λ r. record r { status = status }) saved.db.runs;
          }),
    )

unfoldable pub run_reconciliation : ℕ → Channel → ℕ → ℕ → Service Run
run_reconciliation council channel run_date actor db =
    if no_feed_expected channel
    then err no_feed
    else ok (match_run council channel run_date actor db)

unfoldable pub resolve_exception : Env → ℕ → ℕ → ℕ → Service RunException
resolve_exception env council actor id db = elim (find id db.exceptions) [
  | none ↦ err does_not_exist
  | some e ↦
      if e.council == council
      then ok (
        record e { resolved_at = some env.now; resolved_by = some actor },
        record db {
          exceptions =
              modify id (λ row. record row { resolved_at = some env.now; resolved_by = some actor })
                db.exceptions;
        },
      )
      else err does_not_exist
]
