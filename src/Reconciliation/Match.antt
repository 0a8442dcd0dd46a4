-- ===== src/Reconciliation/Match.antt =====
-- `_match_feed_rows_for_channel`, `_match_feed_rows` and `live_reconciliation_summary` of
-- apps/reconciliation/services.py.
use acrev360_backend.Base.{
  ℕ, ◌+◌, Bool, Option, none, List, [], ◌∷◌, ◌++◌, ◌==◌, ◌&&◌, if◌then◌else◌, is_none, value_or,
  same_text, sum_of, select, first,
}
use acrev360_backend.Models.Payments.{Channel, Payment, FeedRow, is_confirmed, channel_index}
use acrev360_backend.Store.{Db, Env}

-- The filter of `payments`.
unfoldable pub is_platform_payment : ℕ → Channel → ℕ → Payment → Bool
is_platform_payment council channel run_date p =
    p.council == council
    && channel_index p.channel == channel_index channel
    && is_confirmed p.txn_status
    && p.created_on == run_date

-- The filter of `feed_rows`.
unfoldable pub is_feed_row : ℕ → Channel → ℕ → FeedRow → Bool
is_feed_row council channel run_date r =
    r.council == council
    && channel_index r.channel == channel_index channel
    && r.received_on == run_date

abbrev pub feed_rows : ℕ → Channel → ℕ → Db → List FeedRow
feed_rows council channel run_date db = select (is_feed_row council channel run_date) db.feed.rows

-- `payments.filter(bank_txn_ref=row.bank_txn_ref, amount=row.amount).first()`
unfoldable pub match_of : ℕ → Channel → ℕ → Db → FeedRow → Option Payment
match_of council channel run_date db row =
    first (λ p. same_text p.bank_txn_ref row.bank_txn_ref && p.amount == row.amount)
      (select (is_platform_payment council channel run_date) db.payments.rows)

-- The dictionary `matches`, by the ids of the rows.
abbrev pub Matches : Type 0
Matches = List (ℕ × Option Payment)

-- `matches.get(id)`
unfoldable pub get_match : ℕ → Matches → Option Payment
get_match id [] = none
get_match id (m ∷ ms) = if m.0 == id then m.1 else get_match id ms

pub record FeedMatch : Type 0 where
  pub total_bank : ℕ
  pub matches : Matches
  pub unmatched_rows : List FeedRow

-- The loop over the feed rows.
unfoldable pub match_loop : ℕ → Channel → ℕ → Db → List FeedRow → Matches × List FeedRow
match_loop council channel run_date db [] = ([], [])
match_loop council channel run_date db (row ∷ rows) =
    let match = match_of council channel run_date db row in
    let rest = match_loop council channel run_date db rows in
    ((row.id, match) ∷ rest.0, if is_none match then row ∷ rest.1 else rest.1)

unfoldable pub match_feed_rows_for_channel : ℕ → Channel → ℕ → Db → FeedMatch
match_feed_rows_for_channel council channel run_date db =
    let rows = feed_rows council channel run_date db in
    let found = match_loop council channel run_date db rows in
    record { total_bank = sum_of (λ r. r.amount) rows; matches = found.0; unmatched_rows = found.1 }

-- The total that `_match_feed_rows` adds.
unfoldable pub total_platform : ℕ → Channel → ℕ → Db → ℕ
total_platform council channel run_date db =
    sum_of (λ p. p.amount) (select (is_platform_payment council channel run_date) db.payments.rows)

-- The channels with a feed, which the live summary goes through.
abbrev pub feed_channels : List Channel
feed_channels = Channel.pos ∷ Channel.otc ∷ Channel.ib_mb ∷ Channel.ussd ∷ Channel.firstmonie ∷ []

pub record LiveSummary : Type 0 where
  pub run_date : ℕ
  pub total_platform : ℕ
  pub total_bank : ℕ
  pub unmatched_credits : List FeedRow

-- The loop over the channels.
unfoldable pub live_loop : ℕ → ℕ → Db → List Channel → ℕ × List FeedRow
live_loop council run_date db [] = (0, [])
live_loop council run_date db (c ∷ cs) =
    let one = match_feed_rows_for_channel council c run_date db in
    let rest = live_loop council run_date db cs in
    (one.total_bank + rest.0, one.unmatched_rows ++ rest.1)

unfoldable pub live_reconciliation_summary : Env → ℕ → Option ℕ → Db → LiveSummary
live_reconciliation_summary env council asked db =
    let run_date = value_or env.today asked in
    let found = live_loop council run_date db feed_channels in
    record {
      run_date = run_date;
      total_platform =
          sum_of (λ p. p.amount)
            (select
              (λ p. p.council == council && is_confirmed p.txn_status && p.created_on == run_date)
              db.payments.rows);
      total_bank = found.0;
      unmatched_credits = found.1;
    }
