-- ===== src/Reconciliation/Live.antt =====
-- What the live summary says beside the runs.
use acrev360_backend.Base.{ℕ, ◌≡◌, refl, ap, Option, List, [], ◌∷◌, ◌++◌, sum_of, value_or}
use acrev360_backend.Models.Payments.{Channel, FeedRow}
use acrev360_backend.Store.{Db, Env}
use acrev360_backend.Reconciliation.Match.{
  feed_rows, match_feed_rows_for_channel, feed_channels, live_loop, live_reconciliation_summary,
}
use acrev360_backend.Reconciliation.Run.Laws.{match_loop-unmatched, unmatched}

-- The unmatched rows of each channel, one channel behind the other.
abbrev pub all_unmatched : ℕ → ℕ → Db → List Channel → List FeedRow
all_unmatched council run_date db [] = []
all_unmatched council run_date db (c ∷ cs) =
    unmatched council c run_date db ++ all_unmatched council run_date db cs

-- What the bank's feeds of the channels sum up to.
abbrev pub bank_total : ℕ → ℕ → Db → List Channel → ℕ
bank_total council run_date db =
    sum_of λ c. sum_of (λ r. r.amount) (feed_rows council c run_date db)

live_loop-all :
    (council run_date : ℕ) (db : Db) (cs : List Channel)
    → live_loop council run_date db cs
      ≡ (bank_total council run_date db cs, all_unmatched council run_date db cs)
unfolding live_loop match_feed_rows_for_channel
live_loop-all council run_date db [] = refl
live_loop-all council run_date db (c ∷ cs) =
    rw
      (
        live_loop-all council run_date db cs,
        match_loop-unmatched council c run_date db (feed_rows council c run_date db),
      )
      refl

-- The live summary of a day, today where none is asked for, lists as unmatched credits just the feed
-- rows that the runs of that day would make exceptions of, channel by channel, and its bank total is
-- the sum of all those feeds.
pub live_reconciliation_summary-agrees :
    (env : Env) (council : ℕ) (asked : Option ℕ) (db : Db)
    → let live = live_reconciliation_summary env council asked db in
      let day = value_or env.today asked in
      (live.run_date ≡ day)
      × (live.unmatched_credits ≡ all_unmatched council day db feed_channels)
      × (live.total_bank ≡ bank_total council day db feed_channels)
unfolding live_reconciliation_summary
live_reconciliation_summary-agrees env council asked db =
    let found = live_loop-all council (value_or env.today asked) db feed_channels in
    (refl, ap (λ x. x.1) found, ap (λ x. x.0) found)
