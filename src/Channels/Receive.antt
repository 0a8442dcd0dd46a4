-- ===== src/Channels/Receive.antt =====
-- apps/channels/api/views.py: the webhook of a channel and the settlement file of the tellers. A
-- webhook that raises does so in its council's context, whose transaction is rolled back; a settlement
-- file that raises leaves what its earlier rows have written.
pub mod Laws
pub mod Ledger
pub mod Files
pub mod Access
pub mod Again
use Prim.Native.String.{String}
use acrev360_backend.Base.{
  ℕ, ◌+◌, Bool, true, false, inl, inr, Option, none, some, List, [], ◌∷◌, ◌++◌, ◌==◌, ◌&&◌, ◌||◌,
  if◌then◌else◌, same_text, first, exists,
}
use acrev360_backend.Base.Table.{insert, modify}
use acrev360_backend.Models.Billing.{Bill}
use acrev360_backend.Models.Payments.{
  Payment, FeedRow, Channel, MatchStatus, channel_index, feed_keyed,
}
use acrev360_backend.Store.{
  Db, Env, Error, bill_superseded, bill_cancelled, not_confirmed, integrity, type_error, data_error,
  Result, ok, err, Service, Committed, answered, raised,
}
use acrev360_backend.Payments.Post.{Posting, is_too_long, post_payment}
use acrev360_backend.Channels.Adapters.{Body, Python, AdapterError, Normalised, validate, normalise}
use acrev360_backend.Channels.Clients.{Crypto, authenticate_webhook_client}
use acrev360_backend.Channels.Tenants.{resolve_council_from_bill_ref}

-- What becomes of a notified transaction.
pub data Outcome : Type 0 where
  duplicate : Outcome
  accepted_unmatched : Outcome
  refused : Error → Outcome
  posted : Payment → Outcome

abbrev pub same_channel : Channel → Channel → Bool
same_channel a b = channel_index a == channel_index b

-- A row of `uniq_channel_bank_txn_ref`'s key, of any council.
abbrev pub has_key : Channel → String → FeedRow → Bool
has_key channel ref r = same_channel r.channel channel && same_text r.bank_txn_ref ref

abbrev pub is_received : ℕ → Channel → String → Db → Bool
is_received council channel ref db =
    exists (λ r. r.council == council && has_key channel ref r) db.feed.rows

abbrev pub feed_row : Env → ℕ → Channel → Normalised → ℕ → FeedRow
feed_row env council channel n id = record {
  id = id;
  council = council;
  channel = channel;
  bank_txn_ref = n.bank_txn_ref;
  amount = env.column n.amount;
  match_status = MatchStatus.unmatched;
  matched_payment = none;
  received_on = env.today;
}

unfoldable pub mark_exception : ℕ → Db → Db
mark_exception id db = record db {
  feed = modify id (λ r. record r { match_status = MatchStatus.exception }) db.feed;
}

abbrev pub matched_with : ℕ → FeedRow → FeedRow
matched_with payment r = record r {
  match_status = MatchStatus.matched;
  matched_payment = some payment;
}

unfoldable pub mark_matched : ℕ → Payment → Db → Db
mark_matched id p db = record db { feed = modify id (matched_with p.id) db.feed }

-- `Bill.objects.filter(bill_ref=...).first()`, within the council.
unfoldable pub bill_by_ref : Env → ℕ → String → Db → Option Bill
bill_by_ref env council ref db =
    first (λ b. b.council == council && same_text (env.print_ref b.bill_ref) ref) db.bills.rows

-- `PaymentRejected`
abbrev pub is_payment_rejected : Error → Bool
is_payment_rejected bill_superseded = true
is_payment_rejected bill_cancelled = true
is_payment_rejected not_confirmed = true
is_payment_rejected _ = false

abbrev pub posting_of : ℕ → Channel → Option ℕ → Normalised → Posting
posting_of council channel by n = record {
  council = council;
  channel = channel;
  terminal = none;
  amount = n.amount;
  bank_txn_ref = n.bank_txn_ref;
  posted_by = by;
  geo_lat = none;
  geo_lng = none;
}

-- The answer to what `post_payment` did, for the feed row with that id.
abbrev pub settle_posting : ℕ → Db → Result (Payment × Db) → Result (Outcome × Db)
settle_posting id received (ok (p, db')) = ok (posted p, mark_matched id p db')
settle_posting id received (err e) =
    if is_payment_rejected e then ok (refused e, mark_exception id received) else err e

-- Behind the creation of the feed row with that id.
unfoldable pub post_received : Env → ℕ → Channel → Option ℕ → Normalised → ℕ → Service Outcome
unfolding mark_exception mark_matched
post_received env council channel by n id db = elim (bill_by_ref env council n.bill_ref db) [
  | none ↦ ok (accepted_unmatched, mark_exception id db)
  | some bill ↦ settle_posting id db (post_payment env (posting_of council channel by n) bill db)
]

-- The part that the webhook and the file share: `get_or_create` of the feed row, the bill, the
-- posting and the row's status. A reference that another council's row has is an `IntegrityError`.
unfoldable pub receive : Env → ℕ → Channel → Option ℕ → Normalised → Service Outcome
unfolding post_received
receive env council channel by n db =
    if is_received council channel n.bank_txn_ref db
    then ok (duplicate, db)
    else (if is_too_long n.bank_txn_ref
        then err data_error
        else (if exists (has_key channel n.bank_txn_ref) db.feed.rows
            then err integrity
            else post_received env council channel by n db.feed.next
                (record db { feed = insert (feed_row env council channel n) db.feed })))

-- What `receive` has committed where it raises: the feed row, once it is created.
abbrev pub receive_left : Env → ℕ → Channel → Normalised → Db → Db
receive_left env council channel n db =
    if is_received council channel n.bank_txn_ref db
      || is_too_long n.bank_txn_ref
      || exists (has_key channel n.bank_txn_ref) db.feed.rows
    then db
    else record db { feed = insert (feed_row env council channel n) db.feed }

pub record Gateway : Type 0 where
  pub python : Python
  pub crypto : Crypto
  -- `settings.WEBHOOK_STRICT_SIGNATURES`
  pub strict_signatures : Bool

pub record Request : Type 0 where
  pub body : Body
  pub raw_body : String
  pub signature : Option String

pub data Response : Type 0 where
  bad_request : AdapterError → Response
  unrecognised : Response
  unauthorised : Response
  recorded : Outcome → Response

unfoldable pub record_outcome : Result (Outcome × Db) → Result (Response × Db)
record_outcome (ok (o, db)) = ok (recorded o, db)
record_outcome (err e) = err e

-- The part of the webhook within the council's context.
unfoldable pub webhook_for : Env → Gateway → ℕ → Channel → Request → Normalised → Service Response
unfolding receive record_outcome
webhook_for env g council channel request n db =
    if g.strict_signatures
    then (elim (authenticate_webhook_client env g.crypto council channel request.raw_body
        request.signature db) [
          | none ↦ ok (unauthorised, db)
          | some (c, used) ↦ record_outcome (receive env council channel none n used)
        ])
    else record_outcome (receive env council channel none n db)

-- `WebhookView.post`; `code` is none if no channel has the code.
unfoldable pub webhook : Env → Gateway → Option Channel → Request → Service Response
unfolding webhook_for
webhook env g code request db = elim (validate g.python code request.body) [
  | inl e ↦ ok (bad_request e, db)
  | inr _ ↦ elim code [
    | none ↦ err type_error
    | some channel ↦ elim (normalise g.python channel request.body) [
      | none ↦ err type_error
      | some n ↦ elim (resolve_council_from_bill_ref n.bill_ref db) [
        | none ↦ ok (unrecognised, db)
        | some c ↦ webhook_for env g c.id channel request n db
      ]
    ]
  ]
]

pub data RowError : Type 0 where
  bad_row : AdapterError → RowError
  bill_not_found : String → RowError
  posting_refused : String → Error → RowError

-- The counters of the loop over a settlement file.
pub record Tally : Type 0 where
  pub posted : ℕ
  pub duplicates_skipped : ℕ
  pub exceptions : List RowError

abbrev pub with_exception : RowError → Tally → Tally
with_exception e t = record t { exceptions = t.exceptions ++ (e ∷ []) }

abbrev pub count : Normalised → Outcome → Tally → Tally
count n duplicate t = record t { duplicates_skipped = t.duplicates_skipped + 1 }
count n accepted_unmatched t = with_exception (bill_not_found n.bill_ref) t
count n (refused e) t = with_exception (posting_refused n.bill_ref e) t
count n (posted p) t = record t { posted = t.posted + 1 }

abbrev pub counted : Normalised → Tally → Result (Outcome × Db) → Result (Tally × Db)
counted n t (ok (o, db)) = ok (count n o t, db)
counted n t (err e) = err e

-- One round of the loop.
unfoldable pub settle_row : Env → Python → ℕ → ℕ → Body → Tally → Service Tally
unfolding receive
settle_row env py council by row t db = elim (validate py (some Channel.otc) row) [
  | inl e ↦ ok (with_exception (bad_row e) t, db)
  | inr _ ↦ elim (normalise py Channel.otc row) [
    | none ↦ err type_error
    | some n ↦ counted n t (receive env council Channel.otc (some by) n db)
  ]
]

-- What a row that raises has committed.
abbrev pub row_left : Env → Python → ℕ → Body → Db → Db
row_left env py council row db = elim (normalise py Channel.otc row) [
  | none ↦ db
  | some n ↦ receive_left env council Channel.otc n db
]

unfoldable pub settle_rows : Env → Python → ℕ → ℕ → List Body → Tally → Db → Committed Tally
unfolding settle_row
settle_rows env py council by [] t db = answered (t, db)
settle_rows env py council by (row ∷ rows) t db = elim (settle_row env py council by row t db) [
  | err e ↦ raised e (row_left env py council row db)
  | ok (t', db') ↦ settle_rows env py council by rows t' db'
]

abbrev pub no_rows : Tally
no_rows = record { posted = 0; duplicates_skipped = 0; exceptions = [] }

-- `OTCSettlementView.post`, for an array of rows.
unfoldable pub settlement_file : Env → Python → ℕ → ℕ → List Body → Db → Committed Tally
unfolding settle_rows
settlement_file env py council by rows db = settle_rows env py council by rows no_rows db
