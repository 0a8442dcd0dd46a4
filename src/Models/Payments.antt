-- ===== src/Models/Payments.antt =====
-- apps/payments/models.py: channels, payments, their allocations to bill lines, receipts and the
-- bank's transaction feed.
use Prim.Native.String.{String}
use acrev360_backend.Base.{ℕ, Bool, true, false, Option, List}
use acrev360_backend.Base.Int.{ℤ}
use acrev360_backend.Base.Table.{Keyed}
use acrev360_backend.Models.Ref.{Ref}

-- The codes of `PaymentChannel`; `code` is unique there, so the code stands for the row.
pub data Channel : Type 0 where
  pos otc ib_mb ussd firstmonie cash : Channel

abbrev pub channel_index : Channel → ℕ
channel_index Channel.pos = 0
channel_index Channel.otc = 1
channel_index Channel.ib_mb = 2
channel_index Channel.ussd = 3
channel_index Channel.firstmonie = 4
channel_index Channel.cash = 5

-- `NO_FEED_EXPECTED`
abbrev pub no_feed_expected : Channel → Bool
no_feed_expected Channel.cash = true
no_feed_expected _ = false

pub data TxnStatus : Type 0 where
  pending confirmed failed reversed : TxnStatus

abbrev pub is_confirmed : TxnStatus → Bool
is_confirmed TxnStatus.confirmed = true
is_confirmed _ = false

pub record Payment : Type 0 where
  pub id : ℕ
  pub council : ℕ
  pub payment_ref : Ref
  pub bill : ℕ
  pub channel : Channel
  pub terminal : Option ℕ
  pub amount : ℕ
  pub bank_txn_ref : String
  pub txn_status : TxnStatus
  pub posted_by : Option ℕ
  pub geo_lat : Option ℤ
  pub geo_lng : Option ℤ
  -- the local date of `created_at`
  pub created_on : ℕ

pub record PaymentAllocation : Type 0 where
  pub id : ℕ
  pub payment : ℕ
  pub bill_line : ℕ
  pub amount : ℕ

pub record Receipt : Type 0 where
  pub id : ℕ
  pub council : ℕ
  pub receipt_ref : Ref
  pub payment : ℕ

pub data MatchStatus : Type 0 where
  unmatched matched exception : MatchStatus

pub record FeedRow : Type 0 where
  pub id : ℕ
  pub council : ℕ
  pub channel : Channel
  pub bank_txn_ref : String
  pub amount : ℕ
  pub match_status : MatchStatus
  pub matched_payment : Option ℕ
  -- the local date of `received_at`
  pub received_on : ℕ

-- `APIClient`: a secret that a bank signs its calls with. `SCOPE_WEBHOOK_POST` is the one scope there is.
pub record ApiClient : Type 0 where
  pub id : ℕ
  pub council : ℕ
  pub channel : Channel
  pub secret_encrypted : String
  pub is_active : Bool
  pub expires_at : Option ℕ
  pub scopes : List String
  pub last_used_at : Option ℕ

pub record PosTerminal : Type 0 where
  pub id : ℕ
  pub council : ℕ

instance abbrev pub client_keyed : Keyed ApiClient
client_keyed = record { key = λ c. c.id }

instance abbrev pub terminal_keyed : Keyed PosTerminal
terminal_keyed = record { key = λ t. t.id }

instance abbrev pub payment_keyed : Keyed Payment
payment_keyed = record { key = λ p. p.id }

instance abbrev pub allocation_keyed : Keyed PaymentAllocation
allocation_keyed = record { key = λ a. a.id }

instance abbrev pub receipt_keyed : Keyed Receipt
receipt_keyed = record { key = λ r. r.id }

instance abbrev pub feed_keyed : Keyed FeedRow
feed_keyed = record { key = λ r. r.id }
