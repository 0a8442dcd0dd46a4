-- ===== src/Fieldops/Replay.antt =====
-- `replay_sync_record` and its two branches of apps/fieldops/services.py, and the loop of `SyncView`.
-- What the serializers make of a payload is taken as their result. The race of two requests for one
-- client id is left out. A payload that names `assigned_consultant_id` is left out.
pub mod Frame
pub mod Laws
pub mod Payments
use Prim.Native.String.{String}
use acrev360_backend.Base.{
  ℕ, Bool, true, false, Option, none, some, List, [], ◌∷◌, ◌++◌, ◌==◌, ◌&&◌, if◌then◌else◌,
  same_ref, same_text, select, first, exists, map,
}
use acrev360_backend.Base.Int.{ℤ}
use acrev360_backend.Base.Table.{find, insert}
use acrev360_backend.Models.Accounts.{FieldAgent}
use acrev360_backend.Models.Billing.{Bill, bill_keyed}
use acrev360_backend.Models.Fieldops.{
  RecordType, payment_record, payer_record, SyncStatus, accepted, conflict, rejected,
  MobileSyncRecord,
}
use acrev360_backend.Models.Payments.{Payment, PosTerminal, Channel, terminal_keyed}
use acrev360_backend.Models.Ref.{Ref}
use acrev360_backend.Models.Registry.{Payer, PayerType, BusinessSize, EnumeratedAsset, payer_keyed}
use acrev360_backend.Models.Revenue.{RevenueItem}
use acrev360_backend.Store.{
  Db, Env, Error, duplicate_payer, broken_transaction, Result, ok, err, Service, Committed,
  answered, raised,
}
use acrev360_backend.Payments.Post.{Posting, post_payment}
use acrev360_backend.Payments.Request.{PaymentData}
use acrev360_backend.Registry.Payers.{Enumeration, create_payer}

-- A position in a payload: none, one, a value that is no object, or one whose coordinates are no
-- numbers.
pub data Geo : Type 0 where
  no_geo : Geo
  point : ℤ → ℤ → Geo
  not_an_object : Geo
  not_numbers : Geo

-- What `CreatePayerSerializer` has validated.
pub record PayerData : Type 0 where
  pub payer_type : PayerType
  pub first_name : String
  pub middle_name : String
  pub last_name : String
  pub phone : String
  pub address : String
  pub nin_bvn_hash : Option String
  pub tin : Option String
  pub business_size : Option BusinessSize
  pub revenue_item_ids : List ℕ

-- The validated data is none where the serializer found errors.
pub data Payload : Type 0 where
  of_payment : Option PaymentData → Payload
  -- the ward that the payload names, the position, and the rest
  of_payer : Option ℕ → Geo → Option PayerData → Payload

-- The status, the reference of what was made, and the database.
abbrev pub Replayed : Type 0
Replayed = SyncStatus × Option Ref × Db

abbrev pub reject : Db → Replayed
reject db = (rejected, none, db)

abbrev pub bill_of : ℕ → ℕ → Db → Option Bill
bill_of council id db = first (λ b. b.id == id && b.council == council) db.bills.rows

-- A terminal of another council, or none, is no refusal here.
abbrev pub terminal_of : ℕ → Option ℕ → Db → Option ℕ
terminal_of council none db = none
terminal_of council (some id) db =
    elim (first (λ (t : PosTerminal). t.id == id && t.council == council) db.terminals.rows) [
      | none ↦ none
      | some t ↦ some t.id
    ]

-- `bill.payer.ward_id`
unfoldable pub ward_of_bill : Bill → Db → Option ℕ
ward_of_bill bill db = elim (find bill.payer db.payers) [ none ↦ none | some p ↦ some p.ward ]

abbrev pub is_in_ward : FieldAgent → Option ℕ → Bool
is_in_ward agent none = false
is_in_ward agent (some ward) = same_ref agent.assigned_ward (some ward)

abbrev pub posting_of : ℕ → ℕ → PaymentData → Db → Posting
posting_of council actor q db = record {
  council = council;
  channel = q.channel_code;
  terminal = terminal_of council q.terminal_id db;
  amount = q.amount;
  bank_txn_ref = q.bank_txn_ref;
  posted_by = some actor;
  geo_lat = q.geo_lat;
  geo_lng = q.geo_lng;
}

-- Every exception of `post_payment`, which leaves nothing behind, is a rejection.
abbrev pub posting_result : Db → Result (Payment × Db) → Replayed
posting_result db (ok (p, db')) = (accepted, some p.payment_ref, db')
posting_result db (err e) = reject db

-- `_replay_payment`
unfoldable pub replay_payment : Env → ℕ → FieldAgent → ℕ → Option PaymentData → Db → Replayed
unfolding ward_of_bill
replay_payment env council agent actor none db = reject db
replay_payment env council agent actor (some q) db = elim (bill_of council q.bill_id db) [
  | none ↦ reject db
  | some bill ↦
      if is_in_ward agent (ward_of_bill bill db)
      then (if q.geo_is_numeric
          then posting_result db (post_payment env (posting_of council actor q db) bill db)
          else reject db)
      else reject db
]

-- The items of the council among those named.
unfoldable pub items_of : ℕ → List ℕ → Db → List ℕ
items_of council ids db =
    map (λ i. i.id)
      (select (λ (i : RevenueItem). i.council == council && exists (λ n. n == i.id) ids)
        db.items.rows)

abbrev pub enumeration : ℕ → ℕ → ℕ → PayerData → Db → Enumeration
unfolding items_of
enumeration council actor ward q db = record {
  council = council;
  actor = actor;
  items = items_of council q.revenue_item_ids db;
  force = false;
  enumerated_by = none;
  payer_type = q.payer_type;
  first_name = q.first_name;
  middle_name = q.middle_name;
  last_name = q.last_name;
  phone = q.phone;
  address = q.address;
  ward = ward;
  nin_bvn_hash = q.nin_bvn_hash;
  tin = q.tin;
  business_size = q.business_size;
}

abbrev pub asset_at : Payer → ℕ → ℤ → ℤ → ℕ → EnumeratedAsset
asset_at payer council lat lng id = record {
  id = id;
  council = council;
  payer = payer.id;
  ward = payer.ward;
  geo_lat = lat;
  geo_lng = lng;
}

-- Behind `create_payer`: the asset at the position. A position that is no object is rejected when the
-- payer is there; one whose numbers cannot be stored spoils the transaction.
unfoldable pub place_payer : ℕ → Geo → Payer → Db → Result Replayed
place_payer council no_geo p db = ok (accepted, some p.payer_ref, db)
place_payer council (point lat lng) p db = ok (
  accepted,
  some p.payer_ref,
  record db { assets = insert (asset_at p council lat lng) db.assets },
)
place_payer council not_an_object p db = ok (reject db)
place_payer council not_numbers p db = err broken_transaction

abbrev pub is_duplicate : Error → Bool
is_duplicate (duplicate_payer n) = true
is_duplicate _ = false

abbrev pub enumeration_result : ℕ → Geo → Db → Result ((Payer × ℕ) × Db) → Result Replayed
enumeration_result council geo db (ok (made, db')) = place_payer council geo made.0 db'
enumeration_result council geo db (err e) =
    ok (if is_duplicate e then conflict else rejected, none, db)

-- `_replay_payer`
unfoldable pub replay_payer :
    Env → ℕ → FieldAgent → ℕ → Option ℕ → Geo → Option PayerData → Db → Result Replayed
unfolding place_payer
replay_payer env council agent actor none geo q db = ok (reject db)
replay_payer env council agent actor (some ward) geo q db =
    if is_in_ward agent (some ward)
    then (elim q [
      | none ↦ ok (reject db)
      | some fields ↦
          enumeration_result council geo db
            (create_payer env (enumeration council actor ward fields db) db)
    ])
    else ok (reject db)

abbrev pub replay_payload : Env → ℕ → FieldAgent → ℕ → Payload → Db → Result Replayed
replay_payload env council agent actor (of_payment q) db =
    ok (replay_payment env council agent actor q db)
replay_payload env council agent actor (of_payer ward geo q) db =
    replay_payer env council agent actor ward geo q db

abbrev pub record_type_of : Payload → RecordType
record_type_of (of_payment q) = payment_record
record_type_of (of_payer ward geo q) = payer_record

-- A record of a batch.
pub record Offline : Type 0 where
  pub client_id : String
  pub payload : Payload

abbrev pub is_record : ℕ → String → MobileSyncRecord → Bool
is_record council client r = r.council == council && same_text r.client_id client

-- `MobileSyncRecord.objects.filter(council_id=..., client_id=...).first()`
abbrev pub recorded : ℕ → String → Db → Option MobileSyncRecord
recorded council client db = first (is_record council client) db.sync_records.rows

abbrev pub sync_row : ℕ → FieldAgent → Offline → SyncStatus → Option Ref → ℕ → MobileSyncRecord
sync_row council agent r status ref id = record {
  id = id;
  council = council;
  client_id = r.client_id;
  record_type = record_type_of r.payload;
  agent = agent.id;
  status = status;
  result_ref = ref;
}

abbrev pub write_record :
    ℕ → FieldAgent → Offline → Result Replayed → Result (MobileSyncRecord × Db)
write_record council agent r (err e) = err e
write_record council agent r (ok (status, ref, db)) = ok (
  sync_row council agent r status ref db.sync_records.next,
  record db { sync_records = insert (sync_row council agent r status ref) db.sync_records },
)

-- `replay_sync_record`; the bucket is the record's status.
unfoldable pub replay_sync_record : Env → ℕ → FieldAgent → ℕ → Offline → Service MobileSyncRecord
unfolding replay_payment replay_payer
replay_sync_record env council agent actor r db = elim (recorded council r.client_id db) [
  | some existing ↦ ok (existing, db)
  | none ↦ write_record council agent r (replay_payload env council agent actor r.payload db)
]

-- The answer to a batch.
pub record Buckets : Type 0 where
  pub accepted_records : List MobileSyncRecord
  pub conflict_records : List MobileSyncRecord
  pub rejected_records : List MobileSyncRecord

abbrev pub add_to : MobileSyncRecord → SyncStatus → Buckets → Buckets
add_to r accepted b = record b { accepted_records = b.accepted_records ++ (r ∷ []) }
add_to r conflict b = record b { conflict_records = b.conflict_records ++ (r ∷ []) }
add_to r rejected b = record b { rejected_records = b.rejected_records ++ (r ∷ []) }

-- The loop of `SyncView.post`.
unfoldable pub replay_all :
    Env → ℕ → FieldAgent → ℕ → List Offline → Buckets → Db → Committed Buckets
unfolding replay_sync_record
replay_all env council agent actor [] b db = answered (b, db)
replay_all env council agent actor (r ∷ rs) b db =
    elim (replay_sync_record env council agent actor r db) [
      | err e ↦ raised e db
      | ok (s, db') ↦ replay_all env council agent actor rs (add_to s s.status b) db'
    ]

abbrev pub no_records : Buckets
no_records = record { accepted_records = []; conflict_records = []; rejected_records = [] }

-- A record that raises leaves nothing behind; the records before it are committed.
unfoldable pub sync_batch : Env → ℕ → FieldAgent → ℕ → List Offline → Db → Committed Buckets
unfolding replay_all
sync_batch env council agent actor rs db = replay_all env council agent actor rs no_records db
