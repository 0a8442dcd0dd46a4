-- ===== src/Models/Fieldops.antt =====
-- apps/fieldops/models.py: the ledger of replayed offline records. The detail of an outcome is left out.
use Prim.Native.String.{String}
use acrev360_backend.Base.{ℕ, Option}
use acrev360_backend.Base.Table.{Keyed}
use acrev360_backend.Models.Ref.{Ref}

pub data RecordType : Type 0 where
  payment_record payer_record : RecordType

pub data SyncStatus : Type 0 where
  accepted conflict rejected : SyncStatus

pub record MobileSyncRecord : Type 0 where
  pub id : ℕ
  pub council : ℕ
  pub client_id : String
  pub record_type : RecordType
  pub agent : ℕ
  pub status : SyncStatus
  pub result_ref : Option Ref

instance abbrev pub sync_keyed : Keyed MobileSyncRecord
sync_keyed = record { key = λ r. r.id }
