-- ===== src/Payments/Request.antt =====
-- `PostPaymentSerializer` of apps/payments/api/serializers.py: what it has validated.
use Prim.Native.String.{String}
use acrev360_backend.Base.{ℕ, Bool, Option}
use acrev360_backend.Base.Int.{ℤ}
use acrev360_backend.Models.Payments.{Channel}

pub record PaymentData : Type 0 where
  pub bill_id : ℕ
  pub amount : ℕ
  pub channel_code : Channel
  pub bank_txn_ref : String
  pub terminal_id : Option ℕ
  pub geo_lat : Option ℤ
  pub geo_lng : Option ℤ
  -- whether the coordinates are numbers of the column
  pub geo_is_numeric : Bool
