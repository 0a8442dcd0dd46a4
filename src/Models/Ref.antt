-- ===== src/Models/Ref.antt =====
-- References (apps/common/refs.py): the throwaway one a row is created with, and the final ones,
-- by what their format strings print.
use Prim.Native.String.{String}
use acrev360_backend.Base.{ℕ}

pub data Ref : Type 0 where
  -- `TMP-<uuid>`
  placeholder : Ref
  -- `<prefix>/<year>/<id:06d>`
  bill_number : String → ℕ → ℕ → Ref
  -- `PAY-<id:08d>`
  payment_number : ℕ → Ref
  -- `RCT-<id:08d>`
  receipt_number : ℕ → Ref
  -- `<prefix>-<id:07d>`
  payer_number : String → ℕ → Ref
