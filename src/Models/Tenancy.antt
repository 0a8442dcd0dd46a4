-- ===== src/Models/Tenancy.antt =====
-- apps/tenancy/models.py: councils.
use acrev360_backend.Base.{ℕ, Bool}
use acrev360_backend.Base.Table.{Keyed}

pub record Council : Type 0 where
  pub id : ℕ
  pub is_active : Bool

instance abbrev pub council_keyed : Keyed Council
council_keyed = record { key = λ c. c.id }
