-- ===== src/Models/Registry.antt =====
-- apps/registry/models.py: payers, their assets and delegations. The email, line of business, KYC and duplicate-marking columns
-- are not modelled: no modelled operation reads or writes them.
use Prim.Native.String.{String}
use acrev360_backend.Base.{ℕ, Option}
use acrev360_backend.Base.Int.{ℤ}
use acrev360_backend.Base.Table.{Keyed}
use acrev360_backend.Models.Ref.{Ref}

pub data PayerType : Type 0 where
  individual business government ngo : PayerType

pub data BusinessSize : Type 0 where
  micro small medium large : BusinessSize

pub record Payer : Type 0 where
  pub id : ℕ
  pub council : ℕ
  pub payer_ref : Ref
  pub payer_type : PayerType
  pub first_name : String
  pub middle_name : String
  pub last_name : String
  pub phone : String
  pub address : String
  pub ward : ℕ
  pub nin_bvn_hash : String
  pub tin : String
  pub business_size : Option BusinessSize
  pub enumerated_by : ℕ
  pub assigned_agent : Option ℕ
  pub credit_balance : ℤ
  -- The payer's own login.
  pub user : Option ℕ

pub record PayerDelegation : Type 0 where
  pub id : ℕ
  pub council : ℕ
  pub payer : ℕ
  pub proxy_user : ℕ
  pub granted_by : ℕ
  pub granted_at : ℕ
  pub revoked_at : Option ℕ

instance abbrev pub delegation_keyed : Keyed PayerDelegation
delegation_keyed = record { key = λ d. d.id }

-- `EnumeratedAsset`, as the replay of an offline payer creates it: premises in the payer's ward.
pub record EnumeratedAsset : Type 0 where
  pub id : ℕ
  pub council : ℕ
  pub payer : ℕ
  pub ward : ℕ
  pub geo_lat : ℤ
  pub geo_lng : ℤ

instance abbrev pub asset_keyed : Keyed EnumeratedAsset
asset_keyed = record { key = λ a. a.id }

instance abbrev pub payer_keyed : Keyed Payer
payer_keyed = record { key = λ p. p.id }
