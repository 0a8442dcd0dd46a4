-- ===== src/Models/Accounts.antt =====
-- apps/accounts/models.py: the parts of users, consultants and field agents that the modelled code
-- reads.
use Prim.Native.String.{String}
use acrev360_backend.Base.{ℕ, Bool, Option}
use acrev360_backend.Base.Table.{Keyed}

-- `AppRole`, the access levels that `portfolio_filter` and the ratepayers' portal tell apart; `other`
-- is any other level.
pub data AccessLevel : Type 0 where
  consultant consultant_staff revenue_officer agent agent_supervisor ratepayer ratepayer_proxy
        other :
      AccessLevel

pub record AppUser : Type 0 where
  pub id : ℕ
  pub council : Option ℕ
  pub consultant : Option ℕ
  pub access_level : AccessLevel
  pub email : String

pub record SubConsultant : Type 0 where
  pub id : ℕ
  pub council : ℕ
  pub is_active : Bool
  pub commission_rate : ℕ

pub record FieldAgent : Type 0 where
  pub id : ℕ
  pub user : ℕ
  pub assigned_ward : Option ℕ

instance abbrev pub user_keyed : Keyed AppUser
user_keyed = record { key = λ u. u.id }

instance abbrev pub consultant_keyed : Keyed SubConsultant
consultant_keyed = record { key = λ c. c.id }

instance abbrev pub agent_keyed : Keyed FieldAgent
agent_keyed = record { key = λ a. a.id }
