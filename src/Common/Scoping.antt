-- ===== src/Common/Scoping.antt =====
-- `portfolio_filter` of apps/common/scoping.py, on the payers that a query reaches.
pub mod Laws
use acrev360_backend.Base.{
  ℕ, Bool, true, false, Option, none, some, List, ◌==◌, ◌&&◌, ◌||◌, ◌>>=◌, is_none, same_ref,
  select, first,
}
use acrev360_backend.Base.Table.{find}
use acrev360_backend.Models.Accounts.{AccessLevel, AppUser, FieldAgent, user_keyed}
use acrev360_backend.Models.Registry.{Payer}
use acrev360_backend.Store.{Db}

-- `user.field_agent.assigned_ward_id`, none where a part of it is.
unfoldable pub ward_of : Db → ℕ → Option ℕ
ward_of db user = first (λ (a : FieldAgent). a.user == user) db.agents.rows >>= λ a. a.assigned_ward

-- `enumerated_by__consultant_id` (none where the user has none, which a filter by none selects).
unfoldable pub consultant_of_user : Db → ℕ → Option ℕ
consultant_of_user db user = find user db.users >>= λ u. u.consultant

-- The condition on an agent's payers.
abbrev pub is_own : ℕ → Payer → Bool
is_own user p =
    same_ref p.assigned_agent (some user) || is_none p.assigned_agent && p.enumerated_by == user

-- The condition on the payers of a ward.
abbrev pub is_of_ward : Db → ℕ → Payer → Bool
is_of_ward db ward p =
    same_ref (p.assigned_agent >>= ward_of db) (some ward)
    || is_none p.assigned_agent && same_ref (ward_of db p.enumerated_by) (some ward)

abbrev pub is_of_own_ward : Db → Option ℕ → Payer → Bool
is_of_own_ward db none p = false
is_of_own_ward db (some ward) p = is_of_ward db ward p

unfoldable pub is_visible : Db → AppUser → Payer → Bool
is_visible db user p = elim user.access_level [
  | AccessLevel.agent ↦ is_own user.id p
  | AccessLevel.agent_supervisor ↦ is_of_own_ward db (ward_of db user.id) p
  | AccessLevel.ratepayer ↦ true
  | AccessLevel.ratepayer_proxy ↦ true
  | AccessLevel.other ↦ true
  | _ ↦ same_ref (consultant_of_user db p.enumerated_by) user.consultant
]

unfoldable pub portfolio_filter : Db → AppUser → List Payer → List Payer
portfolio_filter db user = select (is_visible db user)
