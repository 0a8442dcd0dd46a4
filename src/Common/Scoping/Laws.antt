-- ===== src/Common/Scoping/Laws.antt =====
-- Who sees a payer.
use acrev360_backend.Base.{◌≡◌, refl, true, none, some, List, [], arith, select-nil, All-of}
use acrev360_backend.Base.Table.{find}
use acrev360_backend.Models.Accounts.{AccessLevel, AppUser, user_keyed}
use acrev360_backend.Models.Registry.{Payer}
use acrev360_backend.Store.{Db}
use acrev360_backend.Common.Scoping.{ward_of, consultant_of_user, is_visible, portfolio_filter}

-- A payer is seen by one agent at most: the one it is assigned to, or, while it is assigned to
-- none, the one who registered it.
pub is_visible-one_agent :
    (db : Db) (a b : AppUser) (p : Payer)
    → a.access_level ≡ AccessLevel.agent
    → b.access_level ≡ AccessLevel.agent
    → is_visible db a p ≡ true
    → is_visible db b p ≡ true
    → a.id ≡ b.id
unfolding is_visible
is_visible-one_agent db a b p ha hb ea eb = ground arith

-- A supervisor without a ward (without a field agent's profile, say) sees no payer at all.
pub portfolio_filter-no_ward :
    (db : Db) (user : AppUser) (ps : List Payer)
    → user.access_level ≡ AccessLevel.agent_supervisor
    → ward_of db user.id ≡ none
    → portfolio_filter db user ps ≡ []
unfolding portfolio_filter is_visible
portfolio_filter-no_ward db user ps level unplaced =
    select-nil _ ps (All-of _ ps λ p. rw (level, unplaced) refl)

-- What an agent sees of the payers assigned to nobody, the consultant whom the agent works for sees
-- too.
pub is_visible-agent_consultant :
    (db : Db) (agent consultant : AppUser) (p : Payer)
    → find agent.id db.users ≡ some agent
    → agent.access_level ≡ AccessLevel.agent
    → consultant.access_level ≡ AccessLevel.consultant
    → agent.consultant ≡ consultant.consultant
    → p.assigned_agent ≡ none
    → is_visible db agent p ≡ true
    → is_visible db consultant p ≡ true
unfolding is_visible consultant_of_user
is_visible-agent_consultant db agent consultant p there la lc same unassigned e = ground arith
