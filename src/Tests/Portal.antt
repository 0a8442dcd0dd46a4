-- ===== src/Tests/Portal.antt =====
-- A ratepayer of the sample council who grants a delegation to a proxy and revokes it.
use mathlib.Core.List.{Mem}
use acrev360_backend.Base.{◌≡◌, ◌⊎◌, refl, true, none, some, [], ◌∷◌, same_text}
use acrev360_backend.Models.Accounts.{AppUser, AccessLevel}
use acrev360_backend.Models.Registry.{Payer, PayerDelegation}
use acrev360_backend.Store.{Db, audit}
use acrev360_backend.Registry.Portal.{
  profile_of, own_ids, accessible_payer_ids, is_in, proxy_with, PortalAnswer, grant,
  grant_delegation, set_revoked, new_delegation, revoke, revoke_delegation,
}
use acrev360_backend.Registry.Portal.Single.{IsSingle, delegations-IsSingle}
use acrev360_backend.Registry.Portal.Grants.{Reads, grant_delegation-Reads}
use acrev360_backend.Registry.Portal.Revocation.{revoke_delegation-ends}
use acrev360_backend.Tests.Sample.{env, payer, db, table}

abbrev ratepayer : AppUser
ratepayer = record {
  id = 10;
  council = some 1;
  consultant = none;
  access_level = AccessLevel.ratepayer;
  email = "amina@kuje.ng";
}

abbrev accountant : AppUser
accountant = record {
  id = 11;
  council = some 1;
  consultant = none;
  access_level = AccessLevel.ratepayer_proxy;
  email = "books@kuje.ng";
}

abbrev account : Payer
account = record payer { user = some 10 }

abbrev portal_db : Db
portal_db = record db {
  users = table (ratepayer ∷ accountant ∷ []) 12;
  payers = table (account ∷ []) 2;
}

abbrev delegated : PortalAnswer × Db
unfolding grant_delegation profile_of proxy_with grant audit
delegated = grant_delegation env same_text ratepayer "books@kuje.ng" portal_db

abbrev delegation : PayerDelegation
delegation = new_delegation env account 11 10 1

abbrev withdrawn : PortalAnswer × Db
unfolding delegated revoke_delegation profile_of revoke audit grant_delegation proxy_with grant
withdrawn = revoke_delegation env ratepayer 1 delegated.1

reads : is_in (accessible_payer_ids 11 delegated.1) 1 ≡ true
unfolding delegated grant_delegation profile_of proxy_with grant audit accessible_payer_ids own_ids
reads = refl

delegations-IsSingle_example :
    IsSingle (grant_delegation env same_text ratepayer "books@kuje.ng" portal_db).1.delegations.rows
    × IsSingle (revoke_delegation env ratepayer 1 portal_db).1.delegations.rows
delegations-IsSingle_example =
    delegations-IsSingle env same_text ratepayer "books@kuje.ng" 1 portal_db tt

grant_delegation-Reads_example :
    let db' = (grant_delegation env same_text ratepayer "books@kuje.ng" portal_db).1 in
    (db' ≡ portal_db)
    ⊎ ((p : Payer) × (proxy : AppUser) × (AccessLevel.ratepayer ≡ AccessLevel.ratepayer)
        × (profile_of 10 portal_db ≡ some p)
        × (same_text proxy.email "books@kuje.ng" ≡ true)
        × (proxy.access_level ≡ AccessLevel.ratepayer_proxy)
        × (proxy.council ≡ some p.council)
        × Reads p proxy portal_db db')
grant_delegation-Reads_example =
    grant_delegation-Reads env same_text ratepayer "books@kuje.ng" portal_db

revoke_delegation-ends_example :
    (p : Payer) × (before : PayerDelegation) × (AccessLevel.ratepayer ≡ AccessLevel.ratepayer)
    × (profile_of 10 delegated.1 ≡ some p)
    × Mem before delegated.1.delegations.rows
    × (before.id ≡ 1)
    × (before.payer ≡ p.id)
    × (before.revoked_at ≡ none)
    × (set_revoked env delegation ≡ record before { revoked_at = some env.now })
    × (is_in (accessible_payer_ids 11 withdrawn.1) p.id ≡ is_in (own_ids 11 delegated.1) p.id)
unfolding delegated withdrawn revoke_delegation profile_of revoke audit grant_delegation proxy_with
    grant
revoke_delegation-ends_example =
    revoke_delegation-ends env ratepayer 1 delegated.1 withdrawn.1 (set_revoked env delegation)
      (tt, tt) refl
