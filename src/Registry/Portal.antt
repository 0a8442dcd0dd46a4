-- ===== src/Registry/Portal.antt =====
-- `RatepayerPortalViewSet` of apps/registry/api/views.py, with `accessible_payer_ids` of
-- apps/registry/services.py. `iexact` is the database's comparison of emails without their case.
pub mod Single
pub mod Grants
pub mod Revocation
use Prim.Native.String.{String}
use mathlib.Core.List.{reverse}
use acrev360_backend.Base.{
  ℕ, Bool, true, false, not, Option, none, some, List, [], ◌∷◌, ◌++◌, ◌==◌, ◌&&◌, if◌then◌else◌,
  same_ref, is_none, first, select, exists, map,
}
use acrev360_backend.Base.Table.{find, insert, modify}
use acrev360_backend.Models.Accounts.{AppUser, AccessLevel}
use acrev360_backend.Models.Audit.{payer_delegation_granted, payer_delegation_revoked}
use acrev360_backend.Models.Billing.{Bill, bill_keyed}
use acrev360_backend.Models.Payments.{Payment, Receipt, payment_keyed}
use acrev360_backend.Models.Registry.{Payer, PayerDelegation, delegation_keyed}
use acrev360_backend.Store.{Db, Env, audit}

-- `user.payer_profile`
unfoldable pub profile_of : ℕ → Db → Option Payer
profile_of user db = first (λ p. same_ref p.user (some user)) db.payers.rows

abbrev pub is_active : PayerDelegation → Bool
is_active d = is_none d.revoked_at

unfoldable pub own_ids : ℕ → Db → List ℕ
unfolding profile_of
own_ids user db = elim (profile_of user db) [ none ↦ [] | some p ↦ p.id ∷ [] ]

abbrev pub delegated_ids : ℕ → Db → List ℕ
delegated_ids user db =
    map (λ d. d.payer) (select (λ d. d.proxy_user == user && is_active d) db.delegations.rows)

unfoldable pub accessible_payer_ids : ℕ → Db → List ℕ
unfolding own_ids
accessible_payer_ids user db = own_ids user db ++ delegated_ids user db

-- `payer_id__in=...`
abbrev pub is_in : List ℕ → ℕ → Bool
is_in ids id = exists (λ n. n == id) ids

-- The bills of the portal, the newest first.
unfoldable pub portal_bills : AppUser → Db → List Bill
unfolding accessible_payer_ids
portal_bills user db =
    let ids = accessible_payer_ids user.id db in
    reverse
      (select (λ b. same_ref user.council (some b.council) && is_in ids b.payer) db.bills.rows)

-- `bill__payer_id__in`
abbrev pub pays_for : List ℕ → Db → Payment → Bool
pays_for ids db p = elim (find p.bill db.bills) [ none ↦ false | some b ↦ is_in ids b.payer ]

unfoldable pub portal_payments : AppUser → Db → List Payment
unfolding accessible_payer_ids
portal_payments user db =
    let ids = accessible_payer_ids user.id db in
    reverse
      (select (λ p. same_ref user.council (some p.council) && pays_for ids db p) db.payments.rows)

-- `payment__bill__payer_id__in`
abbrev pub is_receipt_for : List ℕ → Db → Receipt → Bool
is_receipt_for ids db r = elim (find r.payment db.payments) [
  | none ↦ false
  | some p ↦ pays_for ids db p
]

unfoldable pub portal_receipts : AppUser → Db → List Receipt
unfolding accessible_payer_ids
portal_receipts user db =
    let ids = accessible_payer_ids user.id db in
    reverse (
      select (λ r. same_ref user.council (some r.council) && is_receipt_for ids db r)
        db.receipts.rows)

abbrev pub is_ratepayer : AccessLevel → Bool
is_ratepayer AccessLevel.ratepayer = true
is_ratepayer _ = false

abbrev pub is_proxy : AccessLevel → Bool
is_proxy AccessLevel.ratepayer_proxy = true
is_proxy _ = false

-- What the handlers of delegations answer.
pub data PortalAnswer : Type 0 where
  forbidden no_account no_proxy not_found : PortalAnswer
  delegations : List PayerDelegation → PortalAnswer
  standing : PayerDelegation → PortalAnswer
  granted : PayerDelegation → PortalAnswer
  revoked : PayerDelegation → PortalAnswer

-- The proxy account with that email, of the council.
unfoldable pub proxy_with : (String → String → Bool) → String → ℕ → Db → Option AppUser
proxy_with iexact email council db =
    first
      (λ u. iexact u.email email && is_proxy u.access_level && same_ref u.council (some council))
      db.users.rows

abbrev pub names : ℕ → ℕ → PayerDelegation → Bool
names payer proxy d = d.payer == payer && d.proxy_user == proxy && is_active d

abbrev pub new_delegation : Env → Payer → ℕ → ℕ → ℕ → PayerDelegation
new_delegation env payer proxy by id = record {
  id = id;
  council = payer.council;
  payer = payer.id;
  proxy_user = proxy;
  granted_by = by;
  granted_at = env.now;
  revoked_at = none;
}

-- Behind the look-up of the proxy.
unfoldable pub grant : Env → AppUser → Payer → AppUser → Db → PortalAnswer × Db
unfolding audit
grant env user payer proxy db = elim (first (names payer.id proxy.id) db.delegations.rows) [
  | some existing ↦ (standing existing, db)
  | none ↦
      let make = new_delegation env payer proxy.id user.id in
      (
        granted (make db.delegations.next),
        audit payer.council (some user.id) (payer_delegation_granted proxy.id) payer.id
            (record db { delegations = insert make db.delegations }),
      )
]

-- `delegations`: POST.
unfoldable pub grant_delegation :
    Env → (String → String → Bool) → AppUser → String → Db → PortalAnswer × Db
unfolding profile_of proxy_with grant
grant_delegation env iexact user email db =
    if not (is_ratepayer user.access_level)
    then (forbidden, db)
    else (elim (profile_of user.id db) [
      | none ↦ (no_account, db)
      | some payer ↦ elim (proxy_with iexact email payer.council db) [
        | none ↦ (no_proxy, db)
        | some proxy ↦ grant env user payer proxy db
      ]
    ])

-- `delegations`: GET.
unfoldable pub list_delegations : AppUser → Db → PortalAnswer
unfolding profile_of
list_delegations user db =
    if not (is_ratepayer user.access_level) then forbidden else (elim (profile_of user.id db) [
      | none ↦ no_account
      | some payer ↦
          delegations (select (λ d. d.payer == payer.id && is_active d) db.delegations.rows)
    ])

abbrev pub set_revoked : Env → PayerDelegation → PayerDelegation
set_revoked env d = record d { revoked_at = some env.now }

-- `payer.delegations` with that id, if it is not revoked.
abbrev pub delegation_of : ℕ → ℕ → Db → Option PayerDelegation
delegation_of payer id db =
    first (λ d. d.id == id && d.payer == payer && is_active d) db.delegations.rows

-- The revocation itself.
unfoldable pub revoke : Env → AppUser → Payer → PayerDelegation → Db → PortalAnswer × Db
unfolding audit
revoke env user payer d db = (
  revoked (set_revoked env d),
  audit payer.council (some user.id) (payer_delegation_revoked d.proxy_user) payer.id
      (record db { delegations = modify d.id (set_revoked env) db.delegations }),
)

-- `revoke_delegation`
unfoldable pub revoke_delegation : Env → AppUser → ℕ → Db → PortalAnswer × Db
unfolding profile_of revoke
revoke_delegation env user id db =
    if not (is_ratepayer user.access_level)
    then (forbidden, db)
    else (elim (profile_of user.id db) [
      | none ↦ (not_found, db)
      | some payer ↦ elim (delegation_of payer.id id db) [
        | none ↦ (not_found, db)
        | some d ↦ revoke env user payer d db
      ]
    ])
