-- ===== src/Registry/Portal/Revocation.antt =====
-- Who reads a payer through the portal once a delegation is revoked.
use mathlib.Core.List.{Mem, mem-cons_self, mem-cons_of_mem}
use mathlib.Core.Option.{some-injective}
use acrev360_backend.Base.{
  Option, none, List, [], ◌∷◌, first, is_none, ℕ, ◌≡◌, refl, ap, sym, subst, ◌∙◌, ◌⊎◌, inl, inr,
  Bool, true, false, ◌&&◌, ◌||◌, some, arith, ◌==◌, Bool-cases, Option-cases,
}
use acrev360_backend.Models.Accounts.{AppUser, AccessLevel}
use acrev360_backend.Models.Registry.{Payer, PayerDelegation, delegation_keyed}
use acrev360_backend.Store.{Db, Env, audit}
use acrev360_backend.Registry.Portal.{
  profile_of, is_active, own_ids, accessible_payer_ids, is_in, is_ratepayer, PortalAnswer, revoked,
  forbidden, not_found, set_revoked, delegation_of, revoke, revoke_delegation,
}
use acrev360_backend.Registry.Portal.Single.{accessible-names, names-revoked, IsSingle}

or_false : (a : Bool) → (a || false) ≡ a
or_false true = refl
or_false false = refl

revoke-own :
    (env : Env) (user : AppUser) (payer : Payer) (d : PayerDelegation) (db : Db)
    → IsSingle db.delegations.rows
    → delegation_of payer.id d.id db ≡ some d
    → is_in (accessible_payer_ids d.proxy_user (revoke env user payer d db).1) payer.id
      ≡ is_in (own_ids d.proxy_user db) payer.id
unfolding revoke audit own_ids profile_of
revoke-own env user payer d db single found =
    let off = names-revoked env d.id payer.id db.delegations.rows d single found in
    rw (accessible-names d.proxy_user payer.id (revoke env user payer d db).1, off)
      (or_false (is_in (own_ids d.proxy_user db) payer.id))

abbrev revoked_in : PayerDelegation → PortalAnswer → PayerDelegation
revoked_in e (revoked d) = d
revoked_in e _ = e

answer_of :
    (r : PortalAnswer) (d : PayerDelegation) (db db' : Db)
    → ◌≡◌ {A = PortalAnswer × Db} (r, db) (revoked d, db')
    → r ≡ revoked d
answer_of r d db db' h = ap (λ x. x.0) h

-- An accepted revocation goes through to the caller's own active delegation.
abbrev Revoking : Env → AppUser → ℕ → Db → PortalAnswer × Db → Type 0
Revoking env user id db result =
    (payer : Payer) × (d : PayerDelegation) × (user.access_level ≡ AccessLevel.ratepayer)
    × (profile_of user.id db ≡ some payer)
    × (delegation_of payer.id id db ≡ some d)
    × (revoke env user payer d db ≡ result)

ratepayer_lem : (l : AccessLevel) → is_ratepayer l ≡ true → l ≡ AccessLevel.ratepayer
ratepayer_lem AccessLevel.ratepayer h = refl
ratepayer_lem _ h = cc

revoke_delegation-cases :
    (env : Env) (user : AppUser) (id : ℕ) (db : Db)
    → let r = revoke_delegation env user id db in
      (r ≡ (forbidden, db)) ⊎ (r ≡ (not_found, db)) ⊎ Revoking env user id db r
unfolding revoke_delegation
revoke_delegation-cases env user id db = elim (Bool-cases (is_ratepayer user.access_level)) [
  | inr off ↦ inl (rw (revoke_delegation, off) refl)
  | inl on ↦ elim (Option-cases (profile_of user.id db)) [
    | inl gone ↦ inr (inl (rw (revoke_delegation, on, gone) refl))
    | inr (payer, own) ↦ elim (Option-cases (delegation_of payer.id id db)) [
      | inl gone ↦ inr (inl (rw (revoke_delegation, on, own, gone) refl))
      | inr (e, found) ↦ inr (
          inr (
            payer,
            e,
            ratepayer_lem user.access_level on,
            own,
            found,
            rw (revoke_delegation, on, own, found) refl,
          ))
    ]
  ]
]

revoke_delegation-Revoking :
    (env : Env) (user : AppUser) (id : ℕ) (db db' : Db) (d : PayerDelegation)
    → revoke_delegation env user id db ≡ (revoked d, db')
    → Revoking env user id db (revoked d, db')
revoke_delegation-Revoking env user id db db' d h = elim (revoke_delegation-cases env user id db) [
  | inl e ↦ let bad = answer_of forbidden d db db' (sym e ∙ h) in cc
  | inr (inl e) ↦ let bad = answer_of not_found d db db' (sym e ∙ h) in cc
  | inr (inr (payer, e, level, own, found, it)) ↦ (payer, e, level, own, found, it ∙ h)
]

revoke-row :
    (env : Env) (user : AppUser) (payer : Payer) (e d : PayerDelegation) (db db' : Db)
    → revoke env user payer e db ≡ (revoked d, db')
    → set_revoked env e ≡ d
unfolding revoke
revoke-row env user payer e d db db' it = ap (λ r. revoked_in e r.0) it

first-Mem :
    (p : PayerDelegation → Bool) (ds : List PayerDelegation) (d : PayerDelegation)
    → first p ds ≡ some d
    → Mem d ds × (p d ≡ true)
first-Mem p [] d e = cc
first-Mem p (x ∷ ds) d e = elim (Bool-cases (p x)) [
  | inl take ↦
      let it : x ≡ d = some-injective _ _ (rw take at e) in
      (subst (λ z. Mem z (x ∷ ds)) it mem-cons_self, rw (← it) take)
  | inr skip ↦ let rest = first-Mem p ds d (rw skip at e) in (mem-cons_of_mem x rest.0, rest.1)
]

-- Where no payer has two active delegations to one proxy: a delegation that is revoked was stored as an
-- active one of the caller's account, with the id that the call names, and differs by the time of its
-- revocation; its proxy does not read that account any more, unless it is its own.
pub revoke_delegation-ends :
    (env : Env) (user : AppUser) (id : ℕ) (db db' : Db) (d : PayerDelegation)
    → IsSingle db.delegations.rows
    → revoke_delegation env user id db ≡ (revoked d, db')
    → (payer : Payer) × (before : PayerDelegation) × (user.access_level ≡ AccessLevel.ratepayer)
      × (profile_of user.id db ≡ some payer)
      × Mem before db.delegations.rows
      × (before.id ≡ id)
      × (before.payer ≡ payer.id)
      × (before.revoked_at ≡ none)
      × (d ≡ record before { revoked_at = some env.now })
      × (is_in (accessible_payer_ids d.proxy_user db') payer.id
          ≡ is_in (own_ids d.proxy_user db) payer.id)
revoke_delegation-ends env user id db db' d single h =
    let (payer, e, level, own, found, it) = revoke_delegation-Revoking env user id db db' d h in
    let row = revoke-row env user payer e d db db' it in
    let (mem, test) = first-Mem _ db.delegations.rows e found in
    let test' : (e.id == id && e.payer == payer.id && is_active e) ≡ true = test in
    let same : e.id ≡ id = ground arith in
    let here : delegation_of payer.id e.id db ≡ some e =
      subst (λ n. delegation_of payer.id n db ≡ some e) (sym same) found in
    (
      payer,
      e,
      level,
      own,
      mem,
      same,
      ground arith,
      active_lem e.revoked_at (ground arith),
      sym row,
      subst
          (λ (x : PayerDelegation × Db).
            is_in (accessible_payer_ids x.0.proxy_user x.1) payer.id
            ≡ is_in (own_ids x.0.proxy_user db) payer.id)
          (λ i. (row i, (it i).1)) (revoke-own env user payer e db single here),
    )
  where
    active_lem : (r : Option ℕ) → is_none r ≡ true → r ≡ none
    active_lem none e = refl
    active_lem (some n) e = cc
