-- ===== src/Registry/Portal/Single.antt =====
-- The delegations that name a payer and a proxy: `accessible_payer_ids` read by them, and their
-- uniqueness through grants and revocations.
use Prim.Native.String.{String}
use mathlib.Core.Option.{some-injective}
use acrev360_backend.Base.{
  ℕ, ◌≡◌, refl, ap, inl, inr, Bool, true, false, ◌&&◌, ◌||◌, some, List, [], ◌∷◌, ◌++◌, arith, ◌==◌,
  Bool-cases, Option-cases, All, All-first, first-none, All-append, All-map, first, select, exists,
  map, if◌then◌else◌,
}
use acrev360_backend.Base.Table.{modify_rows}
use acrev360_backend.Models.Accounts.{AppUser}
use acrev360_backend.Models.Registry.{Payer, PayerDelegation, delegation_keyed}
use acrev360_backend.Store.{Db, Env, audit}
use acrev360_backend.Registry.Portal.{
  profile_of, is_active, own_ids, delegated_ids, accessible_payer_ids, is_in, is_ratepayer,
  proxy_with, names, new_delegation, grant, grant_delegation, set_revoked, delegation_of, revoke,
  revoke_delegation,
}

-- Two active delegations of one payer to one proxy.
abbrev pub clashes : PayerDelegation → PayerDelegation → Bool
clashes d e = is_active d && names d.payer d.proxy_user e

-- `uniq_active_delegation_per_proxy`
abbrev pub IsSingle : List PayerDelegation → Type 0
IsSingle [] = Unit
IsSingle (d ∷ ds) = All (λ e. clashes d e ≡ false) ds × IsSingle ds

-- A proxy reads a payer by the active delegations that name both.
names-delegated :
    (payer proxy : ℕ) (ds : List PayerDelegation)
    → is_in (map (λ d. d.payer) (select (λ d. d.proxy_user == proxy && is_active d) ds)) payer
      ≡ exists (names payer proxy) ds
names-delegated payer proxy [] = refl
names-delegated payer proxy (d ∷ ds) =
    let rest = names-delegated payer proxy ds in ground (arith, rest)

is_in-append :
    (payer : ℕ) (xs ys : List ℕ) → is_in (xs ++ ys) payer ≡ is_in xs payer || is_in ys payer
is_in-append payer [] ys = refl
is_in-append payer (x ∷ xs) ys = ground (arith, is_in-append payer xs ys)

-- What a user reads: the own account, and those that active delegations name.
pub accessible-names :
    (user payer : ℕ) (db : Db)
    → is_in (accessible_payer_ids user db) payer
      ≡ is_in (own_ids user db) payer || exists (names payer user) db.delegations.rows
unfolding accessible_payer_ids
accessible-names user payer db =
    rw
      (
        is_in-append payer (own_ids user db) (delegated_ids user db),
        names-delegated payer user db.delegations.rows,
      )
      refl

IsSingle-append :
    (ds : List PayerDelegation) (d : PayerDelegation)
    → All (λ e. names d.payer d.proxy_user e ≡ false) ds
    → IsSingle ds
    → IsSingle (ds ++ (d ∷ []))
IsSingle-append [] d free h = (tt, tt)
IsSingle-append (e ∷ ds) d free h =
    (All-append _ ds (d ∷ []) h.0 (ground (arith, free.0), tt), IsSingle-append ds d free.1 h.1)

module _ (env : Env) (id : ℕ) where
  clashes-revoked :
      (d : PayerDelegation) (ds : List PayerDelegation)
      → All (λ e. clashes d e ≡ false) ds
      → All (λ e. clashes d e ≡ false) (modify_rows id (set_revoked env) ds)
  clashes-revoked d [] h = tt
  clashes-revoked d (e ∷ ds) h = (ground (arith, h.0), clashes-revoked d ds h.1)

  clashes-quiet :
      (d : PayerDelegation) (ds : List PayerDelegation)
      → is_active d ≡ false
      → All (λ e. clashes d e ≡ false) ds
  clashes-quiet d [] h = tt
  clashes-quiet d (e ∷ ds) h = (rw h refl, clashes-quiet d ds h)

  IsSingle-revoked :
      (ds : List PayerDelegation) → IsSingle ds → IsSingle (modify_rows id (set_revoked env) ds)
  IsSingle-revoked [] h = tt
  IsSingle-revoked (d ∷ ds) h =
      let rest = IsSingle-revoked ds h.1 in
      elim (Bool-cases (d.id == id)) [
        | inl same ↦ rw same (clashes-quiet (set_revoked env d) _ refl, rest)
        | inr other ↦ rw other (clashes-revoked d ds h.0, rest)
      ]

  quiet-revoked :
      (payer proxy : ℕ) (ds : List PayerDelegation)
      → All (λ e. names payer proxy e ≡ false) ds
      → exists (names payer proxy) (modify_rows id (set_revoked env) ds) ≡ false
  quiet-revoked payer proxy [] h = refl
  quiet-revoked payer proxy (d ∷ ds) h = ground (arith, h.0, quiet-revoked payer proxy ds h.1)

  clashes-names :
      (payer proxy : ℕ) (e y : PayerDelegation)
      → (e.id == id && e.payer == payer && is_active e) ≡ true
      → e.proxy_user ≡ proxy
      → clashes e y ≡ false
      → names payer proxy y ≡ false
  clashes-names payer proxy e y here same k = ground arith

  -- Another delegation than the revoked one of an unclashing pair stays out of the way.
  names-apart :
      (payer : ℕ) (e d : PayerDelegation)
      → clashes e d ≡ false
      → (d.id == id && d.payer == payer && is_active d) ≡ true
      → (e.id == id && e.payer == payer && is_active e) ≡ false
      → names payer d.proxy_user (if e.id == id then set_revoked env e else e) ≡ false
  names-apart payer e d apart test other = ground arith

  -- Where no pair has two active delegations, the revoked one was the pair's only one.
  pub names-revoked :
      (payer : ℕ) (ds : List PayerDelegation) (d : PayerDelegation)
      → IsSingle ds
      → first (λ e. e.id == id && e.payer == payer && is_active e) ds ≡ some d
      → exists (names payer d.proxy_user) (modify_rows id (set_revoked env) ds) ≡ false
  names-revoked payer [] d h found = cc
  names-revoked payer (e ∷ ds) d h found =
      elim (Bool-cases (e.id == id && e.payer == payer && is_active e)) [
        | inl here ↦
            let it : e ≡ d = some-injective _ _ (rw here at found) in
            let same_proxy : e.proxy_user ≡ d.proxy_user = ap (λ x. x.proxy_user) it in
            let free : All (λ y. names payer d.proxy_user y ≡ false) ds =
              All-map _ _ ds (λ y k. clashes-names payer d.proxy_user e y here same_proxy k) h.0 in
            let rest = quiet-revoked payer d.proxy_user ds free in
            let gone : e.id == id ≡ true = ground arith in rw (gone, rest) (ground arith)
        | inr other ↦
            let later = rw other at found in
            let apart = All-first _ _ ds d h.0 later in
            let rest = names-revoked payer ds d h.1 later in
            let off = names-apart payer e d apart.0 apart.1 other in rw rest (ground (arith, off))
      ]

grant-IsSingle :
    (env : Env) (user : AppUser) (payer : Payer) (proxy : AppUser) (db : Db)
    → IsSingle db.delegations.rows
    → IsSingle (grant env user payer proxy db).1.delegations.rows
unfolding grant audit
grant-IsSingle env user payer proxy db h =
    elim (Option-cases (first (names payer.id proxy.id) db.delegations.rows)) [
      | inr (d, found) ↦ rw (grant, found) h
      | inl free ↦
          rw (grant, free)
            (IsSingle-append db.delegations.rows
              (new_delegation env payer proxy.id user.id db.delegations.next)
              (first-none (names payer.id proxy.id) db.delegations.rows free) h)
    ]

revoke-IsSingle :
    (env : Env) (user : AppUser) (payer : Payer) (d : PayerDelegation) (db : Db)
    → IsSingle db.delegations.rows
    → IsSingle (revoke env user payer d db).1.delegations.rows
unfolding revoke audit
revoke-IsSingle env user payer d db h = IsSingle-revoked env d.id db.delegations.rows h

-- Granting and revoking keep it so that no payer has two active delegations to one proxy.
pub delegations-IsSingle :
    (env : Env) (iexact : String → String → Bool) (user : AppUser) (email : String) (id : ℕ)
    (db : Db)
    → IsSingle db.delegations.rows
    → IsSingle (grant_delegation env iexact user email db).1.delegations.rows
      × IsSingle (revoke_delegation env user id db).1.delegations.rows
unfolding grant_delegation revoke_delegation
delegations-IsSingle env iexact user email id db h = (
  elim (Bool-cases (is_ratepayer user.access_level)) [
    | inr off ↦ rw (grant_delegation, off) h
    | inl on ↦ elim (Option-cases (profile_of user.id db)) [
      | inl gone ↦ rw (grant_delegation, on, gone) h
      | inr (payer, own) ↦ elim (Option-cases (proxy_with iexact email payer.council db)) [
        | inl gone ↦ rw (grant_delegation, on, own, gone) h
        | inr (proxy, found) ↦
            rw (grant_delegation, on, own, found) (grant-IsSingle env user payer proxy db h)
      ]
    ]
  ],
  elim (Bool-cases (is_ratepayer user.access_level)) [
    | inr off ↦ rw (revoke_delegation, off) h
    | inl on ↦ elim (Option-cases (profile_of user.id db)) [
      | inl gone ↦ rw (revoke_delegation, on, gone) h
      | inr (payer, own) ↦ elim (Option-cases (delegation_of payer.id id db)) [
        | inl gone ↦ rw (revoke_delegation, on, own, gone) h
        | inr (d, found) ↦
            rw (revoke_delegation, on, own, found) (revoke-IsSingle env user payer d db h)
      ]
    ]
  ],
)
