-- ===== src/Registry/Portal/Grants.antt =====
-- Who reads a payer through the portal once a delegation is granted.
use Prim.Native.String.{String}
use acrev360_backend.Base.{
  ℕ, ◌≡◌, ◌≢◌, refl, ap, ◌⊎◌, inl, inr, Bool, true, false, ◌&&◌, ◌||◌, Option, none, some, List, [],
  ◌∷◌, ◌++◌, arith, ◌==◌, ==_iff, Bool-cases, Option-cases, All-first, same_ref, All-of, first,
  exists, map,
}
use acrev360_backend.Base.Table.Laws.{select-append_off}
use acrev360_backend.Models.Accounts.{AppUser, AccessLevel}
use acrev360_backend.Models.Registry.{Payer, PayerDelegation, delegation_keyed}
use acrev360_backend.Store.{Db, Env, audit}
use acrev360_backend.Registry.Portal.{
  profile_of, is_active, own_ids, accessible_payer_ids, is_in, is_ratepayer, is_proxy, proxy_with,
  names, new_delegation, grant, grant_delegation,
}
use acrev360_backend.Registry.Portal.Single.{accessible-names}

is_ratepayer_lem : (l : AccessLevel) → is_ratepayer l ≡ true → l ≡ AccessLevel.ratepayer
is_ratepayer_lem AccessLevel.ratepayer h = refl
is_ratepayer_lem _ h = cc

is_proxy_lem : (l : AccessLevel) → is_proxy l ≡ true → l ≡ AccessLevel.ratepayer_proxy
is_proxy_lem AccessLevel.ratepayer_proxy h = refl
is_proxy_lem _ h = cc

same_ref_lem : (r : Option ℕ) (n : ℕ) → same_ref r (some n) ≡ true → r ≡ some n
same_ref_lem none n h = cc
same_ref_lem (some m) n h = ap some ((==_iff m n).0 h)

proxy_with-fits :
    (iexact : String → String → Bool) (email : String) (council : ℕ) (db : Db) (u : AppUser)
    → proxy_with iexact email council db ≡ some u
    → (iexact u.email email ≡ true)
      × (u.access_level ≡ AccessLevel.ratepayer_proxy)
      × (u.council ≡ some council)
unfolding proxy_with
proxy_with-fits iexact email council db u h =
    let test : (iexact u.email email
          && is_proxy u.access_level
          && same_ref u.council (some council))
        ≡ true =
      (All-first (λ _. Unit {0}) _ db.users.rows u (All-of _ _ λ _. tt) h).1 in
    (
      ground arith,
      is_proxy_lem u.access_level (ground arith),
      same_ref_lem u.council council (ground arith),
    )

-- The proxy reads the payer, and nobody else reads more or less than before.
abbrev pub Reads : Payer → AppUser → Db → Db → Type 0
Reads payer proxy db db' =
    (is_in (accessible_payer_ids proxy.id db') payer.id ≡ true)
    × ((u : ℕ) → u ≢ proxy.id → accessible_payer_ids u db' ≡ accessible_payer_ids u db)

true-or : (a b : Bool) → b ≡ true → (a || b) ≡ true
true-or a b h = ground arith

exists-first :
    (p : PayerDelegation → Bool) (ds : List PayerDelegation) (d : PayerDelegation)
    → first p ds ≡ some d
    → exists p ds ≡ true
exists-first p [] d e = cc
exists-first p (x ∷ xs) d e = elim (Bool-cases (p x)) [
  | inl take ↦ rw take refl
  | inr skip ↦ rw skip (exists-first p xs d (rw skip at e))
]

exists-last :
    (p : PayerDelegation → Bool) (ds : List PayerDelegation) (d : PayerDelegation)
    → p d ≡ true
    → exists p (ds ++ (d ∷ [])) ≡ true
exists-last p [] d e = rw e refl
exists-last p (x ∷ xs) d e = true-or (p x) _ (exists-last p xs d e)

grant-others :
    (env : Env) (user : AppUser) (payer : Payer) (proxy : AppUser) (db : Db)
    → (u : ℕ) → u ≢ proxy.id
    → accessible_payer_ids u (grant env user payer proxy db).1 ≡ accessible_payer_ids u db
unfolding grant audit accessible_payer_ids own_ids profile_of
grant-others env user payer proxy db u ne =
    elim (Option-cases (first (names payer.id proxy.id) db.delegations.rows)) [
      | inr (d, found) ↦ rw (grant, found) refl
      | inl free ↦
          let made = new_delegation env payer proxy.id user.id db.delegations.next in
          let off : (made.proxy_user == u && is_active made) ≡ false = ground (arith, ne) in
          rw (grant, free)
            (ap (λ ds. own_ids u db ++ map (λ d. d.payer) ds)
              (select-append_off (λ d. d.proxy_user == u && is_active d) db.delegations.rows made
                off))
    ]

grant-names :
    (env : Env) (user : AppUser) (payer : Payer) (proxy : AppUser) (db : Db)
    → exists (names payer.id proxy.id) (grant env user payer proxy db).1.delegations.rows ≡ true
unfolding grant audit
grant-names env user payer proxy db =
    elim (Option-cases (first (names payer.id proxy.id) db.delegations.rows)) [
      | inr (d, found) ↦ rw (grant, found) (exists-first _ db.delegations.rows d found)
      | inl free ↦
          rw (grant, free)
            (exists-last (names payer.id proxy.id) db.delegations.rows
              (new_delegation env payer proxy.id user.id db.delegations.next) (ground arith))
    ]

grant-Reads :
    (env : Env) (user : AppUser) (payer : Payer) (proxy : AppUser) (db : Db)
    → Reads payer proxy db (grant env user payer proxy db).1
grant-Reads env user payer proxy db =
    let db' = (grant env user payer proxy db).1 in
    (
      rw (accessible-names proxy.id payer.id db', grant-names env user payer proxy db)
          (true-or (is_in (own_ids proxy.id db') payer.id) true refl),
      grant-others env user payer proxy db,
    )

-- A request for a delegation either writes nothing, or the caller is a ratepayer with an account, and
-- a proxy's login of that account's council with the email that was asked for reads it from then on;
-- every other login reads the accounts that it read before.
pub grant_delegation-Reads :
    (env : Env) (iexact : String → String → Bool) (user : AppUser) (email : String) (db : Db)
    → let db' = (grant_delegation env iexact user email db).1 in
      (db' ≡ db)
      ⊎ ((payer : Payer) × (proxy : AppUser) × (user.access_level ≡ AccessLevel.ratepayer)
          × (profile_of user.id db ≡ some payer)
          × (iexact proxy.email email ≡ true)
          × (proxy.access_level ≡ AccessLevel.ratepayer_proxy)
          × (proxy.council ≡ some payer.council)
          × Reads payer proxy db db')
unfolding grant_delegation
grant_delegation-Reads env iexact user email db =
    elim (Bool-cases (is_ratepayer user.access_level)) [
      | inr off ↦ rw (grant_delegation, off) (inl refl)
      | inl on ↦ elim (Option-cases (profile_of user.id db)) [
        | inl gone ↦ rw (grant_delegation, on, gone) (inl refl)
        | inr (payer, own) ↦ elim (Option-cases (proxy_with iexact email payer.council db)) [
          | inl gone ↦ rw (grant_delegation, on, own, gone) (inl refl)
          | inr (proxy, found) ↦
              let (same, level, council) =
                proxy_with-fits iexact email payer.council db proxy found in
              rw (grant_delegation, on, own, found)
                (inr (
                  payer,
                  proxy,
                  is_ratepayer_lem user.access_level on,
                  refl,
                  same,
                  level,
                  council,
                  grant-Reads env user payer proxy db,
                ))
        ]
      ]
    ]
