-- ===== src/Channels/Receive/Again.antt =====
-- A webhook is safe to send again.
use Prim.Native.String.{String}
use acrev360_backend.Base.{
  ℕ, ◌≡◌, refl, ◌∙◌, ◌⊎◌, inl, inr, true, Option, some, none, List, [], ◌∷◌, arith, Option-cases,
  Bool-cases, select, sym, false, ◌<◌, All, exists, same_text,
}
use acrev360_backend.Base.Table.{Table, modify}
use acrev360_backend.Models.Payments.{ApiClient, Channel, channel_index, client_keyed}
use acrev360_backend.Models.Tenancy.{Council}
use acrev360_backend.Store.{Db, Env, ok}
use acrev360_backend.Channels.Adapters.{Normalised, validate, normalise}
use acrev360_backend.Channels.Clients.{
  Crypto, verify_signature, is_candidate, has_scope, scope_webhook_post, first_signer,
  authenticate_webhook_client, mark_used,
}
use acrev360_backend.Channels.Tenants.{resolve_council_from_bill_ref, resolve_council-congr}
use acrev360_backend.Channels.Receive.{
  Outcome, duplicate, Gateway, Request, Response, recorded, unauthorised, is_received,
  record_outcome, webhook_for, webhook,
}
use acrev360_backend.Channels.Receive.Laws.{receive-known, receive-duplicate, receive-tenants}
use acrev360_backend.Channels.Receive.Access.{with_clients, webhook-IsRecorded}

-- A key of the council and the channel that is active, has not expired and has the scope to post
-- webhooks, and whose secret gives the signature of the header, which is not blank.
abbrev pub Signs : Env → Crypto → ℕ → Channel → String → Option String → ApiClient → Type 0
Signs env crypto council channel raw header c =
    (signature : String) × (c.council ≡ council)
    × (channel_index c.channel ≡ channel_index channel)
    × (c.is_active ≡ true)
    × ((c.expires_at ≡ none) ⊎ ((at : ℕ) × (c.expires_at ≡ some at) × (env.now < at)))
    × (exists (λ s. same_text s "payments.webhook.post") c.scopes ≡ true)
    × (header ≡ some signature)
    × (same_text signature "" ≡ false)
    × (same_text (crypto.hmac (crypto.decrypt_secret c.secret_encrypted) raw) signature ≡ true)

module _ (env : Env) (crypto : Crypto) (council : ℕ) (channel : Channel) (raw : String)
    (header : Option String) where
  Signs-candidate :
      (c : ApiClient)
      → Signs env crypto council channel raw header c
      → is_candidate env council channel c ≡ true
  Signs-candidate c (sig, own, same, on, inl e, _, _, _, _) = ground arith
  Signs-candidate c (sig, own, same, on, inr (at, e, live), _, _, _, _) = ground arith

  Signs-verified :
      (c : ApiClient)
      → Signs env crypto council channel raw header c
      → verify_signature crypto (crypto.decrypt_secret c.secret_encrypted) raw header ≡ true
  unfolding verify_signature
  Signs-verified c (sig, own, same, on, e, scope, given, solid, signed) =
      rw (given, solid, signed) refl

  -- Where the loop finds nobody, no key signs.
  first_signer-none :
      (cs : List ApiClient)
      → first_signer crypto raw header (select (is_candidate env council channel) cs) ≡ none
      → All (λ c. ¬ Signs env crypto council channel raw header c) cs
  unfolding first_signer
  first_signer-none [] e = tt
  first_signer-none (c ∷ cs) e = elim (Bool-cases (is_candidate env council channel c)) [
    | inr off ↦ (
      λ signs. true-false (sym (Signs-candidate c signs) ∙ off),
      first_signer-none cs (rw off at e),
    )
    | inl candidate ↦ elim (Bool-cases (has_scope scope_webhook_post c)) [
      | inr off ↦ (λ signs. true-false (sym signs.5 ∙ off), first_signer-none cs (ground arith))
      | inl scoped ↦
          elim (Bool-cases
            (verify_signature crypto (crypto.decrypt_secret c.secret_encrypted) raw header)) [
              | inr off ↦ (
                λ signs. true-false (sym (Signs-verified c signs) ∙ off),
                first_signer-none cs (ground arith),
              )
              | inl signed ↦ absurd (ground arith)
            ]
    ]
  ]
    where
      true-false : true ≡ false → ⊥
      true-false e = cc

module _ (g : Gateway) (channel : Channel) (request : Request) where
  -- No key that is stored signs the body any more.
  abbrev pub Unsigned : Env → ℕ → Db → Type 0
  Unsigned env council db =
      All (λ c. ¬ Signs env g.crypto council channel request.raw_body request.signature c)
        db.clients.rows

  repeated :
      (env : Env) (council : ℕ) (n : Normalised) (db : Db)
      → is_received council channel n.bank_txn_ref db ≡ true
      → (r : Response) × (clients : Table ApiClient) × (webhook_for env g council channel request n
            db
          ≡ ok (r, with_clients clients db))
        × ((r ≡ recorded duplicate)
            ⊎ ((r ≡ unauthorised) × (g.strict_signatures ≡ true) × Unsigned env council db))
  unfolding webhook_for authenticate_webhook_client record_outcome
  repeated env council n db known = elim (Bool-cases g.strict_signatures) [
    | inr off ↦ (
      recorded duplicate,
      db.clients,
      rw (webhook_for, off, receive-duplicate env council channel none n db known) refl,
      inl refl,
    )
    | inl on ↦
        elim (Option-cases (
          first_signer g.crypto request.raw_body request.signature
            (select (is_candidate env council channel) db.clients.rows))) [
              | inl nobody ↦ (
                unauthorised,
                db.clients,
                rw (webhook_for, on, authenticate_webhook_client, nobody) refl,
                inr (
                  refl,
                  on,
                  first_signer-none env g.crypto council channel request.raw_body request.signature
                      db.clients.rows nobody,
                ),
              )
              | inr (c, signer) ↦
                  let used = modify c.id (mark_used env.now) db.clients in
                  (
                    recorded duplicate,
                    used,
                    rw
                        (
                          webhook_for,
                          on,
                          authenticate_webhook_client,
                          signer,
                          receive-duplicate env council channel none n (with_clients used db) known,
                        )
                        refl,
                    inl refl,
                  )
            ]
  ]

  -- A webhook that was recorded and is sent again, at whatever time, is answered with `duplicate`; or
  -- as unauthorised, where signatures are demanded and no key that is stored is one of the resolved
  -- council and the channel that is active, unexpired and scoped and whose secret gives the signature.
  -- Nothing but the keys' table is written.
  pub webhook-again :
      (env env' : Env) (db db' : Db) (o : Outcome)
      → webhook env g (some channel) request db ≡ ok (recorded o, db')
      → (r : Response) × (clients : Table ApiClient) × (n : Normalised) × (council : Council)
        × (normalise g.python channel request.body ≡ some n)
        × (resolve_council_from_bill_ref n.bill_ref db ≡ some council)
        × (webhook env' g (some channel) request db' ≡ ok (r, with_clients clients db'))
        × ((r ≡ recorded duplicate)
            ⊎ ((r ≡ unauthorised) × (g.strict_signatures ≡ true) × Unsigned env' council.id db'))
  unfolding webhook validate
  webhook-again env env' db db' o e =
      let w = webhook-IsRecorded g channel request env db db' o e in
      let a = w.admitted in
      let known =
        receive-known env w.council.id channel none w.n (with_clients a.clients db) db' o
          a.received in
      let tenants =
        receive-tenants env w.council.id channel none w.n (with_clients a.clients db) db' o
          a.received in
      let resolved : resolve_council_from_bill_ref w.n.bill_ref db' ≡ some w.council =
        resolve_council-congr w.n.bill_ref db db' tenants.0 tenants.1 ∙ w.resolved in
      let (r, clients, done, answer) = repeated env' w.council.id w.n db' known in
      (
        r,
        clients,
        w.n,
        w.council,
        w.read,
        w.resolved,
        rw (webhook, w.valid, w.read, resolved) done,
        answer,
      )
