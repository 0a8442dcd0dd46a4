-- ===== src/Channels/Receive/Access.antt =====
-- Who can move money by a webhook.
use Prim.Native.String.{String}
use acrev360_backend.Base.{
  ℕ, ◌≡◌, ◌≢◌, subst, ap, ◌⊎◌, inl, inr, true, Option, some, none, List, [], ◌∷◌, ◌++◌, arith,
  Option-cases, Sum-cases, Bool-cases, select,
}
use acrev360_backend.Base.Table.{Table, modify}
use acrev360_backend.Models.Payments.{ApiClient, Channel, client_keyed}
use acrev360_backend.Models.Tenancy.{Council}
use acrev360_backend.Store.{Db, Env, Result, ok, err}
use acrev360_backend.Channels.Adapters.{Normalised, validate, normalise}
use acrev360_backend.Channels.Clients.{
  Crypto, verify_signature, is_candidate, has_scope, scope_webhook_post, first_signer,
  authenticate_webhook_client, mark_used,
}
use acrev360_backend.Channels.Tenants.{resolve_council_from_bill_ref}
use acrev360_backend.Channels.Receive.{
  Outcome, Gateway, Request, Response, recorded, receive, record_outcome, webhook_for, webhook,
}

-- A key of the council and the channel that is active, unexpired and may post webhooks, and whose
-- secret has signed the body.
pub record IsSigner (env : Env) (crypto : Crypto) (council : ℕ) (channel : Channel) (raw : String)
    (header : Option String) (c : ApiClient) : Type 0 where
  pub candidate : is_candidate env council channel c ≡ true
  pub scoped : has_scope scope_webhook_post c ≡ true
  pub signed : verify_signature crypto (crypto.decrypt_secret c.secret_encrypted) raw header ≡ true

module _ (env : Env) (crypto : Crypto) (council : ℕ) (channel : Channel) (raw : String)
    (header : Option String) where
  -- The key that the loop finds is one of the rows.
  abbrev pub Found : List ApiClient → ApiClient → Type 0
  Found cs c =
      IsSigner env crypto council channel raw header c
      × (before : List ApiClient) × (behind : List ApiClient) × (cs ≡ before ++ (c ∷ behind))

  Found-later :
      (d : ApiClient) (cs : List ApiClient) (c : ApiClient) → Found cs c → Found (d ∷ cs) c
  Found-later d cs c (signer, before, behind, e) = (signer, d ∷ before, behind, ap (λ xs. d ∷ xs) e)

  first_signer-Found :
      (cs : List ApiClient) (c : ApiClient)
      → first_signer crypto raw header (select (is_candidate env council channel) cs) ≡ some c
      → Found cs c
  unfolding first_signer
  first_signer-Found [] c e = cc
  first_signer-Found (d ∷ cs) c e = elim (Bool-cases (is_candidate env council channel d)) [
    | inr off ↦ Found-later d cs c (first_signer-Found cs c (rw off at e))
    | inl candidate ↦ elim (Bool-cases (has_scope scope_webhook_post d)) [
      | inr off ↦ Found-later d cs c (first_signer-Found cs c (ground arith))
      | inl scoped ↦
          elim (Bool-cases
            (verify_signature crypto (crypto.decrypt_secret d.secret_encrypted) raw header)) [
              | inr off ↦ Found-later d cs c (first_signer-Found cs c (ground arith))
              | inl signed ↦
                  let it : d ≡ c = ground arith in
                  (
                    subst (IsSigner env crypto council channel raw header) it
                        (record { candidate = candidate; scoped = scoped; signed = signed }),
                    [],
                    cs,
                    ap (λ x. x ∷ cs) it,
                  )
            ]
    ]
  ]

-- The database with other keys.
abbrev pub with_clients : Table ApiClient → Db → Db
with_clients t db = record db { clients = t }

module _ (g : Gateway) (channel : Channel) (request : Request) where
  record_outcome-ok :
      (r : Result (Outcome × Db)) (o : Outcome) (db' : Db)
      → record_outcome r ≡ ok (recorded o, db')
      → r ≡ ok (o, db')
  unfolding record_outcome
  record_outcome-ok r o db' e = ground arith

  abbrev pub SignedBy : Env → ℕ → Db → Type 0
  SignedBy env council db =
      (c : ApiClient) × Found env g.crypto council channel request.raw_body request.signature
        db.clients.rows c

  -- Behind the gate: the keys are those of the database, but for the time of last use.
  pub record Admitted (env : Env) (council : ℕ) (n : Normalised) (db : Db) (o : Outcome) (db' : Db)
      : Type 0 where
    pub clients : Table ApiClient
    pub received : receive env council channel none n (with_clients clients db) ≡ ok (o, db')
    pub signed : g.strict_signatures ≡ true → SignedBy env council db

  webhook_for-Admitted :
      (env : Env) (council : ℕ) (n : Normalised) (db db' : Db) (o : Outcome)
      → webhook_for env g council channel request n db ≡ ok (recorded o, db')
      → Admitted env council n db o db'
  unfolding webhook_for authenticate_webhook_client
  webhook_for-Admitted env council n db db' o e = elim (Bool-cases g.strict_signatures) [
    | inr off ↦ record {
      clients = db.clients;
      received =
          record_outcome-ok (receive env council channel none n db) o db'
            (rw (webhook_for, off) at e);
      signed = λ on. absurd (ground arith);
    }
    | inl on ↦
        elim (Option-cases (
          first_signer g.crypto request.raw_body request.signature
            (select (is_candidate env council channel) db.clients.rows))) [
              | inl nobody ↦ absurd (ground arith)
              | inr (c, signer) ↦
                  let used = modify c.id (mark_used env.now) db.clients in
                  record {
                    clients = used;
                    received =
                        record_outcome-ok
                          (receive env council channel none n (with_clients used db)) o db'
                          (rw (webhook_for, on, authenticate_webhook_client, signer) at e);
                    signed = λ _. (
                      c,
                      first_signer-Found env g.crypto council channel request.raw_body
                          request.signature db.clients.rows c signer,
                    );
                  }
            ]
  ]

  -- What a recorded webhook has passed.
  pub record IsRecorded (env : Env) (db : Db) (o : Outcome) (db' : Db) : Type 0 where
    pub n : Normalised
    pub council : Council
    pub valid : validate g.python (some channel) request.body ≡ inr tt
    pub read : normalise g.python channel request.body ≡ some n
    pub resolved : resolve_council_from_bill_ref n.bill_ref db ≡ some council
    pub admitted : Admitted env council.id n db o db'

  pub webhook-IsRecorded :
      (env : Env) (db db' : Db) (o : Outcome)
      → webhook env g (some channel) request db ≡ ok (recorded o, db')
      → IsRecorded env db o db'
  unfolding webhook
  webhook-IsRecorded env db db' o e =
      elim (Sum-cases (validate g.python (some channel) request.body)) [
        | inl (x, bad) ↦ absurd (ground arith)
        | inr (u, valid) ↦ elim (Option-cases (normalise g.python channel request.body)) [
          | inl raised ↦ absurd (ground arith)
          | inr (n, read) ↦ elim (Option-cases (resolve_council_from_bill_ref n.bill_ref db)) [
            | inl unknown ↦ absurd (ground arith)
            | inr (c, resolved) ↦ record {
              n = n;
              council = c;
              valid = valid;
              read = read;
              resolved = resolved;
              admitted = webhook_for-Admitted env c.id n db db' o (ground arith);
            }
          ]
        ]
      ]

  record_outcome-unrecorded :
      (x : Result (Outcome × Db)) (r : Response) (db : Db)
      → ((o : Outcome) → r ≢ recorded o)
      → record_outcome x ≢ ok (r, db)
  unfolding record_outcome
  record_outcome-unrecorded (ok (o, db')) r db other e = ground (arith, other o)
  record_outcome-unrecorded (err x) r db other e = ground arith

  webhook_for-unrecorded :
      (env : Env) (council : ℕ) (n : Normalised) (db db' : Db) (r : Response)
      → ((o : Outcome) → r ≢ recorded o)
      → webhook_for env g council channel request n db ≡ ok (r, db')
      → db' ≡ db
  unfolding webhook_for authenticate_webhook_client
  webhook_for-unrecorded env council n db db' r other e = elim (Bool-cases g.strict_signatures) [
    | inr off ↦ absurd (
        record_outcome-unrecorded (receive env council channel none n db) r db' other
          (rw (webhook_for, off) at e))
    | inl on ↦
        elim (Option-cases (
          first_signer g.crypto request.raw_body request.signature
            (select (is_candidate env council channel) db.clients.rows))) [
              | inl nobody ↦ ground arith
              | inr (c, signer) ↦
                  let used = modify c.id (mark_used env.now) db.clients in
                  absurd (
                    record_outcome-unrecorded
                      (receive env council channel none n (with_clients used db)) r db' other
                      (rw (webhook_for, on, authenticate_webhook_client, signer) at e))
            ]
  ]

  webhook-unrecorded :
      (env : Env) (db db' : Db) (r : Response)
      → ((o : Outcome) → r ≢ recorded o)
      → webhook env g (some channel) request db ≡ ok (r, db')
      → db' ≡ db
  unfolding webhook
  webhook-unrecorded env db db' r other e =
      elim (Sum-cases (validate g.python (some channel) request.body)) [
        | inl (x, bad) ↦ ground arith
        | inr (u, valid) ↦ elim (Option-cases (normalise g.python channel request.body)) [
          | inl raised ↦ absurd (ground arith)
          | inr (n, read) ↦ elim (Option-cases (resolve_council_from_bill_ref n.bill_ref db)) [
            | inl unknown ↦ ground arith
            | inr (c, resolved) ↦ webhook_for-unrecorded env c.id n db db' r other (ground arith)
          ]
        ]
      ]

  -- With signatures demanded, a webhook of any channel code that is answered has changed nothing, or
  -- its body was signed by the secret of a key of the resolved council and the channel that is
  -- active, unexpired and may post webhooks.
  pub webhook-signed :
      (env : Env) (db db' : Db) (r : Response)
      → g.strict_signatures ≡ true
      → webhook env g (some channel) request db ≡ ok (r, db')
      → (db' ≡ db)
        ⊎ ((n : Normalised) × (council : Council) × (normalise g.python channel request.body
              ≡ some n)
            × (resolve_council_from_bill_ref n.bill_ref db ≡ some council)
            × SignedBy env council.id db)
  webhook-signed env db db' (recorded o) strict e =
      let w = webhook-IsRecorded env db db' o e in
      inr (w.n, w.council, w.read, w.resolved, w.admitted.signed strict)
  webhook-signed env db db' r strict e = inl (webhook-unrecorded env db db' r (λ o. ground arith) e)
