-- ===== src/Channels/Clients.antt =====
-- apps/channels/services.py and `verify_signature`: which key has signed a call. The HMAC and the
-- decryption of a stored secret are library code, so they are parameters.
use Prim.Native.String.{String}
use acrev360_backend.Base.{
  ℕ, Bool, true, false, not, Option, none, some, List, [], ◌∷◌, ltb, ◌==◌, ◌&&◌, if◌then◌else◌,
  same_text, select, exists,
}
use acrev360_backend.Base.Table.{modify}
use acrev360_backend.Models.Payments.{ApiClient, Channel, channel_index, client_keyed}
use acrev360_backend.Store.{Db, Env}

pub record Crypto : Type 0 where
  -- `hmac.new(secret, raw_body, sha256).hexdigest()`
  pub hmac : String → String → String
  pub decrypt_secret : String → String

-- `verify_signature`
unfoldable pub verify_signature : Crypto → String → String → Option String → Bool
verify_signature crypto secret raw_body none = false
verify_signature crypto secret raw_body (some header) =
    if same_text header "" then false else same_text (crypto.hmac secret raw_body) header

abbrev pub scope_webhook_post : String
scope_webhook_post = "payments.webhook.post"

-- `has_scope`
abbrev pub has_scope : String → ApiClient → Bool
has_scope code c = exists (λ s. same_text s code) c.scopes

-- `expires_at` is null or after `now`.
abbrev pub is_unexpired : ℕ → Option ℕ → Bool
is_unexpired now none = true
is_unexpired now (some at) = ltb now at

abbrev pub is_candidate : Env → ℕ → Channel → ApiClient → Bool
is_candidate env council channel c =
    c.council == council
    && (channel_index c.channel == channel_index channel)
    && c.is_active
    && is_unexpired env.now c.expires_at

-- The loop over the candidates.
unfoldable pub first_signer : Crypto → String → Option String → List ApiClient → Option ApiClient
unfolding verify_signature
first_signer crypto raw_body header [] = none
first_signer crypto raw_body header (c ∷ cs) =
    let rest = first_signer crypto raw_body header cs in
    if not (has_scope scope_webhook_post c)
    then rest
    else (if verify_signature crypto (crypto.decrypt_secret c.secret_encrypted) raw_body header
        then some c
        else rest)

abbrev pub mark_used : ℕ → ApiClient → ApiClient
mark_used now c = record c { last_used_at = some now }

-- `authenticate_webhook_client`; none is `WebhookAuthError`.
unfoldable pub authenticate_webhook_client :
    Env → Crypto → ℕ → Channel → String → Option String → Db → Option (ApiClient × Db)
unfolding first_signer
authenticate_webhook_client env crypto council channel raw_body header db =
    elim (first_signer crypto raw_body header
      (select (is_candidate env council channel) db.clients.rows)) [
        | none ↦ none
        | some c ↦ some (c, record db { clients = modify c.id (mark_used env.now) db.clients })
      ]
