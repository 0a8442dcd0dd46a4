-- ===== src/Channels/Receive/Laws.antt =====
-- What a transaction that has been received leaves in the feed, and that it is received once.
use Prim.Native.String.{String}
use acrev360_backend.Base.{
  ℕ, ◌≡◌, refl, ◌∙◌, ◌⊎◌, inl, inr, Bool, true, false, Option, none, some, List, [], ◌∷◌, ◌++◌,
  arith, Bool-cases, Option-cases, ◌==◌, ==_refl, ◌&&◌, exists,
}
use text.Mathlib.TextPositions.{eq_refl}
use acrev360_backend.Base.Table.{insert, modify_rows}
use acrev360_backend.Models.Billing.{Bill}
use acrev360_backend.Models.Payments.{
  Payment, FeedRow, Channel, MatchStatus, channel_index, feed_keyed,
}
use acrev360_backend.Store.{Db, Env, Error, Result-cases, ok, err}
use acrev360_backend.Payments.Post.{Posting, is_too_long, post_payment}
use acrev360_backend.Payments.Frame.{post_payment-SameRest}
use acrev360_backend.Channels.Adapters.{Normalised}
use acrev360_backend.Channels.Receive.{
  Outcome, duplicate, posted, accepted_unmatched, refused, has_key, is_received, feed_row,
  mark_exception, mark_matched, bill_by_ref, is_payment_rejected, posting_of, post_received,
  receive,
}

exists-append_right :
    (p : FeedRow → Bool) (x : FeedRow) (xs : List FeedRow)
    → p x ≡ true
    → exists p (xs ++ (x ∷ [])) ≡ true
exists-append_right p x [] h = rw h
exists-append_right p x (y ∷ xs) h = ground (arith, exists-append_right p x xs h)

exists-append_left :
    (p : FeedRow → Bool) (x : FeedRow) (xs : List FeedRow)
    → exists p xs ≡ true
    → exists p (xs ++ (x ∷ [])) ≡ true
exists-append_left p x [] h = cc
exists-append_left p x (y ∷ xs) h = ground (arith, exists-append_left p x xs)

exists-modify :
    (p : FeedRow → Bool) (n : ℕ) (f : FeedRow → FeedRow) (xs : List FeedRow)
    → ((x : FeedRow) → p (f x) ≡ p x)
    → exists p (modify_rows n f xs) ≡ exists p xs
exists-modify p n f [] h = refl
exists-modify p n f (y ∷ xs) h = ground (arith, h y, exists-modify p n f xs h)

-- What `post_received` has done, by the branch that it took.
pub data Received (env : Env) (q : Posting) (n : Normalised) (id : ℕ) (db : Db) (o : Outcome)
    (db' : Db) : Type 0 where
  no_bill :
      bill_by_ref env q.council n.bill_ref db ≡ none
      → o ≡ accepted_unmatched
      → db' ≡ mark_exception id db
      → Received env q n id db o db'
  turned_down :
      (bill : Bill) (e : Error)
      → bill_by_ref env q.council n.bill_ref db ≡ some bill
      → post_payment env q bill db ≡ err e
      → o ≡ refused e
      → db' ≡ mark_exception id db
      → Received env q n id db o db'
  paid :
      (bill : Bill) (p : Payment) (mid : Db)
      → bill_by_ref env q.council n.bill_ref db ≡ some bill
      → post_payment env q bill db ≡ ok (p, mid)
      → o ≡ posted p
      → db' ≡ mark_matched id p mid
      → Received env q n id db o db'

module _ (env : Env) (council : ℕ) (channel : Channel) (by : Option ℕ) (n : Normalised) where
  abbrev q : Posting
  q = posting_of council channel by n

  post_received-Received :
      (id : ℕ) (db db' : Db) (o : Outcome)
      → post_received env council channel by n id db ≡ ok (o, db')
      → Received env q n id db o db'
  unfolding post_received
  post_received-Received id db db' o e =
      elim (Option-cases (bill_by_ref env council n.bill_ref db)) [
        | inl gone ↦ Received.no_bill gone (ground arith) (ground arith)
        | inr (bill, found) ↦ elim (Result-cases (post_payment env q bill db)) [
          | inl (x, bad) ↦ elim (Bool-cases (is_payment_rejected x)) [
            | inl caught ↦ Received.turned_down bill x found bad (ground arith) (ground arith)
            | inr raised ↦ absurd (ground arith)
          ]
          | inr ((p, mid), good) ↦ Received.paid bill p mid found good (ground arith) (ground arith)
        ]
      ]

  -- The database once the feed row has been created.
  abbrev pub with_row : Db → Db
  with_row db = record db { feed = insert (feed_row env council channel n) db.feed }

  -- A transaction that was received before, or one that goes on.
  pub receive-cases :
      (db db' : Db) (o : Outcome)
      → receive env council channel by n db ≡ ok (o, db')
      → ((is_received council channel n.bank_txn_ref db ≡ true) × (o ≡ duplicate) × (db' ≡ db))
        ⊎ ((is_received council channel n.bank_txn_ref db ≡ false)
            × (exists (has_key channel n.bank_txn_ref) db.feed.rows ≡ false)
            × Received env q n db.feed.next (with_row db) o db')
  unfolding receive
  receive-cases db db' o e = elim (Bool-cases (is_received council channel n.bank_txn_ref db)) [
    | inl again ↦ inl (again, ground arith, ground arith)
    | inr fresh ↦ elim (Bool-cases (is_too_long n.bank_txn_ref)) [
      | inl long ↦ absurd (ground arith)
      | inr fits ↦ elim (Bool-cases (exists (has_key channel n.bank_txn_ref) db.feed.rows)) [
        | inl elsewhere ↦ absurd (ground arith)
        | inr nowhere ↦
            inr (
              fresh,
              nowhere,
              post_received-Received db.feed.next (with_row db) db' o (ground arith),
            )
      ]
    ]
  ]

-- A test of a row that its status and payment do not matter to.
abbrev pub Stable : (FeedRow → Bool) → Type 0
Stable p =
    (s : MatchStatus) (m : Option ℕ) (r : FeedRow)
    → p (record r { match_status = s; matched_payment = m }) ≡ p r

-- Behind the creation of its row, a reception adds no row and removes none.
Received-exists :
    (p : FeedRow → Bool)
    → Stable p
    → {env : Env} {q : Posting} {n : Normalised} {id : ℕ} {db db' : Db} {o : Outcome}
    → Received env q n id db o db'
    → exists p db'.feed.rows ≡ exists p db.feed.rows
unfolding mark_exception mark_matched
Received-exists p stable {db = db} (Received.no_bill gone _ e) =
    rw e (exists-modify p _ _ db.feed.rows (λ r. stable _ _ r))
Received-exists p stable {db = db} (Received.turned_down bill x found bad _ e) =
    rw e (exists-modify p _ _ db.feed.rows (λ r. stable _ _ r))
Received-exists p stable {env = env} {q = q} {db = db} (Received.paid bill pay mid found good _ e) =
    let same = (post_payment-SameRest env q bill db pay mid good).0 in
    rw (e, ← same) (exists-modify p _ _ mid.feed.rows (λ r. stable _ _ r))

-- What has been received stays received.
pub receive-keeps :
    (env : Env) (council : ℕ) (channel : Channel) (by : Option ℕ) (n : Normalised) (db db' : Db)
    (o : Outcome)
    → receive env council channel by n db ≡ ok (o, db')
    → (c : ℕ) (ch : Channel) (ref : String) → is_received c ch ref db ≡ true
    → is_received c ch ref db' ≡ true
receive-keeps env council channel by n db db' o e c ch ref h =
    elim (receive-cases env council channel by n db db' o e) [
      | inl (again, _, same) ↦ rw same h
      | inr (fresh, nowhere, r) ↦
          Received-exists (λ row. row.council == c && has_key ch ref row) (λ s m row. refl) r
          ∙ exists-append_left _ (feed_row env council channel n db.feed.next) db.feed.rows h
    ]

-- A transaction that has been taken in is known from then on.
pub receive-known :
    (env : Env) (council : ℕ) (channel : Channel) (by : Option ℕ) (n : Normalised) (db db' : Db)
    (o : Outcome)
    → receive env council channel by n db ≡ ok (o, db')
    → is_received council channel n.bank_txn_ref db' ≡ true
receive-known env council channel by n db db' o e =
    elim (receive-cases env council channel by n db db' o e) [
      | inl (again, _, same) ↦ rw same again
      | inr (fresh, nowhere, r) ↦
          Received-exists (λ row. row.council == council && has_key channel n.bank_txn_ref row)
            (λ s m row. refl) r
          ∙ exists-append_right _ (feed_row env council channel n db.feed.next) db.feed.rows
              (rw (==_refl council, ==_refl (channel_index channel), eq_refl n.bank_txn_ref) refl)
    ]

-- What is known is answered with `duplicate`, and nothing is written.
pub receive-duplicate :
    (env : Env) (council : ℕ) (channel : Channel) (by : Option ℕ) (n : Normalised) (db : Db)
    → is_received council channel n.bank_txn_ref db ≡ true
    → receive env council channel by n db ≡ ok (duplicate, db)
unfolding receive
receive-duplicate env council channel by n db known = rw known refl

Received-tenants :
    {env : Env} {q : Posting} {n : Normalised} {id : ℕ} {db db' : Db} {o : Outcome}
    → Received env q n id db o db'
    → (db'.councils ≡ db.councils) × (db'.configs ≡ db.configs)
unfolding mark_exception mark_matched
Received-tenants (Received.no_bill gone _ e) = rw e (refl, refl)
Received-tenants (Received.turned_down bill x found bad _ e) = rw e (refl, refl)
Received-tenants {env = env} {q = q} {db = db} (Received.paid bill p mid found good _ e) =
    let same = post_payment-SameRest env q bill db p mid good in rw e (same.2, same.3)

-- A reception writes no council and no configuration.
pub receive-tenants :
    (env : Env) (council : ℕ) (channel : Channel) (by : Option ℕ) (n : Normalised) (db db' : Db)
    (o : Outcome)
    → receive env council channel by n db ≡ ok (o, db')
    → (db'.councils ≡ db.councils) × (db'.configs ≡ db.configs)
receive-tenants env council channel by n db db' o e =
    elim (receive-cases env council channel by n db db' o e) [
      | inl (again, _, same) ↦ rw same (refl, refl)
      | inr (fresh, nowhere, r) ↦ Received-tenants r
    ]
