-- ===== src/Channels/Receive/Ledger.antt =====
-- Money that comes in by a channel: the ledger stays balanced, a posted transaction is matched, and a
-- settlement file that is sent again posts nothing.
use acrev360_backend.Base.{ℕ, ◌≡◌, refl, sym, subst, inl, inr, Option, some, arith}
use acrev360_backend.Base.Table.{find, IsBelow}
use acrev360_backend.Base.Table.Laws.{find_row-new, find_row-modify_self}
use acrev360_backend.Models.Billing.{Bill}
use acrev360_backend.Models.Payments.{
  Payment, FeedRow, Channel, MatchStatus, TxnStatus, feed_keyed, payment_keyed,
}
use acrev360_backend.Store.{Db, Env, ok}
use acrev360_backend.Payments.Post.{Posting}
use acrev360_backend.Payments.Ledger.{IsBalanced, SameTables-IsBalanced}
use acrev360_backend.Payments.Ledger.Post.{post_payment-IsBalanced}
use acrev360_backend.Payments.Frame.{
  post_payment-SameRest, post_payment-stored, post_payment-Carries,
}
use acrev360_backend.Channels.Adapters.{Normalised}
use acrev360_backend.Channels.Receive.{
  Outcome, posted, feed_row, mark_exception, mark_matched, matched_with, posting_of, receive,
  bill_by_ref,
}
use acrev360_backend.Channels.Receive.Laws.{Received, with_row, receive-cases}

Received-IsBalanced :
    {env : Env} {q : Posting} {n : Normalised} {id : ℕ} {db db' : Db} {o : Outcome}
    → IsBalanced db
    → Received env q n id db o db'
    → IsBalanced db'
unfolding mark_exception mark_matched
Received-IsBalanced {id = id} {db = db} h (Received.no_bill gone _ e) =
    subst IsBalanced (sym e) (SameTables-IsBalanced db (mark_exception id db) (refl, refl, refl) h)
Received-IsBalanced {id = id} {db = db} h (Received.turned_down bill x found bad _ e) =
    subst IsBalanced (sym e) (SameTables-IsBalanced db (mark_exception id db) (refl, refl, refl) h)
Received-IsBalanced {env = env} {q = q} {id = id} {db = db} h
      (Received.paid bill p mid found good _ e) =
    subst IsBalanced (sym e) (
      SameTables-IsBalanced mid (mark_matched id p mid) (refl, refl, refl)
        (post_payment-IsBalanced env q bill db p mid h good))

module _ (env : Env) (council : ℕ) (channel : Channel) (by : Option ℕ) (n : Normalised) where
  -- A notified transaction keeps the ledger balanced, whatever becomes of it.
  pub receive-IsBalanced :
      (db db' : Db) (o : Outcome)
      → IsBalanced db
      → receive env council channel by n db ≡ ok (o, db')
      → IsBalanced db'
  receive-IsBalanced db db' o h e = elim (receive-cases env council channel by n db db' o e) [
    | inl (again, _, same) ↦ subst IsBalanced (sym same) h
    | inr (fresh, nowhere, r) ↦
        Received-IsBalanced
          (SameTables-IsBalanced db (with_row env council channel by n db) (refl, refl, refl) h) r
  ]

  -- What is stored of a transaction that was posted, under that id of its feed row.
  abbrev pub Posted : ℕ → Db → Payment → Db → Type 0
  Posted id db p db' =
      (row : FeedRow) × (bill : Bill) × (find id db'.feed ≡ some row)
      × (row.council ≡ council)
      × (row.channel ≡ channel)
      × (row.bank_txn_ref ≡ n.bank_txn_ref)
      × (row.amount ≡ env.column n.amount)
      × (row.match_status ≡ MatchStatus.matched)
      × (row.matched_payment ≡ some p.id)
      × (bill_by_ref env council n.bill_ref db ≡ some bill)
      × (find p.id db'.payments ≡ some p)
      × (p.bill ≡ bill.id)
      × (p.amount ≡ env.column n.amount)
      × (p.bank_txn_ref ≡ n.bank_txn_ref)
      × (p.council ≡ council)
      × (p.channel ≡ channel)
      × (p.posted_by ≡ by)
      × (p.txn_status ≡ TxnStatus.confirmed)

  Received-posted :
      (id : ℕ) (db db' : Db) (p : Payment)
      → IsBalanced db
      → find id db.feed ≡ some (feed_row env council channel n id)
      → Received env (posting_of council channel by n) n id db (posted p) db'
      → Posted id db p db'
  unfolding mark_matched
  Received-posted id db db' p h own (Received.no_bill gone o e) = absurd (ground arith)
  Received-posted id db db' p h own (Received.turned_down bill x found bad o e) =
      absurd (ground arith)
  Received-posted id db db' p h own (Received.paid bill p' mid found good o e) =
      let it : p' ≡ p = ground arith in
      let stored = post_payment-stored env _ bill db p' mid h good in
      let carries = post_payment-Carries env _ bill db p' mid good in
      let feed = (post_payment-SameRest env _ bill db p' mid good).0 in
      let row = feed_row env council channel n id in
      let still : find id mid.feed ≡ some row = rw feed own in
      rw (e, ← it)
        (
          matched_with p'.id row,
          bill,
          find_row-modify_self id (matched_with p'.id) mid.feed.rows refl still,
          refl,
          refl,
          refl,
          refl,
          refl,
          refl,
          found,
          stored,
          carries.4,
          carries.0,
          carries.2,
          carries.3,
          carries.1,
          carries.6,
          carries.9,
        )

  -- A transaction that is posted on a balanced ledger, in a feed whose ids come from its sequence:
  -- its feed row is matched with the payment that was stored, which is for the bill of that reference;
  -- both have the notified amount, rounded to their columns, and the notified bank reference, and the
  -- council and channel of the call.
  pub receive-posted :
      (db db' : Db) (p : Payment)
      → IsBalanced db
      → IsBelow db.feed.next db.feed.rows
      → receive env council channel by n db ≡ ok (posted p, db')
      → Posted db.feed.next db p db'
  unfolding bill_by_ref
  receive-posted db db' p h below e =
      elim (receive-cases env council channel by n db db' (posted p) e) [
        | inl (again, o, same) ↦ absurd (ground arith)
        | inr (fresh, nowhere, r) ↦
            let row = feed_row env council channel n db.feed.next in
            let mid = with_row env council channel by n db in
            Received-posted db.feed.next mid db' p
              (SameTables-IsBalanced db mid (refl, refl, refl) h)
              (find_row-new db.feed.next row db.feed.rows below refl) r
      ]
