-- ===== src/Fieldops/Replay/Payments.antt =====
-- What an offline payment may do, and what an offline payer can leave behind.
use Prim.Native.String.{String}
use acrev360_backend.Base.{
  ℕ, sym, ◌==◌, ◌&&◌, first, Option-cases, All-first, All-of, ◌≡◌, refl, ap, subst, ◌⊎◌, inl, inr,
  true, Option, none, some, arith,
}
use acrev360_backend.Base.Table.{Table, find, insert, IsBelow}
use acrev360_backend.Models.Accounts.{FieldAgent}
use acrev360_backend.Models.Billing.{Bill, bill_keyed}
use acrev360_backend.Models.Fieldops.{SyncStatus, accepted, rejected, MobileSyncRecord}
use acrev360_backend.Models.Payments.{Payment, PosTerminal, TxnStatus, payment_keyed}
use acrev360_backend.Models.Ref.{Ref}
use acrev360_backend.Models.Registry.{Payer, payer_keyed}
use acrev360_backend.Store.{Db, Env, ok}
use acrev360_backend.Payments.Frame.{IsTerminal, post_payment-stored, post_payment-Carries}
use acrev360_backend.Payments.Ledger.{IsBalanced}
use acrev360_backend.Registry.Payers.{create_payer}
use acrev360_backend.Registry.Payers.Laws.{create_payer-registers}
use acrev360_backend.Payments.Request.{PaymentData}
use acrev360_backend.Fieldops.Replay.{
  PayerData, of_payment, of_payer, Offline, not_an_object, bill_of, ward_of_bill, is_in_ward,
  posting_of, terminal_of, enumeration, replay_payment, replay_payer, recorded, sync_row,
  replay_sync_record,
}
use acrev360_backend.Fieldops.Replay.Frame.{PaymentReplay, replay_payment-cases}

-- The database with another ledger of replays.
abbrev pub with_records : Table MobileSyncRecord → Db → Db
with_records t db = record db { sync_records = t }

terminal_of-IsTerminal :
    (council : ℕ) (asked : Option ℕ) (db : Db)
    → IsTerminal (λ t. t.council == council) asked db (terminal_of council asked db)
terminal_of-IsTerminal council none db = refl
terminal_of-IsTerminal council (some id) db =
    let test = λ (t : PosTerminal). t.id == id && t.council == council in
    elim (Option-cases (first test db.terminals.rows)) [
      | inl gone ↦ rw (terminal_of, gone) (inr (refl, refl))
      | inr (t, found) ↦
          let own =
            (All-first (λ _. Unit {0}) test db.terminals.rows t (All-of _ _ λ _. tt) found).1 in
          let same : t.id ≡ id = ground arith in
          rw (terminal_of, found) (inl (t, refl, ap some same))
    ]

module _ (env : Env) (council : ℕ) (agent : FieldAgent) (actor : ℕ) (client : String)
    (q : Option PaymentData) where
  abbrev offline : Offline
  offline = record { client_id = client; payload = of_payment q }

  -- What an accepted payment has met and stored.
  abbrev pub Collected : Db → MobileSyncRecord → Db → Type 0
  Collected db s db' =
      (d : PaymentData) × (bill : Bill) × (p : Payment) × (q ≡ some d)
      × (bill_of council d.bill_id db ≡ some bill)
      × (is_in_ward agent (ward_of_bill bill db) ≡ true)
      × (find p.id db'.payments ≡ some p)
      × (p.bill ≡ bill.id)
      × (p.council ≡ council)
      × (p.amount ≡ env.column d.amount)
      × (p.channel ≡ d.channel_code)
      × (p.bank_txn_ref ≡ d.bank_txn_ref)
      × (p.posted_by ≡ some actor)
      × (p.geo_lat ≡ d.geo_lat)
      × (p.geo_lng ≡ d.geo_lng)
      × (p.txn_status ≡ TxnStatus.confirmed)
      × IsTerminal (λ t. t.council == council) d.terminal_id db p.terminal
      × (s.result_ref ≡ some p.payment_ref)

  outcome :
      (db mid : Db) (status : SyncStatus) (ref : Option Ref)
      → IsBalanced db
      → PaymentReplay env council agent actor q db status ref mid
      → let s = sync_row council agent offline status ref mid.sync_records.next in
        let db' =
          with_records (insert (sync_row council agent offline status ref) mid.sync_records) mid in
        ((s.status ≡ rejected) × (db' ≡ with_records db'.sync_records db))
        ⊎ ((s.status ≡ accepted) × Collected db s db')
  outcome db mid status ref h (PaymentReplay.turned_down down _ same) = inl (
    down,
    ap
        (λ (x : Db).
          with_records (insert (sync_row council agent offline status ref) mid.sync_records) x)
        same,
  )
  outcome db mid status ref h (PaymentReplay.taken d bill p given found inside good up made) =
      let posting = posting_of council actor d db in
      let carries = post_payment-Carries env posting bill db p mid good in
      inr (
        up,
        (
          d,
          bill,
          p,
          given,
          found,
          inside,
          post_payment-stored env posting bill db p mid h good,
          carries.4,
          carries.3,
          carries.0,
          carries.1,
          carries.2,
          carries.6,
          carries.7,
          carries.8,
          carries.9,
          subst (IsTerminal (λ t. t.council == council) d.terminal_id db) (sym carries.5)
              (terminal_of-IsTerminal council d.terminal_id db),
          made,
        ),
      )

  -- An offline payment with a client id that is new, on a balanced ledger, is rejected and nothing but
  -- the ledger of replays is written; or it is accepted, the bill is the council's and of the agent's
  -- ward, and the payment that is stored is the result: it has the payload's values, the amount rounded to
  -- its column, and the terminal that the payload names if that is one of the council.
  pub replay-payment :
      (db : Db) (s : MobileSyncRecord) (db' : Db)
      → IsBalanced db
      → recorded council client db ≡ none
      → replay_sync_record env council agent actor offline db ≡ ok (s, db')
      → ((s.status ≡ rejected) × (db' ≡ with_records db'.sync_records db))
        ⊎ ((s.status ≡ accepted) × Collected db s db')
  unfolding replay_sync_record
  replay-payment db s db' h new e =
      let (status, ref, mid) = replay_payment env council agent actor q db in
      let replay = replay_payment-cases env council agent actor q db status ref mid refl in
      let wrote = rw (replay_sync_record, new) at e in
      let row : sync_row council agent offline status ref mid.sync_records.next ≡ s =
        ground arith in
      let left : with_records (insert (sync_row council agent offline status ref) mid.sync_records)
            mid
          ≡ db' =
        ground arith in
      subst
        (λ (x : MobileSyncRecord × Db).
          ((x.0.status ≡ rejected) × (x.1 ≡ with_records x.1.sync_records db))
          ⊎ ((x.0.status ≡ accepted) × Collected db x.0 x.1))
        (λ i. (row i, left i)) (outcome db mid status ref h replay)

-- An offline payer that could be enumerated, with a position that is no object, is rejected, but the
-- payer is stored.
pub replay-orphan :
    (env : Env) (council : ℕ) (agent : FieldAgent) (actor ward : ℕ) (client : String)
    (d : PayerData) (db mid : Db) (p : Payer) (count : ℕ)
    → IsBelow db.payers.next db.payers.rows
    → recorded council client db ≡ none
    → is_in_ward agent (some ward) ≡ true
    → create_payer env (enumeration council actor ward d db) db ≡ ok ((p, count), mid)
    → (s : MobileSyncRecord) × (db' : Db) × (replay_sync_record env council agent actor
          (record { client_id = client; payload = of_payer (some ward) not_an_object (some d) })
          db
        ≡ ok (s, db'))
      × (s.status ≡ rejected)
      × (find p.id db'.payers ≡ some p)
unfolding replay_sync_record replay_payer
replay-orphan env council agent actor ward client d db mid p count below new inside made =
    let r : Offline = record {
      client_id = client;
      payload = of_payer (some ward) not_an_object (some d);
    } in
    let row = sync_row council agent r rejected none in
    (
      row mid.sync_records.next,
      with_records (insert row mid.sync_records) mid,
      rw (replay_sync_record, new, replay_payer, inside, made) refl,
      refl,
      (create_payer-registers env (enumeration council actor ward d db) db p count mid below
          made).0,
    )
