-- ===== src/Fieldops/Replay/Laws.antt =====
-- A record of an offline queue is processed once, and a batch can be sent again.
use Prim.Native.String.{String}
use text.Mathlib.TextPositions.{eq_refl}
use acrev360_backend.Base.{
  ℕ, ◌≡◌, refl, ap, sym, subst, ◌∙◌, inl, inr, Bool, true, Option, none, some, List, [], ◌∷◌, ◌++◌,
  arith, Option-cases, ==_refl, first,
}
use acrev360_backend.Models.Accounts.{FieldAgent}
use acrev360_backend.Models.Fieldops.{SyncStatus, MobileSyncRecord}
use acrev360_backend.Models.Ref.{Ref}
use acrev360_backend.Store.{answered, Db, Env, Result-cases, ok}
use acrev360_backend.Payments.Ledger.{IsBalanced, SameTables-IsBalanced}
use acrev360_backend.Fieldops.Replay.{
  Offline, replay_payload, is_record, recorded, sync_row, write_record, replay_sync_record, Buckets,
  add_to, replay_all, no_records, sync_batch,
}
use acrev360_backend.Fieldops.Replay.Frame.{replay_payload-Kept}

first-append :
    (p : MobileSyncRecord → Bool) (x y : MobileSyncRecord) (xs : List MobileSyncRecord)
    → first p xs ≡ some y
    → first p (xs ++ (x ∷ [])) ≡ some y
first-append p x y [] h = cc
first-append p x y (z ∷ xs) h = ground (arith, first-append p x y xs)

first-append_new :
    (p : MobileSyncRecord → Bool) (x : MobileSyncRecord) (xs : List MobileSyncRecord)
    → first p xs ≡ none
    → p x ≡ true
    → first p (xs ++ (x ∷ [])) ≡ some x
first-append_new p x [] h own = rw own refl
first-append_new p x (z ∷ xs) h own = ground (arith, first-append_new p x xs)

module _ (env : Env) (council : ℕ) (agent : FieldAgent) (actor : ℕ) where
  -- What the replay of one record has done.
  data Synced (r : Offline) (db : Db) (s : MobileSyncRecord) (db' : Db) : Type 0 where
    known : recorded council r.client_id db ≡ some s → db' ≡ db → Synced r db s db'
    fresh :
        (status : SyncStatus) (ref : Option Ref) (mid : Db)
        → recorded council r.client_id db ≡ none
        → replay_payload env council agent actor r.payload db ≡ ok (status, ref, mid)
        → write_record council agent r (ok (status, ref, mid)) ≡ ok (s, db')
        → Synced r db s db'

  replay-Synced :
      (r : Offline) (db : Db) (s : MobileSyncRecord) (db' : Db)
      → replay_sync_record env council agent actor r db ≡ ok (s, db')
      → Synced r db s db'
  unfolding replay_sync_record
  replay-Synced r db s db' e = elim (Option-cases (recorded council r.client_id db)) [
    | inr (old, there) ↦
        let it : old ≡ s = ground arith in Synced.known (there ∙ ap some it) (ground arith)
    | inl new ↦ elim (Result-cases (replay_payload env council agent actor r.payload db)) [
      | inl (x, bad) ↦ absurd (ground arith)
      | inr ((status, ref, mid), good) ↦ Synced.fresh status ref mid new good (ground arith)
    ]
  ]

  -- A row that is found stays found, whatever is replayed.
  Synced-keeps :
      (r : Offline) (db : Db) (s : MobileSyncRecord) (db' : Db)
      → Synced r db s db'
      → (client : String) (t : MobileSyncRecord) → recorded council client db ≡ some t
      → recorded council client db' ≡ some t
  Synced-keeps r db s db' (Synced.known there same) client t h = rw same h
  Synced-keeps r db s db' (Synced.fresh status ref mid new good wrote) client t h =
      let kept = (replay_payload-Kept env council agent actor r.payload db status ref mid good).1 in
      let here : recorded council client mid ≡ some t = rw kept h in
      let rows : db'.sync_records.rows
          ≡ mid.sync_records.rows
            ++ (sync_row council agent r status ref mid.sync_records.next ∷ []) =
        ground arith in
      rw rows (first-append _ _ t mid.sync_records.rows here)

  -- A replayed record is found.
  Synced-recorded :
      (r : Offline) (db : Db) (s : MobileSyncRecord) (db' : Db)
      → Synced r db s db'
      → recorded council r.client_id db' ≡ some s
  Synced-recorded r db s db' (Synced.known there same) = rw same there
  Synced-recorded r db s db' (Synced.fresh status ref mid new good wrote) =
      let kept = (replay_payload-Kept env council agent actor r.payload db status ref mid good).1 in
      let none_here : recorded council r.client_id mid ≡ none = rw kept new in
      let row = sync_row council agent r status ref mid.sync_records.next in
      let own : is_record council r.client_id row ≡ true =
        rw (==_refl council, eq_refl r.client_id) refl in
      let it : row ≡ s = ground arith in
      let rows : db'.sync_records.rows ≡ mid.sync_records.rows ++ (row ∷ []) = ground arith in
      rw rows (first-append_new _ row mid.sync_records.rows none_here own ∙ ap some it)

  Synced-IsBalanced :
      (r : Offline) (db : Db) (s : MobileSyncRecord) (db' : Db)
      → Synced r db s db'
      → IsBalanced db
      → IsBalanced db'
  Synced-IsBalanced r db s db' (Synced.known there same) h = subst IsBalanced (sym same) h
  Synced-IsBalanced r db s db' (Synced.fresh status ref mid new good wrote) h =
      SameTables-IsBalanced mid db' (ground arith, ground arith, ground arith)
        ((replay_payload-Kept env council agent actor r.payload db status ref mid good).0 h)

  recorded-replay :
      (r : Offline) (db : Db) (s : MobileSyncRecord)
      → recorded council r.client_id db ≡ some s
      → replay_sync_record env council agent actor r db ≡ ok (s, db)
  unfolding replay_sync_record
  recorded-replay r db s there = rw (replay_sync_record, there) refl

  replay_all-keeps :
      (rs : List Offline) (b : Buckets) (db : Db) (b' : Buckets) (db' : Db)
      → replay_all env council agent actor rs b db ≡ answered (b', db')
      → (client : String) (t : MobileSyncRecord) → recorded council client db ≡ some t
      → recorded council client db' ≡ some t
  unfolding replay_all
  replay_all-keeps [] b db b' db' e client t h = let same : db ≡ db' = ground arith in rw (← same) h
  replay_all-keeps (r ∷ rs) b db b' db' e client t h =
      elim (Result-cases (replay_sync_record env council agent actor r db)) [
        | inl (x, bad) ↦ absurd (ground arith)
        | inr ((s, db1), good) ↦
            replay_all-keeps rs (add_to s s.status b) db1 b' db' (rw (replay_all, good) at e) client
              t (Synced-keeps r db s db1 (replay-Synced r db s db1 good) client t h)
      ]

  -- On a database that knows all that a run has left, the run is repeated without a write.
  replay_all-again :
      (rs : List Offline) (b : Buckets) (db : Db) (b' : Buckets) (db' : Db)
      → replay_all env council agent actor rs b db ≡ answered (b', db')
      → replay_all env council agent actor rs b db' ≡ answered (b', db')
  unfolding replay_all
  replay_all-again [] b db b' db' e = ground arith
  replay_all-again (r ∷ rs) b db b' db' e =
      elim (Result-cases (replay_sync_record env council agent actor r db)) [
        | inl (x, bad) ↦ absurd (ground arith)
        | inr ((s, db1), good) ↦
            let rest : replay_all env council agent actor rs (add_to s s.status b) db1
                ≡ answered (b', db') =
              rw (replay_all, good) at e in
            let here =
              replay_all-keeps rs (add_to s s.status b) db1 b' db' rest r.client_id s
                (Synced-recorded r db s db1 (replay-Synced r db s db1 good)) in
            rw (replay_all, recorded-replay r db' s here)
              (replay_all-again rs (add_to s s.status b) db1 b' db' rest)
      ]

  replay_all-IsBalanced :
      (rs : List Offline) (b : Buckets) (db : Db) (b' : Buckets) (db' : Db)
      → replay_all env council agent actor rs b db ≡ answered (b', db')
      → IsBalanced db
      → IsBalanced db'
  unfolding replay_all
  replay_all-IsBalanced [] b db b' db' e h =
      let same : db ≡ db' = ground arith in subst IsBalanced same h
  replay_all-IsBalanced (r ∷ rs) b db b' db' e h =
      elim (Result-cases (replay_sync_record env council agent actor r db)) [
        | inl (x, bad) ↦ absurd (ground arith)
        | inr ((s, db1), good) ↦
            replay_all-IsBalanced rs (add_to s s.status b) db1 b' db' (rw (replay_all, good) at e)
              (Synced-IsBalanced r db s db1 (replay-Synced r db s db1 good) h)
      ]

  -- A batch of offline records that went through, sent again to what it left behind, has the same
  -- answer and writes nothing.
  pub sync_batch-again :
      (rs : List Offline) (db : Db) (b : Buckets) (db' : Db)
      → sync_batch env council agent actor rs db ≡ answered (b, db')
      → sync_batch env council agent actor rs db' ≡ answered (b, db')
  unfolding sync_batch
  sync_batch-again rs db b db' e = replay_all-again rs no_records db b db' e

  -- A batch of offline records keeps the ledger balanced.
  pub sync_batch-IsBalanced :
      (rs : List Offline) (db : Db) (b : Buckets) (db' : Db)
      → IsBalanced db
      → sync_batch env council agent actor rs db ≡ answered (b, db')
      → IsBalanced db'
  unfolding sync_batch
  sync_batch-IsBalanced rs db b db' h e = replay_all-IsBalanced rs no_records db b db' e h
