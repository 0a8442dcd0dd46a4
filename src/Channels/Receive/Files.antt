-- ===== src/Channels/Receive/Files.antt =====
-- The settlement file of the tellers: every row is answered, and a file that is sent again posts
-- nothing.
use acrev360_backend.Base.{
  ℕ, ◌≡◌, refl, sym, subst, ◌∙◌, inl, inr, true, some, List, [], ◌∷◌, arith, All, Sum-cases,
}
use mathlib.Core.Option.{some-injective}
use acrev360_backend.Models.Payments.{Channel}
use acrev360_backend.Store.{answered, Db, Env, Result-cases, ok}
use acrev360_backend.Payments.Ledger.{IsBalanced}
use acrev360_backend.Channels.Adapters.{AdapterError, Body, Python, Normalised, validate, normalise}
use acrev360_backend.Channels.Adapters.Laws.{validate-normalise}
use acrev360_backend.Channels.Receive.{
  Outcome, duplicate, is_received, receive, Tally, bad_row, with_exception, count, settle_row,
  settle_rows, settlement_file, no_rows,
}
use acrev360_backend.Channels.Receive.Laws.{receive-keeps, receive-known, receive-duplicate}
use acrev360_backend.Channels.Receive.Ledger.{receive-IsBalanced}

module _ (env : Env) (py : Python) (council by : ℕ) where
  -- What one row has done: a faulty one nothing, any other one what `receive` did.
  data Settled (row : Body) (t : Tally) (db : Db) (t' : Tally) (db' : Db) : Type 0 where
    faulty :
        (e : AdapterError)
        → validate py (some Channel.otc) row ≡ inl e
        → t' ≡ with_exception (bad_row e) t
        → db' ≡ db
        → Settled row t db t' db'
    taken :
        (n : Normalised) (o : Outcome)
        → validate py (some Channel.otc) row ≡ inr tt
        → normalise py Channel.otc row ≡ some n
        → receive env council Channel.otc (some by) n db ≡ ok (o, db')
        → t' ≡ count n o t
        → Settled row t db t' db'

  settle_row-Settled :
      (row : Body) (t : Tally) (db : Db) (t' : Tally) (db' : Db)
      → settle_row env py council by row t db ≡ ok (t', db')
      → Settled row t db t' db'
  unfolding settle_row
  settle_row-Settled row t db t' db' h = elim (Sum-cases (validate py (some Channel.otc) row)) [
    | inl (e, bad) ↦ Settled.faulty e bad (ground arith) (ground arith)
    | inr (u, good) ↦
        let (n, read, _, _, _) = validate-normalise py Channel.otc row good in
        elim (Result-cases (receive env council Channel.otc (some by) n db)) [
          | inl (x, bad) ↦ absurd (ground arith)
          | inr ((o, after), done) ↦ Settled.taken n o good read (ground arith) (ground arith)
        ]
  ]

  -- A row that is faulty, or whose reference has been received.
  abbrev IsKnown : Db → Body → Type 0
  IsKnown db row =
      (n : Normalised)
      → validate py (some Channel.otc) row ≡ inr tt
      → normalise py Channel.otc row ≡ some n
      → is_received council Channel.otc n.bank_txn_ref db ≡ true

  -- What was received before a row is received behind it.
  Settled-keeps :
      (row : Body) (t : Tally) (db : Db) (t' : Tally) (db' : Db) (n : Normalised)
      → Settled row t db t' db'
      → is_received council Channel.otc n.bank_txn_ref db ≡ true
      → is_received council Channel.otc n.bank_txn_ref db' ≡ true
  Settled-keeps row t db t' db' n (Settled.faulty e bad _ same) h = rw same h
  Settled-keeps row t db t' db' n (Settled.taken m o good read done _) h =
      receive-keeps env council Channel.otc (some by) m db db' o done council Channel.otc
        n.bank_txn_ref h

  Settled-IsKnown :
      (row : Body) (t : Tally) (db : Db) (t' : Tally) (db' : Db)
      → Settled row t db t' db'
      → IsKnown db' row
  Settled-IsKnown row t db t' db' (Settled.faulty e bad _ same) n good read = absurd (ground arith)
  Settled-IsKnown row t db t' db' (Settled.taken m o good read done _) n _ read' =
      let same : m ≡ n = some-injective _ _ (sym read ∙ read') in
      subst (λ (k : Normalised). is_received council Channel.otc k.bank_txn_ref db' ≡ true) same
        (receive-known env council Channel.otc (some by) m db db' o done)

  Settled-IsBalanced :
      (row : Body) (t : Tally) (db : Db) (t' : Tally) (db' : Db)
      → IsBalanced db
      → Settled row t db t' db'
      → IsBalanced db'
  Settled-IsBalanced row t db t' db' h (Settled.faulty e bad _ same) = subst IsBalanced (sym same) h
  Settled-IsBalanced row t db t' db' h (Settled.taken m o good read done _) =
      receive-IsBalanced env council Channel.otc (some by) m db db' o h done

  settle_rows-keeps :
      (rows : List Body) (t : Tally) (db : Db) (t' : Tally) (db' : Db) (n : Normalised)
      → settle_rows env py council by rows t db ≡ answered (t', db')
      → is_received council Channel.otc n.bank_txn_ref db ≡ true
      → is_received council Channel.otc n.bank_txn_ref db' ≡ true
  unfolding settle_rows
  settle_rows-keeps [] t db t' db' n e h = ground arith
  settle_rows-keeps (row ∷ rows) t db t' db' n e h =
      elim (Result-cases (settle_row env py council by row t db)) [
        | inl (x, bad) ↦ absurd (ground arith)
        | inr ((t1, db1), done) ↦
            settle_rows-keeps rows t1 db1 t' db' n (ground arith)
              (Settled-keeps row t db t1 db1 n (settle_row-Settled row t db t1 db1 done) h)
      ]

  settle_rows-IsKnown :
      (rows : List Body) (t : Tally) (db : Db) (t' : Tally) (db' : Db)
      → settle_rows env py council by rows t db ≡ answered (t', db')
      → All (IsKnown db') rows
  unfolding settle_rows
  settle_rows-IsKnown [] t db t' db' e = tt
  settle_rows-IsKnown (row ∷ rows) t db t' db' e =
      elim (Result-cases (settle_row env py council by row t db)) [
        | inl (x, bad) ↦ absurd (ground arith)
        | inr ((t1, db1), done) ↦
            let rest : settle_rows env py council by rows t1 db1 ≡ answered (t', db') =
              ground arith in
            (
              λ n good read. settle_rows-keeps rows t1 db1 t' db' n rest (
                  Settled-IsKnown row t db t1 db1 (settle_row-Settled row t db t1 db1 done) n good
                    read),
              settle_rows-IsKnown rows t1 db1 t' db' rest,
            )
      ]

  settle_rows-IsBalanced :
      (rows : List Body) (t : Tally) (db : Db) (t' : Tally) (db' : Db)
      → IsBalanced db
      → settle_rows env py council by rows t db ≡ answered (t', db')
      → IsBalanced db'
  unfolding settle_rows
  settle_rows-IsBalanced [] t db t' db' h e =
      let same : db ≡ db' = ground arith in subst IsBalanced same h
  settle_rows-IsBalanced (row ∷ rows) t db t' db' h e =
      elim (Result-cases (settle_row env py council by row t db)) [
        | inl (x, bad) ↦ absurd (ground arith)
        | inr ((t1, db1), done) ↦
            settle_rows-IsBalanced rows t1 db1 t' db'
              (Settled-IsBalanced row t db t1 db1 h (settle_row-Settled row t db t1 db1 done))
              (ground arith)
      ]

  settle_rows-again :
      (rows : List Body) (t : Tally) (db : Db)
      → All (IsKnown db) rows
      → (t' : Tally) × (settle_rows env py council by rows t db ≡ answered (t', db))
        × (t'.posted ≡ t.posted)
  unfolding settle_rows settle_row validate
  settle_rows-again [] t db h = (t, refl, refl)
  settle_rows-again (row ∷ rows) t db h = elim (Sum-cases (validate py (some Channel.otc) row)) [
    | inl (e, bad) ↦
        let rest = settle_rows-again rows (with_exception (bad_row e) t) db h.1 in
        (rest.0, rw (settle_row, bad) rest.1, rest.2)
    | inr (u, good) ↦
        let (n, read, _, _, _) = validate-normalise py Channel.otc row good in
        let dup = receive-duplicate env council Channel.otc (some by) n db (h.0 n good read) in
        let rest = settle_rows-again rows (count n duplicate t) db h.1 in
        (rest.0, rw (settle_row, good, read, dup) rest.1, rest.2)
  ]

  -- A settlement file that went through, sent again to what it left behind: nothing is posted and
  -- nothing is written.
  pub settlement_file-again :
      (rows : List Body) (db : Db) (t : Tally) (db' : Db)
      → settlement_file env py council by rows db ≡ answered (t, db')
      → (t' : Tally) × (settlement_file env py council by rows db' ≡ answered (t', db'))
        × (t'.posted ≡ 0)
  unfolding settlement_file
  settlement_file-again rows db t db' e =
      settle_rows-again rows no_rows db' (settle_rows-IsKnown rows no_rows db t db' e)

  -- A settlement file keeps the ledger balanced.
  pub settlement_file-IsBalanced :
      (rows : List Body) (db : Db) (t : Tally) (db' : Db)
      → IsBalanced db
      → settlement_file env py council by rows db ≡ answered (t, db')
      → IsBalanced db'
  unfolding settlement_file
  settlement_file-IsBalanced rows db t db' h e = settle_rows-IsBalanced rows no_rows db t db' h e
