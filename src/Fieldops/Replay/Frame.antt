-- ===== src/Fieldops/Replay/Frame.antt =====
-- What an enumeration and the two replays leave alone.
use acrev360_backend.Base.{
  ℕ, ◌+◌, ◌≡◌, refl, ap, sym, subst, ◌∙◌, inl, inr, true, Option, none, some, List, [], ◌∷◌, arith,
  Bool-cases, Option-cases,
}
use acrev360_backend.Models.Accounts.{FieldAgent}
use acrev360_backend.Models.Billing.{Assessment, Bill}
use acrev360_backend.Models.Fieldops.{SyncStatus, accepted, rejected}
use acrev360_backend.Models.Ref.{Ref}
use acrev360_backend.Models.Payments.{Payment}
use acrev360_backend.Models.Registry.{Payer}
use acrev360_backend.Store.{Db, Env, Result-cases, ok, audit}
use acrev360_backend.Billing.Pricing.{create_draft_assessment}
use acrev360_backend.Payments.Post.{post_payment}
use acrev360_backend.Payments.Frame.{post_payment-SameRest}
use acrev360_backend.Payments.Ledger.{IsBalanced, SameTables, SameTables-IsBalanced}
use acrev360_backend.Payments.Ledger.Post.{post_payment-IsBalanced}
use acrev360_backend.Registry.Payers.{
  Enumeration, find_duplicate, plain_charge, draft_items, insert_payer, create_payer,
}
use acrev360_backend.Payments.Request.{PaymentData}
use acrev360_backend.Fieldops.Replay.{
  Geo, PayerData, Payload, of_payment, of_payer, bill_of, ward_of_bill, is_in_ward, posting_of,
  replay_payment, enumeration, place_payer, replay_payer, replay_payload,
}

-- The money's tables and the ledger of replays.
abbrev pub Unmoved : Db → Db → Type 0
Unmoved db db' = SameTables db db' × (db'.sync_records ≡ db.sync_records)

Unmoved-trans : (a b c : Db) → Unmoved a b → Unmoved b c → Unmoved a c
Unmoved-trans a b c h k = ((k.0.0 ∙ h.0.0, k.0.1 ∙ h.0.1, k.0.2 ∙ h.0.2), k.1 ∙ h.1)

draft-Unmoved :
    (env : Env) (payer : Payer) (item actor : ℕ) (db : Db) (a : Assessment) (db' : Db)
    → create_draft_assessment env payer (plain_charge item) actor db ≡ ok (a, db')
    → Unmoved db db'
unfolding create_draft_assessment
draft-Unmoved env payer item actor db a db' e = ground arith

draft_items-Unmoved :
    (env : Env) (payer : Payer) (actor : ℕ) (items : List ℕ) (count : ℕ) (db : Db) (n : ℕ)
    (db' : Db)
    → draft_items env payer actor items count db ≡ ok (n, db')
    → Unmoved db db'
unfolding draft_items
draft_items-Unmoved env payer actor [] count db n db' e = ground arith
draft_items-Unmoved env payer actor (item ∷ items) count db n db' e =
    elim (Result-cases (create_draft_assessment env payer (plain_charge item) actor db)) [
      | inl (x, bad) ↦ absurd (ground arith)
      | inr ((a, db1), good) ↦
          Unmoved-trans db db1 db' (draft-Unmoved env payer item actor db a db1 good) (
            draft_items-Unmoved env payer actor items (count + 1) db1 n db'
              (rw (draft_items, good) at e))
    ]

-- An enumeration writes no money table and no replay.
pub create_payer-Unmoved :
    (env : Env) (q : Enumeration) (db : Db) (made : Payer × ℕ) (db' : Db)
    → create_payer env q db ≡ ok (made, db')
    → Unmoved db db'
unfolding create_payer insert_payer audit
create_payer-Unmoved env q db made db' e = elim (Option-cases (find_duplicate q db)) [
  | inr (y, there) ↦ absurd (ground arith)
  | inl free ↦
      let (p, db0) = insert_payer q db in
      elim (Result-cases (draft_items env p q.actor q.items 0 db0)) [
        | inl (x, bad) ↦ absurd (ground arith)
        | inr ((n, db1), good) ↦
            let drafted = draft_items-Unmoved env p q.actor q.items 0 db0 n db1 good in
            let last : Unmoved db1 db' = ground arith in Unmoved-trans db db1 db' drafted last
      ]
]

-- The ledger stays balanced, and no replay is written.
abbrev pub Kept : Db → Db → Type 0
Kept db db' = (IsBalanced db → IsBalanced db') × (db'.sync_records ≡ db.sync_records)

Unmoved-Kept : (db db' : Db) → Unmoved db db' → Kept db db'
Unmoved-Kept db db' h = (SameTables-IsBalanced db db' h.0, h.1)

-- What a payment's replay has done: nothing, or a posting to a bill of the council whose payer is in
-- the agent's ward.
pub data PaymentReplay (env : Env) (council : ℕ) (agent : FieldAgent) (actor : ℕ)
    (q : Option PaymentData) (db : Db) (status : SyncStatus) (ref : Option Ref) (db' : Db)
    : Type 0 where
  turned_down :
      status ≡ rejected
      → ref ≡ none
      → db' ≡ db
      → PaymentReplay env council agent actor q db status ref db'
  taken :
      (d : PaymentData) (bill : Bill) (p : Payment)
      → q ≡ some d
      → bill_of council d.bill_id db ≡ some bill
      → is_in_ward agent (ward_of_bill bill db) ≡ true
      → post_payment env (posting_of council actor d db) bill db ≡ ok (p, db')
      → status ≡ accepted
      → ref ≡ some p.payment_ref
      → PaymentReplay env council agent actor q db status ref db'

module _ (env : Env) (council : ℕ) (agent : FieldAgent) (actor : ℕ) where
  pub replay_payment-cases :
      (q : Option PaymentData) (db : Db) (status : SyncStatus) (ref : Option Ref) (db' : Db)
      → replay_payment env council agent actor q db ≡ (status, ref, db')
      → PaymentReplay env council agent actor q db status ref db'
  unfolding replay_payment
  replay_payment-cases none db status ref db' e =
      PaymentReplay.turned_down (ground arith) (ground arith) (ground arith)
  replay_payment-cases (some d) db status ref db' e =
      elim (Option-cases (bill_of council d.bill_id db)) [
        | inl gone ↦ PaymentReplay.turned_down (ground arith) (ground arith) (ground arith)
        | inr (bill, found) ↦ elim (Bool-cases (is_in_ward agent (ward_of_bill bill db))) [
          | inr outside ↦ PaymentReplay.turned_down (ground arith) (ground arith) (ground arith)
          | inl inside ↦ elim (Bool-cases d.geo_is_numeric) [
            | inr bad ↦ PaymentReplay.turned_down (ground arith) (ground arith) (ground arith)
            | inl fine ↦
                elim (Result-cases (post_payment env (posting_of council actor d db) bill db)) [
                  | inl (x, bad) ↦
                      PaymentReplay.turned_down (ground arith) (ground arith) (ground arith)
                  | inr ((p, mid), good) ↦
                      let same : mid ≡ db' = ground arith in
                      PaymentReplay.taken d bill p refl found inside
                        (subst
                          (λ (x : Db).
                            post_payment env (posting_of council actor d db) bill db ≡ ok (p, x))
                          same good)
                        (ground arith) (ground arith)
                ]
          ]
        ]
      ]

  replay_payment-Kept :
      (q : Option PaymentData) (db : Db) (status : SyncStatus) (ref : Option Ref) (db' : Db)
      → PaymentReplay env council agent actor q db status ref db'
      → Kept db db'
  replay_payment-Kept q db status ref db' (PaymentReplay.turned_down _ _ same) =
      (λ h. subst IsBalanced (sym same) h, ap (λ (x : Db). x.sync_records) same)
  replay_payment-Kept q db status ref db' (PaymentReplay.taken d bill p _ found inside good _ _) = (
    λ h. post_payment-IsBalanced env (posting_of council actor d db) bill db p db' h good,
    (post_payment-SameRest env (posting_of council actor d db) bill db p db' good).5,
  )

  place_payer-Unmoved :
      (geo : Geo) (p : Payer) (db : Db) (status : SyncStatus) (ref : Option Ref) (db' : Db)
      → place_payer council geo p db ≡ ok (status, ref, db')
      → Unmoved db db'
  unfolding place_payer
  place_payer-Unmoved geo p db status ref db' e = ground arith

  replay_payer-Unmoved :
      (ward : Option ℕ) (geo : Geo) (q : Option PayerData) (db : Db) (status : SyncStatus)
      (ref : Option Ref) (db' : Db)
      → replay_payer env council agent actor ward geo q db ≡ ok (status, ref, db')
      → Unmoved db db'
  unfolding replay_payer
  replay_payer-Unmoved none geo q db status ref db' e = ground arith
  replay_payer-Unmoved (some ward) geo none db status ref db' e = ground arith
  replay_payer-Unmoved (some ward) geo (some d) db status ref db' e =
      elim (Bool-cases (is_in_ward agent (some ward))) [
        | inr outside ↦ ground arith
        | inl inside ↦
            let made = create_payer env (enumeration council actor ward d db) db in
            elim (Result-cases made) [
              | inl (x, bad) ↦ ground arith
              | inr ((pair, mid), good) ↦
                  Unmoved-trans db mid db'
                    (create_payer-Unmoved env (enumeration council actor ward d db) db pair mid
                      good)
                    (place_payer-Unmoved geo pair.0 mid status ref db' (ground arith))
            ]
      ]

  pub replay_payload-Kept :
      (payload : Payload) (db : Db) (status : SyncStatus) (ref : Option Ref) (db' : Db)
      → replay_payload env council agent actor payload db ≡ ok (status, ref, db')
      → Kept db db'
  replay_payload-Kept (of_payment q) db status ref db' e =
      replay_payment-Kept q db status ref db'
        (replay_payment-cases q db status ref db' (ground arith))
  replay_payload-Kept (of_payer ward geo q) db status ref db' e =
      Unmoved-Kept db db' (replay_payer-Unmoved ward geo q db status ref db' e)
