-- ===== src/Settlements/Status.antt =====
-- `_ALLOWED_STATUS_TRANSITIONS` and `status_change` of apps/settlements/api/views.py.
use acrev360_backend.Base.{
  ℕ, Bool, true, false, some, ◌≡◌, refl, ◌↔◌, if◌then◌else◌, inl, inr, Bool-cases,
}
use acrev360_backend.Base.Table.{modify}
use acrev360_backend.Models.Audit.{settlement_status_changed}
use acrev360_backend.Models.Settlements.{Settlement, SettlementStatus, settlement_keyed}
use acrev360_backend.Store.{Db, ok, err, Service, bad_transition, audit}

unfoldable pub can_move : SettlementStatus → SettlementStatus → Bool
can_move SettlementStatus.computed SettlementStatus.approved = true
can_move SettlementStatus.computed SettlementStatus.disputed = true
can_move SettlementStatus.approved SettlementStatus.settled = true
can_move SettlementStatus.approved SettlementStatus.disputed = true
can_move SettlementStatus.disputed SettlementStatus.approved = true
can_move _ _ = false

-- The save and the audit entry.
unfoldable pub save_status : ℕ → Settlement → SettlementStatus → Db → Db
save_status actor s new_status db =
    audit s.council (some actor) (settlement_status_changed s.status new_status) s.id (record db {
      settlements = modify s.id (λ row. record row { status = new_status }) db.settlements;
    })

unfoldable pub status_change : ℕ → Settlement → SettlementStatus → Service Settlement
status_change actor s new_status db =
    if can_move s.status new_status
    then ok (record s { status = new_status }, save_status actor s new_status db)
    else err bad_transition

-- The moves that the comment on the table lists.
pub data Moves : SettlementStatus → SettlementStatus → Type 0 where
  approve : Moves SettlementStatus.computed SettlementStatus.approved
  dispute : Moves SettlementStatus.computed SettlementStatus.disputed
  settle : Moves SettlementStatus.approved SettlementStatus.settled
  reopen : Moves SettlementStatus.approved SettlementStatus.disputed
  resolve : Moves SettlementStatus.disputed SettlementStatus.approved

-- A sequence of status changes that were all accepted.
pub data Reaches : SettlementStatus → SettlementStatus → Type 0 where
  stay : {s : SettlementStatus} → Reaches s s
  go : {s t u : SettlementStatus} → can_move s t ≡ true → Reaches t u → Reaches s u

-- The table allows just the listed moves.
pub can_move-Moves : (s t : SettlementStatus) → (can_move s t ≡ true) ↔ Moves s t
unfolding can_move
can_move-Moves s t = (to s t, from s t)
  where
    to : (s t : SettlementStatus) → can_move s t ≡ true → Moves s t
    to SettlementStatus.computed SettlementStatus.computed e = cc
    to SettlementStatus.computed SettlementStatus.approved e = approve
    to SettlementStatus.computed SettlementStatus.settled e = cc
    to SettlementStatus.computed SettlementStatus.disputed e = dispute
    to SettlementStatus.approved SettlementStatus.computed e = cc
    to SettlementStatus.approved SettlementStatus.approved e = cc
    to SettlementStatus.approved SettlementStatus.settled e = settle
    to SettlementStatus.approved SettlementStatus.disputed e = reopen
    to SettlementStatus.settled _ e = cc
    to SettlementStatus.disputed SettlementStatus.computed e = cc
    to SettlementStatus.disputed SettlementStatus.approved e = resolve
    to SettlementStatus.disputed SettlementStatus.settled e = cc
    to SettlementStatus.disputed SettlementStatus.disputed e = cc

    from : (s t : SettlementStatus) → Moves s t → can_move s t ≡ true
    from _ _ approve = refl
    from _ _ dispute = refl
    from _ _ settle = refl
    from _ _ reopen = refl
    from _ _ resolve = refl

-- From a settled row no accepted change leads away.
pub settled-Reaches :
    (t : SettlementStatus) → Reaches SettlementStatus.settled t → t ≡ SettlementStatus.settled
unfolding can_move
settled-Reaches t stay = refl
settled-Reaches t (go e r) = cc

-- A status change is accepted exactly on the listed moves, and then answers with the row in its new
-- status and saves it; it is refused exactly on any other.
pub status_change-Moves :
    (actor : ℕ) (s : Settlement) (t : SettlementStatus) (db : Db)
    → let outcome = status_change actor s t db in
      ((outcome ≡ ok (record s { status = t }, save_status actor s t db)) ↔ Moves s.status t)
      × ((outcome ≡ err bad_transition) ↔ (¬ Moves s.status t))
unfolding status_change
status_change-Moves actor s t db =
    let moves = can_move-Moves s.status t in
    elim (Bool-cases (can_move s.status t)) [
      | inl open_way ↦
          rw open_way ((λ e. moves.0 open_way, λ m. refl), (cc, λ n. absurd (n (moves.0 open_way))))
      | inr closed_way ↦
          let none_such : ¬ Moves s.status t = λ m. cc (moves.1 m, closed_way) in
          rw closed_way ((cc, λ m. absurd (none_such m)), (λ e. none_such, λ n. refl))
    ]
