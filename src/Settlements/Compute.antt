-- ===== src/Settlements/Compute.antt =====
-- `compute_settlements` of apps/settlements/services.py. An amount is in ten-thousandths of a naira
-- and the contract rate in hundredths of a percent.
pub mod Laws
pub mod Terms
use acrev360_backend.Base.{
  ℕ, ◌+◌, ◌*◌, ◌/◌, ◌%◌, Bool, true, false, Option, none, some, ◌>>=◌, List, [], ◌∷◌, ◌++◌, ltb,
  leb, ◌==◌, ◌&&◌, if◌then◌else◌, same_ref, length, sum_of, select, first,
}
use acrev360_backend.Base.Table.{find, insert, modify}
use acrev360_backend.Models.Accounts.{SubConsultant, user_keyed}
use acrev360_backend.Models.Audit.{settlements_computed}
use acrev360_backend.Models.Billing.{bill_keyed}
use acrev360_backend.Models.Payments.{Payment, is_confirmed}
use acrev360_backend.Models.Registry.{payer_keyed}
use acrev360_backend.Models.Settlements.{Settlement, SettlementStatus, settlement_keyed}
use acrev360_backend.Store.{Db, audit}

-- The quotient rounded to the nearest whole number, a tie to the even one: the rounding of
-- `Decimal.quantize` in the default context.
abbrev pub half_even : ℕ → ℕ → ℕ
half_even n d =
    let q = n / d in
    let r = n % d in
    if ltb (2 * r) d then q else if ltb d (2 * r) then q + 1 else if q % 2 == 0 then q else q + 1

-- `(gross * rate / 100).quantize(0.01)`
unfoldable pub commission_of : ℕ → ℕ → ℕ
commission_of gross rate = 100 * half_even (gross * rate) 1000000

-- `bill__payer__enumerated_by__consultant_id`
unfoldable pub consultant_of : Db → Payment → Option ℕ
consultant_of db p = do
  b ← find p.bill db.bills
  payer ← find b.payer db.payers
  user ← find payer.enumerated_by db.users
  user.consultant

-- What the filter of the sum tests; both ends of the period count.
unfoldable pub is_collected : ℕ → ℕ → ℕ → ℕ → Db → Payment → Bool
is_collected council consultant period_start period_end db p =
    p.council == council
    && same_ref (consultant_of db p) (some consultant)
    && is_confirmed p.txn_status
    && leb period_start p.created_on
    && leb p.created_on period_end

unfoldable pub gross_of : ℕ → ℕ → ℕ → ℕ → Db → ℕ
gross_of council consultant period_start period_end db =
    sum_of (λ p. p.amount)
      (select (is_collected council consultant period_start period_end db) db.payments.rows)

-- The lookup of `update_or_create`.
abbrev pub is_of : ℕ → ℕ → ℕ → ℕ → Settlement → Bool
is_of council consultant period_start period_end s =
    s.council == council
    && s.consultant == consultant
    && s.period_start == period_start
    && s.period_end == period_end

-- Its defaults, assigned to a row that is there.
abbrev pub assign : ℕ → ℕ → ℕ → Settlement → Settlement
assign gross rate actor s = record s {
  gross_collections = gross;
  commission_rate = rate;
  commission_amount = commission_of gross rate;
  status = SettlementStatus.computed;
  computed_by = actor;
}

abbrev pub new_settlement : ℕ → ℕ → ℕ → ℕ → ℕ → ℕ → ℕ → ℕ → Settlement
new_settlement council consultant period_start period_end gross rate actor id = record {
  id = id;
  council = council;
  consultant = consultant;
  period_start = period_start;
  period_end = period_end;
  gross_collections = gross;
  commission_rate = rate;
  commission_amount = commission_of gross rate;
  status = SettlementStatus.computed;
  computed_by = actor;
}

-- The body of the loop.
unfoldable pub settle : ℕ → ℕ → ℕ → ℕ → SubConsultant → Db → Settlement × Db
settle council period_start period_end actor c db =
    let gross = gross_of council c.id period_start period_end db in
    elim (first (is_of council c.id period_start period_end) db.settlements.rows) [
      | none ↦
          let make =
            new_settlement council c.id period_start period_end gross c.commission_rate actor in
          (make db.settlements.next, record db { settlements = insert make db.settlements })
      | some s ↦ (
        assign gross c.commission_rate actor s,
        record db {
          settlements = modify s.id (assign gross c.commission_rate actor) db.settlements;
        },
      )
    ]

-- The loop over the consultants, with its results in order.
unfoldable pub settle_loop : ℕ → ℕ → ℕ → ℕ → List SubConsultant → Db → List Settlement × Db
unfolding settle
settle_loop council period_start period_end actor [] db = ([], db)
settle_loop council period_start period_end actor (c ∷ cs) db =
    let one = settle council period_start period_end actor c db in
    let rest = settle_loop council period_start period_end actor cs one.1 in
    (one.0 ∷ rest.0, rest.1)

-- The consultants whose contract is active.
abbrev pub is_active_in : ℕ → SubConsultant → Bool
is_active_in council c = c.council == council && c.is_active

-- The rows come in the order of their names, which `by_name` puts a list in (by the rules of the
-- database).
unfoldable pub compute_settlements :
    (List SubConsultant → List SubConsultant) → ℕ → ℕ → ℕ → ℕ → Db → List Settlement × Db
compute_settlements by_name council period_start period_end actor db =
    let run =
      settle_loop council period_start period_end actor
        (by_name (select (is_active_in council) db.consultants.rows)) db in
    (
      run.0,
      audit council (some actor) (settlements_computed period_start period_end (length run.0))
          council run.1,
    )
