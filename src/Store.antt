-- ===== src/Store.antt =====
-- The database as one value, what the code reads from outside, and the shape of a service call.
use Prim.Native.String.{String}
use acrev360_backend.Base.{ℕ, ◌+◌, ◌≡◌, refl, ◌⊎◌, inl, inr, Option, List, [], ◌∷◌, ◌++◌}
use acrev360_backend.Base.Table.{Table, Keyed}
use acrev360_backend.Models.Billing.{Assessment, Bill, BillLine}
use acrev360_backend.Models.Payments.{
  Payment, PaymentAllocation, Receipt, FeedRow, ApiClient, PosTerminal,
}
use acrev360_backend.Models.Revenue.{RevenueItem, RateSchedule, RateBand, RateTier}
use acrev360_backend.Models.Registry.{Payer, EnumeratedAsset, PayerDelegation}
use acrev360_backend.Models.Enforcement.{DebtCase}
use acrev360_backend.Models.Accounts.{AppUser, SubConsultant, FieldAgent}
use acrev360_backend.Models.Settlements.{Settlement}
use acrev360_backend.Models.Reconciliation.{Run, RunException}
use acrev360_backend.Models.Ref.{Ref}
use acrev360_backend.Models.Fieldops.{MobileSyncRecord}
use acrev360_backend.Models.Tenancy.{Council}
use acrev360_backend.Models.Audit.{Action, AuditLog}

-- `CouncilConfig`, the part that billing reads; the id is the council's.
pub record Config : Type 0 where
  pub id : ℕ
  pub bill_ref_prefix : String
  pub bill_due_days : ℕ

instance abbrev pub config_keyed : Keyed Config
config_keyed = record { key = λ c. c.id }

pub record Db : Type 0 where
  pub configs : Table Config
  pub payers : Table Payer
  pub items : Table RevenueItem
  pub rates : Table RateSchedule
  pub bands : Table RateBand
  pub tiers : Table RateTier
  pub assessments : Table Assessment
  pub bills : Table Bill
  pub lines : Table BillLine
  pub payments : Table Payment
  pub allocations : Table PaymentAllocation
  pub receipts : Table Receipt
  pub feed : Table FeedRow
  pub cases : Table DebtCase
  pub users : Table AppUser
  pub consultants : Table SubConsultant
  pub agents : Table FieldAgent
  pub settlements : Table Settlement
  pub runs : Table Run
  pub exceptions : Table RunException
  pub councils : Table Council
  pub clients : Table ApiClient
  pub terminals : Table PosTerminal
  pub sync_records : Table MobileSyncRecord
  pub assets : Table EnumeratedAsset
  pub delegations : Table PayerDelegation
  pub audit_log : List AuditLog

-- The clock, the calendar, the database's rounding of a value to a column of two decimal places, and
-- the text that a reference's format string makes.
pub record Env : Type 0 where
  pub today : ℕ
  pub now : ℕ
  pub year_of : ℕ → ℕ
  pub column : ℕ → ℕ
  pub print_ref : Ref → String

-- What the code relies on: a value that the column can hold is stored as it is, and adding one to
-- any other value moves the rounded value by just that much.
abbrev pub Storable : Env → ℕ → Type 0
Storable env a = env.column a ≡ a

pub record IsRounding (env : Env) : Type 0 where
  pub column-zero : env.column 0 ≡ 0
  pub column_idem : (a : ℕ) → Storable env (env.column a)
  pub column-add : (a b : ℕ) → Storable env b → env.column (a + b) ≡ env.column a + b

pub data Error : Type 0 where
  -- `BillingError`
  bad_quantity band_required amount_required amount_out_of_range tier_required : Error
  no_active_rate empty_bill : Error
  line_amount_not_positive line_amount_below_arrears line_has_payments last_line : Error
  -- `DuplicateBill`, `DuplicatePayer`: with the id of what is there
  duplicate_bill duplicate_payer : ℕ → Error
  -- `PaymentRejected`
  bill_superseded bill_cancelled not_confirmed : Error
  -- `RetireError`, `BandingError`
  has_drafts has_outstanding_bill bad_bands : Error
  -- `ValueError` of `escalate`
  final_stage : Error
  -- `DoesNotExist`, `IntegrityError`
  does_not_exist integrity : Error
  -- `DataError`: a text that is too long for its column
  data_error : Error
  -- `TypeError`: arithmetic on `None`
  type_error : Error
  -- `ReconciliationError`
  no_feed : Error
  -- a settlement's status change that is answered with 400
  bad_transition : Error
  -- `TransactionManagementError`: a statement behind one that failed in the same transaction
  broken_transaction : Error
  -- `ProtectedError`: a row that another refers to is deleted
  protected : Error

-- What a request has committed. One that raises is answered with 500, and the middleware commits what
-- it had written outside the services' own transactions.
pub data Committed (A : Type 0) : Type 0 where
  answered : A × Db → Committed A
  raised : Error → Db → Committed A

pub data Result {ℓ} (A : Type ℓ) : Type ℓ where
  ok : A → Result A
  err : Error → Result A

pub Result-cases {ℓ} :
    {A : Type ℓ} (r : Result A) → ((x : Error) × (r ≡ err x)) ⊎ ((a : A) × (r ≡ ok a))
Result-cases (ok a) = inr (a, refl)
Result-cases (err x) = inl (x, refl)

-- A service call. The services are `transaction.atomic`: a call that raises leaves the database as
-- it was, so that an error carries none.
abbrev pub Service : Type 0 → Type 0
Service A = Db → Result (A × Db)

-- `audit(...)` of apps/audit/services.py.
unfoldable pub audit : ℕ → Option ℕ → Action → ℕ → Db → Db
audit council actor action entity db = record db {
  audit_log =
      db.audit_log
      ++ (record { council = council; actor = actor; action = action; entity_id = entity } ∷ []);
}
