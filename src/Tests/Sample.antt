-- ===== src/Tests/Sample.antt =====
-- A council with one payer, one bill of two lines, a flat item, a banded one, and a feed row.
use Prim.Native.String.{String, ◌++◌}
use acrev360_backend.Base.{ℕ, ◌+◌, ◌*◌, ◌/◌, refl, true, none, some, List, [], ◌∷◌, arith}
use acrev360_backend.Base.Int.{pos}
use acrev360_backend.Base.Table.{Table}
use acrev360_backend.Models.Accounts.{AppUser, SubConsultant, AccessLevel}
use acrev360_backend.Models.Billing.{Assessment, AssessmentStatus, Bill, BillStatus, BillLine}
use acrev360_backend.Models.Payments.{FeedRow, Channel, MatchStatus, ApiClient}
use acrev360_backend.Models.Ref.{Ref, bill_number, payer_number}
use acrev360_backend.Models.Registry.{Payer, PayerType}
use acrev360_backend.Models.Revenue.{RevenueItem, RateSchedule, RateBand, RateMode}
use acrev360_backend.Models.Tenancy.{Council}
use acrev360_backend.Payments.Ledger.{IsBalanced}
use acrev360_backend.Store.{
  Committed, answered, raised, Config, Db, Env, IsRounding, Result, ok, err,
}

abbrev pub from_ok {ℓ} : {A : Type ℓ} → A → Result A → A
from_ok d (ok a) = a
from_ok d (err x) = d

abbrev pub from_answered : {A : Type 0} → A × Db → Committed A → A × Db
from_answered d (answered r) = r
from_answered d (raised e db) = d

-- The text of a bill's reference, at the sample's year and number; the others are of no matter here.
abbrev pub ref_text : Ref → String
ref_text (bill_number prefix year id) = prefix ++ ("/" ++ "2026/000001")
ref_text _ = "PAY-00000001"

-- Amounts are rounded to whole kobo, a half up.
abbrev pub env : Env
env = record {
  today = 100;
  now = 5000;
  year_of = λ d. 2026;
  column = λ a. (a + 50) / 100 * 100;
  print_ref = ref_text;
}

pub env-IsRounding : IsRounding env
env-IsRounding = record {
  column-zero = refl;
  column_idem = λ a. omega arith;
  column-add = λ a b h. omega (arith, h);
}

abbrev pub table {ℓ} : {A : Type ℓ} → List A → ℕ → Table A
table rows next = record { rows = rows; next = next }

abbrev pub config : Config
config = record { id = 1; bill_ref_prefix = "KUJE"; bill_due_days = 30 }

abbrev pub payer : Payer
payer = record {
  id = 1;
  council = 1;
  payer_ref = payer_number "IND" 1;
  payer_type = PayerType.individual;
  first_name = "Ada";
  middle_name = "";
  last_name = "Obi";
  phone = "0801";
  address = "";
  ward = 1;
  nin_bvn_hash = "";
  tin = "";
  business_size = none;
  enumerated_by = 1;
  assigned_agent = none;
  credit_balance = pos 0;
  user = none;
}

abbrev pub item : ℕ → RevenueItem
item id = record {
  id = id;
  council = 1;
  template = none;
  harmonised_code = "A";
  item_name = "Shop";
  category = 1;
  unit_of_charge = "year";
  is_active = true;
  department = none;
  bye_law_reference = "";
  bye_law_description = "";
}

abbrev pub rate : RateSchedule
rate = record { id = 1; item = 1; rate_amount = 300000; effective_from = 10; effective_to = none }

abbrev pub band : RateBand
band = record {
  id = 1;
  item = 2;
  label = "Kiosk";
  sort_order = 0;
  rate_mode = RateMode.range;
  flat_amount = none;
  min_amount = some 100000;
  max_amount = some 900000;
  effective_from = 10;
  effective_to = none;
}

abbrev pub assessment : ℕ → ℕ → AssessmentStatus → Assessment
assessment id item status = record {
  id = id;
  council = 1;
  payer = 1;
  item = item;
  rate_schedule = some 1;
  rate_band = none;
  rate_tier = none;
  asset = none;
  quantity = 100;
  amount = 300000;
  status = status;
  created_by = 1;
}

abbrev pub bill : Bill
bill = record {
  id = 1;
  council = 1;
  bill_ref = bill_number "KUJE" 2026 1;
  payer = 1;
  total_amount = 500000;
  amount_paid = 0;
  arrears_amount = 0;
  status = BillStatus.issued;
  due_date = 120;
  superseded_by = none;
  issued_by = 1;
  created_on = 90;
}

abbrev pub line : ℕ → ℕ → ℕ → BillLine
line id amount position = record {
  id = id;
  bill = 1;
  assessment = id;
  line_amount = amount;
  current_amount = amount;
  arrears_amount = 0;
  position = position;
}

abbrev pub feed_row : FeedRow
feed_row = record {
  id = 1;
  council = 1;
  channel = Channel.pos;
  bank_txn_ref = "T1";
  amount = 400000;
  match_status = MatchStatus.unmatched;
  matched_payment = none;
  received_on = 100;
}

abbrev pub user : AppUser
user = record {
  id = 1;
  council = some 1;
  consultant = some 1;
  access_level = AccessLevel.agent;
  email = "";
}

abbrev pub consultant : SubConsultant
consultant = record { id = 1; council = 1; is_active = true; commission_rate = 1000 }

abbrev pub council : Council
council = record { id = 1; is_active = true }

abbrev pub client : ApiClient
client = record {
  id = 1;
  council = 1;
  channel = Channel.pos;
  secret_encrypted = "s";
  is_active = true;
  expires_at = none;
  scopes = "payments.webhook.post" ∷ [];
  last_used_at = none;
}

abbrev pub db : Db
db = record {
  configs = table (config ∷ []) 2;
  payers = table (payer ∷ []) 2;
  items = table (item 1 ∷ item 2 ∷ []) 3;
  rates = table (rate ∷ []) 2;
  bands = table (band ∷ []) 2;
  tiers = table [] 1;
  assessments =
      table (assessment 1 1 AssessmentStatus.billed ∷ assessment 2 3 AssessmentStatus.billed ∷ [])
        3;
  bills = table (bill ∷ []) 2;
  lines = table (line 1 300000 0 ∷ line 2 200000 1 ∷ []) 3;
  payments = table [] 1;
  allocations = table [] 1;
  receipts = table [] 1;
  feed = table (feed_row ∷ []) 2;
  cases = table [] 1;
  users = table (user ∷ []) 2;
  consultants = table (consultant ∷ []) 2;
  agents = table [] 1;
  settlements = table [] 1;
  runs = table [] 1;
  exceptions = table [] 1;
  councils = table (council ∷ []) 2;
  clients = table (client ∷ []) 2;
  terminals = table [] 1;
  sync_records = table [] 1;
  assets = table [] 1;
  delegations = table [] 1;
  audit_log = [];
}

pub sample-IsBalanced : IsBalanced db
sample-IsBalanced = record {
  payments_below = tt;
  allocations_below = tt;
  within_amount = tt;
  paid_agrees = (refl, tt);
}
