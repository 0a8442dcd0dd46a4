-- ===== src/Channels/Adapters.antt =====
-- apps/channels/adapters.py: what a channel's payload must hold, and how it is read. `Decimal(...)`,
-- `str(int)` and `str.strip` are Python's, so they are parameters; a decimal has two decimal places.
pub mod Laws
use Prim.Native.String.{String}
use acrev360_backend.Base.{
  ℕ, zero, suc, ◌*◌, Bool, true, false, not, ◌⊎◌, inl, inr, Option, none, some, List, [], ◌∷◌, ltb,
  ◌==◌, ◌&&◌, ◌||◌, is_none, if◌then◌else◌, select, same_text,
}
use acrev360_backend.Base.Int.{ℤ, pos, negsuc}
use acrev360_backend.Models.Payments.{Channel}

-- A value of a JSON body: a float has its text and whether it is zero, a list or an object whether
-- it is empty.
pub data Value : Type 0 where
  text : String → Value
  integer : ℤ → Value
  float : String → Bool → Value
  boolean : Bool → Value
  null : Value
  compound : Bool → Value

-- A parsed body.
pub data Body : Type 0 where
  not_object : Body
  object : List (String × Value) → Body

-- What `Decimal` makes of a text: not a finite number, one below zero, or so many hundredths.
pub data Number : Type 0 where
  not_finite : Number
  negative : Number
  hundredths : ℕ → Number

pub record Python : Type 0 where
  pub decimal : String → Option Number
  pub int_text : ℤ → String
  pub strip : String → String

pub data AdapterError : Type 0 where
  amount_not_number : AdapterError
  amount_not_positive : AdapterError
  unknown_channel : AdapterError
  payload_not_object : AdapterError
  missing_fields : List String → AdapterError
  bad_bill_ref : AdapterError
  bad_bank_ref : AdapterError
  amount_too_large : AdapterError

-- `REQUIRED_FIELDS.get(code)`; cash has no payload contract.
abbrev pub required_fields : Channel → Option (List String)
required_fields Channel.pos = some ("terminalId" ∷ "rrn" ∷ "amount" ∷ "billRef" ∷ [])
required_fields Channel.otc = some ("tellerRef" ∷ "branchCode" ∷ "amount" ∷ "billRef" ∷ [])
required_fields Channel.ib_mb = some ("sessionId" ∷ "amount" ∷ "billRef" ∷ [])
required_fields Channel.ussd = some ("ussdRef" ∷ "msisdn" ∷ "amount" ∷ "billRef" ∷ [])
required_fields Channel.firstmonie = some ("agentTxnRef" ∷ "agentId" ∷ "amount" ∷ "billRef" ∷ [])
required_fields Channel.cash = none

-- `BANK_REF_FIELD[code]`; there is no entry for cash, and no call with it.
abbrev pub bank_ref_field : Channel → String
bank_ref_field Channel.pos = "rrn"
bank_ref_field Channel.otc = "tellerRef"
bank_ref_field Channel.ib_mb = "sessionId"
bank_ref_field Channel.ussd = "ussdRef"
bank_ref_field Channel.firstmonie = "agentTxnRef"
bank_ref_field Channel.cash = ""

-- `payload.get(field)`
unfoldable pub field_of : String → List (String × Value) → Option Value
field_of name [] = none
field_of name ((k, v) ∷ rest) = if same_text k name then some v else field_of name rest

-- Python's truth of a value.
abbrev pub is_truthy : Value → Bool
is_truthy (text s) = not (same_text s "")
is_truthy (integer (pos zero)) = false
is_truthy (integer (pos (suc n))) = true
is_truthy (integer (negsuc n)) = true
is_truthy (float s is_zero) = not is_zero
is_truthy (boolean b) = b
is_truthy null = false
is_truthy (compound is_empty) = not is_empty

-- `payload.get("amountInKobo")`, as a test
abbrev pub in_kobo : List (String × Value) → Bool
in_kobo payload = elim (field_of "amountInKobo" payload) [ none ↦ false | some v ↦ is_truthy v ]

-- `str(value)` of a text, an integer or a float that is no Boolean.
abbrev pub str_of : Python → Value → Option String
str_of py (text s) = some s
str_of py (integer n) = some (py.int_text n)
str_of py (float s is_zero) = some s
str_of py (boolean b) = none
str_of py null = none
str_of py (compound is_empty) = none

-- The amount, in hundredths, if `Decimal` has read one that is finite and above zero.
abbrev pub positive_amount : Option Number → AdapterError ⊎ ℕ
positive_amount none = inl amount_not_number
positive_amount (some not_finite) = inl amount_not_positive
positive_amount (some negative) = inl amount_not_positive
positive_amount (some (hundredths n)) = if ltb 0 n then inr n else inl amount_not_positive

-- `_parse_amount`
unfoldable pub parse_amount : Python → Value → AdapterError ⊎ ℕ
parse_amount py v = elim (str_of py v) [
  | none ↦ inl amount_not_number
  | some s ↦ positive_amount (py.decimal s)
]

-- The amount in ten-thousandths: of the currency's unit, or of a hundredth of it.
abbrev pub scaled : Bool → ℕ → ℕ
scaled kobo n = if kobo then n else n * 100

-- `_MAX_AMOUNT`, 999999999999.99
abbrev pub max_amount : ℕ
max_amount = 9999999999999900

-- `isinstance(payload["billRef"], str) and payload["billRef"].strip()`
abbrev pub is_bill_ref : Python → Option Value → Bool
is_bill_ref py (some (text s)) = not (same_text (py.strip s) "")
is_bill_ref py _ = false

-- A text or an integer, but no Boolean.
abbrev pub is_bank_ref : Option Value → Bool
is_bank_ref (some (text s)) = true
is_bank_ref (some (integer n)) = true
is_bank_ref _ = false

abbrev pub missing : List String → List (String × Value) → List String
missing required payload = select (λ f. is_none (field_of f payload)) required

-- The amount of a payload, in ten-thousandths; a payload without the field raises `KeyError`, which
-- `validate` has made impossible.
unfoldable pub amount_of : Python → List (String × Value) → AdapterError ⊎ ℕ
unfolding field_of parse_amount
amount_of py payload = elim (field_of "amount" payload) [
  | none ↦ inl amount_not_number
  | some v ↦ elim (parse_amount py v) [ inl e ↦ inl e | inr n ↦ inr (scaled (in_kobo payload) n) ]
]

-- The checks behind that of the required fields.
abbrev pub check_values : Python → Channel → List (String × Value) → AdapterError ⊎ Unit {0}
check_values py code payload =
    if not (is_bill_ref py (field_of "billRef" payload))
    then inl bad_bill_ref
    else (if not (is_bank_ref (field_of (bank_ref_field code) payload))
        then inl bad_bank_ref
        else elim (amount_of py payload) [
          | inl e ↦ inl e
          | inr a ↦ if ltb max_amount a then inl amount_too_large else inr tt
        ])

-- `validate`; `code` is none if no channel has the code.
unfoldable pub validate : Python → Option Channel → Body → AdapterError ⊎ Unit {0}
unfolding field_of amount_of
validate py none body = inl unknown_channel
validate py (some code) body = elim (required_fields code) [
  | none ↦ inl unknown_channel
  | some required ↦ elim body [
    | not_object ↦ inl payload_not_object
    | object payload ↦ elim (missing required payload) [
      | [] ↦ check_values py code payload
      | f ∷ fs ↦ inl (missing_fields (f ∷ fs))
    ]
  ]
]

pub record Normalised : Type 0 where
  pub bank_txn_ref : String
  pub amount : ℕ
  pub bill_ref : String

-- `str(payload[BANK_REF_FIELD[code]])`
abbrev pub bank_ref_text : Python → Option Value → Option String
bank_ref_text py none = none
bank_ref_text py (some v) = str_of py v

abbrev pub bill_ref_text : Option Value → Option String
bill_ref_text (some (text s)) = some s
bill_ref_text _ = none

abbrev pub normalised : ℕ → Option String → Option String → Option Normalised
normalised a (some ref) (some b) = some (record { bank_txn_ref = ref; amount = a; bill_ref = b })
normalised a _ _ = none

-- `normalise`; none where it would raise, or where the reference of the bill is no text.
unfoldable pub normalise : Python → Channel → Body → Option Normalised
unfolding field_of amount_of
normalise py code not_object = none
normalise py code (object payload) = elim (amount_of py payload) [
  | inl e ↦ none
  | inr a ↦
      normalised a (bank_ref_text py (field_of (bank_ref_field code) payload))
        (bill_ref_text (field_of "billRef" payload))
]
