-- ===== src/Channels/Adapters/Laws.antt =====
-- What `validate` lets through, `normalise` can read.
use Prim.Native.String.{String}
use acrev360_backend.Base.{
  ℕ, ◌<◌, ◌≤◌, ◌≡◌, refl, inl, inr, Bool, true, false, Option, none, some, List, same_text, arith,
  Option-cases, Sum-cases, subst,
}
use acrev360_backend.Models.Payments.{Channel}
use acrev360_backend.Channels.Adapters.{
  Value, text, integer, Body, object, not_object, Python, Normalised, max_amount, Number, validate,
  normalise, parse_amount, amount_of, scaled, str_of, is_bill_ref, is_bank_ref, field_of,
  bank_ref_field, in_kobo, check_values, positive_amount, bank_ref_text, bill_ref_text,
}

scaled-pos : (kobo : Bool) (n : ℕ) → 0 < n → 0 < scaled kobo n
scaled-pos true n h = h
scaled-pos false n h = omega (arith, h)

positive_amount-pos : (d : Option Number) (n : ℕ) → positive_amount d ≡ inr n → 0 < n
positive_amount-pos d n h = ground arith

parse_amount-pos : (py : Python) (v : Value) (n : ℕ) → parse_amount py v ≡ inr n → 0 < n
unfolding parse_amount
parse_amount-pos py v n h = elim (Option-cases (str_of py v)) [
  | inl e ↦ cc (rw (e, parse_amount) at h)
  | inr (s, e) ↦ positive_amount-pos (py.decimal s) n (rw (e, parse_amount) at h)
]

amount_of-pos :
    (py : Python) (payload : List (String × Value)) (a : ℕ) → amount_of py payload ≡ inr a → 0 < a
unfolding amount_of
amount_of-pos py payload a h = elim (Option-cases (field_of "amount" payload)) [
  | inl e ↦ cc (rw (e, amount_of) at h)
  | inr (v, e) ↦ elim (Sum-cases (parse_amount py v)) [
    | inl (x, bad) ↦ cc (rw (e, amount_of, bad) at h)
    | inr (n, good) ↦
        let same : scaled (in_kobo payload) n ≡ a = cc (rw (e, amount_of, good) at h) in
        subst (λ k. 0 < k) same (scaled-pos _ n (parse_amount-pos py v n good))
  ]
]

is_bill_ref-text :
    (py : Python) (o : Option Value)
    → is_bill_ref py o ≡ true
    → (s : String) × (bill_ref_text o ≡ some s) × (same_text (py.strip s) "" ≡ false)
is_bill_ref-text py none h = cc
is_bill_ref-text py (some (text s)) h = (s, refl, ground arith)
is_bill_ref-text py (some _) h = cc

is_bank_ref-text :
    (py : Python) (o : Option Value)
    → is_bank_ref o ≡ true
    → (s : String) × (bank_ref_text py o ≡ some s)
is_bank_ref-text py none h = cc
is_bank_ref-text py (some (text s)) h = (s, refl)
is_bank_ref-text py (some (integer n)) h = (py.int_text n, refl)
is_bank_ref-text py (some _) h = cc

-- What the checks behind that of the required fields let through.
record Readable (py : Python) (code : Channel) (payload : List (String × Value)) : Type 0 where
  pub bill_ok : is_bill_ref py (field_of "billRef" payload) ≡ true
  pub bank_ok : is_bank_ref (field_of (bank_ref_field code) payload) ≡ true
  pub amount : ℕ
  pub amount_read : amount_of py payload ≡ inr amount
  pub amount_fits : amount ≤ max_amount

check_values-Readable :
    (py : Python) (code : Channel) (payload : List (String × Value))
    → check_values py code payload ≡ inr tt
    → Readable py code payload
check_values-Readable py code payload h = elim (Sum-cases (amount_of py payload)) [
  | inl (e, bad) ↦ absurd (ground arith)
  | inr (a, good) ↦ record {
    bill_ok = ground arith;
    bank_ok = ground arith;
    amount = a;
    amount_read = good;
    amount_fits = ground arith;
  }
]

Readable-normalise :
    (py : Python) (code : Channel) (payload : List (String × Value))
    → Readable py code payload
    → (n : Normalised) × (normalise py code (object payload) ≡ some n)
      × (0 < n.amount)
      × (n.amount ≤ max_amount)
      × (same_text (py.strip n.bill_ref) "" ≡ false)
unfolding normalise
Readable-normalise py code payload r =
    let (bill, bill_text, solid) = is_bill_ref-text py _ r.bill_ok in
    let (ref, ref_text) = is_bank_ref-text py _ r.bank_ok in
    (
      record { bank_txn_ref = ref; amount = r.amount; bill_ref = bill },
      rw (normalise, r.amount_read, ref_text, bill_text),
      amount_of-pos py payload r.amount r.amount_read,
      r.amount_fits,
      solid,
    )

validate-check_values :
    (py : Python) (code : Channel) (body : Body)
    → validate py (some code) body ≡ inr tt
    → (payload : List (String × Value)) × (body ≡ object payload)
      × (check_values py code payload ≡ inr tt)
unfolding validate
validate-check_values py code not_object h = absurd (ground arith)
validate-check_values py code (object payload) h = (payload, refl, ground arith)

-- A body that `validate` accepts for a channel is read by `normalise`, which then does not raise: its
-- amount is positive and within the column's maximum, and its bill reference is not blank.
pub validate-normalise :
    (py : Python) (code : Channel) (body : Body)
    → validate py (some code) body ≡ inr tt
    → (n : Normalised) × (normalise py code body ≡ some n)
      × (0 < n.amount)
      × (n.amount ≤ max_amount)
      × (same_text (py.strip n.bill_ref) "" ≡ false)
validate-normalise py code body h =
    let (payload, is_object, passed) = validate-check_values py code body h in
    rw is_object (Readable-normalise py code payload (check_values-Readable py code payload passed))
