-- ===== src/Registry/Payers.antt =====
-- `create_payer` of apps/registry/services.py.
pub mod Laws
use Prim.Native.String.{String}
use acrev360_backend.Base.{
  ℕ, ◌+◌, Bool, true, false, not, Option, none, some, List, [], ◌∷◌, ◌==◌, ◌&&◌, if◌then◌else◌,
  value_or, same_text, first,
}
use acrev360_backend.Base.Int.{pos}
use acrev360_backend.Base.Table.{insert, modify}
use acrev360_backend.Models.Audit.{payer_enumerated}
use acrev360_backend.Models.Ref.{placeholder, payer_number}
use acrev360_backend.Models.Registry.{Payer, PayerType, BusinessSize, payer_keyed}
use acrev360_backend.Store.{Db, Env, Result, ok, err, Service, duplicate_payer, audit}
use acrev360_backend.Billing.Pricing.{Charge, create_draft_assessment}

-- The arguments of `create_payer`; of `fields` the columns that are modelled. `tin` and
-- `nin_bvn_hash` may be left out.
pub record Enumeration : Type 0 where
  pub council : ℕ
  pub actor : ℕ
  pub items : List ℕ
  pub force : Bool
  pub enumerated_by : Option ℕ
  pub payer_type : PayerType
  pub first_name : String
  pub middle_name : String
  pub last_name : String
  pub phone : String
  pub address : String
  pub ward : ℕ
  pub nin_bvn_hash : Option String
  pub tin : Option String
  pub business_size : Option BusinessSize

abbrev pub is_individual : PayerType → Bool
is_individual PayerType.individual = true
is_individual _ = false

-- `Payer.objects.filter(council_id=council_id, phone=phone).first()`
unfoldable pub is_same_phone : ℕ → String → Payer → Bool
is_same_phone council phone p = p.council == council && same_text p.phone phone

unfoldable pub find_duplicate : Enumeration → Db → Option Payer
find_duplicate q db =
    if not (same_text q.phone "") && not q.force
    then first (is_same_phone q.council q.phone) db.payers.rows
    else none

-- `f"{prefix}-{payer.id:07d}"` once the row has its id.
abbrev pub prefix_of : PayerType → String
prefix_of t = if is_individual t then "IND" else "C"

abbrev pub new_payer : Enumeration → ℕ → Payer
new_payer q id = record {
  id = id;
  council = q.council;
  payer_ref = placeholder;
  payer_type = q.payer_type;
  first_name = q.first_name;
  middle_name = q.middle_name;
  last_name = q.last_name;
  phone = q.phone;
  address = q.address;
  ward = q.ward;
  nin_bvn_hash = value_or "" q.nin_bvn_hash;
  tin = value_or "" q.tin;
  business_size = if is_individual q.payer_type then none else q.business_size;
  enumerated_by = value_or q.actor q.enumerated_by;
  assigned_agent = none;
  credit_balance = pos 0;
  user = none;
}

abbrev pub with_payer_ref : Payer → Payer
with_payer_ref p = record p { payer_ref = payer_number (prefix_of p.payer_type) p.id }

-- A charge of one unit.
abbrev pub plain_charge : ℕ → Charge
plain_charge item = record {
  item = item;
  quantity = 100;
  asset = none;
  rate_band = none;
  rate_tier = none;
  amount_override = none;
}

-- The loop over the items, which counts its drafts.
unfoldable pub draft_items : Env → Payer → ℕ → List ℕ → ℕ → Service ℕ
draft_items env payer actor [] count db = ok (count, db)
draft_items env payer actor (item ∷ items) count db =
    elim (create_draft_assessment env payer (plain_charge item) actor db) [
      | err x ↦ err x
      | ok (a, db') ↦ draft_items env payer actor items (count + 1) db'
    ]

-- The row, created and given its reference.
unfoldable pub insert_payer : Enumeration → Db → Payer × Db
insert_payer q db =
    let p = new_payer q db.payers.next in
    (
      with_payer_ref p,
      record db { payers = modify p.id with_payer_ref (insert (new_payer q) db.payers) },
    )

unfoldable pub create_payer : Env → Enumeration → Service (Payer × ℕ)
create_payer env q db = elim (find_duplicate q db) [
  | some existing ↦ err (duplicate_payer existing.id)
  | none ↦
      let made = insert_payer q db in
      elim (draft_items env made.0 q.actor q.items 0 made.1) [
        | err x ↦ err x
        | ok (count, db') ↦
            ok (
              (made.0, count),
              audit q.council (some q.actor) (payer_enumerated count) made.0.id db',
            )
      ]
]
