-- ===== src/Tests/People.antt =====
-- Payers of the sample council enumerated, and seen by its users.
use acrev360_backend.Base.{
  ℕ, ◌≡◌, ◌⊎◌, refl, arith, true, false, none, some, [], ◌∷◌, All, same_text,
}
use acrev360_backend.Base.Table.{find}
use acrev360_backend.Models.Accounts.{AppUser, AccessLevel, user_keyed}
use acrev360_backend.Models.Registry.{Payer, PayerType, payer_keyed}
use acrev360_backend.Models.Ref.{payer_number}
use acrev360_backend.Store.{Db, ok, audit}
use acrev360_backend.Billing.Pricing.{
  active_bands, latest, current_rate, price_in_range, price_by_mode, price_by_band, price_by_rate,
  price, create_draft_assessment,
}
use acrev360_backend.Registry.Payers.{
  Enumeration, is_same_phone, find_duplicate, draft_items, insert_payer, create_payer,
}
use acrev360_backend.Registry.Payers.Laws.{Drafted, create_payer-registers}
use acrev360_backend.Tests.Sample.{from_ok, env, payer, db}

abbrev manager : AppUser
manager = record {
  id = 2;
  council = some 1;
  consultant = some 1;
  access_level = AccessLevel.consultant;
  email = "";
}

abbrev supervisor : AppUser
supervisor = record manager { id = 3; access_level = AccessLevel.agent_supervisor }

abbrev enumeration : Enumeration
enumeration = record {
  council = 1;
  actor = 1;
  items = 1 ∷ [];
  force = false;
  enumerated_by = none;
  payer_type = PayerType.individual;
  first_name = "Bola";
  middle_name = "";
  last_name = "Ade";
  phone = "0802";
  address = "";
  ward = 1;
  nin_bvn_hash = none;
  tin = none;
  business_size = none;
}

abbrev enumerated : (Payer × ℕ) × Db
unfolding create_payer find_duplicate is_same_phone insert_payer draft_items audit
    create_draft_assessment price price_by_rate price_by_band price_by_mode price_in_range
    active_bands current_rate latest
enumerated = from_ok ((payer, 0), db) (create_payer env enumeration db)

enumerating-ok : create_payer env enumeration db ≡ ok enumerated
unfolding enumerated create_payer find_duplicate is_same_phone insert_payer draft_items audit
    create_draft_assessment price price_by_rate price_by_band price_by_mode price_in_range
    active_bands current_rate latest
enumerating-ok = refl

create_payer-registers_example :
    let p = enumerated.0.0 in
    (find p.id enumerated.1.payers ≡ some p)
    × (p.payer_ref ≡ payer_number "IND" p.id)
    × (find p.id db.payers ≡ none)
    × (enumerated.0.1 ≡ 1)
    × Drafted 1 p.id 1 (1 ∷ []) db enumerated.1
    × ((same_text "0802" "" ≡ true)
        ⊎ (false ≡ true)
        ⊎ All (λ y. is_same_phone 1 "0802" y ≡ false) db.payers.rows)
create_payer-registers_example =
    create_payer-registers env enumeration db enumerated.0.0 enumerated.0.1 enumerated.1
      (omega arith, tt) enumerating-ok
