-- ===== src/Channels/Tenants.antt =====
-- apps/tenancy/context.py: whose bill a reference names. The cache of the prefixes is left out: it is
-- dropped when a council or its configuration is edited.
pub mod Laws
use Prim.Native.Char.{code}
use Prim.Native.String.{String}
use acrev360_backend.Base.{
  ℕ, ◌≡◌, refl, not, Option, none, some, List, [], ◌∷◌, ◌==◌, ◌&&◌, if◌then◌else◌, same_text, first,
  is_none,
}
use acrev360_backend.Base.Table.{Table, find}
use acrev360_backend.Models.Tenancy.{Council, council_keyed}
use acrev360_backend.Store.{Config, Db, config_keyed}

-- `bill_ref.split("/")[0]`
unfoldable pub until_slash : String → String
until_slash String.[] = String.[]
until_slash (String.◌∷◌ c s) = if code c == b'/' then String.[] else String.◌∷◌ c (until_slash s)

-- `mapping.get(prefix)`
unfoldable pub get : String → List (String × ℕ) → Option ℕ
get k [] = none
get k ((j, v) ∷ rest) = if same_text j k then some v else get k rest

-- `mapping.setdefault(prefix, council)`: the first council of a prefix keeps it.
unfoldable pub set_default : String → ℕ → List (String × ℕ) → List (String × ℕ)
unfolding get
set_default k v m = if is_none (get k m) then (k, v) ∷ m else m

-- One round of the loop over the councils.
unfoldable pub add_council : Table Config → Council → List (String × ℕ) → List (String × ℕ)
unfolding set_default
add_council configs c m =
    if c.is_active
    then (elim (find c.id configs) [
      | none ↦ m
      | some config ↦
          if not (same_text config.bill_ref_prefix "")
          then set_default config.bill_ref_prefix c.id m
          else m
    ])
    else m

unfoldable pub add_councils : Table Config → List Council → List (String × ℕ) → List (String × ℕ)
unfolding add_council
add_councils configs [] m = m
add_councils configs (c ∷ cs) m = add_councils configs cs (add_council configs c m)

-- `_bill_ref_prefix_map`: the councils in the order of their ids.
unfoldable pub bill_ref_prefix_map : Db → List (String × ℕ)
unfolding add_councils
bill_ref_prefix_map db = add_councils db.configs db.councils.rows []

-- `Council.objects.filter(pk=..., is_active=True).first()`
abbrev pub active_council : ℕ → Db → Option Council
active_council id db = first (λ c. c.id == id && c.is_active) db.councils.rows

-- `resolve_council_from_bill_ref`
unfoldable pub resolve_council_from_bill_ref : String → Db → Option Council
unfolding until_slash bill_ref_prefix_map get
resolve_council_from_bill_ref ref db =
    let prefix = until_slash ref in
    if same_text prefix ""
    then none
    else elim (get prefix (bill_ref_prefix_map db)) [ none ↦ none | some id ↦ active_council id db ]

-- The councils and their configurations are all that it reads.
pub resolve_council-congr :
    (ref : String) (db db' : Db)
    → db'.councils ≡ db.councils
    → db'.configs ≡ db.configs
    → resolve_council_from_bill_ref ref db' ≡ resolve_council_from_bill_ref ref db
unfolding resolve_council_from_bill_ref bill_ref_prefix_map
resolve_council-congr ref db db' h k =
    λ i. resolve_council_from_bill_ref ref (record db' { councils = h i; configs = k i })
