-- ===== src/Channels/Tenants/Laws.antt =====
-- The reference that a bill is issued with leads back to its council.
use Prim.Native.Char.{code}
use Prim.Native.String.append
use Prim.Native.String.{String, ◌++◌}
use text.Mathlib.TextEquality.{eq_iff}
use text.Mathlib.TextPositions.{eq_refl}
use mathlib.Core.Option.{some-injective}
use acrev360_backend.Base.{
  ℕ, ◌≡◌, refl, ap, sym, subst, ◌∙◌, ◌⊎◌, inl, inr, Bool, true, false, ◌||◌, none, some, List, [],
  ◌∷◌, arith, ◌==◌, Bool-cases, Option-cases, same_text, All, ==_iff, first, ◌&&◌,
}
use acrev360_backend.Base.Table.{Table, find, find_row}
use acrev360_backend.Base.Table.Laws.{key-find_row, find_row-All}
use acrev360_backend.Models.Tenancy.{Council, council_keyed}
use acrev360_backend.Models.Ref.{bill_number}
use acrev360_backend.Store.{Config, Db, Env, config_keyed}
use acrev360_backend.Channels.Tenants.{
  until_slash, get, set_default, add_council, add_councils, bill_ref_prefix_map, active_council,
  resolve_council_from_bill_ref,
}

abbrev pub has_slash : String → Bool
has_slash String.[] = false
has_slash (String.◌∷◌ c s) = code c == b'/' || has_slash s

-- What the format string of a bill's reference does: the prefix, a slash and the rest.
abbrev pub PrintsBillRef : Env → Type 0
PrintsBillRef env =
    (prefix : String) (year id : ℕ)
    → (rest : String) × (env.print_ref (bill_number prefix year id) ≡ prefix ++ ("/" ++ rest))

until_slash-append :
    (prefix rest : String)
    → has_slash prefix ≡ false
    → until_slash (prefix ++ ("/" ++ rest)) ≡ prefix
unfolding until_slash
until_slash-append String.[] rest h =
    let start : (String.[] ++ ("/" ++ rest)) ≡ "/" ++ rest = append.nil ("/" ++ rest) in
    let slash : ("/" ++ rest) ≡ String.◌∷◌ "/" (String.[] ++ rest) =
      append.cons "/" String.[] rest in
    rw (start, slash) refl
until_slash-append (String.◌∷◌ c s) rest h =
    let step : (String.◌∷◌ c s ++ ("/" ++ rest)) ≡ String.◌∷◌ c (s ++ ("/" ++ rest)) =
      append.cons c s ("/" ++ rest) in
    rw step (ground (arith, until_slash-append s rest))

module _ (k : String) (id : ℕ) where
  -- The prefix is free, or already the council's.
  abbrev IsOpen : List (String × ℕ) → Type 0
  IsOpen m = (get k m ≡ none) ⊎ (get k m ≡ some id)

  set_default-keep :
      (j : String) (v w : ℕ) (m : List (String × ℕ))
      → get k m ≡ some w
      → get k (set_default j v m) ≡ some w
  unfolding get set_default
  set_default-keep j v w m h = ground (arith, eq_iff j k)

  set_default-other :
      (j : String) (v : ℕ) (m : List (String × ℕ))
      → same_text j k ≡ false
      → get k (set_default j v m) ≡ get k m
  unfolding get set_default
  set_default-other j v m h = ground arith

  set_default-IsOpen :
      (j : String) (v : ℕ) (m : List (String × ℕ))
      → (same_text j k ≡ true → v ≡ id)
      → IsOpen m
      → IsOpen (set_default j v m)
  unfolding get set_default
  set_default-IsOpen j v m own (inr h) = inr (set_default-keep j v id m h)
  set_default-IsOpen j v m own (inl h) = elim (Bool-cases (same_text j k)) [
    | inr other ↦ inl (set_default-other j v m other ∙ h)
    | inl same ↦ inr (ground (arith, own same, eq_iff j k))
  ]

  -- Every configuration with that prefix is the council's.
  abbrev IsOwned : Table Config → Type 0
  IsOwned configs =
      All (λ (c : Config). same_text c.bill_ref_prefix k ≡ true → c.id ≡ id) configs.rows

  add_council-IsOpen :
      (configs : Table Config) (c : Council) (m : List (String × ℕ))
      → IsOwned configs
      → IsOpen m
      → IsOpen (add_council configs c m)
  unfolding add_council
  add_council-IsOpen configs c m owned h = elim (Bool-cases c.is_active) [
    | inr off ↦ rw off h
    | inl on ↦ elim (Option-cases (find c.id configs)) [
      | inl gone ↦ rw (on, gone) h
      | inr (config, found) ↦ elim (Bool-cases (same_text config.bill_ref_prefix "")) [
        | inl blank ↦ rw (on, found, blank) h
        | inr solid ↦
            rw (on, found, solid)
              (set_default-IsOpen config.bill_ref_prefix c.id m
                (λ same.
                  sym (key-find_row c.id configs.rows config found)
                  ∙ find_row-All (λ x. same_text x.bill_ref_prefix k ≡ true → x.id ≡ id) c.id
                      configs.rows config found owned same)
                h)
      ]
    ]
  ]

  add_council-keep :
      (configs : Table Config) (c : Council) (m : List (String × ℕ))
      → get k m ≡ some id
      → get k (add_council configs c m) ≡ some id
  unfolding add_council
  add_council-keep configs c m h = elim (Bool-cases c.is_active) [
    | inr off ↦ rw off h
    | inl on ↦ elim (Option-cases (find c.id configs)) [
      | inl gone ↦ rw (on, gone) h
      | inr (config, found) ↦ elim (Bool-cases (same_text config.bill_ref_prefix "")) [
        | inl blank ↦ rw (on, found, blank) h
        | inr solid ↦ rw (on, found, solid) (set_default-keep config.bill_ref_prefix c.id id m h)
      ]
    ]
  ]

  add_councils-keep :
      (configs : Table Config) (cs : List Council) (m : List (String × ℕ))
      → get k m ≡ some id
      → get k (add_councils configs cs m) ≡ some id
  unfolding add_councils
  add_councils-keep configs [] m h = h
  add_councils-keep configs (c ∷ cs) m h =
      add_councils-keep configs cs (add_council configs c m) (add_council-keep configs c m h)

  set_default-hit :
      (v : ℕ) (m : List (String × ℕ)) → v ≡ id → IsOpen m → get k (set_default k v m) ≡ some id
  unfolding get set_default
  set_default-hit v m own (inr h) = set_default-keep k v id m h
  set_default-hit v m own (inl h) = ground (arith, eq_refl k)

  add_council-hit :
      (configs : Table Config) (c : Council) (config : Config) (m : List (String × ℕ))
      → c.is_active ≡ true
      → c.id ≡ id
      → find c.id configs ≡ some config
      → config.bill_ref_prefix ≡ k
      → same_text k "" ≡ false
      → IsOpen m
      → get k (add_council configs c m) ≡ some id
  unfolding add_council
  add_council-hit configs c config m on own found is_prefix solid h =
      let ready : get k (set_default config.bill_ref_prefix c.id m) ≡ some id =
        rw is_prefix (set_default-hit c.id m own h) in
      let filled : same_text config.bill_ref_prefix "" ≡ false = rw is_prefix solid in
      rw (on, found, filled) ready

  add_councils-hit :
      (configs : Table Config) (cs : List Council) (c : Council) (config : Config)
      (m : List (String × ℕ))
      → IsOwned configs
      → find_row id cs ≡ some c
      → c.is_active ≡ true
      → find id configs ≡ some config
      → config.bill_ref_prefix ≡ k
      → same_text k "" ≡ false
      → IsOpen m
      → get k (add_councils configs cs m) ≡ some id
  unfolding add_councils
  add_councils-hit configs [] c config m owned here on found is_prefix solid h = cc
  add_councils-hit configs (d ∷ cs) c config m owned here on found is_prefix solid h =
      elim (Bool-cases (d.id == id)) [
        | inl same ↦
            let own = (==_iff d.id id).0 same in
            let it : d ≡ c = some-injective _ _ (rw same at here) in
            let active : d.is_active ≡ true = rw it on in
            let configured : find d.id configs ≡ some config =
              subst (λ n. find n configs ≡ some config) (sym own) found in
            add_councils-keep configs cs (add_council configs d m)
              (add_council-hit configs d config m active own configured is_prefix solid h)
        | inr other ↦
            add_councils-hit configs cs c config (add_council configs d m) owned (rw other at here)
              on found is_prefix solid (add_council-IsOpen configs d m owned h)
      ]

active_council-found :
    (id : ℕ) (cs : List Council) (c : Council)
    → find_row id cs ≡ some c
    → c.is_active ≡ true
    → first (λ d. d.id == id && d.is_active) cs ≡ some c
active_council-found id [] c here on = cc
active_council-found id (d ∷ cs) c here on = elim (Bool-cases (d.id == id)) [
  | inl same ↦
      let it : d ≡ c = some-injective _ _ (rw same at here) in
      let active : d.is_active ≡ true = rw it on in
      let test : (d.id == id && d.is_active) ≡ true = ground arith in rw test (ap some it)
  | inr other ↦ rw other (active_council-found id cs c (rw other at here) on)
]

resolve_steps :
    (ref prefix : String) (id : ℕ) (db : Db) (c : Council)
    → until_slash ref ≡ prefix
    → same_text prefix "" ≡ false
    → get prefix (bill_ref_prefix_map db) ≡ some id
    → active_council id db ≡ some c
    → resolve_council_from_bill_ref ref db ≡ some c
unfolding resolve_council_from_bill_ref
resolve_steps ref prefix id db c front solid mapped active = ground arith

-- A reference that is printed for a bill of an active council, by its configured prefix, resolves to
-- that council: if the prefix is not blank, has no slash, and no other council has it.
pub resolve_council-print :
    (env : Env) (council : Council) (config : Config) (year id : ℕ) (db : Db)
    → PrintsBillRef env
    → find council.id db.councils ≡ some council
    → council.is_active ≡ true
    → find council.id db.configs ≡ some config
    → All
        (λ (c : Config).
          same_text c.bill_ref_prefix config.bill_ref_prefix ≡ true → c.id ≡ council.id)
        db.configs.rows
    → same_text config.bill_ref_prefix "" ≡ false
    → has_slash config.bill_ref_prefix ≡ false
    → resolve_council_from_bill_ref (env.print_ref (bill_number config.bill_ref_prefix year id)) db
      ≡ some council
unfolding resolve_council_from_bill_ref bill_ref_prefix_map
resolve_council-print env council config year id db prints here on found owned solid plain =
    let prefix = config.bill_ref_prefix in
    let (rest, text) = prints prefix year id in
    let front : until_slash (env.print_ref (bill_number prefix year id)) ≡ prefix =
      ap until_slash text ∙ until_slash-append prefix rest plain in
    let mapped =
      add_councils-hit prefix council.id db.configs db.councils.rows council config [] owned here on
        found refl solid (inl refl) in
    resolve_steps (env.print_ref (bill_number prefix year id)) prefix council.id db council front
      solid mapped (active_council-found council.id db.councils.rows council here on)
