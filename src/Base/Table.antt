-- ===== src/Base/Table.antt =====
-- A database table: its rows in the order of their ids, and the next value of the id sequence.
pub mod Laws
use Prim.Native.Nat.{ℕ, ◌+◌, ◌<◌}
use mathlib.Core.Logic.{◌≢◌}
use mathlib.Core.Option.{Option, none, some}
use mathlib.Core.List.{List, [], ◌∷◌, ◌++◌}
use acrev360_backend.Base.Tests.{◌==◌, if◌then◌else◌}
use acrev360_backend.Base.Lists.{All}

pub record Keyed {ℓ} (A : Type ℓ) : Type ℓ where
  pub key : A → ℕ

pub record Table {ℓ} (A : Type ℓ) : Type ℓ where
  pub rows : List A
  pub next : ℕ

module _ {ℓ} {A : Type ℓ} ⦃k : Keyed A⦄ where
  open k use {key}

  abbrev pub find_row : ℕ → List A → Option A
  find_row n [] = none
  find_row n (x ∷ xs) = if key x == n then some x else find_row n xs

  abbrev pub modify_rows : ℕ → (A → A) → List A → List A
  modify_rows n f [] = []
  modify_rows n f (x ∷ xs) = (if key x == n then f x else x) ∷ modify_rows n f xs

  abbrev pub remove_rows : ℕ → List A → List A
  remove_rows n [] = []
  remove_rows n (x ∷ xs) = if key x == n then remove_rows n xs else x ∷ remove_rows n xs

  -- `.filter(pk=n).first()`
  abbrev pub find : ℕ → Table A → Option A
  find n t = find_row n t.rows

  -- A `save(update_fields=...)` of the row with that id.
  abbrev pub modify : ℕ → (A → A) → Table A → Table A
  modify n f t = record t { rows = modify_rows n f t.rows }

  -- `.delete()` of the row with that id.
  abbrev pub remove : ℕ → Table A → Table A
  remove n t = record t { rows = remove_rows n t.rows }

  -- Every id has come from the sequence.
  abbrev pub IsBelow : ℕ → List A → Type 0
  IsBelow n = All λ x. key x < n

  -- The primary key: no id stands twice.
  abbrev pub IsUnique : List A → Type 0
  IsUnique [] = Unit
  IsUnique (x ∷ xs) = All (λ y. key y ≢ key x) xs × IsUnique xs

  -- A table whose ids all come from its sequence, each once.
  abbrev pub IsKeyed : Table A → Type 0
  IsKeyed t = IsBelow t.next t.rows × IsUnique t.rows

-- `objects.create(...)`: the row is built from its new id.
abbrev pub insert {ℓ} : {A : Type ℓ} → (ℕ → A) → Table A → Table A
insert make t = record { rows = t.rows ++ (make t.next ∷ []); next = t.next + 1 }
