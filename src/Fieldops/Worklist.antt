-- ===== src/Fieldops/Worklist.antt =====
-- `get_worklist` of apps/fieldops/services.py: the payers of an agent's ward that are the agent's,
-- those who owe most first. The search by name is a parameter, and so is the order of the names.
pub mod Laws
use acrev360_backend.Base.{
  ℕ, ◌+◌, Bool, true, not, Option, none, some, List, [], ◌∷◌, ltb, ◌==◌, ◌&&◌, ◌||◌, if◌then◌else◌,
  select, sum_of,
}
use acrev360_backend.Models.Accounts.{FieldAgent}
use acrev360_backend.Models.Billing.{Bill, is_terminal}
use acrev360_backend.Models.Registry.{Payer}
use acrev360_backend.Store.{Db}
use acrev360_backend.Common.Scoping.{is_own}

-- The payer's bills that still count.
abbrev pub is_live_bill : ℕ → Bill → Bool
is_live_bill payer b = b.payer == payer && not (is_terminal b.status)

abbrev pub billed : Db → ℕ → ℕ
billed db payer = sum_of (λ b. b.total_amount) (select (is_live_bill payer) db.bills.rows)

abbrev pub paid : Db → ℕ → ℕ
paid db payer = sum_of (λ b. b.amount_paid) (select (is_live_bill payer) db.bills.rows)

-- `outstanding` of the one is more than that of the other; it is the difference of the two sums.
unfoldable pub owes_more : Db → Payer → Payer → Bool
owes_more db a b = ltb (billed db b.id + paid db a.id) (billed db a.id + paid db b.id)

-- `.order_by("-outstanding", "last_name", "first_name")`
unfoldable pub comes_first : Db → (Payer → Payer → Bool) → Payer → Payer → Bool
unfolding owes_more
comes_first db by_name a b = owes_more db a b || not (owes_more db b a) && by_name a b

unfoldable pub insert_sorted : (Payer → Payer → Bool) → Payer → List Payer → List Payer
insert_sorted before x [] = x ∷ []
insert_sorted before x (y ∷ ys) = if before x y then x ∷ (y ∷ ys) else y ∷ insert_sorted before x ys

unfoldable pub sorted : (Payer → Payer → Bool) → List Payer → List Payer
unfolding insert_sorted
sorted before [] = []
sorted before (x ∷ xs) = insert_sorted before x (sorted before xs)

-- `qs.filter(name_search_q(q) | Q(payer_ref__icontains=q))`, if there is a `q`.
abbrev pub passes : Option (Payer → Bool) → Payer → Bool
passes none p = true
passes (some q) p = q p

abbrev pub is_listed : ℕ → ℕ → ℕ → Payer → Bool
is_listed council ward user p = (p.council == council && p.ward == ward) && is_own user p

unfoldable pub get_worklist :
    ℕ → FieldAgent → Option (Payer → Bool) → (Payer → Payer → Bool) → Db → List Payer
unfolding comes_first sorted
get_worklist council agent q by_name db = elim agent.assigned_ward [
  | none ↦ []
  | some ward ↦
      sorted (comes_first db by_name)
        (select (passes q) (select (is_listed council ward agent.user) db.payers.rows))
]
