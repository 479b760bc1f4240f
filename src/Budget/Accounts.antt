-- ===== src/Budget/Accounts.antt =====
-- What the keys of the tables `budgets` and `cost_reservations` of sean_os/schema.sql promise,
-- whatever the amounts in their columns are.
use iac_ai_runtime.Prelude.{
  String, ◌≡◌, ◌≢◌, none, List, [], ◌∷◌, All, Bool-cases, inl, inr, arith, refl,
}
use iac_ai_runtime.Table.{first, delete, select}
use iac_ai_runtime.Db.{Budget, Reservation, Db}
use iac_ai_runtime.Budget.{is_budget, is_reserved_for}

-- No two reservations are for the same work.
abbrev pub HasDistinctWork : List Reservation → Type 0
HasDistinctWork [] = Unit
HasDistinctWork (r ∷ rs) = (first (is_reserved_for r.work_id) rs ≡ none) × HasDistinctWork rs

-- No two budgets are for the same scope and period.
abbrev pub HasDistinctKeys : List Budget → Type 0
HasDistinctKeys [] = Unit
HasDistinctKeys (b ∷ bs) =
    (first (is_budget b.owner_scope b.period_key) bs ≡ none) × HasDistinctKeys bs

-- There is a budget for the scope and the period of the reservation.
abbrev pub HasBudget : List Budget → Reservation → Type 0
HasBudget bs r = first (is_budget r.owner_scope r.period_key) bs ≢ none

-- One budget for each scope and period, one reservation for each piece of work, and a budget for
-- each reservation.
pub record IsOrderly (d : Db) : Type 0 where
  pub keyed : HasDistinctKeys d.budgets
  pub distinct : HasDistinctWork d.cost_reservations
  pub backed : All (HasBudget d.budgets) d.cost_reservations

first-delete :
    (id other : String) (rs : List Reservation)
    → first (is_reserved_for other) rs ≡ none
    → first (is_reserved_for other) (delete (is_reserved_for id) rs) ≡ none
unfolding first delete select
first-delete id other [] e = refl
first-delete id other (r ∷ rs) e = ground (arith, first-delete id other rs)

pub delete-HasDistinctWork :
    (id : String) (rs : List Reservation)
    → HasDistinctWork rs
    → HasDistinctWork (delete (is_reserved_for id) rs)
unfolding delete select
delete-HasDistinctWork id [] h = tt
delete-HasDistinctWork id (r ∷ rs) h = elim (Bool-cases (is_reserved_for id r)) [
  | inl hit ↦ rw hit (delete-HasDistinctWork id rs h.1)
  | inr miss ↦ rw miss (first-delete id r.work_id rs h.0, delete-HasDistinctWork id rs h.1)
]
