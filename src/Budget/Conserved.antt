-- ===== src/Budget/Conserved.antt =====
-- The statements of `_reserve_cost`, `_settle_cost` and `configure_budget` keep the keys of the
-- budgets and of the reservations.
use iac_ai_runtime.Prelude.{
  ℕ, String, Bool, true, false, ◌&&◌, ◌==◌, ◌≡◌, ◌≢◌, refl, ap₂, subst, Option, none, some, List,
  [], ◌∷◌, All, any, Bool-cases, Option-cases, inl, inr, arith,
}
use iac_ai_runtime.Exec.{ok}
use iac_ai_runtime.Table.{first, update}
use iac_ai_runtime.Table.Laws.{delete-All, All-map, update-first-none, first-update-none}
use iac_ai_runtime.Db.{Scope, scope_eq, Budget, Reservation, Work, Db, Clock}
use iac_ai_runtime.Budget.{
  is_budget, is_overdrawn, settled_db, set_limit, is_reserved_for, lacks_room, add_reserved,
  release_reserved, consume_reserved, book, settle,
}
use iac_ai_runtime.Budget.Accounts.{HasDistinctKeys, HasBudget, IsOrderly, delete-HasDistinctWork}

has_room : (units : ℕ) (o : Option Budget) → lacks_room units o ≡ false → o ≢ none
unfolding lacks_room
has_room units none e = absurd (cc)
has_room units (some b) e = λ g. cc

-- An UPDATE of columns outside the key keeps the keys distinct.
pub update-HasDistinctKeys :
    (q : Budget → Bool) (f : Budget → Budget) (bs : List Budget)
    → ((b : Budget) → ((f b).owner_scope ≡ b.owner_scope) × ((f b).period_key ≡ b.period_key))
    → HasDistinctKeys bs
    → HasDistinctKeys (update q f bs)
unfolding update is_budget
update-HasDistinctKeys q f [] same k = tt
update-HasDistinctKeys q f (b ∷ bs) same k =
    let apart =
      update-first-none (is_budget b.owner_scope b.period_key) q f bs
        (λ y. ap₂ (λ o p. scope_eq o b.owner_scope && p == b.period_key) (same y).0 (same y).1)
        k.0 in
    let rest = update-HasDistinctKeys q f bs same k.1 in
    elim (Bool-cases (q b)) [
      | inl hit ↦ rw hit (rw ((same b).0, (same b).1) apart, rest)
      | inr miss ↦ rw miss (apart, rest)
    ]

-- An UPDATE of columns outside the key leaves every reservation its budget.
update-HasBudget :
    (q : Budget → Bool) (f : Budget → Budget) (bs : List Budget) (rs : List Reservation)
    → ((b : Budget) → ((f b).owner_scope ≡ b.owner_scope) × ((f b).period_key ≡ b.period_key))
    → All (HasBudget bs) rs
    → All (HasBudget (update q f bs)) rs
unfolding is_budget
update-HasBudget q f bs rs same = All-map _ _ rs (λ r h gone. h (
    first-update-none (is_budget r.owner_scope r.period_key) q f bs
      (λ y. ap₂ (λ o p. scope_eq o r.owner_scope && p == r.period_key) (same y).0 (same y).1) gone))

module _ (c : Clock) (w : Work) (units : ℕ) (d : Db) where
  pub book-IsOrderly :
      IsOrderly d
      → first (is_reserved_for w.id) d.cost_reservations ≡ none
      → lacks_room units (first (is_budget w.owner_scope c.month) d.budgets) ≡ false
      → IsOrderly (book c w units d)
  unfolding book add_reserved is_budget
  book-IsOrderly h fresh room = record {
    keyed = update-HasDistinctKeys _ _ d.budgets (λ b. (refl, refl)) h.keyed;
    distinct = (fresh, h.distinct);
    backed =
        update-HasBudget _ _ d.budgets (book c w units d).cost_reservations (λ b. (refl, refl))
          (has_room units _ room, h.backed);
  }

settled-IsOrderly :
    (c : Clock) (r : Reservation) (consume : Bool) (d : Db)
    → IsOrderly d
    → IsOrderly (settled_db c r consume d)
unfolding settled_db consume_reserved release_reserved
settled-IsOrderly c r true d h = record {
  keyed = update-HasDistinctKeys _ _ d.budgets (λ b. (refl, refl)) h.keyed;
  distinct = delete-HasDistinctWork r.work_id d.cost_reservations h.distinct;
  backed =
      delete-All _ (is_reserved_for r.work_id) d.cost_reservations
        (update-HasBudget _ _ d.budgets d.cost_reservations (λ b. (refl, refl)) h.backed);
}
settled-IsOrderly c r false d h = record {
  keyed = update-HasDistinctKeys _ _ d.budgets (λ b. (refl, refl)) h.keyed;
  distinct = delete-HasDistinctWork r.work_id d.cost_reservations h.distinct;
  backed =
      delete-All _ (is_reserved_for r.work_id) d.cost_reservations
        (update-HasBudget _ _ d.budgets d.cost_reservations (λ b. (refl, refl)) h.backed);
}

settle_ok_db :
    (c : Clock) (r : Reservation) (consume : Bool) (d : Db) {e : Db}
    → settle c r consume d ≡ ok e
    → (any (is_overdrawn r) d.budgets ≡ false) × (settled_db c r consume d ≡ e)
unfolding settle
settle_ok_db c r consume d e = ground arith

pub settle-IsOrderly :
    (c : Clock) (r : Reservation) (consume : Bool) (d : Db) {e : Db}
    → IsOrderly d
    → settle c r consume d ≡ ok e
    → IsOrderly e
settle-IsOrderly c r consume d h e =
    subst IsOrderly (settle_ok_db c r consume d e).1 (settled-IsOrderly c r consume d h)

-- A new limit of a budget, or a new budget where there is none.
pub set_limit-IsOrderly :
    (c : Clock) (scope : Scope) (period : String) (limit : ℕ) (d : Db)
    → IsOrderly d
    → IsOrderly (set_limit c scope period limit d)
unfolding set_limit
set_limit-IsOrderly c scope period limit d h =
    elim (Option-cases (first (is_budget scope period) d.budgets)) [
      | inl none_yet ↦ rw none_yet (record {
        keyed = (none_yet, h.keyed);
        distinct = h.distinct;
        backed = All-map _ _ d.cost_reservations (λ r k gone. k (ground (arith))) h.backed;
      })
      | inr (b, there) ↦ rw there (record {
        keyed = update-HasDistinctKeys _ _ d.budgets (λ x. (refl, refl)) h.keyed;
        distinct = h.distinct;
        backed = update-HasBudget _ _ d.budgets d.cost_reservations (λ x. (refl, refl)) h.backed;
      })
    ]
