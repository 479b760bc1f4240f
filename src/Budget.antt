-- ===== src/Budget.antt =====
-- The budgets of sean_os/store.py: `configure_budget`, `budget_status`, `_reserve_cost` and
-- `_settle_cost`, with the reservations and the usage events that they write. Amounts are whole and
-- not negative, where the columns are REAL: the rounding of a sum of fractions is left out.
pub mod Accounts
pub mod Conserved
pub mod Invariant
use iac_ai_runtime.Prelude.{
  ℕ, ◌+◌, ◌-◌, String, Bool, true, false, Option, none, some, or_else, List, [], ◌∷◌, ◌++◌, not,
  ◌&&◌, ◌||◌, ◌==◌, any, is_some, ltb, leb, nat_eq, if◌then◌else◌,
}
use iac_ai_runtime.Exec.{
  Result, ok, err, pure, raise, gets, check, when, from_result, ◌>>=◌, ◌>>◌, type_error,
  authorization_error, validation_error, integrity_error,
}
use iac_ai_runtime.Json.{
  Json, null, bool, num, str, arr, obj, end, dict, get_field, float_of, put_field,
}
use iac_ai_runtime.Table.{select, first, update, delete}
use iac_ai_runtime.Db.{
  Scope, scope_eq, has_scope, scopes, scope_name, Actor, Work, Budget, Reservation, Usage,
  budget_blocked, allowed, denied, Db, Store, Clock, Method, write, commit,
}
use iac_ai_runtime.Access.{audit, deny}

-- `float(payload.get("estimated_cost_units", 0))`, for whole amounts, given as numbers or in
-- digits; a payload that is no dict has no `get`
unfoldable pub cost_of : Json → Result ℕ
unfolding get_field float_of
cost_of (obj fs) = float_of (or_else (get_field "estimated_cost_units" fs) (num 0))
cost_of _ = err type_error

-- WHERE owner_scope=? AND period_key=?
unfoldable pub is_budget : Scope → String → Budget → Bool
is_budget scope period b = scope_eq b.owner_scope scope && b.period_key == period

unfoldable pub is_reserved_for : String → Reservation → Bool
is_reserved_for work_id r = r.work_id == work_id

unfoldable pub is_work : String → Work → Bool
is_work work_id w = w.id == work_id

abbrev pub block_for_budget : Clock → Work → Work
block_for_budget c w = record w {
  status = budget_blocked;
  last_error = some "No configured budget or insufficient available units";
  updated_at = c.instant;
}

unfoldable pub add_reserved : ℕ → ℕ → Budget → Budget
add_reserved units at b = record b { reserved_units = b.reserved_units + units; updated_at = at }

unfoldable pub release_reserved : ℕ → ℕ → Budget → Budget
release_reserved units at b = record b {
  reserved_units = b.reserved_units - units;
  updated_at = at;
}

unfoldable pub consume_reserved : ℕ → ℕ → Budget → Budget
consume_reserved units at b = record b {
  reserved_units = b.reserved_units - units;
  used_units = b.used_units + units;
  updated_at = at;
}

-- `budget is None or used + reserved + units > limit`
unfoldable pub lacks_room : ℕ → Option Budget → Bool
lacks_room units none = true
lacks_room units (some b) = ltb b.limit_units (b.used_units + b.reserved_units + units)

-- The two statements of a reservation: UPDATE budgets, and INSERT INTO cost_reservations.
unfoldable pub book : Clock → Work → ℕ → Db → Db
unfolding update is_budget add_reserved
book c w units d = record d {
  budgets = update (is_budget w.owner_scope c.month) (add_reserved units c.instant) d.budgets;
  cost_reservations =
      record {
        work_id = w.id;
        owner_scope = w.owner_scope;
        period_key = c.month;
        units = units;
        created_at = c.instant;
      }
      ∷ d.cost_reservations;
}

unfoldable pub refuse_budget : Clock → Work → Db → Db
unfolding update is_work
refuse_budget c w d = record d {
  work_queue = update (is_work w.id) (block_for_budget c) d.work_queue;
}

-- `_reserve_cost` once the cost is known to be positive
unfoldable pub reserve_units : Clock → Work → ℕ → Method Bool
reserve_units c w units s =
    if is_some (first (is_reserved_for w.id) s.live.cost_reservations)
    then (ok true, s)
    else if lacks_room units (first (is_budget w.owner_scope c.month) s.live.budgets)
    then (ok false, record s { live = refuse_budget c w s.live; is_open = true })
    else (ok true, record s { live = book c w units s.live; is_open = true })

-- `_reserve_cost`
unfoldable pub reserve_cost : Clock → Work → Method Bool
reserve_cost c w = do
  units ← from_result (cost_of w.payload)
  if nat_eq units 0 then pure true else reserve_units c w units

-- What the statements of `_settle_cost` write for the reservation `r`, where the units are consumed
-- and where they are released.
unfoldable pub settled_db : Clock → Reservation → Bool → Db → Db
unfolding update delete is_budget is_reserved_for release_reserved consume_reserved
settled_db c r true d = record d {
  budgets =
      update (is_budget r.owner_scope r.period_key) (consume_reserved r.units c.instant) d.budgets;
  usage_events =
      record {
        work_id = r.work_id;
        owner_scope = r.owner_scope;
        period_key = r.period_key;
        units = r.units;
        occurred_at = c.instant;
      }
      ∷ d.usage_events;
  cost_reservations = delete (is_reserved_for r.work_id) d.cost_reservations;
}
settled_db c r false d = record d {
  budgets =
      update (is_budget r.owner_scope r.period_key) (release_reserved r.units c.instant) d.budgets;
  cost_reservations = delete (is_reserved_for r.work_id) d.cost_reservations;
}

-- A budget of the reservation that holds less than its units.
unfoldable pub is_overdrawn : Reservation → Budget → Bool
unfolding is_budget
is_overdrawn r b = is_budget r.owner_scope r.period_key b && ltb b.reserved_units r.units

-- The statements of `_settle_cost`. The column's CHECK refuses a negative `reserved_units`.
unfoldable pub settle : Clock → Reservation → Bool → Db → Result Db
unfolding is_overdrawn settled_db
settle c r consume d =
    if any (is_overdrawn r) d.budgets then err integrity_error else ok (settled_db c r consume d)

unfoldable pub settled : Store → Result Db → Result (Unit {0}) × Store
settled s (ok d) = (ok tt, record s { live = d; is_open = true })
settled s (err e) = (err e, s)

unfoldable pub settle_found : Clock → Option Reservation → Bool → Method (Unit {0})
settle_found c none consume s = (ok tt, s)
settle_found c (some r) consume s = settled s (settle c r consume s.live)

-- `_settle_cost`
unfoldable pub settle_cost : Clock → String → Bool → Method (Unit {0})
settle_cost c work_id consume s =
    settle_found c (first (is_reserved_for work_id) s.live.cost_reservations) consume s

unfoldable pub set_limit : Clock → Scope → String → ℕ → Db → Db
unfolding update first is_budget
set_limit c scope period limit d =
    if is_some (first (is_budget scope period) d.budgets)
    then record d {
      budgets =
          update (is_budget scope period)
            (λ b. record b { limit_units = limit; updated_at = c.instant }) d.budgets;
    }
    else record d {
      budgets =
          record {
            owner_scope = scope;
            period_key = period;
            limit_units = limit;
            used_units = 0;
            reserved_units = 0;
            updated_at = c.instant;
          }
          ∷ d.budgets;
    }

-- `configure_budget`; a limit is not negative here
unfoldable pub configure_budget : Clock → Actor → Scope → ℕ → Option String → Method (Unit {0})
configure_budget c actor scope limit period_key =
    if not actor.is_sean
    then deny c actor "CONFIGURE_BUDGET" "Only Sean configures budgets" none end
        (authorization_error "Only Sean configures budgets")
    else if not (has_scope scope scopes)
    then raise (validation_error "Valid scope and non-negative limit required")
    else do
      write (set_limit c scope (or_else period_key c.month) limit)
      commit
      audit c actor "CONFIGURE_BUDGET" allowed "Budget limit configured" none (
          dict (
            ("limit_units", num limit)
            ∷ ("period", str (or_else period_key c.month))
            ∷ ("scope", str (scope_name scope))
            ∷ []))

-- `available_units` of `budget_status`
unfoldable pub budget_status : Store → Scope → String → Option (Budget × ℕ)
unfolding first is_budget
budget_status s scope period = elim (first (is_budget scope period) s.live.budgets) [
  | none ↦ none
  | some b ↦ some (b, b.limit_units - b.used_units - b.reserved_units)
]
