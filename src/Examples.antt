-- ===== src/Examples.antt =====
-- Concrete stores, and the theorems at them.
mod Approvals
mod Runs
mod Monitoring
mod Progress
mod Transfers
use iac_ai_runtime.Queue.Finish.{is_held, fail_held, fail_work}
use iac_ai_runtime.Queue.Hold.History.{claimed_id, lease_is_kept, lease_is_exclusive}
use iac_ai_runtime.Budget.Accounts.{IsOrderly}
use iac_ai_runtime.Access.Preserves.{InDb}
use iac_ai_runtime.Queue.Claim.Next.{IsNext, claim_work-IsNext}
use iac_ai_runtime.Queue.Claim.Exclusive.{IsLeased}
use iac_ai_runtime.Text.{codes, same_codes, normalized}
use iac_ai_runtime.Budget.{
  is_work, is_reserved_for, is_budget, add_reserved, book, refuse_budget, lacks_room, reserve_units,
  cost_of, reserve_cost,
}
use iac_ai_runtime.Table.{update, first, select, first_by}
use iac_ai_runtime.Access.{
  deny, decline, redact, audit_row, audit_uncommitted, audit, kill_switch_enabled,
}
use iac_ai_runtime.Time.{text_leb, utc}
use iac_ai_runtime.Json.{end, float_of, get_field, merge, obj, dict, num}
use iac_ai_runtime.Exec.{raise, from_result, gets, pure, ◌>>=◌, ok}
use iac_ai_runtime.Security.{
  has_secret, safe_persisted_text, key_findings, text_findings, is_sensitive_key, secret_findings,
  Search,
}
use iac_ai_runtime.Db.{
  begin, commit, write, scope_eq, has_scope, queued, development, sean, running, empty_db, iac,
  Clock, Budget, Store, Work,
}
use iac_ai_runtime.Queue.Claim.{
  claim_next, report_claim, take_lease, lease_work, grant_work, claims_before, is_claimable,
  next_work, select_scopes, worker_scopes, claim_row, claim_open, claim_work,
}
use iac_ai_runtime.Prelude.{
  ◌==◌, inr, arith, ap, ◌≢◌, none, some, ℕ, String, Bool, false, true, List, [], ◌∷◌, ◌≡◌, refl,
}
use iac_ai_runtime.Queue.History.{
  completes, enqueues, claims, new_store, call, configures, perform, fails, Call, run, OwnerCall,
  run_owner, books_in_order,
}

abbrev quiet : Search
quiet kind text = false

abbrev item : Work
item = record {
  id = "w1";
  task_type = "REPORT";
  owner_scope = iac;
  payload = obj (dict (("estimated_cost_units", num 3) ∷ []));
  status = queued;
  priority = 5;
  attempts = 0;
  max_attempts = 2;
  available_at = utc 10;
  lease_owner = none;
  lease_expires_at = none;
  last_error = none;
  created_at = 10;
  updated_at = 10;
}

abbrev other_item : Work
other_item = record item { id = "w2"; payload = obj end; priority = 7 }

abbrev month_budget : Budget
month_budget = record {
  owner_scope = iac;
  period_key = "2026-01";
  limit_units = 4;
  used_units = 0;
  reserved_units = 0;
  updated_at = 10;
}

abbrev at : ℕ → Clock
at t = record { instant = t; month = "2026-01" }

abbrev some_store : Store
some_store = record {
  live = record empty_db { work_queue = item ∷ other_item ∷ []; budgets = month_budget ∷ [] };
  durable = record empty_db { work_queue = item ∷ other_item ∷ []; budgets = month_budget ∷ [] };
  is_open = false;
  scope_profile = development;
  patterns = quiet;
}

abbrev leased_item : Work
leased_item = record item {
  status = running;
  attempts = 1;
  lease_owner = some "ann";
  lease_expires_at = some 60000020;
  updated_at = 20;
}

abbrev after_claim : Store
after_claim = (claim_work (at 20) sean "ann" 60 some_store).1

first_claim : claim_work (at 20) sean "ann" 60 some_store ≡ (ok (some leased_item), after_claim)
unfolding claim_work claim_open begin claim_next claim_row kill_switch_enabled worker_scopes
    select_scopes has_scope scope_eq next_work first_by select is_claimable text_leb claims_before
    reserve_cost cost_of reserve_units lacks_room refuse_budget book add_reserved is_budget
    is_reserved_for is_work first update grant_work lease_work take_lease report_claim audit
    audit_uncommitted audit_row redact write commit ◌>>=◌ decline deny pure gets from_result
    secret_findings is_sensitive_key text_findings key_findings normalized same_codes merge
    get_field float_of
first_claim = refl

abbrev stale_calls : List (Clock × Call)
stale_calls = (at 30, fails sean "w1" "bob" "lost" 5) ∷ []

abbrev after_stale : Store
after_stale = run after_claim stale_calls

bob_is_not_ann : ◌≢◌ {A = String} "bob" "ann"
bob_is_not_ann e = absurd (cc (ap (λ t. t == "ann") e))

lease_is_kept_example : InDb (IsLeased "w1" "ann" 60000020) after_stale
lease_is_kept_example =
    lease_is_kept (at 20) sean "ann" 60 some_store leased_item after_claim stale_calls first_claim
      (inr bob_is_not_ann, tt)

lease_is_exclusive_example : claimed_id (claim_work (at 40) sean "bob" 60 after_stale).0 ≢ some "w1"
lease_is_exclusive_example =
    lease_is_exclusive (at 20) (at 40) sean sean "ann" "bob" 60 60 some_store leased_item
      after_claim stale_calls first_claim (inr bob_is_not_ann, tt) (omega arith)

claim_work-IsNext_example : IsNext (at 20) sean "ann" 60 some_store leased_item after_claim
unfolding first is_work
claim_work-IsNext_example =
    claim_work-IsNext (at 20) sean "ann" 60 some_store leased_item after_claim (refl, (refl, tt))
      first_claim

abbrev all_calls : List (Clock × OwnerCall)
all_calls =
    (at 10, configures sean iac 4 none)
    ∷ (at 10, call (enqueues sean "w1" "REPORT" iac item.payload 5 2 none))
    ∷ (at 20, call (claims sean "ann" 60))
    ∷ (at 30, call (completes sean "w1" "ann" (obj end)))
    ∷ []

books_in_order_example : InDb IsOrderly (run_owner (new_store development quiet) all_calls)
books_in_order_example = books_in_order development quiet all_calls
