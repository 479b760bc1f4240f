-- ===== src/Queue.antt =====
-- The durable work queue of sean_os/store.py: the tests on its rows and `enqueue_work`. Claiming
-- and finishing work are in the modules below.
pub mod Claim
pub mod Finish
pub mod Preserves
pub mod History
pub mod Hold
use iac_ai_runtime.Prelude.{
  ℕ, ◌+◌, ◌*◌, String, Bool, true, false, Option, none, some, or_else, holds_text, List, [], ◌∷◌,
  ◌++◌, not, ◌&&◌, ◌||◌, ◌==◌, is_some, is_empty, ltb, leb, nat_eq, if◌then◌else◌,
}
use iac_ai_runtime.Exec.{
  Result, ok, err, pure, raise, gets, check, when, from_result, ◌>>=◌, ◌>>◌, type_error,
  authorization_error, validation_error, integrity_error, key_error,
}
use iac_ai_runtime.Json.{Json, null, bool, num, str, arr, obj, end, dict}
use iac_ai_runtime.Time.{Stamp, utc, text_leb, second}
use iac_ai_runtime.Table.{select, first, first_by, update, delete, count_rows}
use iac_ai_runtime.Security.{has_secret, safe_persisted_text}
use iac_ai_runtime.Db.{
  Scope, scope_eq, has_scope, scopes, scope_name, Actor, Work, WorkStatus, queued, running,
  succeeded, dead_letter, budget_blocked, approval_blocked, policy_blocked, Reservation, allowed,
  denied, failed, Db, Store, Clock, Method, write, commit, rollback,
}
use iac_ai_runtime.Access.{audit, deny, decline, authorize, write_access, kill_switch_enabled}
use iac_ai_runtime.Budget.{is_work, cost_of, reserve_cost, settle_cost, is_reserved_for}

abbrev pub is_queued : WorkStatus → Bool
is_queued queued = true
is_queued _ = false

abbrev pub is_running : WorkStatus → Bool
is_running running = true
is_running _ = false

-- `lease_expires_at<=?`, which NULL fails
abbrev pub lease_over : Option ℕ → ℕ → Bool
lease_over none stamp = false
lease_over (some e) stamp = leb e stamp

abbrev pub status_name : WorkStatus → String
status_name queued = "QUEUED"
status_name running = "RUNNING"
status_name succeeded = "SUCCEEDED"
status_name dead_letter = "DEAD_LETTER"
status_name budget_blocked = "BUDGET_BLOCKED"
status_name approval_blocked = "APPROVAL_BLOCKED"
status_name policy_blocked = "POLICY_BLOCKED"

-- `enqueue_work`; `work_id` is the new `uuid4`. The table's key refuses one that is there.
unfoldable pub enqueue_work :
    Clock → Actor → String → String → Scope → Json → ℕ → ℕ → Option Stamp → Method String
enqueue_work c actor work_id task_type scope payload priority max_attempts available_at = do
  authorize actor scope [] write_access
  found ← gets (λ s. has_secret s.patterns payload)
  when found (
      deny c actor "ENQUEUE_WORK" "Secret-like material is prohibited in durable work payloads" none
        end (validation_error "Secret-like material is prohibited in durable work payloads"))
  check (leb 1 max_attempts && leb max_attempts 10)
      (validation_error "max_attempts must be between 1 and 10")
  taken ← gets (λ s. is_some (first (is_work work_id) s.live.work_queue))
  check (not taken) integrity_error
  write (λ d. record d {
    work_queue =
        d.work_queue
        ++ record {
          id = work_id;
          task_type = task_type;
          owner_scope = scope;
          payload = payload;
          status = queued;
          priority = priority;
          attempts = 0;
          max_attempts = max_attempts;
          available_at = or_else available_at (utc c.instant);
          lease_owner = none;
          lease_expires_at = none;
          last_error = none;
          created_at = c.instant;
          updated_at = c.instant;
        }
          ∷ [];
  })
  commit
  audit c actor "ENQUEUE_WORK" allowed "Authorized durable work item" (some work_id)
      (dict (("scope", str (scope_name scope)) ∷ ("task_type", str task_type) ∷ []))
  pure work_id
