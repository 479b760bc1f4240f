-- ===== src/Queue/Finish.antt =====
-- `block_work`, `complete_work` and `fail_work` of sean_os/store.py: the ends of a lease.
use iac_ai_runtime.Prelude.{
  ℕ, ◌+◌, ◌*◌, String, Bool, true, false, Option, none, some, holds_text, [], ◌∷◌, ◌&&◌, ◌==◌, leb,
  nat_eq, if◌then◌else◌,
}
use iac_ai_runtime.Exec.{pure, raise, gets, ◌>>=◌, ◌>>◌, authorization_error, validation_error}
use iac_ai_runtime.Json.{Json, num, str, end, dict}
use iac_ai_runtime.Time.{utc, second}
use iac_ai_runtime.Table.{first, update, count_rows}
use iac_ai_runtime.Security.{has_secret, safe_persisted_text}
use iac_ai_runtime.Db.{
  Actor, Work, WorkStatus, queued, succeeded, dead_letter, approval_blocked, policy_blocked,
  Reservation, allowed, denied, failed, Clock, Method, write, commit, rollback,
}
use iac_ai_runtime.Access.{audit, deny}
use iac_ai_runtime.Budget.{is_work, settle_cost, is_reserved_for}
use iac_ai_runtime.Queue.{is_running, status_name}

-- `WHERE id=? AND status='RUNNING' AND lease_owner=?`
unfoldable pub is_held : String → String → Work → Bool
is_held work_id worker w = w.id == work_id && is_running w.status && holds_text w.lease_owner worker

-- An UPDATE of the rows that `is_held` finds; if it counts no row, `rollback` and a raise.
unfoldable pub update_held : String → String → (Work → Work) → Method (Unit {0})
update_held work_id worker f s =
    if nat_eq (count_rows (is_held work_id worker) s.live.work_queue) 1
    then write (λ d. record d { work_queue = update (is_held work_id worker) f d.work_queue }) s
    else (rollback >> raise (authorization_error "Worker does not hold the active lease")) s

abbrev pub blocked_status : Bool → WorkStatus
blocked_status true = approval_blocked
blocked_status false = policy_blocked

abbrev pub set_blocked : Clock → Bool → String → Work → Work
set_blocked c approval_required reason w = record w {
  status = blocked_status approval_required;
  lease_owner = none;
  lease_expires_at = none;
  last_error = some reason;
  updated_at = c.instant;
}

-- `block_work`
unfoldable pub block_work : Clock → Actor → String → String → String → Bool → Method WorkStatus
block_work c actor work_id worker reason approval_required = do
  said ← gets (λ s. safe_persisted_text s.patterns reason)
  update_held work_id worker (set_blocked c approval_required said)
  settle_cost c work_id false
  commit
  audit c actor "BLOCK_WORK" denied said (some work_id) (
      dict (
        ("next_status", str (status_name (blocked_status approval_required)))
        ∷ ("worker_id", str worker)
        ∷ []))
  pure (blocked_status approval_required)

abbrev pub set_succeeded : Clock → Json → Work → Work
set_succeeded c result w = record w {
  status = succeeded;
  payload = result;
  lease_owner = none;
  lease_expires_at = none;
  updated_at = c.instant;
}

-- `float(reservation["units"]) if reservation else 0`
abbrev reserved_of : Option Reservation → ℕ
reserved_of none = 0
reserved_of (some r) = r.units

-- `complete_work`
unfoldable pub complete_work : Clock → Actor → String → String → Json → Method (Unit {0})
complete_work c actor work_id worker result = do
  found ← gets (λ s. has_secret s.patterns result)
  if found
      then deny c actor "COMPLETE_WORK" "Secret-like material is prohibited in completed work"
          (some work_id) end
          (validation_error "Secret-like material is prohibited in completed work")
      else do
        cost ← gets (λ s. reserved_of (first (is_reserved_for work_id) s.live.cost_reservations))
        update_held work_id worker (set_succeeded c result)
        settle_cost c work_id true
        commit
        audit c actor "COMPLETE_WORK" allowed "Work succeeded" (some work_id) (
            dict (
              ("cost_units", num cost)
              ∷ ("outcome", str "SUCCEEDED")
              ∷ ("rollback_status", str "AVAILABLE")
              ∷ ("worker_id", str worker)
              ∷ []))

-- `attempts >= max_attempts`
unfoldable pub next_status : Work → WorkStatus
next_status w = if leb w.max_attempts w.attempts then dead_letter else queued

abbrev pub set_failed : Clock → WorkStatus → ℕ → String → Work → Work
set_failed c status retry_seconds error w = record w {
  status = status;
  available_at = utc (c.instant + retry_seconds * second);
  lease_owner = none;
  lease_expires_at = none;
  last_error = some error;
  updated_at = c.instant;
}

unfoldable pub fail_held :
    Clock → Actor → String → String → String → ℕ → Option Work → Method WorkStatus
fail_held c actor work_id worker error retry_seconds none =
    raise (authorization_error "Worker does not hold the active lease")
fail_held c actor work_id worker error retry_seconds (some w) = do
  write (λ d. record d {
    work_queue =
        update (is_work work_id) (set_failed c (next_status w) retry_seconds error) d.work_queue;
  })
  settle_cost c work_id false
  commit
  audit c actor "FAIL_WORK" failed error (some work_id)
      (dict (("next_status", str (status_name (next_status w))) ∷ ("worker_id", str worker) ∷ []))
  pure (next_status w)

-- `fail_work`
unfoldable pub fail_work : Clock → Actor → String → String → String → ℕ → Method WorkStatus
fail_work c actor work_id worker error retry_seconds = do
  said ← gets (λ s. safe_persisted_text s.patterns error)
  row ← gets (λ s. first (is_held work_id worker) s.live.work_queue)
  fail_held c actor work_id worker said retry_seconds row
