-- ===== src/Queue/Claim.antt =====
-- `claim_work` of sean_os/store.py: the lease on the next piece of work.
pub mod Lease
pub mod Exclusive
pub mod Progress
pub mod Next
use iac_ai_runtime.Prelude.{
  ℕ, ◌+◌, ◌*◌, String, Bool, true, false, Option, none, some, or_else, holds_text, List, [], ◌∷◌,
  ◌++◌, not, ◌&&◌, ◌||◌, ◌==◌, is_some, is_empty, ltb, leb, nat_eq, if◌then◌else◌,
}
use iac_ai_runtime.Exec.{
  Result, ok, err, pure, raise, gets, check, when, from_result, ◌>>=◌, ◌>>◌, type_error,
  authorization_error, validation_error, integrity_error, key_error,
}
use iac_ai_runtime.Json.{Json, null, bool, num, str, arr, obj, end, dict}
use iac_ai_runtime.Time.{Stamp, utc, text_leb, second}
use iac_ai_runtime.Table.{select, first, first_by, update, delete, count_rows}
use iac_ai_runtime.Security.{has_secret, safe_persisted_text}
use iac_ai_runtime.Db.{
  Scope, scope_eq, has_scope, scopes, scope_name, Actor, Work, WorkStatus, queued, running,
  succeeded, dead_letter, budget_blocked, approval_blocked, policy_blocked, Reservation, allowed,
  denied, failed, Db, Store, Clock, Method, begin, write, commit, rollback,
}
use iac_ai_runtime.Access.{audit, deny, decline, authorize, write_access, kill_switch_enabled}
use iac_ai_runtime.Budget.{is_work, cost_of, reserve_cost, settle_cost, is_reserved_for}
use iac_ai_runtime.Queue.{is_queued, is_running, lease_over, status_name}

-- The WHERE clause of the query of `claim_work`.
unfoldable pub is_claimable : ℕ → List Scope → Work → Bool
is_claimable stamp within w =
    (is_queued w.status && text_leb w.available_at (utc stamp)
      || is_running w.status && lease_over w.lease_expires_at stamp)
    && has_scope w.owner_scope within

-- ORDER BY priority ASC, created_at ASC
unfoldable pub claims_before : Work → Work → Bool
claims_before v w =
    ltb v.priority w.priority || nat_eq v.priority w.priority && ltb v.created_at w.created_at

unfoldable pub select_scopes : List Scope → List Scope
select_scopes [] = []
select_scopes (x ∷ xs) =
    let rest = select_scopes xs in if has_scope x scopes then x ∷ rest else rest

-- `SCOPES if actor.is_sean else actor.scopes & SCOPES`
unfoldable pub worker_scopes : Actor → List Scope
unfolding select_scopes
worker_scopes actor = if actor.is_sean then scopes else select_scopes actor.scopes

-- The row that the query of `claim_work` returns.
unfoldable pub next_work : ℕ → List Scope → Db → Option Work
unfolding select first_by is_claimable claims_before
next_work stamp within d = first_by claims_before (select (is_claimable stamp within) d.work_queue)

unfoldable pub take_lease : Clock → String → ℕ → Work → Work
take_lease c worker lease_seconds w = record w {
  status = running;
  lease_owner = some worker;
  lease_expires_at = some (c.instant + lease_seconds * second);
  attempts = w.attempts + 1;
  updated_at = c.instant;
}

unfoldable pub lease_work : Clock → String → ℕ → Work → Db → Db
unfolding update is_work take_lease
lease_work c worker lease_seconds w d = record d {
  work_queue = update (is_work w.id) (take_lease c worker lease_seconds) d.work_queue;
}

-- `dict(...fetchone())`, the audit row and the return
unfoldable pub report_claim : Clock → Actor → String → Option Work → Method (Option Work)
report_claim c actor worker none = raise type_error
report_claim c actor worker (some w) = do
  audit c actor "CLAIM_WORK" allowed "Durable lease acquired" (some w.id)
      (dict (("attempt", num w.attempts) ∷ ("worker_id", str worker) ∷ []))
  pure (some w)

unfoldable pub grant_work : Clock → Actor → String → ℕ → Work → Method (Option Work)
grant_work c actor worker lease_seconds w = do
  write (lease_work c worker lease_seconds w)
  commit
  row ← gets (λ s. first (is_work w.id) s.live.work_queue)
  report_claim c actor worker row

unfoldable pub claim_row : Clock → Actor → String → ℕ → Option Work → Method (Option Work)
claim_row c actor worker lease_seconds none = do commit; pure none
claim_row c actor worker lease_seconds (some w) = do
  funded ← reserve_cost c w
  if funded
      then grant_work c actor worker lease_seconds w
      else do commit; decline c actor "CLAIM_WORK" "Budget unavailable" (some w.id) end

-- What `claim_work` does inside its transaction
unfoldable pub claim_next : Clock → Actor → String → ℕ → Method (Option Work)
claim_next c actor worker lease_seconds =
    if is_empty (worker_scopes actor)
    then commit >> decline c actor "CLAIM_WORK" "Worker has no authorized scopes" none end
    else do
      row ← gets (λ s. next_work c.instant (worker_scopes actor) s.live)
      claim_row c actor worker lease_seconds row

-- `claim_work` once the kill switch is known to be off
unfoldable pub claim_open : Clock → Actor → String → ℕ → Method (Option Work)
claim_open c actor worker lease_seconds = do begin; claim_next c actor worker lease_seconds

-- `claim_work`
unfoldable pub claim_work : Clock → Actor → String → ℕ → Method (Option Work)
claim_work c actor worker lease_seconds = do
  killed ← kill_switch_enabled
  if killed
      then decline c actor "CLAIM_WORK" "Kill switch is ON" none end
      else claim_open c actor worker lease_seconds
