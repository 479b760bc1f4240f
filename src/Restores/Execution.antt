-- ===== src/Restores/Execution.antt =====
-- The ends of a leased backup restore in sean_os/store.py: failure, hold, guard and completion.
use iac_ai_runtime.Prelude.{
  ℕ, ◌+◌, ◌*◌, String, Bool, true, false, Option, none, some, or_else, holds_text, [], ◌∷◌, not,
  ◌&&◌, ◌||◌, ◌==◌, is_some, leb, nat_eq, if◌then◌else◌,
}
use iac_ai_runtime.Text.{has_content}
use iac_ai_runtime.Exec.{
  Error, Result, ok, err, pure, raise, gets, check, when, from_result, ◌>>=◌, ◌>>◌,
  authorization_error, validation_error,
}
use iac_ai_runtime.Json.{Json, bool, str, obj, dict}
use iac_ai_runtime.Time.{Stamp, Iso, utc, text_leb, instant_leb, second}
use iac_ai_runtime.Table.{first, update, count_rows}
use iac_ai_runtime.Security.{has_secret}
use iac_ai_runtime.Db.{iac, Actor, allowed, failed, Clock, Method, write, commit, rollback}
use iac_ai_runtime.Access.{audit, deny, authorize, write_access, kill_switch_enabled}
use iac_ai_runtime.Db.{Restore, RestoreStatus}
use iac_ai_runtime.Transfers.{text_at, same_payload}
use iac_ai_runtime.Restores.{
  Evidence, is_authorized, is_restored, is_plan, get_backup_restore, restore_status_name,
}
use iac_ai_runtime.Restores.Approval.{given_time, in_window}
use iac_ai_runtime.Restores.Lease.{lease_passed, window_of}

-- WHERE restore_plan_sha256=? AND status='AUTHORIZED' AND lease_owner=?
unfoldable pub is_leased_to : String → String → Restore → Bool
is_leased_to plan worker t =
    t.restore_plan_sha256 == plan && is_authorized t.status && holds_text t.lease_owner worker

abbrev pub after_failure : Restore → RestoreStatus
after_failure t =
    if leb t.max_attempts t.attempt_count then RestoreStatus.failed else RestoreStatus.authorized

abbrev pub no_lease : Error
no_lease = authorization_error "Worker does not hold the active backup restore lease"

unfoldable pub fail_restore :
    Clock → Actor → String → String → ℕ → Option Restore → Method RestoreStatus
fail_restore c actor plan error retry none = raise no_lease
fail_restore c actor plan error retry (some t) = do
  authorize actor iac [] write_access
  write (λ d. record d {
    backup_restore_outbox =
        update (is_plan plan)
          (λ u. record u {
            status = after_failure t;
            available_at = c.instant + retry * second;
            lease_owner = none;
            lease_expires_at = none;
            last_error = some error;
            updated_at = utc c.instant;
          })
          d.backup_restore_outbox;
  })
  commit
  audit c actor "FAIL_BACKUP_RESTORE" failed error (some plan) (
      dict (
        ("network_performed", bool false)
        ∷ ("next_status", str (restore_status_name (after_failure t)))
        ∷ ("scope", str "IAC")
        ∷ []))
  pure (after_failure t)

-- `fail_claimed_backup_restore`
unfoldable pub fail_claimed_backup_restore :
    Clock → Actor → String → String → String → ℕ → Method RestoreStatus
fail_claimed_backup_restore c actor plan worker error retry = do
  check (has_content error) (validation_error "Backup restore failure requires an error")
  found ← gets (λ s. has_secret s.patterns (obj (dict (("error", str error) ∷ []))))
  check (not found) (validation_error "Secret-like material is prohibited in restore failures")
  check (leb retry 3600)
      (validation_error "Backup restore retry must be between 0 and 3600 seconds")
  row ← gets (λ s. first (is_leased_to plan worker) s.live.backup_restore_outbox)
  fail_restore c actor plan error retry row

unfoldable pub hold_restore :
    Clock → Actor → String → String → String → Option Restore → Method RestoreStatus
hold_restore c actor plan worker error none = raise no_lease
hold_restore c actor plan worker error (some t) = do
  authorize actor iac [] write_access
  write (λ d. record d {
    backup_restore_outbox =
        update (is_leased_to plan worker)
          (λ u. record u {
            status = RestoreStatus.reconciliation_required;
            lease_owner = none;
            lease_expires_at = none;
            last_error = some error;
            updated_at = utc c.instant;
          })
          d.backup_restore_outbox;
  })
  commit
  audit c actor "HOLD_BACKUP_RESTORE_FOR_RECONCILIATION" failed error (some plan) (
      dict (
        ("automatic_retry_permitted", bool false)
        ∷ ("next_status", str "RECONCILIATION_REQUIRED")
        ∷ ("scope", str "IAC")
        ∷ []))
  pure RestoreStatus.reconciliation_required

-- `hold_claimed_backup_restore_for_reconciliation`
unfoldable pub hold_claimed_backup_restore_for_reconciliation :
    Clock → Actor → String → String → String → Method RestoreStatus
hold_claimed_backup_restore_for_reconciliation c actor plan worker error = do
  check (has_content error) (validation_error "Backup restore reconciliation requires an error")
  found ← gets (λ s. has_secret s.patterns (obj (dict (("error", str error) ∷ []))))
  check (not found) (validation_error "Secret-like material is prohibited in restore failures")
  row ← gets (λ s. first (is_leased_to plan worker) s.live.backup_restore_outbox)
  hold_restore c actor plan worker error row

abbrev pub lease_ended : Option Stamp → Stamp → Bool
lease_ended none at = true
lease_ended (some e) at = instant_leb e at

-- The chain of tests that sets `reason`, without the window of the plan
unfoldable pub guard_refusal : Bool → String → Stamp → Option Restore → Option String
unfolding instant_leb
guard_refusal true worker at row = some "Kill switch is ON"
guard_refusal false worker at none = some "Backup restore plan not found"
guard_refusal false worker at (some t) =
    if not (is_authorized t.status) || or_else t.approval_id "" == ""
    then some "Backup restore is not authorized"
    else if not (holds_text t.lease_owner worker) || not (is_some t.lease_expires_at)
    then some "Worker does not hold the backup restore lease"
    else if lease_ended t.lease_expires_at at
    then some "Backup restore lease expired"
    else none

-- the last branch of the chain
abbrev pub window_refusal : Stamp → Result (Stamp × Stamp) → Result (Option String)
unfolding in_window
window_refusal at (err e) = err e
window_refusal at (ok (start, stop)) =
    if in_window start at stop
    then ok none
    else ok (some "Backup restore is outside the exact approved window")

unfoldable pub guard_answer : Clock → Actor → String → String → Option String → Method Restore
guard_answer c actor plan worker (some why) =
    deny c actor "GUARD_BACKUP_RESTORE" why (some plan)
      (dict
        (("network_performed", bool false) ∷ ("scope", str "IAC") ∷ ("worker_id", str worker) ∷ []))
      (authorization_error why)
guard_answer c actor plan worker none = get_backup_restore actor plan

-- ... AND lease_owner=? AND lease_expires_at>?
unfoldable pub is_live_lease : String → String → Stamp → Restore → Bool
unfolding text_leb
is_live_lease plan worker stamp t =
    t.restore_plan_sha256 == plan
    && is_authorized t.status
    && holds_text t.lease_owner worker
    && is_some t.lease_expires_at
    && not (lease_passed t.lease_expires_at stamp)

unfoldable pub set_restored : Stamp → Json → String → Restore → Restore
set_restored stamp payload restored_at t = record t {
  status = RestoreStatus.restored;
  receipt_payload = some payload;
  completed_at = some restored_at;
  updated_at = stamp;
  lease_owner = none;
  lease_expires_at = none;
  last_error = none;
}

unfoldable pub store_receipt :
    Clock → Actor → String → String → Stamp → Json → String → Method Restore
store_receipt c actor plan worker stamp verified restored_at = do
  found ← gets (λ s. count_rows (is_live_lease plan worker stamp) s.live.backup_restore_outbox)
  when (not (nat_eq found 1))
      (rollback >> raise (authorization_error "Backup restore lease changed before completion"))
  write (λ d. record d {
    backup_restore_outbox =
        update (is_live_lease plan worker stamp) (set_restored stamp verified restored_at)
          d.backup_restore_outbox;
  })
  commit
  audit c actor "COMPLETE_BACKUP_RESTORE" allowed
      "Authenticated isolated restore and database integrity evidence verified" (some plan)
      (dict (
        ("decrypted", bool true)
        ∷ ("downloaded", bool true)
        ∷ ("isolated_restore", bool true)
        ∷ ("overwrite_performed", bool false)
        ∷ ("provider", str "BACKBLAZE_B2")
        ∷ ("restored", bool true)
        ∷ ("scope", str "IAC")
        ∷ []))
  get_backup_restore actor plan

module _ (evidence : Evidence) where
  -- `reason` of `assert_backup_restore_execution_allowed`
  unfoldable pub full_refusal : Stamp → Option String → Option Restore → Result (Option String)
  full_refusal at (some why) row = ok (some why)
  full_refusal at none none = ok none
  full_refusal at none (some t) =
      window_refusal at (window_of evidence (evidence.verify_plan t.plan_payload))

  -- `assert_backup_restore_execution_allowed`
  unfoldable pub assert_backup_restore_execution_allowed :
      Clock → Actor → String → String → Option Iso → Method Restore
  assert_backup_restore_execution_allowed c actor plan worker at = do
    authorize actor iac [] write_access
    instant ← from_result (
        given_time "Backup restore guard time must be ISO-8601"
          "Backup restore guard time must include a timezone" c.instant at)
    row ← gets (λ s. first (is_plan plan) s.live.backup_restore_outbox)
    killed ← kill_switch_enabled
    why ← from_result (full_refusal instant (guard_refusal killed worker instant row) row)
    guard_answer c actor plan worker why

  unfoldable pub same_receipt : Actor → String → Json → Restore → Method Restore
  same_receipt actor plan receipt t = do
    verified ← from_result (evidence.verify_receipt receipt t.plan_payload)
    if same_payload t.receipt_payload verified
        then get_backup_restore actor plan
        else raise no_lease

  -- No row is leased: a receipt that was stored already is answered again.
  unfoldable pub answer_again : Actor → String → Json → Option Restore → Method Restore
  answer_again actor plan receipt none = raise no_lease
  answer_again actor plan receipt (some t) =
      if is_restored t.status then same_receipt actor plan receipt t else raise no_lease

  unfoldable pub complete_row :
      Clock → Actor → String → String → Json → Stamp → Option Restore → Method Restore
  complete_row c actor plan worker receipt stamp none = do
    row ← gets (λ s. first (is_plan plan) s.live.backup_restore_outbox)
    answer_again actor plan receipt row
  complete_row c actor plan worker receipt stamp (some t) = do
    authorize actor t.owner_scope [] write_access
    verified ← from_result (evidence.verify_receipt receipt t.plan_payload)
    restored_at ← from_result (text_at "restored_at" verified)
    store_receipt c actor plan worker stamp verified restored_at

  -- `complete_claimed_backup_restore`; a text `at` is compared as it stands, here a time with a
  -- zone.
  unfoldable pub complete_claimed_backup_restore :
      Clock → Actor → String → String → Json → Option Stamp → Method Restore
  complete_claimed_backup_restore c actor plan worker receipt at = do
    killed ← kill_switch_enabled
    check (not killed) (authorization_error "Kill switch is ON; backup restore completion denied")
    row ← gets (λ s.
        first (is_live_lease plan worker (or_else at (utc c.instant))) s.live.backup_restore_outbox)
    complete_row c actor plan worker receipt (or_else at (utc c.instant)) row
