-- ===== src/Transfers/Lease.antt =====
-- The leases on backup transfers in sean_os/store.py: claiming one, and failing or holding it.
use iac_ai_runtime.Prelude.{
  ℕ, ◌+◌, ◌*◌, String, Bool, true, false, Option, none, some, holds_text, List, [], ◌∷◌, not, ◌&&◌,
  ◌||◌, ◌==◌, is_some, ltb, leb, nat_eq, if◌then◌else◌,
}
use iac_ai_runtime.Text.{has_content}
use iac_ai_runtime.Exec.{
  pure, raise, gets, check, ◌>>=◌, ◌>>◌, authorization_error, validation_error,
}
use iac_ai_runtime.Json.{Json, bool, num, str, obj, end, dict}
use iac_ai_runtime.Time.{second}
use iac_ai_runtime.Table.{select, first, first_by, update, count_rows}
use iac_ai_runtime.Security.{has_secret}
use iac_ai_runtime.Db.{
  iac, has_scope, Actor, allowed, failed, Clock, Method, begin, write, commit, rollback,
}
use iac_ai_runtime.Access.{audit, decline, authorize, write_access, kill_switch_enabled}
use iac_ai_runtime.Db.{Transfer, TransferStatus, reconciliation_required}
use iac_ai_runtime.Queue.{lease_over}
use iac_ai_runtime.Transfers.{
  is_authorized, is_iac_profile, is_plan, get_backup_transfer, transfers_before,
  transfer_status_name,
}

-- `lease_owner IS NULL OR lease_expires_at<=?`
abbrev pub is_free : ℕ → Transfer → Bool
is_free stamp t = not (is_some t.lease_owner) || lease_over t.lease_expires_at stamp

-- AUTHORIZED, without an attempt left, and under no lease that runs
unfoldable pub is_exhausted : ℕ → Transfer → Bool
is_exhausted stamp t =
    is_authorized t.status && leb t.max_attempts t.attempt_count && is_free stamp t

unfoldable pub is_ready : ℕ → Transfer → Bool
is_ready stamp t =
    is_authorized t.status
    && leb t.available_at stamp
    && ltb t.attempt_count t.max_attempts
    && is_free stamp t

unfoldable pub close_exhausted : ℕ → Transfer → Transfer
close_exhausted stamp t = record t {
  status = TransferStatus.failed;
  last_error = some "Lease expired after maximum attempts";
  updated_at = stamp;
  lease_owner = none;
  lease_expires_at = none;
}

unfoldable pub lease_transfer : Clock → String → ℕ → Transfer → Transfer
lease_transfer c worker seconds t = record t {
  lease_owner = some worker;
  lease_expires_at = some (c.instant + seconds * second);
  attempt_count = t.attempt_count + 1;
  updated_at = c.instant;
}

-- WHERE plan_sha256=? AND status='AUTHORIZED' AND (lease_owner IS NULL OR lease_expires_at<=?)
unfoldable pub is_takable : String → ℕ → Transfer → Bool
is_takable plan stamp t = t.plan_sha256 == plan && is_authorized t.status && is_free stamp t

-- the loop over `terminal`
unfoldable pub audit_terminal : Clock → Actor → List Transfer → Method (Unit {0})
audit_terminal c actor [] = pure tt
audit_terminal c actor (t ∷ ts) = do
  audit c actor "FAIL_BACKUP_TRANSFER" failed "Lease expired after maximum attempts"
      (some t.plan_sha256)
      (dict (
        ("network_performed", bool false)
        ∷ ("recovered_from_expired_lease", bool true)
        ∷ ("scope", str "IAC")
        ∷ []))
  audit_terminal c actor ts

unfoldable pub report_transfer : Clock → Actor → String → String → Method (Option Transfer)
report_transfer c actor worker plan = do
  claimed ← get_backup_transfer actor plan
  audit c actor "CLAIM_BACKUP_TRANSFER" allowed "Authorized backup transfer lease acquired"
      (some plan)
      (dict (
        ("attempt", num claimed.attempt_count)
        ∷ ("network_performed", bool false)
        ∷ ("scope", str "IAC")
        ∷ ("worker_id", str worker)
        ∷ []))
  pure (some claimed)

unfoldable pub take_transfer :
    Clock → Actor → String → ℕ → List Transfer → String → Method (Option Transfer)
take_transfer c actor worker seconds terminal plan = do
  write (λ d. record d {
    backup_transfer_outbox =
        update (is_takable plan c.instant) (lease_transfer c worker seconds)
          d.backup_transfer_outbox;
  })
  commit
  audit_terminal c actor terminal
  report_transfer c actor worker plan

unfoldable pub grant_transfer :
    Clock → Actor → String → ℕ → List Transfer → Option Transfer → Method (Option Transfer)
grant_transfer c actor worker seconds terminal none = do
  commit
  audit_terminal c actor terminal
  pure none
grant_transfer c actor worker seconds terminal (some t) = do
  found ← gets (λ s. count_rows (is_takable t.plan_sha256 c.instant) s.live.backup_transfer_outbox)
  if nat_eq found 1
      then take_transfer c actor worker seconds terminal t.plan_sha256
      else rollback >> pure none

-- `claim_authorized_backup_transfer` from BEGIN IMMEDIATE on
unfoldable pub claim_next_transfer : Clock → Actor → String → ℕ → Method (Option Transfer)
claim_next_transfer c actor worker seconds = do
  terminal ← gets (λ s. select (is_exhausted c.instant) s.live.backup_transfer_outbox)
  write (λ d. record d {
    backup_transfer_outbox =
        update (is_exhausted c.instant) (close_exhausted c.instant) d.backup_transfer_outbox;
  })
  row ←
      gets
        (λ s. first_by transfers_before (select (is_ready c.instant) s.live.backup_transfer_outbox))
  grant_transfer c actor worker seconds terminal row

unfoldable pub claim_transfer_open : Clock → Actor → String → ℕ → Method (Option Transfer)
claim_transfer_open c actor worker seconds = do begin; claim_next_transfer c actor worker seconds

-- `claim_authorized_backup_transfer`
unfoldable pub claim_authorized_backup_transfer :
    Clock → Actor → String → ℕ → Method (Option Transfer)
claim_authorized_backup_transfer c actor worker seconds = do
  bound ← gets (λ s. is_iac_profile s.scope_profile)
  check (bound && has_scope iac actor.scopes)
      (authorization_error "Backup transfer worker requires the IAC database profile")
  check (has_content worker) (validation_error "Backup transfer worker ID is required")
  check (leb 1 seconds && leb seconds 900)
      (validation_error "Backup transfer lease must be between 1 and 900 seconds")
  killed ← kill_switch_enabled
  if killed
      then decline c actor "CLAIM_BACKUP_TRANSFER" "Kill switch is ON" none end
      else claim_transfer_open c actor worker seconds

-- WHERE plan_sha256=? AND status='AUTHORIZED' AND lease_owner=?
unfoldable pub is_leased_to : String → String → Transfer → Bool
is_leased_to plan worker t =
    t.plan_sha256 == plan && is_authorized t.status && holds_text t.lease_owner worker

abbrev pub after_failure : Transfer → TransferStatus
after_failure t =
    if leb t.max_attempts t.attempt_count then TransferStatus.failed else TransferStatus.authorized

unfoldable pub fail_transfer :
    Clock → Actor → String → String → ℕ → Option Transfer → Method TransferStatus
fail_transfer c actor plan error retry none =
    raise (authorization_error "Worker does not hold the active backup transfer lease")
fail_transfer c actor plan error retry (some t) = do
  authorize actor iac [] write_access
  write (λ d. record d {
    backup_transfer_outbox =
        update (is_plan plan)
          (λ u. record u {
            status = after_failure t;
            available_at = c.instant + retry * second;
            lease_owner = none;
            lease_expires_at = none;
            last_error = some error;
            updated_at = c.instant;
          })
          d.backup_transfer_outbox;
  })
  commit
  audit c actor "FAIL_BACKUP_TRANSFER" failed error (some plan) (
      dict (
        ("network_performed", bool false)
        ∷ ("next_status", str (transfer_status_name (after_failure t)))
        ∷ ("scope", str "IAC")
        ∷ []))
  pure (after_failure t)

abbrev pub error_details : String → Json
error_details error = obj (dict (("error", str error) ∷ []))

-- `fail_claimed_backup_transfer`
unfoldable pub fail_claimed_backup_transfer :
    Clock → Actor → String → String → String → ℕ → Method TransferStatus
fail_claimed_backup_transfer c actor plan worker error retry = do
  check (has_content error) (validation_error "Backup transfer failure requires an error")
  found ← gets (λ s. has_secret s.patterns (error_details error))
  check (not found) (validation_error "Secret-like material is prohibited in backup failures")
  check (leb retry 3600)
      (validation_error "Backup transfer retry must be between 0 and 3600 seconds")
  row ← gets (λ s. first (is_leased_to plan worker) s.live.backup_transfer_outbox)
  fail_transfer c actor plan error retry row

unfoldable pub hold_transfer :
    Clock → Actor → String → String → String → Option Transfer → Method TransferStatus
hold_transfer c actor plan worker error none =
    raise (authorization_error "Worker does not hold the active backup transfer lease")
hold_transfer c actor plan worker error (some t) = do
  authorize actor iac [] write_access
  write (λ d. record d {
    backup_transfer_outbox =
        update (is_leased_to plan worker)
          (λ u. record u {
            status = reconciliation_required;
            lease_owner = none;
            lease_expires_at = none;
            last_error = some error;
            updated_at = c.instant;
          })
          d.backup_transfer_outbox;
  })
  commit
  audit c actor "HOLD_BACKUP_TRANSFER_FOR_RECONCILIATION" failed error (some plan) (
      dict (
        ("automatic_retry_permitted", bool false)
        ∷ ("network_result", str "AMBIGUOUS")
        ∷ ("next_status", str "RECONCILIATION_REQUIRED")
        ∷ ("scope", str "IAC")
        ∷ []))
  pure reconciliation_required

-- `hold_claimed_backup_transfer_for_reconciliation`
unfoldable pub hold_claimed_backup_transfer_for_reconciliation :
    Clock → Actor → String → String → String → Method TransferStatus
hold_claimed_backup_transfer_for_reconciliation c actor plan worker error = do
  check (has_content error) (validation_error "Backup reconciliation hold requires an error")
  found ← gets (λ s. has_secret s.patterns (error_details error))
  check (not found) (validation_error "Secret-like material is prohibited in backup failures")
  row ← gets (λ s. first (is_leased_to plan worker) s.live.backup_transfer_outbox)
  hold_transfer c actor plan worker error row
