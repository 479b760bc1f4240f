-- ===== src/Restores/Lease.antt =====
-- The lease on an authorized backup restore in sean_os/store.py, within the window of its plan.
use iac_ai_runtime.Prelude.{
  ℕ, ◌+◌, ◌*◌, String, Bool, false, Option, none, some, List, [], ◌∷◌, not, ◌&&◌, ◌||◌, ◌==◌,
  is_some, leb, nat_eq, if◌then◌else◌,
}
use iac_ai_runtime.Text.{has_content}
use iac_ai_runtime.Exec.{
  Result, ok, err, pure, gets, check, from_result, ◌>>=◌, ◌>>◌, authorization_error,
  validation_error,
}
use iac_ai_runtime.Json.{Json, bool, num, str, end, dict}
use iac_ai_runtime.Time.{Stamp, Iso, utc, text_leb, instant_leb, second}
use iac_ai_runtime.Table.{select, update, count_rows, order_by}
use iac_ai_runtime.Db.{
  iac, has_scope, Actor, allowed, failed, Clock, Method, begin, write, commit, rollback,
}
use iac_ai_runtime.Access.{audit, decline, kill_switch_enabled}
use iac_ai_runtime.Db.{Restore, RestoreStatus}
use iac_ai_runtime.Transfers.{is_iac_profile}
use iac_ai_runtime.Restores.{Evidence, is_authorized, get_backup_restore, restores_before}
use iac_ai_runtime.Restores.Approval.{given_time, time_at}

-- `lease_expires_at<=?`, in the order of the texts, which NULL fails
abbrev pub lease_passed : Option Stamp → Stamp → Bool
lease_passed none stamp = false
lease_passed (some e) stamp = text_leb e stamp

-- `lease_owner IS NULL OR lease_expires_at<=?`
abbrev pub is_free : Stamp → Restore → Bool
is_free stamp t = not (is_some t.lease_owner) || lease_passed t.lease_expires_at stamp

-- The WHERE clause of the query of `claim_authorized_backup_restore`
unfoldable pub is_open : Stamp → Restore → Bool
unfolding text_leb
is_open stamp t = is_authorized t.status && text_leb (utc t.available_at) stamp && is_free stamp t

-- The reasons of `terminal`, and the message that is written with each.
pub data Reason : Type 0 where
  maximum_attempts window_expired : Reason

abbrev pub unavailable : Reason → String
unavailable maximum_attempts = "Restore lease unavailable: maximum attempts"
unavailable window_expired = "Restore lease unavailable: approved window expired"

-- A row that cannot be leased any more, with the reason.
abbrev pub Terminal : Type 0
Terminal = String × Reason

-- `selected`, with the end of its window, and `terminal`
abbrev pub Scan : Type 0
Scan = Option (Restore × Stamp) × List Terminal

abbrev pub with_terminal : Terminal → Result Scan → Result Scan
with_terminal x (ok (row, ts)) = ok (row, x ∷ ts)
with_terminal x (err e) = err e

-- One round of the loop over `rows`, given the window of the row's plan and the rounds after it.
unfoldable pub scan_row : Stamp → Restore → Result (Stamp × Stamp) → Result Scan → Result Scan
unfolding instant_leb
scan_row instant t (err e) rest = err e
scan_row instant t (ok (start, stop)) rest =
    if leb t.max_attempts t.attempt_count
    then with_terminal (t.restore_plan_sha256, maximum_attempts) rest
    else if instant_leb stop instant
    then with_terminal (t.restore_plan_sha256, window_expired) rest
    else if instant_leb start instant
    then ok (some (t, stop), [])
    else rest

-- WHERE restore_plan_sha256=? AND status='AUTHORIZED'
unfoldable pub is_authorized_plan : String → Restore → Bool
is_authorized_plan plan t = t.restore_plan_sha256 == plan && is_authorized t.status

unfoldable pub close_row : Stamp → Reason → Restore → Restore
close_row stamp reason t = record t {
  status = RestoreStatus.failed;
  last_error = some (unavailable reason);
  updated_at = stamp;
  lease_owner = none;
  lease_expires_at = none;
}

-- the loop that fails the rows of `terminal`
unfoldable pub close_all : Stamp → List Terminal → List Restore → List Restore
unfolding update is_authorized_plan close_row
close_all stamp [] rows = rows
close_all stamp ((plan, reason) ∷ ts) rows =
    close_all stamp ts (update (is_authorized_plan plan) (close_row stamp reason) rows)

unfoldable pub audit_terminal : Clock → Actor → List Terminal → Method (Unit {0})
audit_terminal c actor [] = pure tt
audit_terminal c actor ((plan, reason) ∷ ts) = do
  audit c actor "FAIL_BACKUP_RESTORE" failed (unavailable reason) (some plan)
      (dict (("network_performed", bool false) ∷ ("scope", str "IAC") ∷ []))
  audit_terminal c actor ts

-- `min(instant + timedelta(seconds=lease_seconds), window_end)`
unfoldable pub lease_end : Stamp → ℕ → Stamp → Stamp
unfolding instant_leb
lease_end instant seconds stop =
    let end_of_lease = record instant { wall = instant.wall + seconds * second } in
    if instant_leb end_of_lease stop then end_of_lease else stop

unfoldable pub lease_restore : Stamp → String → Stamp → Restore → Restore
lease_restore stamp worker lease t = record t {
  lease_owner = some worker;
  lease_expires_at = some lease;
  attempt_count = t.attempt_count + 1;
  updated_at = stamp;
}

-- WHERE restore_plan_sha256=? AND status='AUTHORIZED' AND (lease_owner IS NULL OR ...)
unfoldable pub is_takable : String → Stamp → Restore → Bool
unfolding text_leb
is_takable plan stamp t = t.restore_plan_sha256 == plan && is_authorized t.status && is_free stamp t

unfoldable pub report_restore : Clock → Actor → String → String → Method (Option Restore)
report_restore c actor worker plan = do
  claimed ← get_backup_restore actor plan
  audit c actor "CLAIM_BACKUP_RESTORE" allowed "Authorized isolated restore lease acquired"
      (some plan)
      (dict (
        ("attempt", num claimed.attempt_count)
        ∷ ("network_performed", bool false)
        ∷ ("scope", str "IAC")
        ∷ ("worker_id", str worker)
        ∷ []))
  pure (some claimed)

unfoldable pub take_restore :
    Clock → Actor → String → Stamp → Stamp → List Terminal → String → Method (Option Restore)
take_restore c actor worker stamp lease terminal plan = do
  write (λ d. record d {
    backup_restore_outbox =
        update (is_takable plan stamp) (lease_restore stamp worker lease) d.backup_restore_outbox;
  })
  commit
  audit_terminal c actor terminal
  report_restore c actor worker plan

unfoldable pub grant_restore :
    Clock
    → Actor
    → String
    → ℕ
    → Stamp
    → List Terminal
    → Option (Restore × Stamp)
    → Method (Option Restore)
grant_restore c actor worker seconds stamp terminal none = do
  commit
  audit_terminal c actor terminal
  pure none
grant_restore c actor worker seconds stamp terminal (some (t, stop)) = do
  found ←
      gets (λ s. count_rows (is_takable t.restore_plan_sha256 stamp) s.live.backup_restore_outbox)
  if nat_eq found 1
      then take_restore c actor worker stamp (lease_end stamp seconds stop) terminal
          t.restore_plan_sha256
      else rollback >> pure none

abbrev pub both : Result Stamp → Result Stamp → Result (Stamp × Stamp)
both (ok a) (ok b) = ok (a, b)
both (ok a) (err e) = err e
both (err e) b = err e

module _ (evidence : Evidence) where
  -- The window of a plan that is verified again.
  unfoldable pub window_of : Result Json → Result (Stamp × Stamp)
  window_of (err e) = err e
  window_of (ok plan) =
      both (time_at evidence.iso "window_start" plan) (time_at evidence.iso "window_end" plan)

  unfoldable pub scan : Stamp → List Restore → Result Scan
  unfolding scan_row window_of
  scan instant [] = ok (none, [])
  scan instant (t ∷ ts) =
      scan_row instant t (window_of (evidence.verify_plan t.plan_payload)) (scan instant ts)

  -- `claim_authorized_backup_restore` from BEGIN IMMEDIATE on. The scan raises before the first
  -- statement that writes.
  unfoldable pub claim_restore_open : Clock → Actor → String → ℕ → Stamp → Method (Option Restore)
  claim_restore_open c actor worker seconds stamp = do
    begin
    rows ←
        gets (λ s. order_by restores_before (select (is_open stamp) s.live.backup_restore_outbox))
    found ← from_result (scan stamp rows)
    write
        (λ d. record d { backup_restore_outbox = close_all stamp found.1 d.backup_restore_outbox })
    grant_restore c actor worker seconds stamp found.1 found.0

  -- `claim_authorized_backup_restore`
  unfoldable pub claim_authorized_backup_restore :
      Clock → Actor → String → ℕ → Option Iso → Method (Option Restore)
  claim_authorized_backup_restore c actor worker seconds at = do
    bound ← gets (λ s. is_iac_profile s.scope_profile)
    check (bound && has_scope iac actor.scopes)
        (authorization_error "Backup restore worker requires the IAC database profile")
    check (has_content worker) (validation_error "Backup restore worker ID is required")
    check (leb 1 seconds && leb seconds 900)
        (validation_error "Backup restore lease must be between 1 and 900 seconds")
    stamp ← from_result (
        given_time "Backup restore claim time must be ISO-8601"
          "Backup restore claim time must include a timezone" c.instant at)
    killed ← kill_switch_enabled
    if killed
        then decline c actor "CLAIM_BACKUP_RESTORE" "Kill switch is ON" none end
        else claim_restore_open c actor worker seconds stamp
