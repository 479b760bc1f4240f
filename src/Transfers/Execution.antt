-- ===== src/Transfers/Execution.antt =====
-- The guard and the completion of a leased backup transfer in sean_os/store.py.
use iac_ai_runtime.Prelude.{
  ℕ, String, Bool, true, false, Option, none, some, or_else, holds_text, [], ◌∷◌, not, ◌&&◌, ◌||◌,
  ◌==◌, is_some, nat_eq, if◌then◌else◌,
}
use iac_ai_runtime.Exec.{
  Error, Result, ok, err, raise, gets, check, when, from_result, ◌>>=◌, ◌>>◌, authorization_error,
  validation_error,
}
use iac_ai_runtime.Json.{Json, bool, str, dict}
use iac_ai_runtime.Time.{Stamp, Iso, malformed, naive, aware, utc, instant_leb}
use iac_ai_runtime.Table.{first, update, count_rows}
use iac_ai_runtime.Db.{iac, Actor, allowed, Clock, Method, write, commit, rollback}
use iac_ai_runtime.Access.{audit, deny, authorize, write_access, kill_switch_enabled}
use iac_ai_runtime.Db.{Transfer, TransferStatus}
use iac_ai_runtime.Queue.{lease_over}
use iac_ai_runtime.Transfers.{
  Evidence, is_authorized, is_completed, is_plan, get_backup_transfer, same_payload, text_at,
}

-- `at or now()` as a time
abbrev pub guard_time : ℕ → Option Iso → Result Stamp
guard_time now none = ok (utc now)
guard_time now (some (aware t)) = ok t
guard_time now (some malformed) =
    err (validation_error "Backup execution guard time must be ISO-8601")
guard_time now (some (naive t)) =
    err (validation_error "Backup execution guard time must include a timezone")

abbrev pub lease_ended : Option ℕ → Stamp → Bool
lease_ended none at = true
lease_ended (some e) at = instant_leb (utc e) at

-- The chain of tests that sets `reason`
unfoldable pub guard_refusal : Bool → String → Stamp → Option Transfer → Option String
unfolding instant_leb
guard_refusal true worker at row = some "Kill switch is ON"
guard_refusal false worker at none = some "Backup transfer plan not found"
guard_refusal false worker at (some t) =
    if not (is_authorized t.status) || or_else t.approval_id "" == ""
    then some "Backup transfer is not authorized"
    else if not (holds_text t.lease_owner worker) || not (is_some t.lease_expires_at)
    then some "Worker does not hold the backup transfer lease"
    else if lease_ended t.lease_expires_at at
    then some "Backup transfer lease expired"
    else none

unfoldable pub guard_answer : Clock → Actor → String → String → Option String → Method Transfer
guard_answer c actor plan worker (some why) =
    deny c actor "GUARD_BACKUP_TRANSFER" why (some plan)
      (dict
        (("network_performed", bool false) ∷ ("scope", str "IAC") ∷ ("worker_id", str worker) ∷ []))
      (authorization_error why)
guard_answer c actor plan worker none = get_backup_transfer actor plan

-- `assert_backup_transfer_execution_allowed`
unfoldable pub assert_backup_transfer_execution_allowed :
    Clock → Actor → String → String → Option Iso → Method Transfer
assert_backup_transfer_execution_allowed c actor plan worker at = do
  authorize actor iac [] write_access
  checked_at ← from_result (guard_time c.instant at)
  row ← gets (λ s. first (is_plan plan) s.live.backup_transfer_outbox)
  killed ← kill_switch_enabled
  guard_answer c actor plan worker (guard_refusal killed worker checked_at row)

-- ... AND lease_owner=? AND lease_expires_at>?
unfoldable pub is_live_lease : String → String → ℕ → Transfer → Bool
is_live_lease plan worker stamp t =
    t.plan_sha256 == plan
    && is_authorized t.status
    && holds_text t.lease_owner worker
    && is_some t.lease_expires_at
    && not (lease_over t.lease_expires_at stamp)

unfoldable pub set_completed : Clock → Json → String → Transfer → Transfer
set_completed c payload uploaded_at t = record t {
  status = TransferStatus.completed;
  receipt_payload = some payload;
  completed_at = some uploaded_at;
  updated_at = c.instant;
  lease_owner = none;
  lease_expires_at = none;
  last_error = none;
}

unfoldable pub store_receipt : Clock → Actor → String → String → Json → String → Method Transfer
store_receipt c actor plan worker verified uploaded_at = do
  found ← gets (λ s. count_rows (is_live_lease plan worker c.instant) s.live.backup_transfer_outbox)
  when (not (nat_eq found 1))
      (rollback >> raise (authorization_error "Backup transfer lease changed before completion"))
  write (λ d. record d {
    backup_transfer_outbox =
        update (is_live_lease plan worker c.instant) (set_completed c verified uploaded_at)
          d.backup_transfer_outbox;
  })
  commit
  audit c actor "COMPLETE_BACKUP_TRANSFER" allowed
      "Encrypted retention-locked provider receipt verified" (some plan)
      (dict (
        ("encryption_verified", bool true)
        ∷ ("network_performed", bool true)
        ∷ ("object_lock_verified", bool true)
        ∷ ("provider", str "BACKBLAZE_B2")
        ∷ ("scope", str "IAC")
        ∷ ("uploaded", bool true)
        ∷ []))
  get_backup_transfer actor plan

abbrev pub no_lease : Error
no_lease = authorization_error "Worker does not hold the active backup transfer lease"

module _ (evidence : Evidence) where
  unfoldable pub same_receipt : Actor → String → Json → Transfer → Method Transfer
  same_receipt actor plan receipt t = do
    verified ← from_result (evidence.verify_receipt receipt t.plan_payload)
    if same_payload t.receipt_payload verified
        then get_backup_transfer actor plan
        else raise no_lease

  -- No row is leased: a receipt that was stored already is answered again.
  unfoldable pub answer_again : Actor → String → Json → Option Transfer → Method Transfer
  answer_again actor plan receipt none = raise no_lease
  answer_again actor plan receipt (some t) =
      if is_completed t.status then same_receipt actor plan receipt t else raise no_lease

  unfoldable pub complete_row :
      Clock → Actor → String → String → Json → Option Transfer → Method Transfer
  complete_row c actor plan worker receipt none = do
    row ← gets (λ s. first (is_plan plan) s.live.backup_transfer_outbox)
    answer_again actor plan receipt row
  complete_row c actor plan worker receipt (some t) = do
    authorize actor t.owner_scope [] write_access
    verified ← from_result (evidence.verify_receipt receipt t.plan_payload)
    uploaded_at ← from_result (text_at "uploaded_at" verified)
    store_receipt c actor plan worker verified uploaded_at

  -- `complete_claimed_backup_transfer`
  unfoldable pub complete_claimed_backup_transfer :
      Clock → Actor → String → String → Json → Method Transfer
  complete_claimed_backup_transfer c actor plan worker receipt = do
    killed ← kill_switch_enabled
    check (not killed) (authorization_error "Kill switch is ON; backup completion denied")
    row ← gets (λ s. first (is_live_lease plan worker c.instant) s.live.backup_transfer_outbox)
    complete_row c actor plan worker receipt row
