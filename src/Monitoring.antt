-- ===== src/Monitoring.antt =====
-- The monitor of sean_os/monitoring.py: the alerts of a health snapshot, the delivery plans of the
-- alerts, and the receipts. `digest` is the SHA-256 of the sorted text of a value in hexadecimal
-- and `shown n t` the text of `n`, " work item(s): " and `t`.
pub mod Plans
pub mod Agreement
use iac_ai_runtime.Prelude.{
  ℕ, ◌+◌, String, Bool, true, false, Option, none, some, List, [], ◌∷◌, ◌++◌, not, ◌&&◌, ◌||◌, ◌==◌,
  any, has_text, map, length, ltb, leb, nat_eq, if◌then◌else◌,
}
use iac_ai_runtime.Text.{has_content, codes}
use iac_ai_runtime.Exec.{Result, ok, err, pure, gets, check, from_result, ◌>>=◌, ◌>>◌, value_error}
use iac_ai_runtime.Json.{Json, null, bool, num, str, obj, Fields, dict, get_key, put_field}
use iac_ai_runtime.Time.{Stamp, Iso, malformed, naive, aware}
use iac_ai_runtime.Db.{
  Scope, personal, iac, scope_eq, has_scope, scope_name, Actor, Clock, Method, Observation,
  Incident,
}
use iac_ai_runtime.Health.{Health, Worker, Counts, runtime_health}
use iac_ai_runtime.Alerts.{severities}
use iac_ai_runtime.Alerts.Incidents.{severity_rank, record_alert_observation}

-- An alert: its code, severity and summary
pub record Entry : Type 0 where
  pub code : String
  pub severity : String
  pub summary : String

pub record EscalationRoute : Type 0 where
  pub route_id : String
  pub owner_scope : Scope
  pub destination_kind : String
  pub destination_ref : String
  pub minimum_severity : String

abbrev pub kinds : List String
kinds = "EMAIL" ∷ "WEBHOOK" ∷ []

-- `EscalationRoute.__post_init__`
unfoldable pub check_route : EscalationRoute → Result (Unit {0})
check_route r =
    if not (has_content r.route_id) || not (has_content r.destination_ref)
    then err (value_error "route_id and destination_ref are required")
    else if not (has_scope r.owner_scope (personal ∷ iac ∷ []))
    then err (value_error "Escalation routes must be owned by PERSONAL or IAC")
    else if not (has_text r.destination_kind kinds)
    then err (value_error "Unsupported escalation destination kind")
    else if not (has_text r.minimum_severity severities)
    then err (value_error "Unsupported minimum severity")
    else ok tt

abbrev pub entry : String → String → String → Entry
entry code severity summary = record { code = code; severity = severity; summary = summary }

-- `if condition: add(...)`
abbrev pub add_if : Bool → Entry → List Entry
add_if b e = if b then e ∷ [] else []

abbrev pub flatten : List (List Entry) → List Entry
flatten [] = []
flatten (es ∷ ess) = es ++ flatten ess

abbrev pub failed_backup : Option Bool → Bool
failed_backup none = false
failed_backup (some b) = not b

module _ (shown : ℕ → String → String) where
  -- One pass of the loop over the statuses of the queue.
  unfoldable pub queue_alert : Counts → String → String → String → List Entry
  queue_alert queue status severity summary =
      if nat_eq (queue status) 0
      then []
      else entry status severity (shown (queue status) summary) ∷ []

  -- What each test of `classify_alerts` adds, in their order.
  unfoldable pub tests : Health → Option Bool → List (List Entry)
  tests h backup_ok =
      add_if (not h.integrity_ok)
        (entry "DATABASE_INTEGRITY_FAILED" "CRITICAL" "Database integrity check failed")
      ∷ add_if h.kill_switch (entry "KILL_SWITCH_ACTIVE" "CRITICAL" "Runtime kill switch is active")
      ∷ add_if (any (λ w. w.stale) h.workers)
          (entry "STALE_WORKER" "CRITICAL" "At least one runtime worker is stale")
      ∷ queue_alert h.queue "DEAD_LETTER" "CRITICAL" "Work reached the dead-letter queue"
      ∷ queue_alert h.queue "POLICY_BLOCKED" "HIGH" "Work was blocked by runtime policy"
      ∷ queue_alert h.queue "BUDGET_BLOCKED" "HIGH" "Work was blocked by its budget ceiling"
      ∷ queue_alert h.queue "APPROVAL_BLOCKED" "ATTENTION" "Work requires an exact approval"
      ∷ add_if (nat_eq h.active_worker_count 0)
          (entry "NO_ACTIVE_WORKER" "CRITICAL" "No active runtime worker is reporting")
      ∷ add_if (not (nat_eq (h.delivery_outbox "FAILED") 0))
          (entry "ALERT_DELIVERY_FAILED" "CRITICAL" "Synthetic alert delivery exhausted retries")
      ∷ add_if (not (nat_eq (h.backup_transfer_outbox "FAILED") 0))
          (entry "BACKUP_TRANSFER_FAILED" "CRITICAL" "Backup transfer exhausted retries")
      ∷ add_if (not (nat_eq (h.backup_transfer_outbox "RECONCILIATION_REQUIRED") 0)) (
          entry "BACKUP_TRANSFER_RECONCILIATION_REQUIRED" "CRITICAL"
            "Backup provider write result requires manual reconciliation")
      ∷ add_if (not (nat_eq (h.backup_restore_outbox "FAILED") 0)) (
          entry "BACKUP_RESTORE_FAILED" "CRITICAL"
            "Isolated backup restore exhausted retries or its approved window")
      ∷ add_if (not (nat_eq (h.backup_restore_outbox "RECONCILIATION_REQUIRED") 0)) (
          entry "BACKUP_RESTORE_RECONCILIATION_REQUIRED" "CRITICAL"
            "Isolated restore artifact requires manual reconciliation")
      ∷ add_if (failed_backup backup_ok)
          (entry "BACKUP_FAILED" "CRITICAL" "Latest verified backup failed")
      ∷ []

  -- `classify_alerts`
  unfoldable pub classify_alerts : Health → Option Bool → List Entry
  classify_alerts h backup_ok = flatten (tests h backup_ok)
