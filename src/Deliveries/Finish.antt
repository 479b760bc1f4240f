-- ===== src/Deliveries/Finish.antt =====
-- The ends of a lease on an alert delivery in sean_os/store.py: completion and failure.
use iac_ai_runtime.Prelude.{
  ℕ, ◌+◌, ◌*◌, String, Bool, false, Option, none, some, holds_text, [], ◌∷◌, not, ◌&&◌, ◌==◌, leb,
  nat_eq, if◌then◌else◌,
}
use iac_ai_runtime.Text.{has_content}
use iac_ai_runtime.Exec.{
  pure, raise, gets, check, when, from_result, ◌>>=◌, ◌>>◌, authorization_error, validation_error,
}
use iac_ai_runtime.Json.{Json, bool, str, obj, dict, get_key}
use iac_ai_runtime.Time.{second}
use iac_ai_runtime.Table.{first, update, count_rows}
use iac_ai_runtime.Security.{has_secret}
use iac_ai_runtime.Db.{scope_name, Actor, allowed, failed, Clock, Method, write, commit, rollback}
use iac_ai_runtime.Access.{audit, authorize, write_access, kill_switch_enabled}
use iac_ai_runtime.Db.{Delivery, DeliveryStatus}
use iac_ai_runtime.Deliveries.{
  is_delivery, is_authorized, is_delivered, delivery_status_name, get_alert_delivery,
}
use iac_ai_runtime.Alerts.Incidents.{text_field}
use iac_ai_runtime.Deliveries.Approval.{check_receipt, same_receipt}

-- WHERE delivery_id=? AND status='AUTHORIZED' AND lease_owner=?
unfoldable pub is_leased_to : String → String → Delivery → Bool
is_leased_to id worker d =
    d.delivery_id == id && is_authorized d.status && holds_text d.lease_owner worker

unfoldable pub set_delivered : Clock → Json → Delivery → Delivery
unfolding get_key
set_delivered c receipt d = record d {
  status = DeliveryStatus.synthetic_delivered;
  receipt_payload = some receipt;
  delivered_at = text_field (get_key "delivered_at" receipt);
  updated_at = c.instant;
  lease_owner = none;
  lease_expires_at = none;
  last_error = none;
}

unfoldable pub store_delivery : Clock → Actor → String → String → Json → Delivery → Method Delivery
store_delivery c actor id worker receipt d = do
  found ← gets (λ s. count_rows (is_leased_to id worker) s.live.alert_delivery_outbox)
  when (not (nat_eq found 1)) (
      rollback
      >> raise (authorization_error "Worker does not hold the active alert delivery lease"))
  write (λ b. record b {
    alert_delivery_outbox =
        update (is_leased_to id worker) (set_delivered c receipt) b.alert_delivery_outbox;
  })
  commit
  audit c actor "COMPLETE_ALERT_DELIVERY" allowed "Leased no-network synthetic delivery completed"
      (some id)
      (dict (
        ("external_effect", bool false)
        ∷ ("network_used", bool false)
        ∷ ("scope", str (scope_name d.owner_scope))
        ∷ ("worker_id", str worker)
        ∷ []))
  get_alert_delivery actor id

unfoldable pub complete_found :
    Clock → Actor → String → String → Json → Option Delivery → Method Delivery
complete_found c actor id worker receipt none = raise (validation_error "Alert delivery not found")
complete_found c actor id worker receipt (some d) = do
  authorize actor d.owner_scope [] write_access
  from_result (check_receipt receipt d)
  found ← gets (λ s. has_secret s.patterns receipt)
  check (not found) (validation_error "Secret-like material is prohibited in delivery receipts")
  if is_delivered d.status
      then same_receipt receipt d >> get_alert_delivery actor id
      else store_delivery c actor id worker receipt d

-- `complete_claimed_synthetic_alert_delivery`
unfoldable pub complete_claimed_synthetic_alert_delivery :
    Clock → Actor → String → String → Json → Method Delivery
complete_claimed_synthetic_alert_delivery c actor id worker receipt = do
  killed ← kill_switch_enabled
  check (not killed) (authorization_error "Kill switch is ON; delivery completion denied")
  row ← gets (λ s. first (is_delivery id) s.live.alert_delivery_outbox)
  complete_found c actor id worker receipt row

abbrev pub after_failure : Delivery → DeliveryStatus
after_failure d =
    if leb d.max_attempts d.attempt_count then DeliveryStatus.failed else DeliveryStatus.authorized

unfoldable pub fail_delivery :
    Clock → Actor → String → String → String → ℕ → Option Delivery → Method DeliveryStatus
fail_delivery c actor id worker error retry none =
    raise (authorization_error "Worker does not hold the active alert delivery lease")
fail_delivery c actor id worker error retry (some d) = do
  authorize actor d.owner_scope [] write_access
  write (λ b. record b {
    alert_delivery_outbox =
        update (is_delivery id)
          (λ e. record e {
            status = after_failure d;
            available_at = c.instant + retry * second;
            lease_owner = none;
            lease_expires_at = none;
            last_error = some error;
            updated_at = c.instant;
          })
          b.alert_delivery_outbox;
  })
  commit
  audit c actor "FAIL_ALERT_DELIVERY" failed error (some id) (
      dict (
        ("network_used", bool false)
        ∷ ("next_status", str (delivery_status_name (after_failure d)))
        ∷ ("scope", str (scope_name d.owner_scope))
        ∷ ("worker_id", str worker)
        ∷ []))
  pure (after_failure d)

-- `fail_claimed_alert_delivery`
unfoldable pub fail_claimed_alert_delivery :
    Clock → Actor → String → String → String → ℕ → Method DeliveryStatus
fail_claimed_alert_delivery c actor id worker error retry = do
  check (has_content error) (validation_error "Alert delivery failure requires an error")
  found ← gets (λ s. has_secret s.patterns (obj (dict (("error", str error) ∷ []))))
  check (not found) (validation_error "Secret-like material is prohibited in delivery failures")
  check (leb retry 3600)
      (validation_error "Alert delivery retry must be between 0 and 3600 seconds")
  row ← gets (λ s. first (is_leased_to id worker) s.live.alert_delivery_outbox)
  fail_delivery c actor id worker error retry row
