-- ===== src/Examples/Monitoring.antt =====
-- A monitor over a concrete store, and its plans and receipts.
use iac_ai_runtime.Db.{commit}
use iac_ai_runtime.Access.{audit_uncommitted, audit, permits, authorize}
use iac_ai_runtime.Table.{update, first}
use iac_ai_runtime.Text.{normalized, same_codes}
use iac_ai_runtime.Deliveries.Reset.{reset_failed_alert_delivery_lem}
use iac_ai_runtime.Security.{
  text_findings, is_sensitive_key, key_findings, secret_findings, has_secret,
}
use iac_ai_runtime.Deliveries.Listing.{
  reset_row, is_failed_delivery, write_reset, reset_found, is_reset, reset_failed_alert_delivery,
}
use iac_ai_runtime.Deliveries.{open_delivery, get_alert_delivery, is_delivery, is_authorized}
use iac_ai_runtime.Prelude.{
  none, some, [], ◌∷◌, ℕ, String, true, false, not, ◌&&◌, ◌≡◌, ◌↔◌, refl, All,
}
use iac_ai_runtime.Exec.{◌>>=◌, from_result, pure, gets, check, ok}
use iac_ai_runtime.Json.{bool, end, Json, obj, dict, str, num, get_key, get_field}
use iac_ai_runtime.Time.{Stamp, aware, utc}
use iac_ai_runtime.Db.{write, scope_eq, has_scope, Store, sean, Delivery, DeliveryStatus, iac}
use iac_ai_runtime.Deliveries.Approval.{check_receipt}
use iac_ai_runtime.Health.{measure_health}
use iac_ai_runtime.Monitoring.{classify_alerts, failed_backup}
use iac_ai_runtime.Monitoring.Agreement.{IsWaiting, healthy-classify_alerts}
use iac_ai_runtime.Monitoring.Plans.{
  deduplicate_alert_plans, deduplicate_seen, keep_new, synthetic_delivery_receipt, receipt_at,
  receipt_fields,
}
use iac_ai_runtime.Monitoring.Plans.Laws.{
  AreNew, deduplicate_alert_plans-AreNew, synthetic_delivery_receipt-checked,
}
use iac_ai_runtime.Examples.{at, some_store}

abbrev some_text : ℕ → String → String
some_text n t = t

healthy-classify_alerts_example :
    ((measure_health (at 20) true 90 true (some iac) some_store).healthy && not (failed_backup none)
      ≡ true)
    ↔ All IsWaiting
        (classify_alerts some_text (measure_health (at 20) true 90 true (some iac) some_store) none)
healthy-classify_alerts_example =
    healthy-classify_alerts some_text (at 20) true 90 (some iac) some_store none

abbrev id_a : String
id_a = "aaaaaaaaaaaaaaaaaaaaaaaaaaaaaaaaaaaaaaaaaaaaaaaaaaaaaaaaaaaaaaaa"

abbrev id_b : String
id_b = "bbbbbbbbbbbbbbbbbbbbbbbbbbbbbbbbbbbbbbbbbbbbbbbbbbbbbbbbbbbbbbbb"

abbrev plan_a : Json
plan_a = obj (dict (("plan_id", str id_a) ∷ []))

abbrev plan_b : Json
plan_b = obj (dict (("plan_id", str id_b) ∷ []))

deduplicated :
    deduplicate_alert_plans (plan_a ∷ plan_b ∷ plan_b ∷ []) (id_a ∷ []) ≡ ok (plan_b ∷ [])
unfolding deduplicate_alert_plans deduplicate_seen keep_new get_key get_field
deduplicated = refl

deduplicate_alert_plans-AreNew_example :
    AreNew (id_a ∷ []) (plan_b ∷ [])
    × (deduplicate_alert_plans (plan_b ∷ []) (id_a ∷ []) ≡ ok (plan_b ∷ []))
deduplicate_alert_plans-AreNew_example =
    deduplicate_alert_plans-AreNew (plan_a ∷ plan_b ∷ plan_b ∷ []) (id_a ∷ []) deduplicated

abbrev some_delivery : Delivery
some_delivery = record {
  delivery_id = "d1";
  plan_id = id_a;
  incident_id = "i1";
  reopen_generation = 0;
  owner_scope = iac;
  route_id = "r1";
  destination_kind = "EMAIL";
  destination_ref = "ops";
  alert_payload = obj end;
  payload_sha256 = "s1";
  status = DeliveryStatus.authorized;
  approval_id = some "a1";
  attempt_count = 0;
  max_attempts = 3;
  available_at = 10;
  lease_owner = none;
  lease_expires_at = none;
  last_error = none;
  receipt_payload = none;
  created_at = 10;
  updated_at = 10;
  delivered_at = none;
}

abbrev same_digest : Json → String
same_digest v = "h"

abbrev same_text : Stamp → String
same_text t = "t"

abbrev some_receipt : Json
some_receipt = obj (
    dict (
      ("delivered_at", str "t")
      ∷ ("delivery_id", str "d1")
      ∷ ("external_effect", bool false)
      ∷ ("mode", str "SYNTHETIC")
      ∷ ("network_used", bool false)
      ∷ ("payload_sha256", str "s1")
      ∷ ("receipt_sha256", str "h")
      ∷ ("schema_version", num 1)
      ∷ []))

receipted :
    synthetic_delivery_receipt same_digest same_text some_delivery (aware (utc 30))
    ≡ ok some_receipt
unfolding synthetic_delivery_receipt receipt_at receipt_fields
receipted = refl

synthetic_delivery_receipt-checked_example :
    (check_receipt some_receipt some_delivery ≡ ok tt) × (is_authorized some_delivery.status ≡ true)
synthetic_delivery_receipt-checked_example =
    synthetic_delivery_receipt-checked same_digest same_text some_delivery (aware (utc 30))
      receipted

abbrev failed_delivery : Delivery
failed_delivery = record some_delivery {
  status = DeliveryStatus.failed;
  attempt_count = 3;
  last_error = some "No route";
}

abbrev with_failed : Store
with_failed = record some_store {
  live = record some_store.live { alert_delivery_outbox = failed_delivery ∷ [] };
}

abbrev reset_delivery : Delivery
reset_delivery = record failed_delivery {
  status = DeliveryStatus.staged;
  approval_id = none;
  attempt_count = 0;
  available_at = 30;
  last_error = some "Recovery reset; fresh approval required";
  updated_at = 30;
}

abbrev after_reset : Store
after_reset = (reset_failed_alert_delivery (at 30) sean "d1" "Route mended" with_failed).1

was_reset :
    reset_failed_alert_delivery (at 30) sean "d1" "Route mended" with_failed
    ≡ (ok reset_delivery, after_reset)
unfolding reset_failed_alert_delivery has_secret secret_findings key_findings is_sensitive_key
    same_codes normalized text_findings first is_delivery reset_found authorize permits has_scope
    scope_eq is_reset write_reset update is_failed_delivery reset_row get_alert_delivery
    open_delivery audit audit_uncommitted write commit check gets pure from_result ◌>>=◌
was_reset = refl

reset_failed_alert_delivery_lem_example : (sean.is_sean ≡ true) × (is_reset reset_delivery ≡ true)
reset_failed_alert_delivery_lem_example =
    reset_failed_alert_delivery_lem (at 30) sean "d1" "Route mended" with_failed was_reset
