-- ===== src/Monitoring/Plans.antt =====
-- The delivery plans and receipts of sean_os/monitoring.py, and the snapshot that records the
-- plans. `digest` is the SHA-256 of the sorted text of a value in hexadecimal, `iso_text` what
-- `isoformat` writes of a time.
pub mod Laws
use iac_ai_runtime.Prelude.{
  ◌++◌, ℕ, ◌+◌, String, Bool, true, false, Option, none, some, List, [], ◌∷◌, not, ◌&&◌, has_text,
  length, ltb, nat_eq, if◌then◌else◌,
}
use iac_ai_runtime.Text.{has_content, codes}
use iac_ai_runtime.Exec.{Result, ok, err, pure, from_result, ◌>>=◌, value_error}
use iac_ai_runtime.Json.{Json, null, bool, num, str, obj, Fields, dict, get_key}
use iac_ai_runtime.Time.{Stamp, Iso, malformed, naive, aware}
use iac_ai_runtime.Db.{
  Delivery, Scope, scope_eq, scope_name, Actor, Clock, Method, Observation, Incident,
}
use iac_ai_runtime.Health.{Health, runtime_health}
use iac_ai_runtime.Alerts.{severities}
use iac_ai_runtime.Alerts.Incidents.{severity_rank, record_alert_observation}
use iac_ai_runtime.Deliveries.{is_authorized}
use iac_ai_runtime.Monitoring.{Entry, EscalationRoute, classify_alerts, failed_backup}

-- `dict(alert)`
abbrev pub entry_json : Entry → Json
entry_json e =
    obj
      (dict (("code", str e.code) ∷ ("severity", str e.severity) ∷ ("summary", str e.summary) ∷ []))

abbrev pub plan_identity : Scope → EscalationRoute → Entry → Json
plan_identity scope r e = obj (
    dict (
      ("alert", entry_json e)
      ∷ ("owner_scope", str (scope_name scope))
      ∷ ("route_id", str r.route_id)
      ∷ []))

abbrev pub cons_ok : {A : Type 0} → A → Result (List A) → Result (List A)
cons_ok a (ok rest) = ok (a ∷ rest)
cons_ok a (err e) = err e

-- `isinstance(plan_id, str) and len(plan_id) == 64`
abbrev pub plan_id_of : Option Json → Result String
plan_id_of (some (str t)) =
    if nat_eq (length (codes t)) 64
    then ok t
    else err (value_error "Alert plan requires a deterministic plan_id")
plan_id_of _ = err (value_error "Alert plan requires a deterministic plan_id")

-- One pass of the loop of `deduplicate_alert_plans`; `rest` is what the later passes return.
unfoldable pub keep_new :
    List String → Json → Result String → (List String → Result (List Json)) → Result (List Json)
keep_new seen plan (err e) rest = err e
keep_new seen plan (ok id) rest =
    if has_text id seen then rest seen else cons_ok plan (rest (id ∷ seen))

unfoldable pub deduplicate_seen : List String → List Json → Result (List Json)
unfolding get_key
deduplicate_seen seen [] = ok []
deduplicate_seen seen (plan ∷ plans) =
    keep_new seen plan (plan_id_of (get_key "plan_id" plan)) (λ ids. deduplicate_seen ids plans)

-- `deduplicate_alert_plans`
unfoldable pub deduplicate_alert_plans : List Json → List String → Result (List Json)
deduplicate_alert_plans plans seen = deduplicate_seen seen plans

abbrev pub zoned : String → String → Iso → Result Stamp
zoned no_iso no_zone (aware t) = ok t
zoned no_iso no_zone malformed = err (value_error no_iso)
zoned no_iso no_zone (naive t) = err (value_error no_zone)

abbrev pub or_null : Option Json → Json
or_null none = null
or_null (some v) = v

-- Its times are whole numbers of the unit of the monotonic clock.
pub record RuntimeMonitor : Type 0 where
  pub route : EscalationRoute
  pub interval_seconds : ℕ
  pub stale_after_seconds : ℕ
  pub next_due : ℕ

-- What `capture_monitor_snapshot` returns.
pub record Snapshot : Type 0 where
  pub healthy : Bool
  pub alerts : List Entry
  pub recorded_observations : List (Observation × Incident)
  pub health : Health

module _ (digest : Json → String) where
  -- One envelope of `plan_alert_deliveries`
  unfoldable pub delivery_plan : Scope → EscalationRoute → Entry → Json
  delivery_plan scope r e = obj (
      dict (
        ("action_target", str r.route_id)
        ∷ ("alert", entry_json e)
        ∷ ("approval_action_type", str "DELIVER_ALERT")
        ∷ ("approval_required", bool true)
        ∷ ("delivery_authorized", bool false)
        ∷ ("owner_scope", str (scope_name scope))
        ∷ ("plan_id", str (digest (plan_identity scope r e)))
        ∷ (
          "route",
          obj (
              dict (
                ("destination_kind", str r.destination_kind)
                ∷ ("destination_ref", str r.destination_ref)
                ∷ ("route_id", str r.route_id)
                ∷ [])),
        )
        ∷ ("schema_version", num 1)
        ∷ ("status", str "PLANNED")
        ∷ []))

  -- the loop of `plan_alert_deliveries`
  unfoldable pub plan_entries : Scope → EscalationRoute → List Entry → Result (List Json)
  plan_entries scope r [] = ok []
  plan_entries scope r (e ∷ es) =
      let rest = plan_entries scope r es in
      if not (has_text e.severity severities)
      then err (value_error "Alert has unsupported severity")
      else if ltb (severity_rank e.severity) (severity_rank r.minimum_severity)
      then rest
      else cons_ok (delivery_plan scope r e) rest

  -- `plan_alert_deliveries`
  unfoldable pub plan_alert_deliveries : List Entry → EscalationRoute → Scope → Result (List Json)
  plan_alert_deliveries alerts r scope =
      if not (scope_eq scope r.owner_scope)
      then err (value_error "Alert scope does not match escalation route ownership")
      else plan_entries scope r alerts

  -- A receipt with the hash of its other fields in its place among them.
  abbrev pub sealed : (List (String × Json) → Fields) → Json
  sealed fields = obj (fields (("receipt_sha256", str (digest (obj (fields [])))) ∷ []))

  module _ (iso_text : Stamp → String) where
    unfoldable pub receipt_fields : Delivery → Stamp → List (String × Json) → Fields
    receipt_fields d t seal = dict (
        ("delivered_at", str (iso_text t))
        ∷ ("delivery_id", str d.delivery_id)
        ∷ ("external_effect", bool false)
        ∷ ("mode", str "SYNTHETIC")
        ∷ ("network_used", bool false)
        ∷ ("payload_sha256", str d.payload_sha256)
        ∷ (seal ++ ("schema_version", num 1) ∷ []))

    unfoldable pub receipt_at : Delivery → Result Stamp → Result Json
    receipt_at d (err e) = err e
    receipt_at d (ok t) =
        if not (is_authorized d.status)
        then err (value_error "Synthetic adapter requires an authorized delivery")
        else ok (sealed (receipt_fields d t))

    -- `synthetic_delivery_receipt`, of a row of the outbox
    unfoldable pub synthetic_delivery_receipt : Delivery → Iso → Result Json
    unfolding receipt_at
    synthetic_delivery_receipt d at =
        receipt_at d
          (zoned "delivered_at must be ISO-8601" "delivered_at must include a timezone" at)

    unfoldable pub acknowledged_fields :
        Json → String → String → Stamp → List (String × Json) → Fields
    unfolding get_key
    acknowledged_fields plan by id t seal = dict (
        ("acknowledged_at", str (iso_text t))
        ∷ ("acknowledged_by", str by)
        ∷ ("delivery_authorized", bool false)
        ∷ ("owner_scope", or_null (get_key "owner_scope" plan))
        ∷ ("plan_id", str id)
        ∷ (seal
            ++ ("route_id", or_null (get_key "action_target" plan))
              ∷ ("schema_version", num 1)
              ∷ []))

    unfoldable pub acknowledgement : Json → String → Result String → Result Stamp → Result Json
    unfolding acknowledged_fields
    acknowledgement plan by (err e) at = err e
    acknowledgement plan by (ok id) (err e) =
        if not (has_content by) then err (value_error "acknowledged_by is required") else err e
    acknowledgement plan by (ok id) (ok t) =
        if not (has_content by)
        then err (value_error "acknowledged_by is required")
        else ok (sealed (acknowledged_fields plan by id t))

    -- `acknowledge_alert_plan`
    unfoldable pub acknowledge_alert_plan : Json → String → Iso → Result Json
    unfolding acknowledgement get_key
    acknowledge_alert_plan plan by at =
        acknowledgement plan by (plan_id_of (get_key "plan_id" plan))
          (zoned "acknowledged_at must be ISO-8601" "acknowledged_at must include a timezone" at)

  unfoldable pub record_all : Clock → Actor → List Json → Method (List (Observation × Incident))
  record_all c actor [] = pure []
  record_all c actor (plan ∷ plans) = do
    seen ← record_alert_observation digest c actor plan
    rest ← record_all c actor plans
    pure (seen ∷ rest)

  abbrev pub monitor_actor : Scope → Actor
  monitor_actor scope = record { id = "runtime-monitor"; scopes = scope ∷ []; is_sean = false }

  unfoldable pub record_plans :
      Clock → List Entry → Option EscalationRoute → Method (List (Observation × Incident))
  record_plans c alerts none = pure []
  record_plans c alerts (some r) = do
    plans ← from_result (plan_alert_deliveries alerts r r.owner_scope)
    record_all c (monitor_actor r.owner_scope) plans

  abbrev pub scope_of : Option EscalationRoute → Option Scope
  scope_of none = none
  scope_of (some r) = some r.owner_scope

  module _ (shown : ℕ → String → String) where
    -- `capture_monitor_snapshot`
    unfoldable pub capture_monitor_snapshot :
        Clock → Bool → ℕ → Option Bool → Option EscalationRoute → Method Snapshot
    capture_monitor_snapshot c ok_file stale_after backup_ok route = do
      health ← runtime_health c ok_file stale_after true (scope_of route)
      observations ← record_plans c (classify_alerts shown health backup_ok) route
      pure (record {
        healthy = health.healthy && not (failed_backup backup_ok);
        alerts = classify_alerts shown health backup_ok;
        recorded_observations = observations;
        health = health;
      })

    -- `RuntimeMonitor.tick`; it returns the monitor too, with its new `next_due`.
    unfoldable pub tick :
        Clock → Bool → RuntimeMonitor → ℕ → Method (Option Snapshot × RuntimeMonitor)
    tick c ok_file m monotonic_now = if ltb monotonic_now m.next_due then pure (none, m) else do
      snapshot ← capture_monitor_snapshot c ok_file m.stale_after_seconds none (some m.route)
      pure (some snapshot, record m { next_due = monotonic_now + m.interval_seconds })
