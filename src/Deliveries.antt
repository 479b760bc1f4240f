-- ===== src/Deliveries.antt =====
-- The outbox of alert deliveries in sean_os/store.py: staging a delivery for an active incident, and
-- reading it. `digest` is the SHA-256 of the sorted text of a value, in hexadecimal.
pub mod Listing
pub mod Reset
pub mod Approval
pub mod Lease
pub mod Finish
use iac_ai_runtime.Prelude.{
  ℕ, ◌+◌, ◌*◌, ◌-◌, String, Bool, true, false, Option, none, some, or_else, holds_text, List, [],
  ◌∷◌, ◌++◌, not, ◌&&◌, ◌||◌, ◌==◌, is_some, is_empty, has_text, length, ltb, leb, nat_eq,
  if◌then◌else◌,
}
use iac_ai_runtime.Text.{has_content, text_ltb}
use iac_ai_runtime.Exec.{
  Error, Result, ok, err, pure, raise, gets, check, when, catch, from_result, ◌>>=◌, ◌>>◌,
  type_error, authorization_error, validation_error, integrity_error, key_error, policy_denied,
}
use iac_ai_runtime.Json.{
  Json, null, bool, num, str, arr, obj, nil, end, Fields, field, dict, get_field, get_key, json_eq,
  float_of, texts, put_field, merge,
}
use iac_ai_runtime.Time.{Stamp, Iso, malformed, naive, aware, utc, text_leb, instant_leb, second}
use iac_ai_runtime.Table.{select, first, first_by, update, delete, count_rows, order_by}
use iac_ai_runtime.Security.{has_secret, safe_persisted_text, secret_findings}
use iac_ai_runtime.Db.{
  Scope, personal, iac, shared, unknown_scope, scope_eq, has_scope, scopes, scope_name,
  allowed_scopes, Actor, allowed, denied, failed, Db, Store, Clock, Method, write, commit, rollback,
}
use iac_ai_runtime.Access.{
  audit, audit_uncommitted, deny, decline, authorize, write_access, read_access,
  kill_switch_enabled,
}
use iac_ai_runtime.Db.{Delivery, DeliveryStatus, Observation, Profile}
use iac_ai_runtime.Prelude.{any, min}
use iac_ai_runtime.Alerts.{
  is_text, text_or, is_false, is_active, get_alert_observation, get_alert_incident,
}

unfoldable pub is_delivery : String → Delivery → Bool
is_delivery id d = d.delivery_id == id

abbrev pub is_staged : DeliveryStatus → Bool
is_staged DeliveryStatus.staged = true
is_staged _ = false

abbrev pub is_authorized : DeliveryStatus → Bool
is_authorized DeliveryStatus.authorized = true
is_authorized _ = false

abbrev pub is_delivered : DeliveryStatus → Bool
is_delivered DeliveryStatus.synthetic_delivered = true
is_delivered _ = false

abbrev pub is_failed : DeliveryStatus → Bool
is_failed DeliveryStatus.failed = true
is_failed _ = false

abbrev pub delivery_status_name : DeliveryStatus → String
delivery_status_name DeliveryStatus.staged = "STAGED"
delivery_status_name DeliveryStatus.authorized = "AUTHORIZED"
delivery_status_name DeliveryStatus.synthetic_delivered = "SYNTHETIC_DELIVERED"
delivery_status_name DeliveryStatus.failed = "FAILED"

unfoldable pub open_delivery : Actor → Option Delivery → Method Delivery
open_delivery actor none = raise (validation_error "Alert delivery not found")
open_delivery actor (some d) = do authorize actor d.owner_scope [] read_access; pure d

-- `get_alert_delivery`; the fields that it adds to the row are `lease_state` and
-- `attempts_remaining`.
unfoldable pub get_alert_delivery : Actor → String → Method Delivery
get_alert_delivery actor id = do
  row ← gets (λ s. first (is_delivery id) s.live.alert_delivery_outbox)
  open_delivery actor row

pub data LeaseState : Type 0 where
  unclaimed lease_expired lease_active no_lease : LeaseState

abbrev pub expiry_state : ℕ → Option ℕ → LeaseState
expiry_state now none = lease_active
expiry_state now (some e) = if leb e now then lease_expired else lease_active

-- `result["lease_state"]`
unfoldable pub lease_state : ℕ → Delivery → LeaseState
lease_state now d =
    if not (is_authorized d.status)
    then no_lease
    else if or_else d.lease_owner "" == ""
    then unclaimed
    else expiry_state now d.lease_expires_at

-- `result["attempts_remaining"]`; `-` on ℕ stops at 0, as `max(0, ...)` does
unfoldable pub attempts_remaining : Delivery → ℕ
attempts_remaining d = d.max_attempts - d.attempt_count

-- What `stage_alert_delivery` takes from the plan of an observation.
pub record Route : Type 0 where
  pub destination_kind : String
  pub destination_ref : String
  pub alert : Json
  pub code : Json

abbrev pub is_true : Option Json → Bool
is_true (some (bool true)) = true
is_true _ = false

abbrev pub or_null : Option Json → Json
or_null none = null
or_null (some v) = v

abbrev pub destination_kinds : List String
destination_kinds = "EMAIL" ∷ "WEBHOOK" ∷ []

-- The tests on the plan. The recorded plan has an `alert` with its evidence.
unfoldable pub check_route : Observation → Result Route
unfolding get_key
check_route o =
    let plan = o.plan_payload in
    let route = or_null (get_key "route" plan) in
    if not (is_false (get_key "delivery_authorized" plan))
      || not (is_true (get_key "approval_required" plan))
    then err (validation_error "Only approval-gated non-delivering plans may be staged")
    else if not (text_or (get_key "route_id" route) == o.route_id)
    then err (validation_error "Alert delivery route evidence is invalid")
    else if not (has_text (text_or (get_key "destination_kind" route)) destination_kinds)
    then err (validation_error "Alert delivery destination kind is invalid")
    else if not (is_text (get_key "destination_ref" route))
    then err (validation_error "Alert delivery destination reference is invalid")
    else ok (record {
      destination_kind = text_or (get_key "destination_kind" route);
      destination_ref = text_or (get_key "destination_ref" route);
      alert = or_null (get_key "alert" plan);
      code = or_null (get_key "code" (or_null (get_key "alert" plan)));
    })

abbrev pub incident_key : Observation → Route → Json
incident_key o r = obj (
    dict (
      ("alert_code", r.code)
      ∷ ("owner_scope", str (scope_name o.owner_scope))
      ∷ ("route_id", str o.route_id)
      ∷ []))

abbrev pub delivery_key : String → ℕ → Json
delivery_key incident generation =
    obj (dict (("incident_id", str incident) ∷ ("reopen_generation", num generation) ∷ []))

abbrev pub new_delivery : Clock → String → String → ℕ → Observation → Route → String → Delivery
new_delivery c id incident generation o r payload_hash = record {
  delivery_id = id;
  plan_id = o.plan_id;
  incident_id = incident;
  reopen_generation = generation;
  owner_scope = o.owner_scope;
  route_id = o.route_id;
  destination_kind = r.destination_kind;
  destination_ref = r.destination_ref;
  alert_payload = r.alert;
  payload_sha256 = payload_hash;
  status = DeliveryStatus.staged;
  approval_id = none;
  attempt_count = 0;
  max_attempts = 3;
  available_at = c.instant;
  lease_owner = none;
  lease_expires_at = none;
  last_error = none;
  receipt_payload = none;
  created_at = c.instant;
  updated_at = c.instant;
  delivered_at = none;
}

-- The key of the table, and UNIQUE(incident_id, reopen_generation)
unfoldable pub is_same_delivery : Delivery → Delivery → Bool
is_same_delivery d e =
    e.delivery_id == d.delivery_id
    || e.incident_id == d.incident_id && nat_eq e.reopen_generation d.reopen_generation

-- INSERT OR IGNORE INTO alert_delivery_outbox
unfoldable pub insert_delivery : Delivery → Db → Db
unfolding first is_same_delivery
insert_delivery r d =
    if is_some (first (is_same_delivery r) d.alert_delivery_outbox)
    then d
    else record d { alert_delivery_outbox = d.alert_delivery_outbox ++ r ∷ [] }

unfoldable pub report_staged : Clock → Actor → String → String → Observation → Method Delivery
report_staged c actor id payload_hash o = do
  row ← get_alert_delivery actor id
  check (row.plan_id == o.plan_id && row.payload_sha256 == payload_hash)
      (validation_error "Alert delivery identity collision or payload mutation")
  audit c actor "STAGE_ALERT_DELIVERY" allowed "Durable delivery awaiting exact approval" (some id)
      (dict (
        ("delivery_authorized", bool false)
        ∷ ("plan_id", str o.plan_id)
        ∷ ("scope", str (scope_name o.owner_scope))
        ∷ []))
  pure row

module _ (digest : Json → String) where
  unfoldable pub stage_route : Clock → Actor → Observation → Route → Method Delivery
  stage_route c actor o r = do
    incident ← get_alert_incident actor (digest (incident_key o r))
    check (is_active incident.status)
        (validation_error "Resolved incidents cannot stage alert delivery")
    write (
        insert_delivery (
          new_delivery c (digest (delivery_key (digest (incident_key o r)) incident.reopen_count))
            (digest (incident_key o r)) incident.reopen_count o r (digest r.alert)))
    commit
    report_staged c actor (digest (delivery_key (digest (incident_key o r)) incident.reopen_count))
        (digest r.alert) o

  -- `stage_alert_delivery`
  unfoldable pub stage_alert_delivery : Clock → Actor → String → Method Delivery
  stage_alert_delivery c actor plan_id = do
    o ← get_alert_observation actor plan_id
    authorize actor o.owner_scope [] write_access
    route ← from_result (check_route o)
    stage_route c actor o route
