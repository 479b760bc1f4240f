-- ===== src/Alerts.antt =====
-- Alerts in sean_os/store.py: what an alert plan says, the rows of an observation and of its
-- incident, and the reading of both.
pub mod Incidents
use iac_ai_runtime.Prelude.{
  ℕ, ◌+◌, ◌*◌, ◌-◌, String, Bool, true, false, Option, none, some, or_else, holds_text, List, [],
  ◌∷◌, ◌++◌, not, ◌&&◌, ◌||◌, ◌==◌, is_some, is_empty, has_text, length, ltb, leb, nat_eq,
  if◌then◌else◌,
}
use iac_ai_runtime.Text.{has_content, text_ltb}
use iac_ai_runtime.Exec.{
  Error, Result, ok, err, pure, raise, gets, check, when, catch, from_result, ◌>>=◌, ◌>>◌,
  type_error, authorization_error, validation_error, integrity_error, key_error, policy_denied,
}
use iac_ai_runtime.Json.{
  Json, null, bool, num, str, arr, obj, nil, end, Fields, field, dict, get_field, get_key, json_eq,
  float_of, texts, put_field, merge,
}
use iac_ai_runtime.Time.{Stamp, Iso, malformed, naive, aware, utc, text_leb, instant_leb, second}
use iac_ai_runtime.Table.{select, first, first_by, update, delete, count_rows, order_by}
use iac_ai_runtime.Security.{has_secret, safe_persisted_text, secret_findings}
use iac_ai_runtime.Db.{
  Scope, personal, iac, shared, unknown_scope, scope_eq, has_scope, scopes, scope_name,
  allowed_scopes, Actor, allowed, denied, failed, Db, Store, Clock, Method, write, commit, rollback,
}
use iac_ai_runtime.Access.{
  audit, audit_uncommitted, deny, decline, authorize, write_access, read_access,
  kill_switch_enabled,
}
use iac_ai_runtime.Db.{Observation, Incident, IncidentStatus}
use iac_ai_runtime.Text.{codes}

abbrev pub is_text : Option Json → Bool
is_text (some (str t)) = has_content t
is_text _ = false

abbrev pub text_or : Option Json → String
text_or (some (str t)) = t
text_or _ = ""

abbrev pub is_false : Option Json → Bool
is_false (some (bool false)) = true
is_false _ = false

abbrev pub is_dict : Option Json → Bool
is_dict (some (obj fs)) = true
is_dict _ = false

abbrev pub alert_of : Option Json → Json
alert_of (some v) = v
alert_of none = null

abbrev pub severities : List String
severities = "ATTENTION" ∷ "HIGH" ∷ "CRITICAL" ∷ []

-- `scope not in {"PERSONAL", "IAC"}` lets these two through.
abbrev pub alert_scope : Option Json → Option Scope
alert_scope (some (str t)) =
    if t == "PERSONAL" then some personal else if t == "IAC" then some iac else none
alert_scope _ = none

-- What `record_alert_observation` reads in a plan.
pub record Alert : Type 0 where
  pub plan_id : String
  pub scope : Scope
  pub route_id : String
  pub code : String
  pub severity : String
  pub summary : String

abbrev pub alert_in : Scope → Json → Alert
alert_in scope plan =
    let alert = alert_of (get_key "alert" plan) in
    record {
      plan_id = text_or (get_key "plan_id" plan);
      scope = scope;
      route_id = text_or (get_key "action_target" plan);
      code = text_or (get_key "code" alert);
      severity = text_or (get_key "severity" alert);
      summary = text_or (get_key "summary" alert);
    }

-- The tests between `_authorize` and the digest.
unfoldable pub check_plan : Bool → Json → Result (Unit {0})
unfolding get_key
check_plan found plan =
    let alert = alert_of (get_key "alert" plan) in
    if not (nat_eq (length (codes (text_or (get_key "plan_id" plan)))) 64)
    then err (validation_error "Alert observation requires deterministic plan_id")
    else if not (is_false (get_key "delivery_authorized" plan))
    then err (validation_error "Only non-delivering alert plans may be recorded")
    else if found
    then err (validation_error "Secret-like material is prohibited in alert evidence")
    else if not (is_text (get_key "action_target" plan))
    then err (validation_error "Alert observation requires a route ID")
    else if not (is_dict (get_key "alert" plan))
    then err (validation_error "Alert observation requires alert evidence")
    else if not (is_text (get_key "code" alert)) || not (is_text (get_key "summary" alert))
    then err (validation_error "Alert code and summary are required")
    else if not (has_text (text_or (get_key "severity" alert)) severities)
    then err (validation_error "Alert severity is unsupported")
    else ok tt

-- `incident_identity`
abbrev pub incident_identity : Alert → Json
incident_identity a = obj (
    dict (
      ("alert_code", str a.code)
      ∷ ("owner_scope", str (scope_name a.scope))
      ∷ ("route_id", str a.route_id)
      ∷ []))

unfoldable pub is_observation : String → Observation → Bool
is_observation id o = o.plan_id == id

unfoldable pub is_incident : String → Incident → Bool
is_incident id i = i.incident_id == id

abbrev pub is_active : IncidentStatus → Bool
is_active IncidentStatus.active = true
is_active IncidentStatus.resolved = false

abbrev pub was_resolved : Option Incident → Bool
was_resolved none = false
was_resolved (some i) = not (is_active i.status)

unfoldable pub seen_again : ℕ → Observation → Observation
seen_again stamp o = record o { last_seen_at = stamp; occurrence_count = o.occurrence_count + 1 }

-- INSERT INTO alert_observations ... ON CONFLICT
unfoldable pub upsert_observation : ℕ → Alert → Json → Db → Db
unfolding first update is_observation seen_again
upsert_observation stamp a plan d =
    if is_some (first (is_observation a.plan_id) d.alert_observations)
    then record d {
      alert_observations =
          update (is_observation a.plan_id) (seen_again stamp) d.alert_observations;
    }
    else record d {
      alert_observations =
          record {
            plan_id = a.plan_id;
            owner_scope = a.scope;
            route_id = a.route_id;
            plan_payload = plan;
            first_seen_at = stamp;
            last_seen_at = stamp;
            occurrence_count = 1;
            acknowledgement_payload = none;
            acknowledged_at = none;
            acknowledged_by = none;
          }
          ∷ d.alert_observations;
    }

unfoldable pub reopen : ℕ → Alert → Incident → Incident
reopen stamp a i = record i {
  severity = a.severity;
  current_summary = a.summary;
  status = IncidentStatus.active;
  last_seen_at = stamp;
  occurrence_count = i.occurrence_count + 1;
  reopen_count = i.reopen_count + (if is_active i.status then 0 else 1);
  resolved_at = none;
  resolved_by = none;
  resolution_reason = none;
}

-- INSERT INTO alert_incidents ... ON CONFLICT
unfoldable pub upsert_incident : ℕ → String → Alert → Db → Db
unfolding first update is_incident reopen
upsert_incident stamp id a d =
    if is_some (first (is_incident id) d.alert_incidents)
    then record d { alert_incidents = update (is_incident id) (reopen stamp a) d.alert_incidents }
    else record d {
      alert_incidents =
          record {
            incident_id = id;
            owner_scope = a.scope;
            route_id = a.route_id;
            alert_code = a.code;
            severity = a.severity;
            current_summary = a.summary;
            status = IncidentStatus.active;
            first_seen_at = stamp;
            last_seen_at = stamp;
            occurrence_count = 1;
            reopen_count = 0;
            resolved_at = none;
            resolved_by = none;
            resolution_reason = none;
          }
          ∷ d.alert_incidents;
    }

unfoldable pub open_observation : Actor → Option Observation → Method Observation
open_observation actor none = raise (validation_error "Alert observation not found")
open_observation actor (some o) = do authorize actor o.owner_scope [] read_access; pure o

-- `get_alert_observation`
unfoldable pub get_alert_observation : Actor → String → Method Observation
get_alert_observation actor id = do
  row ← gets (λ s. first (is_observation id) s.live.alert_observations)
  open_observation actor row

unfoldable pub open_incident : Actor → Option Incident → Method Incident
open_incident actor none = raise (validation_error "Alert incident not found")
open_incident actor (some i) = do authorize actor i.owner_scope [] read_access; pure i

-- `get_alert_incident`
unfoldable pub get_alert_incident : Actor → String → Method Incident
get_alert_incident actor id = do
  row ← gets (λ s. first (is_incident id) s.live.alert_incidents)
  open_incident actor row

abbrev pub collides : Json → Option Observation → Bool
collides plan none = false
collides plan (some o) = not (json_eq o.plan_payload plan)
