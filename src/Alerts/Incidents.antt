-- ===== src/Alerts/Incidents.antt =====
-- Recording, resolving and acknowledging alerts in sean_os/store.py. `digest` is the SHA-256 of the
-- sorted text of a value, in hexadecimal.
use iac_ai_runtime.Prelude.{
  ℕ, String, Bool, false, Option, none, some, holds_text, List, [], ◌∷◌, not, ◌&&◌, ◌||◌, ◌==◌, ltb,
  nat_eq, if◌then◌else◌,
}
use iac_ai_runtime.Text.{has_content, text_ltb}
use iac_ai_runtime.Exec.{
  pure, raise, gets, check, from_result, ◌>>=◌, ◌>>◌, authorization_error, validation_error,
}
use iac_ai_runtime.Json.{Json, bool, str, obj, dict, get_key, json_eq}
use iac_ai_runtime.Table.{select, first, update, order_by}
use iac_ai_runtime.Security.{has_secret}
use iac_ai_runtime.Db.{
  Scope, personal, iac, scope_eq, has_scope, scope_name, Actor, allowed, Clock, Method, write,
  commit,
}
use iac_ai_runtime.Access.{audit, authorize, write_access, read_access}
use iac_ai_runtime.Db.{Observation, Incident, IncidentStatus}
use iac_ai_runtime.Alerts.{
  Alert, alert_in, alert_scope, check_plan, get_alert_observation, get_alert_incident,
  is_observation, is_incident, is_active, incident_identity, collides, was_resolved,
  upsert_observation, upsert_incident, text_or, is_false,
}

module _ (digest : Json → String) where
  unfoldable pub store_alert : Clock → Actor → Json → Alert → Method (Observation × Incident)
  store_alert c actor plan a = do
    prior ← gets (λ s. first (is_incident (digest (incident_identity a))) s.live.alert_incidents)
    write (upsert_observation c.instant a plan)
    write (upsert_incident c.instant (digest (incident_identity a)) a)
    commit
    audit c actor "RECORD_ALERT_OBSERVATION" allowed "Scoped non-delivering alert evidence recorded"
        (some a.plan_id)
        (dict (
          ("incident_id", str (digest (incident_identity a)))
          ∷ ("incident_reopened", bool (was_resolved prior))
          ∷ ("route_id", str a.route_id)
          ∷ ("scope", str (scope_name a.scope))
          ∷ []))
    seen ← get_alert_observation actor a.plan_id
    incident ← get_alert_incident actor (digest (incident_identity a))
    pure (seen, incident)

  unfoldable pub record_in_scope :
      Clock → Actor → Json → Option Scope → Method (Observation × Incident)
  record_in_scope c actor plan none =
      raise (validation_error "Alert observation requires PERSONAL or IAC scope")
  record_in_scope c actor plan (some scope) = do
    authorize actor scope [] write_access
    found ← gets (λ s. has_secret s.patterns plan)
    from_result (check_plan found plan)
    existing ←
        gets (λ s. first (is_observation (alert_in scope plan).plan_id) s.live.alert_observations)
    check (not (collides plan existing))
        (validation_error "Alert plan_id collision or payload mutation")
    store_alert c actor plan (alert_in scope plan)

  -- `record_alert_observation`; the incident is the field that it adds to the observation.
  unfoldable pub record_alert_observation : Clock → Actor → Json → Method (Observation × Incident)
  record_alert_observation c actor plan =
      record_in_scope c actor plan (alert_scope (get_key "owner_scope" plan))

abbrev pub severity_rank : String → ℕ
severity_rank s = if s == "CRITICAL" then 3 else if s == "HIGH" then 2 else 1

-- ORDER BY the severity DESC, last_seen_at DESC, incident_id
unfoldable pub incidents_before : Incident → Incident → Bool
incidents_before i j =
    ltb (severity_rank j.severity) (severity_rank i.severity)
    || nat_eq (severity_rank j.severity) (severity_rank i.severity)
      && (ltb j.last_seen_at i.last_seen_at
          || nat_eq j.last_seen_at i.last_seen_at && text_ltb i.incident_id j.incident_id)

abbrev pub is_active_in : Scope → Incident → Bool
is_active_in scope i = scope_eq i.owner_scope scope && is_active i.status

-- `active_alert_incidents`
unfoldable pub active_alert_incidents : Actor → Scope → Method (List Incident)
active_alert_incidents actor scope = do
  check (has_scope scope (personal ∷ iac ∷ []))
      (validation_error "Alert incidents require PERSONAL or IAC scope")
  authorize actor scope [] read_access
  gets (λ s. order_by incidents_before (select (is_active_in scope) s.live.alert_incidents))

unfoldable pub set_resolved : Clock → Actor → String → Incident → Incident
set_resolved c actor reason i = record i {
  status = IncidentStatus.resolved;
  resolved_at = some c.instant;
  resolved_by = some actor.id;
  resolution_reason = some reason;
}

unfoldable pub resolve_again : Clock → Actor → String → String → Incident → Method Incident
resolve_again c actor id reason i =
    if holds_text i.resolved_by actor.id && holds_text i.resolution_reason reason
    then (do
      audit c actor "RESOLVE_ALERT_INCIDENT" allowed "Idempotent resolution replay" (some id) (
          dict
            (("outcome", str "ALREADY_RESOLVED") ∷ ("scope", str (scope_name i.owner_scope)) ∷ []))
      pure i)
    else raise (validation_error "Alert incident is already resolved with different evidence")

unfoldable pub resolve_found : Clock → Actor → String → String → Option Incident → Method Incident
resolve_found c actor id reason none = raise (validation_error "Alert incident not found")
resolve_found c actor id reason (some i) =
    if not (is_active i.status) then resolve_again c actor id reason i else do
      write (λ d. record d {
        alert_incidents = update (is_incident id) (set_resolved c actor reason) d.alert_incidents;
      })
      commit
      audit c actor "RESOLVE_ALERT_INCIDENT" allowed reason (some id)
          (dict (("outcome", str "RESOLVED") ∷ ("scope", str (scope_name i.owner_scope)) ∷ []))
      get_alert_incident actor id

-- `resolve_alert_incident`
unfoldable pub resolve_alert_incident : Clock → Actor → String → String → Method Incident
resolve_alert_incident c actor id reason = do
  check actor.is_sean (authorization_error "Only Sean may resolve an alert incident in v0.1")
  check (has_content reason) (validation_error "Alert resolution requires a reason")
  found ← gets (λ s. has_secret s.patterns (obj (dict (("reason", str reason) ∷ []))))
  check (not found) (validation_error "Secret-like material is prohibited in resolution evidence")
  row ← gets (λ s. first (is_incident id) s.live.alert_incidents)
  resolve_found c actor id reason row

abbrev pub text_field : Option Json → Option String
text_field (some (str t)) = some t
text_field _ = none

unfoldable pub set_acknowledged : Json → Observation → Observation
unfolding get_key
set_acknowledged receipt o = record o {
  acknowledgement_payload = some receipt;
  acknowledged_at = text_field (get_key "acknowledged_at" receipt);
  acknowledged_by = text_field (get_key "acknowledged_by" receipt);
}

abbrev pub is_other : Json → Option Json → Bool
is_other receipt none = false
is_other receipt (some v) = not (json_eq v receipt)

unfoldable pub acknowledge_found :
    Clock → Actor → Json → String → Option Observation → Method Observation
acknowledge_found c actor receipt id none = raise (validation_error "Alert observation not found")
acknowledge_found c actor receipt id (some o) = do
  check (text_or (get_key "owner_scope" receipt) == scope_name o.owner_scope)
      (validation_error "Acknowledgement scope mismatch")
  check (is_false (get_key "delivery_authorized" receipt))
      (validation_error "Acknowledgement cannot authorize delivery")
  check (not (is_other receipt o.acknowledgement_payload))
      (validation_error "Alert observation is already acknowledged")
  write (λ d. record d {
    alert_observations = update (is_observation id) (set_acknowledged receipt) d.alert_observations;
  })
  commit
  audit c actor "ACKNOWLEDGE_ALERT" allowed "Immutable local acknowledgement attached" (some id)
      (dict (("delivery_authorized", bool false) ∷ ("scope", str (scope_name o.owner_scope)) ∷ []))
  get_alert_observation actor id

-- `acknowledge_alert_observation`
unfoldable pub acknowledge_alert_observation : Clock → Actor → Json → Method Observation
acknowledge_alert_observation c actor receipt = do
  check actor.is_sean (authorization_error "Only Sean may acknowledge an escalation in v0.1")
  row ←
      gets (λ s.
        first (is_observation (text_or (get_key "plan_id" receipt))) s.live.alert_observations)
  acknowledge_found c actor receipt (text_or (get_key "plan_id" receipt)) row
