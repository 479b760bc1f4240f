-- ===== src/Access.antt =====
-- `_audit` and `_authorize` of sean_os/store.py, and the kill switch: what every operation of the
-- store goes through.
pub mod Permits
pub mod Preserves
use iac_ai_runtime.Prelude.{
  ℕ, String, Bool, true, false, Option, none, some, List, [], ◌∷◌, ◌++◌, not, ◌&&◌, ◌||◌, ◌==◌,
  is_empty, length, has_text, if◌then◌else◌,
}
use iac_ai_runtime.Exec.{Result, ok, err, pure, raise, gets, check, when, from_result, ◌>>=◌, ◌>>◌}
use iac_ai_runtime.Exec.{Error, authorization_error, validation_error}
use iac_ai_runtime.Json.{
  Json, null, bool, num, str, arr, obj, Items, nil, Fields, end, field, dict, merge,
}
use iac_ai_runtime.Security.{Finding, secret_findings, sensitive_keys}
use iac_ai_runtime.Db.{
  Scope, personal, iac, shared, unknown_scope, scope_eq, has_scope, scopes, Actor, Profile,
  allowed_scopes, AuditResult, AuditRow, allowed, denied, failed, Db, Store, Clock, Method, write,
  commit,
}

abbrev result_name : AuditResult → String
result_name allowed = "ALLOWED"
result_name denied = "DENIED"
result_name failed = "FAILED"

-- The envelope that every audit row has.
abbrev envelope : AuditResult → Fields
envelope r = dict (
    ("evidence", arr nil)
    ∷ ("model", null)
    ∷ ("tool", null)
    ∷ ("cost_units", num 0)
    ∷ ("outcome", str (result_name r))
    ∷ ("rollback_status", str "NOT_APPLICABLE")
    ∷ [])

-- What an audit row says once the scan has been made of its reason and details. The source also
-- lists the sorted types of the findings, which are left out.
unfoldable pub redact : List Finding → AuditResult → String → Fields → String × Fields
redact [] r reason details = (reason, details)
redact (f ∷ fs) r reason details = (
  "Sensitive audit detail redacted",
  merge (envelope r) (
      dict
        (("sensitive_detail_redacted", bool true) ∷ ("finding_count", num (length (f ∷ fs))) ∷ [])),
)

unfoldable pub audit_row :
    Store → Clock → Actor → String → AuditResult → String → Option String → Fields → AuditRow
unfolding redact
audit_row s c actor action r reason affected details =
    let full = merge (envelope r) details in
    let findings =
      secret_findings s.patterns []
        (obj (dict (("details", obj full) ∷ ("reason", str reason) ∷ []))) in
    let (said, kept) = redact findings r reason full in
    record {
      occurred_at = c.instant;
      actor_id = actor.id;
      action = action;
      result = r;
      policy_reason = said;
      affected_record_id = affected;
      details = kept;
    }

-- `_audit(..., commit=False)`
unfoldable pub audit_uncommitted :
    Clock → Actor → String → AuditResult → String → Option String → Fields → Method (Unit {0})
audit_uncommitted c actor action r reason affected details s =
    let row = audit_row s c actor action r reason affected details in
    write (λ d. record d { audit_log = d.audit_log ++ row ∷ [] }) s

-- `_audit`
unfoldable pub audit :
    Clock → Actor → String → AuditResult → String → Option String → Fields → Method (Unit {0})
audit c actor action r reason affected details = do
  audit_uncommitted c actor action r reason affected details
  commit

pub data Access : Type 0 where
  read_access write_access : Access

abbrev pub is_write : Access → Bool
is_write read_access = false
is_write write_access = true

-- `_authorize`, as the value that it returns or raises
unfoldable pub permits : Profile → Actor → Scope → List String → Access → Result (Unit {0})
permits profile actor scope principals access =
    if not (has_scope scope scopes)
    then err (validation_error "Unknown scope")
    else if not (has_scope scope (allowed_scopes profile))
    then err (authorization_error "Scope is outside the database's scope profile")
    else if actor.is_sean
    then ok tt
    else if not (has_scope scope actor.scopes)
    then err (authorization_error "Actor has no such scope")
    else if scope_eq scope shared && not (has_text actor.id principals)
    then err (authorization_error "Actor is not explicitly permitted for SHARED record")
    else if is_write access && scope_eq scope personal && not (actor.id == "sean")
    then err (authorization_error "Only Sean may write PERSONAL records in v0.1")
    else ok tt

unfoldable pub authorize : Actor → Scope → List String → Access → Method (Unit {0})
authorize actor scope principals access s =
    from_result (permits s.scope_profile actor scope principals access) s

-- `kill_switch_enabled`
unfoldable pub kill_switch_enabled : Method Bool
kill_switch_enabled = gets λ s. s.live.kill_switch

-- `self._audit(..., "DENIED", ...)` and then a raise
unfoldable pub deny :
    {A : Type 0} → Clock → Actor → String → String → Option String → Fields → Error → Method A
deny c actor action reason affected details e = do
  audit c actor action denied reason affected details
  raise e

-- `self._audit(..., "DENIED", ...)` and then `return None`
unfoldable pub decline :
    {A : Type 0} → Clock → Actor → String → String → Option String → Fields → Method (Option A)
decline c actor action reason affected details = do
  audit c actor action denied reason affected details
  pure none

-- `set_kill_switch`
unfoldable pub set_kill_switch : Clock → Actor → Bool → Method (Unit {0})
set_kill_switch c actor enabled =
    if not actor.is_sean
    then deny c actor "SET_KILL_SWITCH" "Only Sean controls the kill switch" none end
        (authorization_error "Only Sean controls the kill switch")
    else do
      write (λ d. record d { kill_switch = enabled })
      commit
      audit c actor "SET_KILL_SWITCH" allowed
          (if enabled then "Kill switch ON" else "Kill switch OFF") none end
