-- ===== src/Records.antt =====
-- The canonical records of sean_os/store.py: `create_record`. A time is given as what
-- `datetime.fromisoformat` makes of its text.
pub mod Reading
pub mod Roundtrip
pub mod Versions
use iac_ai_runtime.Prelude.{
  ℕ, ◌+◌, ◌*◌, ◌-◌, String, Bool, true, false, Option, none, some, or_else, holds_text, List, [],
  ◌∷◌, ◌++◌, not, ◌&&◌, ◌||◌, ◌==◌, is_some, is_empty, has_text, length, ltb, leb, nat_eq,
  if◌then◌else◌,
}
use iac_ai_runtime.Text.{has_content, text_ltb, upper, sorted_set}
use iac_ai_runtime.Exec.{
  Error, Result, ok, err, pure, raise, gets, check, when, catch, from_result, ◌>>=◌, ◌>>◌,
  type_error, authorization_error, validation_error, integrity_error, operational_error, key_error,
  value_error, policy_denied,
}
use iac_ai_runtime.Json.{
  Json, null, bool, num, str, arr, obj, nil, end, Fields, field, dict, get_field, get_key, json_eq,
  float_of, texts, put_field, merge,
}
use iac_ai_runtime.Time.{Stamp, Iso, malformed, naive, aware, utc, text_leb, instant_leb, second}
use iac_ai_runtime.Table.{select, first, first_by, update, delete, count_rows, order_by}
use iac_ai_runtime.Security.{has_secret, safe_persisted_text, secret_findings}
use iac_ai_runtime.Db.{
  EntityType, goal, idea, project, task, decision, knowledge, agent, approval, unknown_entity,
  RecordRow, incubator, ProjectRow, Relationship, ProjectState, Scope, personal, iac, shared,
  unknown_scope, scope_eq, has_scope, scopes, scope_name, allowed_scopes, Actor, allowed, denied,
  failed, Db, Store, Clock, Method, write, commit, rollback,
}
use iac_ai_runtime.Access.{
  audit, audit_uncommitted, deny, decline, authorize, write_access, read_access,
  kill_switch_enabled,
}

-- The arguments of `create_record`; `confidence` is in thousandths.
pub record NewRecord : Type 0 where
  pub entity_type : EntityType
  pub scope : Scope
  pub payload : Json
  pub confidentiality : Option String
  pub portable_on_sale : Option Bool
  pub source : String
  pub source_locator : Option String
  pub permitted_principals : List String
  pub confidence : Option ℕ
  pub effective_at : Option Iso
  pub expires_at : Option Iso
  pub retention_rule : String

abbrev pub is_entity : EntityType → Bool
is_entity (unknown_entity t) = false
is_entity _ = true

abbrev pub entity_name : EntityType → String
entity_name goal = "GOAL"
entity_name idea = "IDEA"
entity_name project = "PROJECT"
entity_name task = "TASK"
entity_name decision = "DECISION"
entity_name knowledge = "KNOWLEDGE"
entity_name agent = "AGENT"
entity_name approval = "APPROVAL"
entity_name (unknown_entity t) = t

-- The kind, and the scope, of a text in upper case
abbrev pub entity_of : String → EntityType
entity_of t =
    if t == "GOAL"
    then goal
    else if t == "IDEA"
    then idea
    else if t == "PROJECT"
    then project
    else if t == "TASK"
    then task
    else if t == "DECISION"
    then decision
    else if t == "KNOWLEDGE"
    then knowledge
    else if t == "AGENT"
    then agent
    else if t == "APPROVAL"
    then approval
    else unknown_entity t

abbrev pub scope_of : String → Scope
scope_of t =
    if t == "PERSONAL"
    then personal
    else if t == "IAC"
    then iac
    else if t == "SHARED"
    then shared
    else unknown_scope t

-- The first two lines of `create_record`: `entity_type.upper()`, `scope.upper()` and
-- `sorted(set(permitted_principals))`
unfoldable pub canonical : NewRecord → NewRecord
unfolding upper sorted_set
canonical n = record n {
  entity_type = entity_of (upper (entity_name n.entity_type));
  scope = scope_of (upper (scope_name n.scope));
  permitted_principals = sorted_set n.permitted_principals;
}

abbrev pub is_project : EntityType → Bool
is_project project = true
is_project _ = false

abbrev pub retention_rules : List String
retention_rules = "retain" ∷ "until_expired" ∷ "legal_hold" ∷ []

-- `str(exc)`
abbrev pub error_text : Error → String
error_text (authorization_error t) = t
error_text (validation_error t) = t
error_text (key_error t) = t
error_text (value_error t) = t
error_text (policy_denied t b) = t
error_text type_error = "TypeError"
error_text integrity_error = "IntegrityError"
error_text operational_error = "OperationalError"

-- `{"PERSONAL": ..., ...}[scope]`
abbrev pub default_confidentiality : Scope → String
default_confidentiality personal = "PRIVATE"
default_confidentiality iac = "EXECUTIVE"
default_confidentiality shared = "CONFIDENTIAL"
default_confidentiality (unknown_scope t) = t

abbrev pub check_order : Stamp → Stamp → Result (Stamp × Option Stamp)
check_order t e =
    if instant_leb e t
    then err (validation_error "expires_at must be after effective_at")
    else ok (t, some e)

-- `effective_at or stamp` and `expires_at` as times: both must be times with a zone, in this order.
unfoldable pub check_times : ℕ → Option Iso → Option Iso → Result (Stamp × Option Stamp)
unfolding instant_leb
check_times now none none = ok (utc now, none)
check_times now none (some (aware e)) = check_order (utc now) e
check_times now (some (aware t)) none = ok (t, none)
check_times now (some (aware t)) (some (aware e)) = check_order t e
check_times now (some malformed) e =
    err (validation_error "effective_at/expires_at must be ISO-8601 timestamps")
check_times now t (some malformed) =
    err (validation_error "effective_at/expires_at must be ISO-8601 timestamps")
check_times now t e = err (validation_error "effective_at/expires_at must include a timezone")

-- `portable_on_sale`, or `scope == "IAC"`
abbrev pub is_portable : NewRecord → Bool
is_portable n = or_else n.portable_on_sale (scope_eq n.scope iac)

-- What stands between `_authorize` and the INSERT.
unfoldable pub check_record : NewRecord → Result (Unit {0})
check_record n =
    if scope_eq n.scope shared && is_empty n.permitted_principals
    then err (validation_error "SHARED records require explicit permitted principals")
    else if scope_eq n.scope shared && not (is_some n.portable_on_sale)
    then err (validation_error "SHARED portability must be explicit")
    else if scope_eq n.scope personal && is_portable n
    then err (validation_error "PERSONAL records cannot be portable on IAC sale")
    else if not (has_text n.retention_rule retention_rules)
    then err (validation_error "Unknown retention rule")
    else if not (leb (or_else n.confidence (if n.source == "user" then 1000 else 500)) 1000)
    then err (validation_error "Confidence must be between 0 and 1")
    else ok tt

abbrev pub new_record : Clock → Actor → String → NewRecord → Stamp × Option Stamp → RecordRow
new_record c actor record_id n times = record {
  id = record_id;
  entity_type = n.entity_type;
  owner_scope = n.scope;
  confidentiality = or_else n.confidentiality (default_confidentiality n.scope);
  portable_on_sale = is_portable n;
  source = n.source;
  source_locator = n.source_locator;
  created_by = actor.id;
  created_at = c.instant;
  updated_at = c.instant;
  effective_at = times.0;
  expires_at = times.1;
  confidence = or_else n.confidence (if n.source == "user" then 1000 else 500);
  permitted_principals = n.permitted_principals;
  retention_rule = n.retention_rule;
  payload = n.payload;
  version = 1;
}

abbrev pub shared_levels : List String
shared_levels = "PRIVATE" ∷ "CONFIDENTIAL" ∷ []

abbrev pub levels : List String
levels = "PRIVATE" ∷ "CONFIDENTIAL" ∷ "EXECUTIVE" ∷ "MANAGEMENT" ∷ "GENERAL" ∷ []

unfoldable pub is_record : String → RecordRow → Bool
is_record id r = r.id == id

-- The key and the CHECKs of the table `records` that `check_record` does not imply.
unfoldable pub fits_table : RecordRow → List RecordRow → Bool
unfolding is_record
fits_table r rs =
    not (is_some (first (is_record r.id) rs))
    && has_text r.confidentiality levels
    && (not (scope_eq r.owner_scope shared) || has_text r.confidentiality shared_levels)

unfoldable pub insert_record : RecordRow → Db → Db
insert_record r d = record d {
  records = d.records ++ r ∷ [];
  project_state =
      if is_project r.entity_type
      then record {
        record_id = r.id;
        state = incubator;
        reason = "Created";
        review_at = none;
        reopen_trigger = none;
        changed_at = r.created_at;
      }
        ∷ d.project_state
      else d.project_state;
}

-- The INSERT, the commit and the audit row of `create_record`
unfoldable pub write_record :
    Clock → Actor → String → NewRecord → Stamp × Option Stamp → Method String
write_record c actor record_id n times = do
  write (insert_record (new_record c actor record_id n times))
  commit
  audit c actor "CREATE_RECORD" allowed "Authorized scoped write" (some record_id) (
      dict (
        ("entity_type", str (entity_name n.entity_type))
        ∷ ("scope", str (scope_name n.scope))
        ∷ []))
  pure record_id

-- The body of the `try` of `create_record`
unfoldable pub try_create_record : Clock → Actor → String → NewRecord → Method String
try_create_record c actor record_id n = do
  check (is_entity n.entity_type) (validation_error "Unknown entity type")
  found ← gets (λ s. has_secret s.patterns n.payload)
  check (not found)
      (validation_error "Secret-like material is prohibited in canonical record payloads")
  authorize actor n.scope n.permitted_principals write_access
  from_result (check_record n)
  times ← from_result (check_times c.instant n.effective_at n.expires_at)
  fits ← gets (λ s. fits_table (new_record c actor record_id n times) s.live.records)
  check fits integrity_error
  write_record c actor record_id n times

unfoldable pub refuse_record : Clock → Actor → String → NewRecord → Error → Method String
refuse_record c actor record_id n e =
    rollback
    >> deny c actor "CREATE_RECORD" (error_text e) (some record_id)
        (dict (
          ("entity_type", str (entity_name n.entity_type))
          ∷ ("scope", str (scope_name n.scope))
          ∷ []))
        e

-- `create_record`; `record_id` is the new `uuid4`.
unfoldable pub create_record : Clock → Actor → String → NewRecord → Method String
create_record c actor record_id n =
    catch (try_create_record c actor record_id (canonical n))
      (refuse_record c actor record_id (canonical n))
