-- ===== src/Approvals.antt =====
-- The approvals of sean_os/store.py: `create_approval`, `request_approval` and `decide_approval`.
-- The time at which an approval ends is given with its zone.
pub mod Preserves
pub mod Consume
pub mod Once
use iac_ai_runtime.Prelude.{
  ℕ, ◌+◌, ◌*◌, ◌-◌, String, Bool, true, false, Option, none, some, or_else, holds_text, List, [],
  ◌∷◌, ◌++◌, not, ◌&&◌, ◌||◌, ◌==◌, is_some, is_empty, has_text, length, ltb, leb, nat_eq,
  if◌then◌else◌,
}
use iac_ai_runtime.Text.{has_content, text_ltb}
use iac_ai_runtime.Exec.{
  Error, Result, ok, err, pure, raise, gets, check, when, catch, from_result, ◌>>=◌, ◌>>◌,
  type_error, authorization_error, validation_error, integrity_error, key_error, policy_denied,
}
use iac_ai_runtime.Json.{
  Json, null, bool, num, str, arr, obj, nil, end, Fields, field, dict, get_field, get_key, json_eq,
  float_of, texts, put_field, merge,
}
use iac_ai_runtime.Time.{Stamp, Iso, malformed, naive, aware, utc, text_leb, instant_leb, second}
use iac_ai_runtime.Table.{select, first, first_by, update, delete, count_rows, order_by}
use iac_ai_runtime.Security.{has_secret, safe_persisted_text, secret_findings}
use iac_ai_runtime.Db.{
  Scope, personal, iac, shared, unknown_scope, scope_eq, has_scope, scopes, scope_name,
  allowed_scopes, Actor, allowed, denied, failed, Db, Store, Clock, Method, write, commit, rollback,
}
use iac_ai_runtime.Access.{
  audit, audit_uncommitted, deny, decline, authorize, write_access, read_access,
  kill_switch_enabled,
}
use iac_ai_runtime.Db.{
  Approval, ApprovalStatus, pending, approved, expired, consumed, approval, Profile, ProjectState,
  active, incubator, paused, killed, unknown_state,
}
use iac_ai_runtime.Records.{NewRecord, create_record}

unfoldable pub is_approval : String → Approval → Bool
is_approval id a = a.record_id == id

abbrev pub is_pending : ApprovalStatus → Bool
is_pending pending = true
is_pending _ = false

abbrev pub is_approved : ApprovalStatus → Bool
is_approved approved = true
is_approved _ = false

abbrev pub approval_status_name : ApprovalStatus → String
approval_status_name pending = "PENDING"
approval_status_name approved = "APPROVED"
approval_status_name denied = "DENIED"
approval_status_name expired = "EXPIRED"
approval_status_name consumed = "CONSUMED"

-- The arguments of `create_approval` and `request_approval`.
pub record Ask : Type 0 where
  pub action_type : String
  pub target : String
  pub scope : Scope
  pub max_impact : String
  pub expires_at : Stamp
  pub conditions : Fields

-- `secret_findings({"action_type": ..., ...})`
unfoldable pub ask_has_secret : Store → Ask → Bool
ask_has_secret s q = has_secret s.patterns (
    obj (
      dict (
        ("action_type", str q.action_type)
        ∷ ("target", str q.target)
        ∷ ("max_impact", str q.max_impact)
        ∷ ("conditions", obj q.conditions)
        ∷ [])))

abbrev pub ask_record : Ask → String → List String → NewRecord
ask_record q source principals = record {
  entity_type = approval;
  scope = q.scope;
  payload = obj (dict (("action_type", str q.action_type) ∷ ("target", str q.target) ∷ []));
  confidentiality = none;
  portable_on_sale = some (scope_eq q.scope iac);
  source = source;
  source_locator = none;
  permitted_principals = principals;
  confidence = none;
  effective_at = none;
  expires_at = some (aware q.expires_at);
  retention_rule = "until_expired";
}

abbrev pub new_approval : String → Ask → String → ApprovalStatus → Bool → Approval
new_approval id q approver status reusable = record {
  record_id = id;
  action_type = q.action_type;
  target = q.target;
  scope = q.scope;
  max_impact = q.max_impact;
  conditions = obj q.conditions;
  approver = approver;
  status = status;
  expires_at = q.expires_at;
  reusable = reusable;
}

unfoldable pub insert_approval : Approval → Method (Unit {0})
insert_approval a = write (λ d. record d { approvals = a ∷ d.approvals })

-- `create_approval`; `id` is the `uuid4` of the record.
unfoldable pub create_approval : Clock → Actor → String → Ask → String → Bool → Method String
create_approval c actor id q approver reusable = do
  check actor.is_sean (authorization_error "Only Sean may create approvals in v0.1")
  found ← gets (λ s. ask_has_secret s q)
  check (not found) (validation_error "Secret-like material is prohibited in approval records")
  create_record c actor id
      (ask_record q "approval-queue" (if scope_eq q.scope shared then approver ∷ [] else []))
  insert_approval (new_approval id q approver approved reusable)
  commit
  audit c actor "CREATE_APPROVAL" allowed "Explicit approval recorded" (some id) (
      dict (
        ("action_type", str q.action_type)
        ∷ ("reusable", bool reusable)
        ∷ ("target", str q.target)
        ∷ []))
  pure id

-- `request_approval`; `id` is the `uuid4` of the record.
unfoldable pub request_approval : Clock → Actor → String → Ask → Method String
request_approval c actor id q = do
  found ← gets (λ s. ask_has_secret s q)
  check (not found) (validation_error "Secret-like material is prohibited in approval records")
  authorize actor q.scope [] write_access
  create_record c actor id (ask_record q "approval-request" [])
  insert_approval (new_approval id q "sean" pending false)
  commit
  audit c actor "REQUEST_APPROVAL" allowed "Bounded approval requested" (some id) (
      dict (
        ("action_type", str q.action_type)
        ∷ ("max_impact", str q.max_impact)
        ∷ ("target", str q.target)
        ∷ []))
  pure id

-- UPDATE approvals SET status=? WHERE record_id=?
unfoldable pub set_approval : String → ApprovalStatus → Db → Db
unfolding update is_approval
set_approval id status d = record d {
  approvals = update (is_approval id) (λ a. record a { status = status }) d.approvals;
}

abbrev pub decision_status : Bool → ApprovalStatus
decision_status true = approved
decision_status false = denied

-- WHERE record_id=? AND status='PENDING'
unfoldable pub is_undecided : String → Approval → Bool
unfolding is_approval
is_undecided id a = is_approval id a && is_pending a.status

unfoldable pub expire_approval : Clock → Actor → String → Method ApprovalStatus
expire_approval c actor id = do
  write (set_approval id expired)
  commit
  deny c actor "DECIDE_APPROVAL" "Approval request expired" (some id)
      (dict (("status", str "EXPIRED") ∷ [])) (validation_error "Approval request expired")

-- The UPDATE of the decision; if it counts no row, `rollback` and a raise.
unfoldable pub update_undecided : String → ApprovalStatus → Method (Unit {0})
update_undecided id status s =
    if nat_eq (count_rows (is_undecided id) s.live.approvals) 1
    then write
        (λ d. record d {
          approvals = update (is_undecided id) (λ a. record a { status = status }) d.approvals;
        })
        s
    else (rollback >> raise (validation_error "Approval is not pending")) s

unfoldable pub settle_approval :
    Clock → Actor → String → ApprovalStatus → String → Method ApprovalStatus
settle_approval c actor id status reason = do
  update_undecided id status
  commit
  audit c actor "DECIDE_APPROVAL" allowed reason (some id)
      (dict (("status", str (approval_status_name status)) ∷ []))
  pure status

unfoldable pub decide_found :
    Clock → Actor → String → Bool → String → Option Approval → Method ApprovalStatus
decide_found c actor id approve reason none = raise (validation_error "Approval not found")
decide_found c actor id approve reason (some a) = do
  authorize actor a.scope [] write_access
  check (is_pending a.status) (validation_error "Approval is not pending")
  if instant_leb a.expires_at (utc c.instant)
      then expire_approval c actor id
      else settle_approval c actor id (decision_status approve) reason

-- `decide_approval`
unfoldable pub decide_approval : Clock → Actor → String → Bool → String → Method ApprovalStatus
decide_approval c actor id approve reason = do
  check actor.is_sean (authorization_error "Only Sean may decide approval requests")
  check (has_content reason) (validation_error "Approval decisions require a reason")
  found ← gets (λ s. has_secret s.patterns (obj (dict (("reason", str reason) ∷ []))))
  check (not found) (validation_error "Secret-like material is prohibited in approval evidence")
  row ← gets (λ s. first (is_approval id) s.live.approvals)
  decide_found c actor id approve reason row
