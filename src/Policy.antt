-- ===== src/Policy.antt =====
-- sean_os/policy.py: the registry of actions, and the gate through which every action runs. The
-- `approval_id` and the `action_target` of a payload are texts, where they are there.
pub mod Replay
pub mod Gate
use iac_ai_runtime.Prelude.{
  ℕ, String, Bool, true, false, Option, none, some, List, [], ◌∷◌, not, ◌&&◌, ◌||◌, ◌==◌, is_some,
  nat_eq, if◌then◌else◌,
}
use iac_ai_runtime.Exec.{
  Error, Result, ok, err, pure, raise, check, when, catch, from_result, ◌>>=◌, ◌>>◌,
  authorization_error, policy_denied,
}
use iac_ai_runtime.Json.{Json, bool, num, str, arr, obj, nil, end, Fields, field, dict, get_key}
use iac_ai_runtime.Table.{first}
use iac_ai_runtime.Db.{Scope, personal, iac, shared, has_scope, Actor, Clock, Method}
use iac_ai_runtime.Access.{kill_switch_enabled}
use iac_ai_runtime.Db.{Work}
use iac_ai_runtime.Text.{codes, same_codes}
use iac_ai_runtime.Json.{Items, cons}
use iac_ai_runtime.Budget.{cost_of}
use iac_ai_runtime.Approvals.Consume.{Use, consume_approval}
use iac_ai_runtime.Actions.{record_policy_decision, record_action_result, completed_action_result}

pub record ActionPolicy : Type 0 where
  pub name : String
  pub allowed_scopes : List Scope
  pub external_effect : Bool
  pub reversible : Bool
  pub approval_required : Bool
  pub cost_bearing : Bool
  pub prohibited : Bool

-- A handler is a function of the payload that may use the store and raise.
abbrev pub Handler : Type 0
Handler = Json → Method Json

abbrev pub Registry : Type 0
Registry = List (ActionPolicy × Handler)

unfoldable pub is_entry : String → ActionPolicy × Handler → Bool
is_entry name (p, h) = p.name == name

-- `register`; a name that is there is a ValueError.
unfoldable pub register : ActionPolicy → Handler → Registry → Option Registry
unfolding first is_entry
register p h entries =
    if is_some (first (is_entry p.name) entries) then none else some ((p, h) ∷ entries)

abbrev pub policy_error : String → Error
policy_error reason = policy_denied reason false

abbrev pub entry_found : Option (ActionPolicy × Handler) → Result (ActionPolicy × Handler)
entry_found none = err (policy_error "No registered action policy or handler")
entry_found (some e) = ok e

-- `policy_for`, with the handler
unfoldable pub policy_for : Registry → String → Result (ActionPolicy × Handler)
unfolding first is_entry
policy_for entries task_type = entry_found (first (is_entry task_type) entries)

-- `payload.get(key)`; anything that is no text counts as missing.
abbrev pub text_of : Option Json → String
text_of (some (str t)) = t
text_of _ = ""

-- The tests of the policy before the cost is read, and after.
unfoldable pub check_policy : ActionPolicy → Work → Result (Unit {0})
check_policy p w =
    if p.prohibited
    then err (policy_error "Action is prohibited")
    else if not (has_scope w.owner_scope p.allowed_scopes)
    then err (policy_error "Action is not permitted in this scope")
    else ok tt

unfoldable pub check_effects : ActionPolicy → ℕ → Result (Unit {0})
check_effects p estimated =
    if not (nat_eq estimated 0) && not p.cost_bearing
    then err (policy_error "Non-cost-bearing action declared a cost")
    else if p.cost_bearing && nat_eq estimated 0
    then err (policy_error "Cost-bearing action requires a positive estimate")
    else if p.external_effect && not p.approval_required
    then err (policy_error "External action must require approval")
    else if not p.reversible && not p.approval_required
    then err (policy_error "Irreversible action must require approval")
    else ok tt

abbrev pub action_use : ActionPolicy → Work → Use
action_use p w = record {
  action_type = p.name;
  target = text_of (get_key "action_target" w.payload);
  at = none;
  scope = some w.owner_scope;
  conditions = none;
}

-- `raise PolicyDenied(str(exc), approval_required=True) from exc`
unfoldable pub as_denial : Error → Method (Unit {0})
as_denial (authorization_error t) = raise (policy_denied t true)
as_denial (policy_denied t b) = raise (policy_denied t true)
as_denial e = raise e

-- the branch `if policy.approval_required`
unfoldable pub use_approval : Clock → Actor → ActionPolicy → Work → Method (Unit {0})
use_approval c actor p w =
    if not p.approval_required
    then pure tt
    else if text_of (get_key "approval_id" w.payload) == ""
        || text_of (get_key "action_target" w.payload) == ""
    then raise (policy_denied "Action requires an exact approval and target" true)
    else catch
        (consume_approval c actor (text_of (get_key "approval_id" w.payload)) (action_use p w) true)
        as_denial

-- The body of the `try` of `execute`: the entry that is to run, and the estimate.
unfoldable pub clear_action :
    Clock → Actor → Registry → Work → Method ((ActionPolicy × Handler) × ℕ)
clear_action c actor entries w = do
  killed ← kill_switch_enabled
  check (not killed) (policy_error "Kill switch is ON; execution denied")
  entry ← from_result (policy_for entries w.task_type)
  from_result (check_policy entry.0 w)
  estimated ← from_result (cost_of w.payload)
  from_result (check_effects entry.0 estimated)
  use_approval c actor entry.0 w
  pure (entry, estimated)

-- `except PolicyDenied`
unfoldable pub refuse_action : Clock → Actor → Work → Error → Method ((ActionPolicy × Handler) × ℕ)
refuse_action c actor w (policy_denied reason b) = do
  record_policy_decision c actor w.id false reason (
      dict (
        ("outcome", str "DENIED")
        ∷ ("rollback_status", str "NOT_STARTED")
        ∷ ("task_type", str w.task_type)
        ∷ ("tool", str "policy_registry")
        ∷ []))
  raise (policy_denied reason b)
refuse_action c actor w e = raise e

abbrev ends_in : List ℕ → List ℕ → Bool
ends_in tail [] = same_codes [] tail
ends_in tail (c ∷ cs) = same_codes (c ∷ cs) tail || ends_in tail cs

abbrev evidence_item : String → Json → Items → Items
evidence_item key (str t) rest =
    if ends_in (codes "_id") (codes key)
    then cons (obj (dict (("field", str key) ∷ ("record_id", str t) ∷ []))) rest
    else rest
evidence_item key _ rest = rest

-- `evidence`
unfoldable pub evidence_of : Fields → Items
unfolding same_codes
evidence_of end = nil
evidence_of (field k v fs) = evidence_item k v (evidence_of fs)

abbrev pub payload_fields : Json → Fields
payload_fields (obj fs) = fs
payload_fields _ = end

unfoldable pub run_action : Clock → Actor → Work → (ActionPolicy × Handler) × ℕ → Method Json
run_action c actor w ((p, handler), estimated) = do
  record_policy_decision c actor w.id true "Registered action policy satisfied" (
      dict (
        ("cost_units", num estimated)
        ∷ ("evidence", arr (evidence_of (payload_fields w.payload)))
        ∷ ("outcome", str "AUTHORIZED")
        ∷ ("rollback_status", str (if p.reversible then "AVAILABLE" else "NOT_AVAILABLE"))
        ∷ ("task_type", str p.name)
        ∷ ("tool", str "registered_handler")
        ∷ []))
  result ← handler w.payload
  when (not (w.id == "")) (record_action_result c actor w.id p.name result)
  pure result

unfoldable pub execute_or_replay : Clock → Actor → Registry → Work → Option Json → Method Json
execute_or_replay c actor entries w (some result) = do
  record_policy_decision c actor w.id true "Returning durable result; handler replay suppressed"
      (dict (("task_type", str w.task_type) ∷ []))
  pure result
execute_or_replay c actor entries w none = do
  cleared ← catch (clear_action c actor entries w) (refuse_action c actor w)
  run_action c actor w cleared

-- `execute`
unfoldable pub execute : Clock → Actor → Registry → Work → Method Json
execute c actor entries w = do
  replay ← if w.id == "" then pure none else completed_action_result w.id w.task_type
  execute_or_replay c actor entries w replay

abbrev pub noop_handler : Handler
unfolding pure
noop_handler payload = pure (obj (dict (("echo", payload) ∷ ("ok", bool true) ∷ [])))

-- `default_registry`
abbrev pub default_registry : Registry
default_registry =
    (
      record {
        name = "NOOP";
        allowed_scopes = personal ∷ iac ∷ shared ∷ [];
        external_effect = false;
        reversible = true;
        approval_required = false;
        cost_bearing = false;
        prohibited = false;
      },
      noop_handler,
    )
    ∷ []
