-- ===== src/Examples/Runs.antt =====
-- Schedules, replays, versions and exports.
use iac_ai_runtime.Text.{same_codes, normalized}
use iac_ai_runtime.Budget.{cost_of, is_work}
use iac_ai_runtime.Records.{is_record}
use iac_ai_runtime.Policy.{
  run_action, execute_or_replay, use_approval, check_effects, check_policy, is_entry, policy_for,
  default_registry, execute,
}
use iac_ai_runtime.Access.{kill_switch_enabled, audit_uncommitted, audit, permits, authorize}
use iac_ai_runtime.Security.{
  is_sensitive_key, key_findings, text_findings, fields_findings, items_findings, secret_findings,
  has_secret,
}
use iac_ai_runtime.Actions.{
  insert_execution, stored_cost, record_action_result, replay_of, completed_action_result,
  record_policy_decision, is_execution,
}
use iac_ai_runtime.Records.Reading.{
  is_version, write_version, read_record, get_record, update_record,
}
use iac_ai_runtime.Table.{count_rows, order_by, select, first}
use iac_ai_runtime.Scheduler.{
  dispatch_begin, insert_scheduled, dispatch_new, is_dispatched, scheduled_work, report_schedule,
  Schedule, dispatch_once,
}
use iac_ai_runtime.Reports.{export_rows, is_exported, sale_export}
use iac_ai_runtime.Time.{utc}
use iac_ai_runtime.Prelude.{
  List, false, ◌↔◌, ◌≢◌, ◌++◌, ◌+◌, ◌≡◌, ◌≡◌, All, ℕ, refl, none, some, true, [], ◌∷◌,
}
use iac_ai_runtime.Exec.{check, from_result, ◌>>=◌, pure, gets, when, catch, ok}
use iac_ai_runtime.Json.{Json, bool, float_of, get_field, dict, obj, end, num}
use iac_ai_runtime.Db.{
  begin, development, commit, write, scope_eq, has_scope, EntityType, RecordRow, Store, empty_db,
  sean, iac,
}
use iac_ai_runtime.Examples.{at, some_store, item}
use iac_ai_runtime.Access.Permits.{may, permits-may}
use iac_ai_runtime.Access.{write_access, permits}
use iac_ai_runtime.Scheduler.Once.{Attempt, attempt_all, dispatch_once_twice}
use iac_ai_runtime.Db.{Work, personal, shared}
use iac_ai_runtime.Policy.{ActionPolicy, noop_handler, clear_action}
use iac_ai_runtime.Policy.Gate.{IsCleared, clear_action_lem}
use iac_ai_runtime.Policy.Replay.{LeavesReceipts, execute_twice}
use iac_ai_runtime.Records.Versions.{update_record_once}
use iac_ai_runtime.Reports.Export.{sale_export-IsPortable, IsPortable}

abbrev daily : Schedule
daily = report_schedule "daily-operational-report" "DAILY" "2026-01-05"

abbrev after_dispatch : Store
after_dispatch = (dispatch_once (at 20) sean "s1" daily some_store).1

dispatched : dispatch_once (at 20) sean "s1" daily some_store ≡ (ok (some "s1"), after_dispatch)
unfolding dispatch_once authorize permits has_scope scope_eq is_dispatched first dispatch_new
    is_work insert_scheduled write commit record_policy_decision audit audit_uncommitted when gets
    pure from_result ◌>>=◌ dispatch_begin catch begin
dispatched = refl

abbrev weekly : Schedule
weekly = report_schedule "weekly-operational-report" "WEEKLY" "2026-W02"

abbrev others : List Attempt
others = (at 25, sean, "s1", weekly) ∷ (at 25, sean, "s3", weekly) ∷ []

dispatch_once_twice_example :
    (after_dispatch.live.work_queue
      ≡ some_store.live.work_queue ++ scheduled_work (at 20) "s1" daily ∷ [])
    × ((dispatch_once (at 30) sean "s2" daily (attempt_all others after_dispatch)).1.live.work_queue
        ≡ (attempt_all others after_dispatch).live.work_queue)
dispatch_once_twice_example =
    dispatch_once_twice (at 20) (at 30) sean sean "s1" "s2" daily daily some_store others dispatched
      refl refl

abbrev plan : RecordRow
plan = record {
  id = "r1";
  entity_type = EntityType.goal;
  owner_scope = iac;
  confidentiality = "EXECUTIVE";
  portable_on_sale = true;
  source = "user";
  source_locator = none;
  created_by = "sean";
  created_at = 5;
  updated_at = 5;
  effective_at = utc 5;
  expires_at = none;
  confidence = 1000;
  permitted_principals = [];
  retention_rule = "retain";
  payload = obj end;
  version = 1;
}

abbrev with_plan : Store
with_plan = record some_store { live = record empty_db { records = plan ∷ [] } }

abbrev after_update : Store
after_update = (update_record (at 20) sean "r1" (num 1) 1 with_plan).1

updated : update_record (at 20) sean "r1" (num 1) 1 with_plan ≡ (ok 2, after_update)
unfolding update_record has_secret secret_findings get_record first is_record read_record catch
    authorize permits has_scope scope_eq audit audit_uncommitted write commit write_version
    count_rows is_version gets pure from_result ◌>>=◌
updated = refl

update_record_once_example :
    (◌≡◌ {A = ℕ} 2 (1 + 1))
    × (update_record (at 30) sean "r1" (num 2) 1 after_update ≢ (ok 2, after_update))
update_record_once_example =
    update_record_once (at 20) (at 30) sean sean "r1" (num 1) (num 2) 1 with_plan updated

abbrev after_export : Store
after_export = (sale_export (at 20) sean with_plan).1

exported : sale_export (at 20) sean with_plan ≡ (ok (plan ∷ []), after_export)
unfolding sale_export select is_exported scope_eq order_by export_rows has_secret secret_findings
    items_findings fields_findings text_findings key_findings is_sensitive_key normalized same_codes
    audit audit_uncommitted write commit gets pure ◌>>=◌
exported = refl

sale_export-IsPortable_example : All IsPortable (plan ∷ [])
sale_export-IsPortable_example = sale_export-IsPortable (at 20) sean with_plan exported

permits-may_example :
    (permits development sean iac [] write_access ≡ ok tt)
    ↔ (may development sean iac [] write_access ≡ true)
permits-may_example = permits-may development sean iac [] write_access

abbrev noop : ActionPolicy
noop = record {
  name = "NOOP";
  allowed_scopes = personal ∷ iac ∷ shared ∷ [];
  external_effect = false;
  reversible = true;
  approval_required = false;
  cost_bearing = false;
  prohibited = false;
}

abbrev noop_item : Work
noop_item = record item { task_type = "NOOP"; payload = obj end }

let_through :
    clear_action (at 20) sean default_registry noop_item some_store
    ≡ (ok ((noop, noop_handler), 0), some_store)
unfolding clear_action kill_switch_enabled policy_for first is_entry check_policy has_scope scope_eq
    cost_of get_field float_of check_effects use_approval check gets pure from_result ◌>>=◌
let_through = refl

clear_action_lem_example : IsCleared default_registry noop_item some_store noop noop_handler 0
clear_action_lem_example =
    clear_action_lem (at 20) sean default_registry noop_item some_store let_through

abbrev echo : Json
echo = obj (dict (("echo", obj end) ∷ ("ok", bool true) ∷ []))

abbrev after_noop : Store
after_noop = (execute (at 20) sean default_registry noop_item some_store).1

ran : execute (at 20) sean default_registry noop_item some_store ≡ (ok echo, after_noop)
unfolding execute completed_action_result replay_of execute_or_replay run_action catch when
    record_action_result stored_cost insert_execution is_execution is_work has_secret
    secret_findings record_policy_decision audit audit_uncommitted write commit clear_action
    kill_switch_enabled policy_for first is_entry check_policy has_scope scope_eq cost_of get_field
    float_of check_effects use_approval check gets pure from_result ◌>>=◌ key_findings
    is_sensitive_key same_codes normalized
ran = refl

quiet_registry : All (LeavesReceipts "w1") default_registry
unfolding pure
quiet_registry = ((λ payload. record { after = λ s h. h }), tt)

execute_twice_example :
    ((execute (at 30) sean [] noop_item after_noop).0 ≡ ok echo)
    × ((execute (at 30) sean [] noop_item after_noop).1.live ≡ record after_noop.live {
      audit_log = (execute (at 30) sean [] noop_item after_noop).1.live.audit_log;
    })
unfolding first
execute_twice_example =
    execute_twice (at 20) (at 30) sean sean default_registry [] noop_item echo some_store after_noop
      refl (λ e. cc e) quiet_registry (record { in_live = refl; in_durable = refl }) ran
