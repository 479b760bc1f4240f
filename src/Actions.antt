-- ===== src/Actions.antt =====
-- The receipts of actions in sean_os/store.py: `record_policy_decision`, `completed_action_result`
-- and `record_action_result`.
use iac_ai_runtime.Prelude.{
  ℕ, String, Bool, Option, none, some, [], ◌∷◌, ◌==◌, is_some, if◌then◌else◌,
}
use iac_ai_runtime.Exec.{Result, ok, err, gets, from_result, ◌>>=◌, ◌>>◌, validation_error}
use iac_ai_runtime.Json.{Json, null, num, str, obj, end, Fields, dict}
use iac_ai_runtime.Table.{first}
use iac_ai_runtime.Security.{has_secret}
use iac_ai_runtime.Db.{Actor, allowed, denied, Db, Clock, Method, write, commit}
use iac_ai_runtime.Access.{audit, deny}
use iac_ai_runtime.Db.{Work, Execution}
use iac_ai_runtime.Budget.{is_work, cost_of}

-- `record_policy_decision`
unfoldable pub record_policy_decision :
    Clock → Actor → String → Bool → String → Fields → Method (Unit {0})
record_policy_decision c actor work_id granted reason details =
    audit c actor "POLICY_DECISION" (if granted then allowed else denied) reason (some work_id)
      details

unfoldable pub is_execution : String → Execution → Bool
is_execution work_id x = x.work_id == work_id

-- `json.loads` of a stored result, whose null is None
unfoldable pub loads : Json → Option Json
loads null = none
loads v = some v

unfoldable pub replay_of : String → Option Execution → Result (Option Json)
unfolding loads
replay_of task_type none = ok none
replay_of task_type (some x) =
    if x.task_type == task_type
    then ok (loads x.result)
    else err (validation_error "Work ID was previously executed as a different action type")

-- `completed_action_result`
unfoldable pub completed_action_result : String → String → Method (Option Json)
completed_action_result work_id task_type s =
    from_result (replay_of task_type (first (is_execution work_id) s.live.action_executions)) s

-- INSERT OR IGNORE INTO action_executions
unfoldable pub insert_execution : Clock → String → String → Json → Db → Db
unfolding first is_execution
insert_execution c work_id task_type result d =
    if is_some (first (is_execution work_id) d.action_executions) then d else record d {
      action_executions =
          record {
            work_id = work_id;
            task_type = task_type;
            result = result;
            completed_at = c.instant;
          }
          ∷ d.action_executions;
    }

-- `payload` and `cost` of `record_action_result`
unfoldable pub stored_cost : Option Work → Result ℕ
unfolding cost_of
stored_cost none = ok 0
stored_cost (some w) = elim w.payload [ obj fs ↦ cost_of (obj fs) | _ ↦ ok 0 ]

-- `record_action_result`
unfoldable pub record_action_result : Clock → Actor → String → String → Json → Method (Unit {0})
record_action_result c actor work_id task_type result = do
  found ← gets (λ s. has_secret s.patterns result)
  if found
      then deny c actor "RECORD_ACTION_RESULT"
          "Secret-like material is prohibited in durable action results" (some work_id) end
          (validation_error "Secret-like material is prohibited in durable action results")
      else do
        work ← gets (λ s. first (is_work work_id) s.live.work_queue)
        cost ← from_result (stored_cost work)
        write (insert_execution c work_id task_type result)
        commit
        audit c actor "RECORD_ACTION_RESULT" allowed "Durable execution receipt stored"
            (some work_id)
            (dict (
              ("cost_units", num cost)
              ∷ ("outcome", str "SUCCEEDED")
              ∷ ("rollback_status", str "AVAILABLE")
              ∷ ("task_type", str task_type)
              ∷ ("tool", str "registered_handler")
              ∷ []))
