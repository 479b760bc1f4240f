-- ===== src/Scheduler.antt =====
-- sean_os/scheduler.py: the work of each calendar period, dispatched once. The calendar of the
-- local time zone is an argument.
pub mod Once
use iac_ai_runtime.Prelude.{
  ℕ, ◌+◌, String, Bool, true, Option, none, some, List, [], ◌∷◌, ◌++◌, ◌&&◌, ◌==◌, is_some,
  if◌then◌else◌,
}
use iac_ai_runtime.Exec.{pure, raise, gets, when, catch, ◌>>=◌, ◌>>◌, integrity_error}
use iac_ai_runtime.Json.{num, str, obj, Fields, dict}
use iac_ai_runtime.Time.{utc}
use iac_ai_runtime.Table.{first}
use iac_ai_runtime.Db.{iac, Actor, Db, Clock, Method, begin, write, commit, rollback}
use iac_ai_runtime.Access.{authorize, write_access}
use iac_ai_runtime.Db.{Work, Dispatch, queued}
use iac_ai_runtime.Budget.{is_work}
use iac_ai_runtime.Actions.{record_policy_decision}

-- The local calendar of one reading of the clock: `%Y-%m-%d`, `%G-W%V`, and `weekday() == 0`.
pub record Calendar : Type 0 where
  pub day : String
  pub week : String
  pub is_monday : Bool

pub record Schedule : Type 0 where
  pub schedule_name : String
  pub period_key : String
  pub task_type : String
  pub payload : Fields
  pub priority : ℕ

unfoldable pub is_dispatched : String → String → Dispatch → Bool
is_dispatched name period x = x.schedule_name == name && x.period_key == period

abbrev pub scheduled_work : Clock → String → Schedule → Work
scheduled_work c work_id j = record {
  id = work_id;
  task_type = j.task_type;
  owner_scope = iac;
  payload = obj j.payload;
  status = queued;
  priority = j.priority;
  attempts = 0;
  max_attempts = 3;
  available_at = utc c.instant;
  lease_owner = none;
  lease_expires_at = none;
  last_error = none;
  created_at = c.instant;
  updated_at = c.instant;
}

unfoldable pub insert_scheduled : Clock → String → Schedule → Db → Db
insert_scheduled c work_id j d = record d {
  work_queue = d.work_queue ++ scheduled_work c work_id j ∷ [];
  schedule_dispatches =
      record {
        schedule_name = j.schedule_name;
        period_key = j.period_key;
        work_id = work_id;
        dispatched_at = c.instant;
      }
      ∷ d.schedule_dispatches;
}

unfoldable pub dispatch_new : Clock → Actor → String → Schedule → Method (Option String)
dispatch_new c actor work_id j = do
  taken ← gets (λ s. is_some (first (is_work work_id) s.live.work_queue))
  when taken (rollback >> raise integrity_error)
  write (insert_scheduled c work_id j)
  commit
  record_policy_decision c actor work_id true "Scheduled work dispatched" (
      dict (
        ("period_key", str j.period_key)
        ∷ ("priority", num j.priority)
        ∷ ("schedule_name", str j.schedule_name)
        ∷ ("task_type", str j.task_type)
        ∷ []))
  pure (some work_id)

-- BEGIN IMMEDIATE inside the `try` of `_dispatch_once`
unfoldable pub dispatch_begin : Method (Unit {0})
dispatch_begin = catch begin (λ e. rollback >> raise e)

-- `_dispatch_once`; `work_id` is the new `uuid4`.
unfoldable pub dispatch_once : Clock → Actor → String → Schedule → Method (Option String)
dispatch_once c actor work_id j = do
  authorize actor iac [] write_access
  dispatch_begin
  exists ←
      gets (λ s.
        is_some (first (is_dispatched j.schedule_name j.period_key) s.live.schedule_dispatches))
  if exists then commit >> pure none else dispatch_new c actor work_id j

abbrev pub report_schedule : String → String → String → Schedule
report_schedule name cadence period = record {
  schedule_name = name;
  period_key = period;
  task_type = "GENERATE_OPERATIONAL_REPORT";
  payload = dict (("cadence", str cadence) ∷ ("period_key", str period) ∷ []);
  priority = 50;
}

-- `schedules`
abbrev pub schedules : Calendar → List Schedule
schedules k =
    record {
      schedule_name = "daily-portfolio-maintenance";
      period_key = k.day;
      task_type = "CHIEF_MAINTAIN_PORTFOLIO";
      payload = dict (("period_key", str k.day) ∷ []);
      priority = 40;
    }
    ∷ report_schedule "daily-operational-report" "DAILY" k.day
    ∷ (if k.is_monday then report_schedule "weekly-operational-report" "WEEKLY" k.week ∷ [] else [])

abbrev pub add_dispatched : Option String → List String → List String
add_dispatched none ids = ids
add_dispatched (some id) ids = id ∷ ids

unfoldable pub dispatch_all :
    Clock → Actor → (ℕ → String) → ℕ → List Schedule → Method (List String)
dispatch_all c actor new_id i [] = pure []
dispatch_all c actor new_id i (j ∷ js) = do
  work_id ← dispatch_once c actor (new_id i) j
  rest ← dispatch_all c actor new_id (i + 1) js
  pure (add_dispatched work_id rest)

-- `tick`; `new_id i` is the `uuid4` of the schedule `i`.
unfoldable pub tick : Clock → Actor → (ℕ → String) → Calendar → Method (List String)
tick c actor new_id k = dispatch_all c actor new_id 0 (schedules k)
