-- ===== src/Db.antt =====
-- The database (sean_os/schema.sql) and the object that holds it (`SeanOSStore` of
-- sean_os/store.py). A table is the list of its rows: the ones that are read by their
-- key alone have the newest row first, the others the oldest. `live` is what the
-- connection sees and `durable` what the last commit left, so that `rollback` is a copy; `is_open`
-- says that a transaction is open (`connection.in_transaction`).
mod Actors
mod Rows
mod Outbox
unfoldable pub use Actors.{scope_eq, has_scope}
pub use Actors.*
pub use Rows.*
pub use Outbox.*
use iac_ai_runtime.Prelude.{ℕ, String, Bool, true, false, List, [], if◌then◌else◌}
use iac_ai_runtime.Security.{Search}
use iac_ai_runtime.Exec.{Exec, ok, err, operational_error}

pub record Db : Type 0 where
  pub records : List RecordRow
  pub relationships : List Relationship
  pub project_state : List ProjectRow
  pub approvals : List Approval
  pub audit_log : List AuditRow
  pub kill_switch : Bool
  pub work_queue : List Work
  pub budgets : List Budget
  pub cost_reservations : List Reservation
  pub usage_events : List Usage
  pub action_executions : List Execution
  pub schedule_dispatches : List Dispatch
  pub worker_heartbeats : List Heartbeat
  pub backup_transfer_outbox : List Transfer
  pub backup_restore_outbox : List Restore
  pub alert_observations : List Observation
  pub alert_incidents : List Incident
  pub alert_delivery_outbox : List Delivery

abbrev pub empty_db : Db
empty_db = record {
  records = [];
  relationships = [];
  project_state = [];
  approvals = [];
  audit_log = [];
  kill_switch = false;
  work_queue = [];
  budgets = [];
  cost_reservations = [];
  usage_events = [];
  action_executions = [];
  schedule_dispatches = [];
  worker_heartbeats = [];
  backup_transfer_outbox = [];
  backup_restore_outbox = [];
  alert_observations = [];
  alert_incidents = [];
  alert_delivery_outbox = [];
}

pub record Store : Type 0 where
  pub live : Db
  pub durable : Db
  pub is_open : Bool
  pub scope_profile : Profile
  pub patterns : Search

-- One reading of the clock, which a method makes when it starts: the instant in microseconds and
-- the month that `current_period` returns for it.
pub record Clock : Type 0 where
  pub instant : ℕ
  pub month : String

abbrev pub Method : Type 0 → Type 0
Method A = Exec Store A

-- self.connection.execute of a statement that writes
unfoldable pub write : (Db → Db) → Method (Unit {0})
write f s = (ok tt, record s { live = f s.live; is_open = true })

unfoldable pub commit : Method (Unit {0})
commit s = (ok tt, record s { durable = s.live; is_open = false })

unfoldable pub rollback : Method (Unit {0})
rollback s = (ok tt, record s { live = s.durable; is_open = false })

-- BEGIN IMMEDIATE, which SQLite refuses inside an open transaction
unfoldable pub begin : Method (Unit {0})
begin s = if s.is_open then (err operational_error, s) else (ok tt, record s { is_open = true })
