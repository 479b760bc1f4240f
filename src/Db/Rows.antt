-- ===== src/Db/Rows.antt =====
-- The rows of the tables for records, approvals, the audit log, the work queue and the budgets.
use iac_ai_runtime.Prelude.{ℕ, String, Bool, Option, List}
use iac_ai_runtime.Json.{Json, Fields}
use iac_ai_runtime.Time.{Stamp}
use iac_ai_runtime.Db.Actors.{Scope}

-- ENTITY_TYPES, and any other text
pub data EntityType : Type 0 where
  goal idea project task decision knowledge agent approval : EntityType
  unknown_entity : String → EntityType

pub record RecordRow : Type 0 where
  pub id : String
  pub entity_type : EntityType
  pub owner_scope : Scope
  pub confidentiality : String
  pub portable_on_sale : Bool
  pub source : String
  pub source_locator : Option String
  pub created_by : String
  pub created_at : ℕ
  pub updated_at : ℕ
  pub effective_at : Stamp
  pub expires_at : Option Stamp
  pub confidence : ℕ  -- in thousandths
  pub permitted_principals : List String
  pub retention_rule : String
  pub payload : Json
  pub version : ℕ

pub record Relationship : Type 0 where
  pub id : String
  pub from_record_id : String
  pub relationship_type : String
  pub to_record_id : String
  pub created_at : ℕ

-- PROJECT_STATES, and any other text
pub data ProjectState : Type 0 where
  active incubator paused killed : ProjectState
  unknown_state : String → ProjectState

pub record ProjectRow : Type 0 where
  pub record_id : String
  pub state : ProjectState
  pub reason : String
  pub review_at : Option String
  pub reopen_trigger : Option String
  pub changed_at : ℕ

pub data ApprovalStatus : Type 0 where
  pending approved denied expired consumed : ApprovalStatus

pub record Approval : Type 0 where
  pub record_id : String
  pub action_type : String
  pub target : String
  pub scope : Scope
  pub max_impact : String
  pub conditions : Json
  pub approver : String
  pub status : ApprovalStatus
  pub expires_at : Stamp
  pub reusable : Bool

pub data AuditResult : Type 0 where
  allowed denied failed : AuditResult

pub record AuditRow : Type 0 where
  pub occurred_at : ℕ
  pub actor_id : String
  pub action : String
  pub result : AuditResult
  pub policy_reason : String
  pub affected_record_id : Option String
  pub details : Fields

pub data WorkStatus : Type 0 where
  queued running succeeded dead_letter budget_blocked approval_blocked policy_blocked : WorkStatus

pub record Work : Type 0 where
  pub id : String
  pub task_type : String
  pub owner_scope : Scope
  pub payload : Json
  pub status : WorkStatus
  pub priority : ℕ
  pub attempts : ℕ
  pub max_attempts : ℕ
  pub available_at : Stamp
  pub lease_owner : Option String
  pub lease_expires_at : Option ℕ
  pub last_error : Option String
  pub created_at : ℕ
  pub updated_at : ℕ

-- Amounts are whole numbers of the smallest unit, where the columns are REAL.
pub record Budget : Type 0 where
  pub owner_scope : Scope
  pub period_key : String
  pub limit_units : ℕ
  pub used_units : ℕ
  pub reserved_units : ℕ
  pub updated_at : ℕ

pub record Reservation : Type 0 where
  pub work_id : String
  pub owner_scope : Scope
  pub period_key : String
  pub units : ℕ
  pub created_at : ℕ

pub record Usage : Type 0 where
  pub work_id : String
  pub owner_scope : Scope
  pub period_key : String
  pub units : ℕ
  pub occurred_at : ℕ

pub record Execution : Type 0 where
  pub work_id : String
  pub task_type : String
  pub result : Json
  pub completed_at : ℕ

pub record Dispatch : Type 0 where
  pub schedule_name : String
  pub period_key : String
  pub work_id : String
  pub dispatched_at : ℕ

pub record Heartbeat : Type 0 where
  pub worker_id : String
  pub owner_scope : Scope
  pub status : String
  pub current_work_id : Option String
  pub last_seen_at : ℕ
  pub details : Fields
