-- ===== src/Db/Outbox.antt =====
-- The rows of the outboxes for backup transfers, backup restores and alerts.
use iac_ai_runtime.Prelude.{ℕ, String, Option}
use iac_ai_runtime.Json.{Json}
use iac_ai_runtime.Time.{Stamp}
use iac_ai_runtime.Db.Actors.{Scope}

pub data TransferStatus : Type 0 where
  staged preflight_validated authorized completed failed reconciliation_required : TransferStatus

pub record Transfer : Type 0 where
  pub plan_sha256 : String
  pub owner_scope : Scope
  pub approval_target : String
  pub proposal_sha256 : String
  pub plan_payload : Json
  pub status : TransferStatus
  pub approval_id : Option String
  pub attempt_count : ℕ
  pub max_attempts : ℕ
  pub available_at : ℕ
  pub lease_owner : Option String
  pub lease_expires_at : Option ℕ
  pub last_error : Option String
  pub preflight_receipt_payload : Option Json
  pub receipt_payload : Option Json
  pub created_at : ℕ
  pub updated_at : ℕ
  pub completed_at : Option String

pub data RestoreStatus : Type 0 where
  staged preflight_validated authorized restored failed reconciliation_required : RestoreStatus

pub record Restore : Type 0 where
  pub restore_plan_sha256 : String
  pub owner_scope : Scope
  pub approval_target : String
  pub upload_plan_sha256 : String
  pub upload_receipt_sha256 : String
  pub restore_key_proposal_sha256 : String
  pub plan_payload : Json
  pub status : RestoreStatus
  pub approval_id : Option String
  pub attempt_count : ℕ
  pub max_attempts : ℕ
  pub available_at : ℕ
  pub lease_owner : Option String
  pub lease_expires_at : Option Stamp
  pub last_error : Option String
  pub preflight_receipt_payload : Option Json
  pub receipt_payload : Option Json
  pub created_at : ℕ
  pub updated_at : Stamp
  pub completed_at : Option String

pub record Observation : Type 0 where
  pub plan_id : String
  pub owner_scope : Scope
  pub route_id : String
  pub plan_payload : Json
  pub first_seen_at : ℕ
  pub last_seen_at : ℕ
  pub occurrence_count : ℕ
  pub acknowledgement_payload : Option Json
  pub acknowledged_at : Option String
  pub acknowledged_by : Option String

pub data IncidentStatus : Type 0 where
  active resolved : IncidentStatus

pub record Incident : Type 0 where
  pub incident_id : String
  pub owner_scope : Scope
  pub route_id : String
  pub alert_code : String
  pub severity : String
  pub current_summary : String
  pub status : IncidentStatus
  pub first_seen_at : ℕ
  pub last_seen_at : ℕ
  pub occurrence_count : ℕ
  pub reopen_count : ℕ
  pub resolved_at : Option ℕ
  pub resolved_by : Option String
  pub resolution_reason : Option String

pub data DeliveryStatus : Type 0 where
  staged authorized synthetic_delivered failed : DeliveryStatus

pub record Delivery : Type 0 where
  pub delivery_id : String
  pub plan_id : String
  pub incident_id : String
  pub reopen_generation : ℕ
  pub owner_scope : Scope
  pub route_id : String
  pub destination_kind : String
  pub destination_ref : String
  pub alert_payload : Json
  pub payload_sha256 : String
  pub status : DeliveryStatus
  pub approval_id : Option String
  pub attempt_count : ℕ
  pub max_attempts : ℕ
  pub available_at : ℕ
  pub lease_owner : Option String
  pub lease_expires_at : Option ℕ
  pub last_error : Option String
  pub receipt_payload : Option Json
  pub created_at : ℕ
  pub updated_at : ℕ
  pub delivered_at : Option String
