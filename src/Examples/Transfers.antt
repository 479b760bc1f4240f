-- ===== src/Examples/Transfers.antt =====
-- A backup transfer that a worker held, its store, and the theorems on the outbox at it.
use iac_ai_runtime.Text.{normalized, same_codes}
use iac_ai_runtime.Access.{audit_uncommitted, audit_row}
use iac_ai_runtime.Time.{utc, text_leb}
use iac_ai_runtime.Approvals.{set_approval, is_approval}
use iac_ai_runtime.Security.{
  text_findings, is_sensitive_key, key_findings, secret_findings, has_secret,
}
use iac_ai_runtime.Approvals.Consume.{spend, consume_row, refusal, consume_approval}
use iac_ai_runtime.Access.{audit_uncommitted, permits, authorize}
use iac_ai_runtime.Transfers.Authorized.{authorize_backup_transfer_lem, IsExact}
use iac_ai_runtime.Transfers.Approval.{
  set_authorized, is_awaiting, use_drill, copy_keys, approval_conditions, authorize_row,
  authorize_backup_transfer,
}
use iac_ai_runtime.Transfers.Lifecycle.{IsFresh, Moves, plan_of}
use iac_ai_runtime.Queue.History.{new_store}
use iac_ai_runtime.Outbox.{HasKeys, Evolves}
use iac_ai_runtime.Prelude.{
  false, true, ◌&&◌, holds_text, ◌⊎◌, none, some, [], ◌∷◌, ◌≡◌, refl, List, arith, All,
}
use iac_ai_runtime.Db.{
  begin, commit, write, approved, scope_eq, has_scope, Approval, iac_profile, Transfer,
  TransferStatus, iac, sean, Store, Clock,
}
use iac_ai_runtime.Json.{insert_field, json_eq, get_field, get_key, Json, obj, dict, str, num}
use iac_ai_runtime.Exec.{◌>>=◌, from_result, pure, check, gets, catch, when, ok}
use iac_ai_runtime.Table.{count_rows, update, first}
use iac_ai_runtime.Transfers.{open_transfer, is_authorized, get_backup_transfer, Evidence, is_plan}
use iac_ai_runtime.Transfers.History.{
  preflights, stages, claims, fails, completes, Call, run, transfers_evolve,
}
use iac_ai_runtime.Transfers.History.Evidenced.{
  attempts-IsBounded, terminal_is_final, transfers-IsEvidenced, IsBounded, IsEvidenced,
}
use iac_ai_runtime.Examples.{at, quiet, some_store}

-- Evidence modules that return what they are given.
abbrev trusting : Evidence
trusting = record {
  verify_plan = λ plan approval. ok plan;
  verify_preflight = λ receipt. ok receipt;
  verify_receipt = λ receipt plan. ok receipt;
}

abbrev held_transfer : Transfer
held_transfer = record {
  plan_sha256 = "p1";
  owner_scope = iac;
  approval_target = "backup:p1";
  proposal_sha256 = "q1";
  plan_payload = obj (dict (("plan_sha256", str "p1") ∷ []));
  status = TransferStatus.authorized;
  approval_id = some "a1";
  attempt_count = 2;
  max_attempts = 3;
  available_at = 10;
  lease_owner = some "w1";
  lease_expires_at = some 20;
  last_error = none;
  preflight_receipt_payload = some (num 1);
  receipt_payload = none;
  created_at = 10;
  updated_at = 10;
  completed_at = none;
}

abbrev ambiguous_transfer : Transfer
ambiguous_transfer = record held_transfer {
  plan_sha256 = "p2";
  status = TransferStatus.reconciliation_required;
  lease_owner = none;
  lease_expires_at = none;
  last_error = some "Upload result unknown";
}

abbrev with_transfers : Store
with_transfers = record some_store {
  is_open = false;
  scope_profile = iac_profile;
  live = record some_store.live {
    backup_transfer_outbox = held_transfer ∷ ambiguous_transfer ∷ [];
  };
  durable = record some_store.live {
    backup_transfer_outbox = held_transfer ∷ ambiguous_transfer ∷ [];
  };
}

-- The lease of "w1" is over: another worker claims the transfer, fails, and both transfers are
-- claimed again.
abbrev attempts : List (Clock × Call)
attempts =
    (at 30, claims sean "w2" 60)
    ∷ (at 31, fails sean "p1" "w2" "No route" 5)
    ∷ (at 90, claims sean "w3" 60)
    ∷ (at 91, completes sean "p2" "w3" (num 1))
    ∷ []

two_keys : HasKeys plan_of (held_transfer ∷ ambiguous_transfer ∷ [])
unfolding first
two_keys = (refl, (refl, tt))

transfers_evolve_example :
    Evolves Moves IsFresh
      (held_transfer ∷ ambiguous_transfer ∷ [])
      (run trusting with_transfers attempts).live.backup_transfer_outbox
transfers_evolve_example = transfers_evolve trusting with_transfers attempts two_keys refl

attempts-IsBounded_example :
    All IsBounded (run trusting with_transfers attempts).live.backup_transfer_outbox
attempts-IsBounded_example =
    attempts-IsBounded trusting with_transfers attempts two_keys refl
      (omega arith, (omega arith, tt))

second_held :
    first (is_plan "p2") with_transfers.live.backup_transfer_outbox ≡ some ambiguous_transfer
unfolding first is_plan
second_held = refl

terminal_is_final_example :
    first (is_plan "p2") (run trusting with_transfers attempts).live.backup_transfer_outbox
    ≡ some ambiguous_transfer
terminal_is_final_example =
    terminal_is_final trusting with_transfers attempts "p2" ambiguous_transfer two_keys refl
      second_held refl

abbrev some_plan : Json
some_plan = obj (
    dict (
      ("approval_target", str "backup:p1")
      ∷ ("plan_sha256", str "p1")
      ∷ ("proposal_sha256", str "q1")
      ∷ []))

abbrev staging : List (Clock × Call)
staging =
    (at 30, stages sean some_plan (num 0))
    ∷ (at 31, preflights sean "p1" some_plan)
    ∷ (at 32, claims sean "w1" 60)
    ∷ []

transfers-IsEvidenced_example :
    All IsEvidenced (run trusting (new_store iac_profile quiet) staging).live.backup_transfer_outbox
transfers-IsEvidenced_example = transfers-IsEvidenced trusting iac_profile quiet staging

abbrev drill_plan : Json
drill_plan = obj (
    dict (
      ("backup_sha256", str "b")
      ∷ ("client_encryption_key_ref", str "k")
      ∷ ("data_region", str "ca")
      ∷ ("destination_ref", str "d")
      ∷ ("max_cost_cad", num 5)
      ∷ ("object_ref", str "o")
      ∷ ("provider", str "B2")
      ∷ ("provider_endpoint", str "e")
      ∷ ("provider_writer_identity_ref", str "w")
      ∷ ("retention_days", num 30)
      ∷ ("retention_mode", str "COMPLIANCE")
      ∷ ("window_end", str "z")
      ∷ ("window_start", str "a")
      ∷ []))

abbrev validated_transfer : Transfer
validated_transfer = record held_transfer {
  plan_payload = drill_plan;
  status = TransferStatus.preflight_validated;
  approval_id = none;
  attempt_count = 0;
  lease_owner = none;
  lease_expires_at = none;
}

abbrev drill_permit : Approval
drill_permit = record {
  record_id = "a1";
  action_type = "RUN_INDEPENDENT_BACKUP_RESTORE_DRILL";
  target = "backup:p1";
  scope = iac;
  max_impact = "one upload";
  conditions = obj (
      dict (
        ("backup_sha256", str "b")
        ∷ ("client_encryption_key_ref", str "k")
        ∷ ("data_region", str "ca")
        ∷ ("destination_ref", str "d")
        ∷ ("max_cost_cad", num 5)
        ∷ ("object_ref", str "o")
        ∷ ("plan_sha256", str "p1")
        ∷ ("proposal_sha256", str "q1")
        ∷ ("provider", str "B2")
        ∷ ("provider_endpoint", str "e")
        ∷ ("provider_writer_identity_ref", str "w")
        ∷ ("retention_days", num 30)
        ∷ ("retention_mode", str "COMPLIANCE")
        ∷ ("window_end", str "z")
        ∷ ("window_start", str "a")
        ∷ []));
  approver = "sean";
  status = approved;
  expires_at = utc 90;
  reusable = false;
}

abbrev with_drill : Store
with_drill = record some_store {
  is_open = false;
  scope_profile = iac_profile;
  live = record some_store.live {
    approvals = drill_permit ∷ [];
    backup_transfer_outbox = validated_transfer ∷ [];
  };
}

abbrev authorized_transfer : Transfer
authorized_transfer = record validated_transfer {
  status = TransferStatus.authorized;
  approval_id = some "a1";
  updated_at = 30;
}

abbrev after_drill : Store
after_drill = (authorize_backup_transfer (at 30) sean "p1" "a1" with_drill).1

drilled :
    authorize_backup_transfer (at 30) sean "p1" "a1" with_drill
    ≡ (ok authorized_transfer, after_drill)
unfolding begin insert_field authorize_backup_transfer get_backup_transfer open_transfer authorize
    permits has_scope scope_eq first is_plan authorize_row approval_conditions copy_keys get_key
    get_field use_drill consume_approval has_secret secret_findings is_approval refusal json_eq
    text_leb consume_row spend set_approval update audit_uncommitted audit_row write commit
    count_rows is_awaiting set_authorized when catch gets check pure key_findings is_sensitive_key
    same_codes normalized text_findings from_result ◌>>=◌
drilled = refl

authorize_backup_transfer_lem_example :
    (sean.is_sean ≡ true)
    × ((v : Transfer) × (first (is_plan "p1") with_drill.live.backup_transfer_outbox ≡ some v)
        × ((is_authorized v.status && holds_text v.approval_id "a1" ≡ true)
            ⊎ IsExact (at 30) sean "a1" with_drill v))
authorize_backup_transfer_lem_example =
    authorize_backup_transfer_lem (at 30) sean "a1" "p1" with_drill drilled
