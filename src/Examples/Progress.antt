-- ===== src/Examples/Progress.antt =====
-- Claims that return and claims that raise, a record that is read back, and a restore that the
-- guard lets through.
use iac_ai_runtime.Text.{sorted_set, upper}
use iac_ai_runtime.Security.Clean.{has_secret-IsClean, IsClean}
use iac_ai_runtime.Restores.Lease.{window_of}
use iac_ai_runtime.Restores.Execution.{guard_answer, guard_refusal}
use iac_ai_runtime.Restores.{is_plan}
use iac_ai_runtime.Transfers.{text_at}
use iac_ai_runtime.Security.{secret_findings, has_secret}
use iac_ai_runtime.Access.{audit_uncommitted, audit, kill_switch_enabled, permits, authorize}
use iac_ai_runtime.Records.Roundtrip.{create-get_record}
use iac_ai_runtime.Restores.Guard.{assert_backup_restore_execution_allowed_lem, MayRestore}
use iac_ai_runtime.Restores.Approval.{in_window, time_at, given_time}
use iac_ai_runtime.Records.Reading.{get_record}
use iac_ai_runtime.Restores.Execution.{full_refusal, assert_backup_restore_execution_allowed}
use iac_ai_runtime.Records.{
  canonical, fits_table, check_times, check_record, is_record, write_record, try_create_record,
  NewRecord, create_record,
}
use iac_ai_runtime.Time.{instant_leb, utc, text_leb, Stamp}
use iac_ai_runtime.Budget.{lacks_room, cost_of, is_budget}
use iac_ai_runtime.Prelude.{
  has_text, String, false, ◌↔◌, if◌then◌else◌, ◌==◌, none, some, [], ◌∷◌, ◌≡◌, refl,
}
use iac_ai_runtime.Restores.{open_restore, get_backup_restore, Evidence}
use iac_ai_runtime.Time.{aware}
use iac_ai_runtime.Exec.{
  err, type_error, operational_error, catch, from_result, ok, gets, pure, ◌>>=◌,
}
use iac_ai_runtime.Table.{first, first_by, select}
use iac_ai_runtime.Json.{null, get_key, str, float_of, get_field, Json, obj, dict, num}
use iac_ai_runtime.Db.{
  Work, unknown_scope, unknown_entity, commit, write, RestoreStatus, iac, scope_eq, RecordRow,
  Restore, has_scope, iac_profile, Store, sean,
}
use iac_ai_runtime.Queue.Claim.{claim_work, next_work, worker_scopes, is_claimable, claims_before}
use iac_ai_runtime.Queue.Claim.Progress.{claim_progress, claim_work_jams, Returns, IsPayable}
use iac_ai_runtime.Examples.{quiet, at, some_store, item}

chosen : next_work 20 (worker_scopes sean) some_store.live ≡ some item
unfolding next_work first_by select is_claimable claims_before worker_scopes has_scope scope_eq
    text_leb
chosen = refl

costs : cost_of item.payload ≡ ok 3
unfolding cost_of get_field float_of
costs = refl

payable : IsPayable (at 20) sean "ann" 60 some_store item 3
unfolding first is_budget scope_eq lacks_room
payable = refl

claim_progress_example :
    Returns (at 20) sean "ann" 60 item (claim_work (at 20) sean "ann" 60 some_store).0
claim_progress_example =
    claim_progress (at 20) sean "ann" 60 item 3 some_store refl refl chosen costs payable

-- The client enqueued `{"estimated_cost_units": null}`.
abbrev unreadable : Work
unreadable = record item { payload = obj (dict (("estimated_cost_units", null) ∷ [])) }

abbrev stopped_store : Store
stopped_store = record some_store { live = record some_store.live { work_queue = unreadable ∷ [] } }

next_unreadable : next_work 20 (worker_scopes sean) stopped_store.live ≡ some unreadable
unfolding next_work first_by select is_claimable claims_before worker_scopes has_scope scope_eq
    text_leb
next_unreadable = refl

claim_work_jams_example :
    ((claim_work (at 20) sean "ann" 60 stopped_store).0 ≡ err type_error)
    × ((claim_work (at 20) sean "ann" 60 stopped_store).1.live ≡ stopped_store.live)
    × ((claim_work (at 30) sean "bob" 60 (claim_work (at 20) sean "ann" 60 stopped_store).1).0
        ≡ err operational_error)
unfolding get_field
claim_work_jams_example =
    claim_work_jams (at 20) (at 30) sean sean "ann" "bob" 60 60 unreadable
      (dict (("estimated_cost_units", null) ∷ [])) stopped_store refl refl next_unreadable refl refl

abbrev note : NewRecord
note = record {
  entity_type = unknown_entity "project";
  scope = unknown_scope "iac";
  payload = num 1;
  confidentiality = none;
  portable_on_sale = none;
  source = "user";
  source_locator = none;
  permitted_principals = "bob" ∷ "ann" ∷ "ann" ∷ [];
  confidence = none;
  effective_at = none;
  expires_at = none;
  retention_rule = "until_expired";
}

abbrev after_note : Store
after_note = (create_record (at 20) sean "r9" note some_store).1

noted : create_record (at 20) sean "r9" note some_store ≡ (ok "r9", after_note)
unfolding create_record canonical upper sorted_set try_create_record write_record catch has_secret
    secret_findings authorize permits has_scope scope_eq check_record check_times fits_table first
    write commit audit audit_uncommitted ◌>>=◌
noted = refl

create-get_record_example :
    (r : RecordRow) × ((get_record (at 30) sean "r9" after_note).0 ≡ ok r)
    × (r.payload ≡ num 1)
    × (r.owner_scope ≡ iac)
    × (r.permitted_principals ≡ "ann" ∷ "bob" ∷ [])
    × ((p : String) → has_text p r.permitted_principals ≡ has_text p ("bob" ∷ "ann" ∷ "ann" ∷ []))
    × (r.version ≡ 1)
    × (first (is_record "r9") after_note.durable.records ≡ some r)
unfolding upper sorted_set
create-get_record_example = create-get_record (at 20) (at 30) sean "r9" note some_store noted

abbrev window : Json
window = obj (dict (("window_end", str "e") ∷ ("window_start", str "s") ∷ []))

abbrev trusting : Evidence
trusting = record {
  verify_against = λ plan upload receipt key. ok plan;
  verify_plan = λ plan. ok plan;
  verify_preflight = λ receipt. ok receipt;
  verify_receipt = λ receipt plan. ok receipt;
  iso = λ t. if t == "s" then aware (utc 20) else aware (utc 90);
}

abbrev held_restore : Restore
held_restore = record {
  restore_plan_sha256 = "p1";
  owner_scope = iac;
  approval_target = "restore:p1";
  upload_plan_sha256 = "u1";
  upload_receipt_sha256 = "c1";
  restore_key_proposal_sha256 = "k1";
  plan_payload = window;
  status = RestoreStatus.authorized;
  approval_id = some "a1";
  attempt_count = 1;
  max_attempts = 3;
  available_at = 10;
  lease_owner = some "w1";
  lease_expires_at = some (utc 50);
  last_error = none;
  preflight_receipt_payload = some (num 1);
  receipt_payload = none;
  created_at = 10;
  updated_at = utc 10;
  completed_at = none;
}

abbrev with_restore : Store
with_restore = record some_store {
  live = record some_store.live { backup_restore_outbox = held_restore ∷ [] };
  is_open = false;
  scope_profile = iac_profile;
}

guarded :
    assert_backup_restore_execution_allowed trusting (at 30) sean "p1" "w1" none with_restore
    ≡ (ok held_restore, with_restore)
unfolding assert_backup_restore_execution_allowed authorize permits has_scope scope_eq first is_plan
    kill_switch_enabled guard_refusal full_refusal window_of time_at text_at get_key get_field
    in_window instant_leb guard_answer get_backup_restore open_restore from_result gets pure ◌>>=◌
guarded = refl

assert_backup_restore_execution_allowed_lem_example :
    (instant : Stamp) × (given_time "Backup restore guard time must be ISO-8601"
        "Backup restore guard time must include a timezone" 30 none
      ≡ ok instant)
    × MayRestore trusting "p1" "w1" instant with_restore held_restore
assert_backup_restore_execution_allowed_lem_example =
    assert_backup_restore_execution_allowed_lem trusting (at 30) sean "p1" "w1" none with_restore
      guarded

has_secret-IsClean_example :
    (has_secret quiet (obj (dict (("password", num 1) ∷ []))) ≡ false)
    ↔ IsClean quiet (obj (dict (("password", num 1) ∷ [])))
has_secret-IsClean_example = has_secret-IsClean quiet (obj (dict (("password", num 1) ∷ [])))
