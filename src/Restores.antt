-- ===== src/Restores.antt =====
-- The outbox of backup restores in sean_os/store.py: staging, reading and the preflight evidence.
-- Payloads are kept as JSON values, which stand for their sorted texts.
pub mod Approval
pub mod Lease
pub mod Execution
pub mod Guard
use iac_ai_runtime.Prelude.{
  ℕ, ◌+◌, ◌*◌, ◌-◌, String, Bool, true, false, Option, none, some, or_else, holds_text, List, [],
  ◌∷◌, ◌++◌, not, ◌&&◌, ◌||◌, ◌==◌, is_some, is_empty, has_text, length, ltb, leb, nat_eq,
  if◌then◌else◌,
}
use iac_ai_runtime.Text.{has_content, text_ltb}
use iac_ai_runtime.Exec.{
  Error, Result, ok, err, pure, raise, gets, check, when, catch, from_result, ◌>>=◌, ◌>>◌,
  type_error, authorization_error, validation_error, integrity_error, key_error, policy_denied,
}
use iac_ai_runtime.Json.{
  Json, null, bool, num, str, arr, obj, nil, end, Fields, field, dict, get_field, get_key, json_eq,
  float_of, texts, put_field, merge,
}
use iac_ai_runtime.Time.{Stamp, Iso, malformed, naive, aware, utc, text_leb, instant_leb, second}
use iac_ai_runtime.Table.{select, first, first_by, update, delete, count_rows, order_by}
use iac_ai_runtime.Security.{has_secret, safe_persisted_text, secret_findings}
use iac_ai_runtime.Db.{
  Scope, personal, iac, shared, unknown_scope, scope_eq, has_scope, scopes, scope_name,
  allowed_scopes, Actor, allowed, denied, failed, Db, Store, Clock, Method, write, commit, rollback,
}
use iac_ai_runtime.Access.{
  audit, audit_uncommitted, deny, decline, authorize, write_access, read_access,
  kill_switch_enabled,
}
use iac_ai_runtime.Db.{Restore, RestoreStatus}
use iac_ai_runtime.Transfers.{is_iac_profile, text_at, same_payload, optional_text}

-- The checks of evidence in sean_os/backup_restore.py:
-- `verify_isolated_backup_restore_plan_against_evidence`, `verify_isolated_backup_restore_plan`,
-- `verify_synthetic_backup_restore_preflight` and `verify_isolated_backup_restore_receipt`, which
-- return the evidence or raise, and `datetime.fromisoformat`.
pub record Evidence : Type 0 where
  pub verify_against : Json → Json → Json → Json → Result Json
  pub verify_plan : Json → Result Json
  pub verify_preflight : Json → Result Json
  pub verify_receipt : Json → Json → Result Json
  pub iso : String → Iso

unfoldable pub is_plan : String → Restore → Bool
is_plan plan t = t.restore_plan_sha256 == plan

abbrev pub is_staged : RestoreStatus → Bool
is_staged RestoreStatus.staged = true
is_staged _ = false

abbrev pub is_validated : RestoreStatus → Bool
is_validated RestoreStatus.preflight_validated = true
is_validated _ = false

abbrev pub is_authorized : RestoreStatus → Bool
is_authorized RestoreStatus.authorized = true
is_authorized _ = false

abbrev pub is_restored : RestoreStatus → Bool
is_restored RestoreStatus.restored = true
is_restored _ = false

abbrev pub restore_status_name : RestoreStatus → String
restore_status_name RestoreStatus.staged = "STAGED"
restore_status_name RestoreStatus.preflight_validated = "PREFLIGHT_VALIDATED"
restore_status_name RestoreStatus.authorized = "AUTHORIZED"
restore_status_name RestoreStatus.restored = "RESTORED"
restore_status_name RestoreStatus.failed = "FAILED"
restore_status_name RestoreStatus.reconciliation_required = "RECONCILIATION_REQUIRED"

unfoldable pub open_restore : Actor → Option Restore → Method Restore
open_restore actor none = raise (validation_error "Backup restore plan not found")
open_restore actor (some t) = do authorize actor t.owner_scope [] read_access; pure t

-- `get_backup_restore`
unfoldable pub get_backup_restore : Actor → String → Method Restore
get_backup_restore actor plan = do
  row ← gets (λ s. first (is_plan plan) s.live.backup_restore_outbox)
  open_restore actor row

-- The texts that `stage_backup_restore` takes from the verified plan.
pub record Hashes : Type 0 where
  pub target : String
  pub upload_plan : String
  pub upload_receipt : String
  pub restore_key : String

abbrev pub new_restore : Clock → String → Hashes → Json → Restore
new_restore c plan h payload = record {
  restore_plan_sha256 = plan;
  owner_scope = iac;
  approval_target = h.target;
  upload_plan_sha256 = h.upload_plan;
  upload_receipt_sha256 = h.upload_receipt;
  restore_key_proposal_sha256 = h.restore_key;
  plan_payload = payload;
  status = RestoreStatus.staged;
  approval_id = none;
  attempt_count = 0;
  max_attempts = 3;
  available_at = c.instant;
  lease_owner = none;
  lease_expires_at = none;
  last_error = none;
  preflight_receipt_payload = none;
  receipt_payload = none;
  created_at = c.instant;
  updated_at = utc c.instant;
  completed_at = none;
}

unfoldable pub insert_restore : Clock → Actor → String → Json → Hashes → Method Restore
insert_restore c actor plan payload h = do
  write (λ d. record d {
    backup_restore_outbox = d.backup_restore_outbox ++ new_restore c plan h payload ∷ [];
  })
  commit
  audit c actor "STAGE_BACKUP_RESTORE" allowed
      "Exact isolated restore plan staged without execution" (some plan)
      (dict (
        ("decrypt_authorized", bool false)
        ∷ ("download_authorized", bool false)
        ∷ ("network_enabled", bool false)
        ∷ ("restore_authorized", bool false)
        ∷ ("scope", str "IAC")
        ∷ []))
  get_backup_restore actor plan

unfoldable pub stage_row : Clock → Actor → String → Json → Option Restore → Method Restore
stage_row c actor plan payload (some t) =
    if json_eq t.plan_payload payload
    then get_backup_restore actor plan
    else raise (validation_error "Backup restore plan hash is bound to different evidence")
stage_row c actor plan payload none = do
  target ← from_result (text_at "approval_target" payload)
  upload_plan ← from_result (text_at "upload_plan_sha256" payload)
  upload_receipt ← from_result (text_at "upload_receipt_sha256" payload)
  restore_key ← from_result (text_at "restore_key_proposal_sha256" payload)
  insert_restore c actor plan payload (record {
    target = target;
    upload_plan = upload_plan;
    upload_receipt = upload_receipt;
    restore_key = restore_key;
  })

unfoldable pub restores_before : Restore → Restore → Bool
restores_before t u =
    ltb t.created_at u.created_at
    || nat_eq t.created_at u.created_at && text_ltb t.restore_plan_sha256 u.restore_plan_sha256

abbrev pub has_status : Option String → Restore → Bool
has_status none t = true
has_status (some name) t = restore_status_name t.status == name

abbrev pub statuses : List String
statuses =
    "STAGED" ∷ "PREFLIGHT_VALIDATED" ∷ "AUTHORIZED" ∷ "RESTORED" ∷ "FAILED"
    ∷ "RECONCILIATION_REQUIRED" ∷ []

abbrev pub is_status : Option String → Bool
is_status none = true
is_status (some name) = has_text name statuses

unfoldable pub get_all : Actor → List Restore → Method (List Restore)
get_all actor [] = pure []
get_all actor (t ∷ ts) = do
  seen ← get_backup_restore actor t.restore_plan_sha256
  rest ← get_all actor ts
  pure (seen ∷ rest)

-- `list_backup_restores`
unfoldable pub list_backup_restores : Clock → Actor → Option String → Method (List Restore)
list_backup_restores c actor status = do
  authorize actor iac [] read_access
  check (is_status status) (validation_error "Unknown backup restore status")
  rows ←
      gets (λ s. order_by restores_before (select (has_status status) s.live.backup_restore_outbox))
  seen ← get_all actor rows
  audit c actor "LIST_BACKUP_RESTORES" allowed "Scope-safe isolated restore review returned" none (
      dict (
        ("result_count", num (length seen))
        ∷ ("scope", str "IAC")
        ∷ ("status", optional_text status)
        ∷ []))
  pure seen

unfoldable pub is_staged_plan : String → Restore → Bool
is_staged_plan plan t = t.restore_plan_sha256 == plan && is_staged t.status

unfoldable pub set_preflight : Clock → String → Json → Db → Db
unfolding update is_staged_plan
set_preflight c plan payload d = record d {
  backup_restore_outbox =
      update (is_staged_plan plan)
        (λ t. record t {
          status = RestoreStatus.preflight_validated;
          preflight_receipt_payload = some payload;
          updated_at = utc c.instant;
        })
        d.backup_restore_outbox;
}

unfoldable pub preflight_row : Clock → Actor → String → Json → Restore → Method Restore
preflight_row c actor plan verified t =
    if is_validated t.status
    then (if same_payload t.preflight_receipt_payload verified
        then pure t
        else raise (validation_error "Backup restore already has different preflight evidence"))
    else if not (is_staged t.status)
    then raise (validation_error "Only a staged backup restore may record preflight evidence")
    else do
      write (set_preflight c plan verified)
      commit
      audit c actor "VALIDATE_BACKUP_RESTORE_PREFLIGHT" allowed
          "Restore evidence validated without credentials, network, download, or decryption"
          (some plan)
          (dict (
            ("execution_authorized", bool false)
            ∷ ("network_performed", bool false)
            ∷ ("scope", str "IAC")
            ∷ []))
      get_backup_restore actor plan

module _ (evidence : Evidence) where
  -- `stage_backup_restore`
  unfoldable pub stage_backup_restore : Clock → Actor → Json → Json → Json → Json → Method Restore
  stage_backup_restore c actor plan upload_plan upload_receipt key_package = do
    bound ← gets (λ s. is_iac_profile s.scope_profile)
    check bound (authorization_error "Backup restore outbox requires an IAC database profile")
    authorize actor iac [] write_access
    verified ← from_result (evidence.verify_against plan upload_plan upload_receipt key_package)
    id ← from_result (text_at "plan_sha256" verified)
    row ← gets (λ s. first (is_plan id) s.live.backup_restore_outbox)
    stage_row c actor id verified row

  -- `record_backup_restore_preflight`
  unfoldable pub record_backup_restore_preflight : Clock → Actor → String → Json → Method Restore
  record_backup_restore_preflight c actor plan receipt = do
    verified ← from_result (evidence.verify_preflight receipt)
    about ← from_result (text_at "restore_plan_sha256" verified)
    check (about == plan)
        (validation_error "Backup restore preflight does not match the staged plan")
    t ← get_backup_restore actor plan
    authorize actor t.owner_scope [] write_access
    uploaded ← from_result (text_at "upload_receipt_sha256" verified)
    check (uploaded == t.upload_receipt_sha256)
        (validation_error "Backup restore preflight does not match upload evidence")
    preflight_row c actor plan verified t
