-- ===== src/Transfers.antt =====
-- The outbox of backup transfers in sean_os/store.py: staging, reading and the preflight evidence.
-- Payloads are kept as JSON values, which stand for their sorted texts.
pub mod Lifecycle
pub mod Authorized
pub mod History
pub mod Preserves
pub mod Lease
pub mod Approval
pub mod Execution
use iac_ai_runtime.Prelude.{
  ℕ, ◌+◌, ◌*◌, ◌-◌, String, Bool, true, false, Option, none, some, or_else, holds_text, List, [],
  ◌∷◌, ◌++◌, not, ◌&&◌, ◌||◌, ◌==◌, is_some, is_empty, has_text, length, ltb, leb, nat_eq,
  if◌then◌else◌,
}
use iac_ai_runtime.Text.{has_content, text_ltb}
use iac_ai_runtime.Exec.{
  Error, Result, ok, err, pure, raise, gets, check, when, catch, from_result, ◌>>=◌, ◌>>◌,
  type_error, authorization_error, validation_error, integrity_error, key_error, policy_denied,
}
use iac_ai_runtime.Json.{
  Json, null, bool, num, str, arr, obj, nil, end, Fields, field, dict, get_field, get_key, json_eq,
  float_of, texts, put_field, merge,
}
use iac_ai_runtime.Time.{Stamp, Iso, malformed, naive, aware, utc, text_leb, instant_leb, second}
use iac_ai_runtime.Table.{select, first, first_by, update, delete, count_rows, order_by}
use iac_ai_runtime.Security.{has_secret, safe_persisted_text, secret_findings}
use iac_ai_runtime.Db.{
  Scope, personal, iac, shared, unknown_scope, scope_eq, has_scope, scopes, scope_name,
  allowed_scopes, Actor, allowed, denied, failed, Db, Store, Clock, Method, write, commit, rollback,
}
use iac_ai_runtime.Access.{
  audit, audit_uncommitted, deny, decline, authorize, write_access, read_access,
  kill_switch_enabled,
}
use iac_ai_runtime.Db.{
  Transfer, TransferStatus, staged, preflight_validated, authorized, completed,
  reconciliation_required, Profile, iac_profile,
}

-- The checks of evidence in the modules of backups: `verify_backup_transfer_plan`,
-- `verify_synthetic_backup_adapter_receipt` and `verify_backup_upload_receipt`. Each returns the
-- evidence or raises.
pub record Evidence : Type 0 where
  pub verify_plan : Json → Json → Result Json
  pub verify_preflight : Json → Result Json
  pub verify_receipt : Json → Json → Result Json

abbrev pub is_iac_profile : Profile → Bool
is_iac_profile iac_profile = true
is_iac_profile _ = false

-- `value[key]` of a text field
abbrev pub field_text : Option Json → Result String
field_text (some (str t)) = ok t
field_text _ = err (key_error "missing")

unfoldable pub text_at : String → Json → Result String
unfolding get_key
text_at key v = field_text (get_key key v)

unfoldable pub is_plan : String → Transfer → Bool
is_plan plan t = t.plan_sha256 == plan

abbrev pub is_staged : TransferStatus → Bool
is_staged TransferStatus.staged = true
is_staged _ = false

abbrev pub is_validated : TransferStatus → Bool
is_validated TransferStatus.preflight_validated = true
is_validated _ = false

abbrev pub is_authorized : TransferStatus → Bool
is_authorized TransferStatus.authorized = true
is_authorized _ = false

abbrev pub is_completed : TransferStatus → Bool
is_completed TransferStatus.completed = true
is_completed _ = false

abbrev pub transfer_status_name : TransferStatus → String
transfer_status_name TransferStatus.staged = "STAGED"
transfer_status_name TransferStatus.preflight_validated = "PREFLIGHT_VALIDATED"
transfer_status_name TransferStatus.authorized = "AUTHORIZED"
transfer_status_name TransferStatus.completed = "COMPLETED"
transfer_status_name TransferStatus.failed = "FAILED"
transfer_status_name TransferStatus.reconciliation_required = "RECONCILIATION_REQUIRED"

unfoldable pub open_transfer : Actor → Option Transfer → Method Transfer
open_transfer actor none = raise (validation_error "Backup transfer plan not found")
open_transfer actor (some t) = do authorize actor t.owner_scope [] read_access; pure t

-- `get_backup_transfer`
unfoldable pub get_backup_transfer : Actor → String → Method Transfer
get_backup_transfer actor plan = do
  row ← gets (λ s. first (is_plan plan) s.live.backup_transfer_outbox)
  open_transfer actor row

abbrev pub new_transfer : Clock → String → String → String → Json → Transfer
new_transfer c plan target proposal payload = record {
  plan_sha256 = plan;
  owner_scope = iac;
  approval_target = target;
  proposal_sha256 = proposal;
  plan_payload = payload;
  status = staged;
  approval_id = none;
  attempt_count = 0;
  max_attempts = 3;
  available_at = c.instant;
  lease_owner = none;
  lease_expires_at = none;
  last_error = none;
  preflight_receipt_payload = none;
  receipt_payload = none;
  created_at = c.instant;
  updated_at = c.instant;
  completed_at = none;
}

unfoldable pub stage_row : Clock → Actor → String → Json → Option Transfer → Method Transfer
stage_row c actor plan payload (some t) =
    if json_eq t.plan_payload payload
    then get_backup_transfer actor plan
    else raise (validation_error "Backup transfer plan hash is already bound to different evidence")
stage_row c actor plan payload none = do
  target ← from_result (text_at "approval_target" payload)
  proposal ← from_result (text_at "proposal_sha256" payload)
  write (λ d. record d {
    backup_transfer_outbox =
        d.backup_transfer_outbox ++ new_transfer c plan target proposal payload ∷ [];
  })
  commit
  audit c actor "STAGE_BACKUP_TRANSFER" allowed "Path-free no-network backup transfer plan staged"
      none
      (dict (
        ("execution_authorized", bool false)
        ∷ ("network_enabled", bool false)
        ∷ ("plan_sha256", str plan)
        ∷ ("scope", str "IAC")
        ∷ []))
  get_backup_transfer actor plan

unfoldable pub transfers_before : Transfer → Transfer → Bool
transfers_before t u =
    ltb t.created_at u.created_at
    || nat_eq t.created_at u.created_at && text_ltb t.plan_sha256 u.plan_sha256

abbrev pub has_status : Option String → Transfer → Bool
has_status none t = true
has_status (some name) t = transfer_status_name t.status == name

abbrev pub statuses : List String
statuses =
    "STAGED" ∷ "PREFLIGHT_VALIDATED" ∷ "AUTHORIZED" ∷ "COMPLETED" ∷ "FAILED"
    ∷ "RECONCILIATION_REQUIRED" ∷ []

abbrev pub is_status : Option String → Bool
is_status none = true
is_status (some name) = has_text name statuses

abbrev pub optional_text : Option String → Json
optional_text none = null
optional_text (some t) = str t

unfoldable pub get_all : Actor → List Transfer → Method (List Transfer)
get_all actor [] = pure []
get_all actor (t ∷ ts) = do
  seen ← get_backup_transfer actor t.plan_sha256
  rest ← get_all actor ts
  pure (seen ∷ rest)

-- `list_backup_transfers`
unfoldable pub list_backup_transfers : Clock → Actor → Option String → Method (List Transfer)
list_backup_transfers c actor status = do
  authorize actor iac [] read_access
  check (is_status status) (validation_error "Unknown backup transfer status")
  rows ←
      gets
        (λ s. order_by transfers_before (select (has_status status) s.live.backup_transfer_outbox))
  seen ← get_all actor rows
  audit c actor "LIST_BACKUP_TRANSFERS" allowed "Scope-safe backup transfer review returned" none (
      dict (
        ("result_count", num (length seen))
        ∷ ("scope", str "IAC")
        ∷ ("status", optional_text status)
        ∷ []))
  pure seen

unfoldable pub is_staged_plan : String → Transfer → Bool
is_staged_plan plan t = t.plan_sha256 == plan && is_staged t.status

unfoldable pub set_preflight : Clock → String → Json → Db → Db
unfolding update is_staged_plan
set_preflight c plan payload d = record d {
  backup_transfer_outbox =
      update (is_staged_plan plan)
        (λ t. record t {
          status = preflight_validated;
          preflight_receipt_payload = some payload;
          updated_at = c.instant;
        })
        d.backup_transfer_outbox;
}

abbrev pub same_payload : Option Json → Json → Bool
same_payload none v = false
same_payload (some u) v = json_eq u v

unfoldable pub preflight_row : Clock → Actor → String → Json → Transfer → Method Transfer
preflight_row c actor plan verified t =
    if is_validated t.status
    then (if same_payload t.preflight_receipt_payload verified
        then pure t
        else raise (validation_error "Backup transfer already has different preflight evidence"))
    else if not (is_staged t.status)
    then raise (validation_error "Only a staged backup transfer may record preflight evidence")
    else do
      write (set_preflight c plan verified)
      commit
      audit c actor "VALIDATE_BACKUP_TRANSFER_PREFLIGHT" allowed
          "Synthetic adapter proved no encryption, upload, or network action" none
          (dict (
            ("execution_authorized", bool false)
            ∷ ("network_performed", bool false)
            ∷ ("plan_sha256", str plan)
            ∷ ("scope", str "IAC")
            ∷ []))
      get_backup_transfer actor plan

module _ (evidence : Evidence) where
  -- `stage_backup_transfer`
  unfoldable pub stage_backup_transfer : Clock → Actor → Json → Json → Method Transfer
  stage_backup_transfer c actor plan approval_package = do
    bound ← gets (λ s. is_iac_profile s.scope_profile)
    check bound (authorization_error "Backup transfer outbox requires an IAC database profile")
    authorize actor iac [] write_access
    verified ← from_result (evidence.verify_plan plan approval_package)
    id ← from_result (text_at "plan_sha256" verified)
    row ← gets (λ s. first (is_plan id) s.live.backup_transfer_outbox)
    stage_row c actor id verified row

  -- `record_backup_transfer_preflight`
  unfoldable pub record_backup_transfer_preflight : Clock → Actor → String → Json → Method Transfer
  record_backup_transfer_preflight c actor plan receipt = do
    verified ← from_result (evidence.verify_preflight receipt)
    about ← from_result (text_at "plan_sha256" verified)
    check (about == plan)
        (validation_error "Backup preflight receipt does not match the staged plan")
    t ← get_backup_transfer actor plan
    authorize actor t.owner_scope [] write_access
    preflight_row c actor plan verified t
