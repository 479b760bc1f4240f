-- ===== src/Restores/Approval.antt =====
-- The approval of a backup restore in sean_os/store.py: its exact conditions, the request and the
-- authorization, within the window of the plan.
use iac_ai_runtime.Prelude.{
  ℕ, String, Bool, false, Option, none, some, holds_text, List, [], ◌∷◌, not, ◌&&◌, ◌==◌, nat_eq,
  if◌then◌else◌,
}
use iac_ai_runtime.Exec.{
  Result, ok, err, pure, raise, gets, check, when, catch, from_result, ◌>>=◌, ◌>>◌, type_error,
  authorization_error, validation_error,
}
use iac_ai_runtime.Json.{insert_field, Json, bool, str, Fields, dict}
use iac_ai_runtime.Time.{Stamp, Iso, malformed, naive, aware, utc, instant_leb}
use iac_ai_runtime.Table.{select, update, count_rows, order_by}
use iac_ai_runtime.Db.{iac, scope_eq, Actor, allowed, Clock, Method, begin, write, commit}
use iac_ai_runtime.Access.{audit_uncommitted, authorize, write_access}
use iac_ai_runtime.Prelude.{any}
use iac_ai_runtime.Db.{Restore, RestoreStatus, Approval}
use iac_ai_runtime.Approvals.{Ask, is_pending, request_approval}
use iac_ai_runtime.Approvals.Consume.{Use, consume_approval}
use iac_ai_runtime.Transfers.{text_at}
use iac_ai_runtime.Transfers.Approval.{copy_keys, ids_before, is_over, expire_all, is_exact, undo}
use iac_ai_runtime.Restores.{Evidence, is_authorized, is_validated, get_backup_restore}

-- The keys that `_backup_restore_approval_conditions` takes from the plan.
abbrev pub plan_keys : List String
plan_keys =
    "ciphertext_sha256" ∷ "client_encryption_key_ref" ∷ "data_region" ∷ "destination_ref"
    ∷ "expected_plaintext_sha256" ∷ "max_cost_cad" ∷ "object_ref" ∷ "provider" ∷ "provider_endpoint"
    ∷ "provider_restore_identity_ref" ∷ "provider_version_ref" ∷ "restore_target_ref" ∷ "window_end"
    ∷ "window_start" ∷ []

abbrev pub add_hashes : Restore → Result Fields → Result Fields
add_hashes t (err e) = err e
add_hashes t (ok fs) = ok (
    insert_field "overwrite_permitted" (bool false) (
      insert_field "restore_key_proposal_sha256" (str t.restore_key_proposal_sha256) (
        insert_field "restore_plan_sha256" (str t.restore_plan_sha256) (
          insert_field "upload_plan_sha256" (str t.upload_plan_sha256)
            (insert_field "upload_receipt_sha256" (str t.upload_receipt_sha256) fs)))))

-- `_backup_restore_approval_conditions`, in the order of the keys
unfoldable pub approval_conditions : Restore → Result Fields
unfolding copy_keys insert_field
approval_conditions t = add_hashes t (copy_keys plan_keys t.plan_payload)

abbrev pub isolated_restore : String
isolated_restore = "RUN_ISOLATED_BACKUP_RESTORE"

-- WHERE action_type=... AND target=? AND scope='IAC' AND status='PENDING'
unfoldable pub is_pending_restore : String → Approval → Bool
is_pending_restore target a =
    a.action_type == isolated_restore
    && a.target == target
    && scope_eq a.scope iac
    && is_pending a.status

abbrev pub restore_ask : Restore → String → Stamp → Fields → Ask
restore_ask t max_impact expires_at conditions = record {
  action_type = isolated_restore;
  target = t.approval_target;
  scope = iac;
  max_impact = max_impact;
  expires_at = expires_at;
  conditions = conditions;
}

unfoldable pub answer_pending :
    Clock → Actor → String → Restore → String → Stamp → Fields → List Approval → Method String
answer_pending c actor id t max_impact expires_at conditions [] =
    request_approval c actor id (restore_ask t max_impact expires_at conditions)
answer_pending c actor id t max_impact expires_at conditions (a ∷ []) =
    if is_exact max_impact expires_at conditions a
    then pure a.record_id
    else raise (validation_error "A different isolated restore approval is already pending")
answer_pending c actor id t max_impact expires_at conditions (a ∷ b ∷ more) =
    raise (validation_error "A different isolated restore approval is already pending")

-- `at or now()` as a time with a zone
abbrev pub given_time : String → String → ℕ → Option Iso → Result Stamp
given_time no_iso no_zone now none = ok (utc now)
given_time no_iso no_zone now (some (aware t)) = ok t
given_time no_iso no_zone now (some malformed) = err (validation_error no_iso)
given_time no_iso no_zone now (some (naive t)) = err (validation_error no_zone)

-- A time of the plan: one that is no time with a zone raises in `fromisoformat` or in the
-- comparison after it.
abbrev pub plan_time : Iso → Result Stamp
plan_time (aware t) = ok t
plan_time (naive t) = err type_error
plan_time malformed = err type_error

abbrev pub parsed : (String → Iso) → Result String → Result Stamp
parsed iso (ok t) = plan_time (iso t)
parsed iso (err e) = err e

-- `datetime.fromisoformat(plan[key])`
unfoldable pub time_at : (String → Iso) → String → Json → Result Stamp
unfolding text_at
time_at iso key plan = parsed iso (text_at key plan)

-- `window_start <= instant <= window_end`
unfoldable pub in_window : Stamp → Stamp → Stamp → Bool
unfolding instant_leb
in_window start instant stop = instant_leb start instant && instant_leb instant stop

abbrev pub restore_use : Restore → Stamp → Fields → Use
restore_use t at conditions = record {
  action_type = isolated_restore;
  target = t.approval_target;
  at = some at;
  scope = some iac;
  conditions = some conditions;
}

-- WHERE restore_plan_sha256=? AND status='PREFLIGHT_VALIDATED'
unfoldable pub is_awaiting : String → Restore → Bool
is_awaiting plan t = t.restore_plan_sha256 == plan && is_validated t.status

unfoldable pub set_authorized : Stamp → String → Restore → Restore
set_authorized at id t = record t {
  status = RestoreStatus.authorized;
  approval_id = some id;
  updated_at = at;
}

-- The transaction of `authorize_backup_restore`
unfoldable pub use_restore :
    Clock → Actor → String → String → Stamp → Restore → Fields → Method (Unit {0})
use_restore c actor plan id at t conditions = do
  begin
  consume_approval c actor id (restore_use t at conditions) false
  found ← gets (λ s. count_rows (is_awaiting plan) s.live.backup_restore_outbox)
  check (nat_eq found 1) (validation_error "Backup restore authorization raced with another update")
  write (λ d. record d {
    backup_restore_outbox =
        update (is_awaiting plan) (set_authorized at id) d.backup_restore_outbox;
  })
  audit_uncommitted c actor "AUTHORIZE_BACKUP_RESTORE" allowed
      "Exact single-use isolated restore approval consumed" (some plan)
      (dict (
        ("decrypted", bool false)
        ∷ ("downloaded", bool false)
        ∷ ("network_performed", bool false)
        ∷ ("restored", bool false)
        ∷ ("scope", str "IAC")
        ∷ []))
  commit

module _ (evidence : Evidence) where
  unfoldable pub ask_checked : Clock → Actor → String → Restore → String → Stamp → Method String
  ask_checked c actor id t max_impact expires_at = do
    stop ← from_result (time_at evidence.iso "window_end" t.plan_payload)
    check (instant_leb expires_at stop)
        (validation_error "Backup restore approval cannot outlive the restore window")
    conditions ← from_result (approval_conditions t)
    pendings ←
        gets (λ s.
          order_by ids_before (select (is_pending_restore t.approval_target) s.live.approvals))
    write (expire_all c.instant pendings)
    when (any (is_over c.instant) pendings) commit
    answer_pending c actor id t max_impact expires_at conditions
        (select (λ a. not (is_over c.instant a)) pendings)

  -- `request_backup_restore_approval`; `id` is the `uuid4` of a new request.
  unfoldable pub request_backup_restore_approval :
      Clock → Actor → String → String → String → Iso → Method String
  request_backup_restore_approval c actor id plan max_impact expires_at = do
    t ← get_backup_restore actor plan
    authorize actor t.owner_scope [] write_access
    check (is_validated t.status)
        (validation_error "Backup restore requires validated no-action preflight evidence")
    expiry ← from_result (
        given_time "Backup restore approval expiry must be ISO-8601"
          "Backup restore approval expiry must include a timezone" c.instant (some expires_at))
    ask_checked c actor id t max_impact expiry

  unfoldable pub authorize_validated :
      Clock → Actor → String → String → Option Iso → Restore → Method Restore
  authorize_validated c actor plan id at t = do
    check (is_validated t.status) (validation_error "Backup restore is not awaiting exact approval")
    instant ← from_result (
        given_time "Backup restore authorization time must be ISO-8601"
          "Backup restore authorization time must include a timezone" c.instant at)
    start ← from_result (time_at evidence.iso "window_start" t.plan_payload)
    stop ← from_result (time_at evidence.iso "window_end" t.plan_payload)
    check (in_window start instant stop)
        (validation_error "Backup restore authorization is outside the exact window")
    conditions ← from_result (approval_conditions t)
    catch (use_restore c actor plan id instant t conditions) undo
    get_backup_restore actor plan

  -- `authorize_backup_restore`
  unfoldable pub authorize_backup_restore :
      Clock → Actor → String → String → Option Iso → Method Restore
  authorize_backup_restore c actor plan id at = do
    check actor.is_sean (authorization_error "Only Sean may authorize an isolated backup restore")
    t ← get_backup_restore actor plan
    if is_authorized t.status && holds_text t.approval_id id
        then pure t
        else authorize_validated c actor plan id at t
