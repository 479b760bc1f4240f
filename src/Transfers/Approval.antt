-- ===== src/Transfers/Approval.antt =====
-- The approval of a backup transfer in sean_os/store.py: its exact conditions, the request and the
-- authorization, which uses the approval and moves the transfer in one transaction.
use iac_ai_runtime.Prelude.{
  ℕ, String, Bool, false, Option, none, some, holds_text, List, [], ◌∷◌, not, ◌&&◌, ◌==◌, nat_eq,
  if◌then◌else◌,
}
use iac_ai_runtime.Text.{text_ltb}
use iac_ai_runtime.Exec.{
  Error, Result, ok, err, pure, raise, gets, check, when, catch, from_result, ◌>>=◌, ◌>>◌,
  authorization_error, validation_error, key_error,
}
use iac_ai_runtime.Json.{
  insert_field, Json, bool, str, obj, end, Fields, field, dict, get_key, json_eq,
}
use iac_ai_runtime.Time.{Stamp, utc, instant_leb}
use iac_ai_runtime.Table.{select, update, count_rows, order_by}
use iac_ai_runtime.Db.{
  iac, scope_eq, Actor, allowed, Db, Clock, Method, begin, write, commit, rollback,
}
use iac_ai_runtime.Access.{audit_uncommitted, authorize, write_access}
use iac_ai_runtime.Db.{Transfer, TransferStatus, Approval, expired}
use iac_ai_runtime.Prelude.{any}
use iac_ai_runtime.Time.{same_stamp}
use iac_ai_runtime.Approvals.{Ask, is_pending, set_approval, request_approval}
use iac_ai_runtime.Approvals.Consume.{Use, consume_approval}
use iac_ai_runtime.Transfers.{is_authorized, is_validated, get_backup_transfer}

-- `{..., key: plan[key], ...}`; a key that is missing is a KeyError.
unfoldable pub copy_keys : List String → Json → Result Fields
unfolding get_key
copy_keys [] plan = ok end
copy_keys (k ∷ ks) plan = add_key k (get_key k plan) (copy_keys ks plan)
  where
    add_key : String → Option Json → Result Fields → Result Fields
    add_key k none rest = err (key_error k)
    add_key k (some v) (err e) = err e
    add_key k (some v) (ok fs) = ok (field k v fs)

-- The keys that `_backup_transfer_approval_conditions` takes from the plan, in their order.
abbrev pub plan_keys : List String
plan_keys =
    "backup_sha256" ∷ "client_encryption_key_ref" ∷ "data_region" ∷ "destination_ref"
    ∷ "max_cost_cad" ∷ "object_ref" ∷ "provider" ∷ "provider_endpoint"
    ∷ "provider_writer_identity_ref" ∷ "retention_days" ∷ "retention_mode" ∷ "window_end"
    ∷ "window_start" ∷ []

abbrev pub add_hashes : Transfer → Result Fields → Result Fields
add_hashes t (err e) = err e
add_hashes t (ok fs) = ok (
    insert_field "plan_sha256" (str t.plan_sha256)
      (insert_field "proposal_sha256" (str t.proposal_sha256) fs))

-- `_backup_transfer_approval_conditions`, in the order of the keys
unfoldable pub approval_conditions : Transfer → Result Fields
unfolding copy_keys insert_field
approval_conditions t = add_hashes t (copy_keys plan_keys t.plan_payload)

abbrev pub drill : String
drill = "RUN_INDEPENDENT_BACKUP_RESTORE_DRILL"

-- WHERE action_type=... AND target=? AND scope='IAC' AND status='PENDING'
unfoldable pub is_pending_drill : String → Approval → Bool
is_pending_drill target a =
    a.action_type == drill && a.target == target && scope_eq a.scope iac && is_pending a.status

abbrev pub ids_before : Approval → Approval → Bool
ids_before a b = text_ltb a.record_id b.record_id

abbrev pub is_over : ℕ → Approval → Bool
is_over now a = instant_leb a.expires_at (utc now)

-- the loop over `pending`
unfoldable pub expire_all : ℕ → List Approval → Db → Db
unfolding instant_leb
expire_all now [] d = d
expire_all now (a ∷ more) d =
    expire_all now more (if is_over now a then set_approval a.record_id expired d else d)

abbrev pub drill_ask : Transfer → String → Stamp → Fields → Ask
drill_ask t max_impact expires_at conditions = record {
  action_type = drill;
  target = t.approval_target;
  scope = iac;
  max_impact = max_impact;
  expires_at = expires_at;
  conditions = conditions;
}

-- One request is pending, and it is the exact one.
unfoldable pub is_exact : String → Stamp → Fields → Approval → Bool
is_exact max_impact expires_at conditions a =
    json_eq a.conditions (obj conditions)
    && a.max_impact == max_impact
    && same_stamp a.expires_at expires_at

unfoldable pub answer_pending :
    Clock → Actor → String → Transfer → String → Stamp → Fields → List Approval → Method String
answer_pending c actor id t max_impact expires_at conditions [] =
    request_approval c actor id (drill_ask t max_impact expires_at conditions)
answer_pending c actor id t max_impact expires_at conditions (a ∷ []) =
    if is_exact max_impact expires_at conditions a
    then pure a.record_id
    else raise (validation_error "A different backup drill approval request is already pending")
answer_pending c actor id t max_impact expires_at conditions (a ∷ b ∷ more) =
    raise (validation_error "A different backup drill approval request is already pending")

-- `request_backup_transfer_approval`; `id` is the `uuid4` of a new request.
unfoldable pub request_backup_transfer_approval :
    Clock → Actor → String → String → String → Stamp → Method String
request_backup_transfer_approval c actor id plan max_impact expires_at = do
  t ← get_backup_transfer actor plan
  authorize actor t.owner_scope [] write_access
  check (is_validated t.status)
      (validation_error "Backup transfer requires validated no-network preflight evidence")
  conditions ← from_result (approval_conditions t)
  pendings ←
      gets (λ s. order_by ids_before (select (is_pending_drill t.approval_target) s.live.approvals))
  write (expire_all c.instant pendings)
  when (any (is_over c.instant) pendings) commit
  answer_pending c actor id t max_impact expires_at conditions
      (select (λ a. not (is_over c.instant a)) pendings)

abbrev pub drill_use : Transfer → Fields → Use
drill_use t conditions = record {
  action_type = drill;
  target = t.approval_target;
  at = none;
  scope = some iac;
  conditions = some conditions;
}

-- WHERE plan_sha256=? AND status='PREFLIGHT_VALIDATED'
unfoldable pub is_awaiting : String → Transfer → Bool
is_awaiting plan t = t.plan_sha256 == plan && is_validated t.status

unfoldable pub set_authorized : Clock → String → Transfer → Transfer
set_authorized c id t = record t {
  status = TransferStatus.authorized;
  approval_id = some id;
  updated_at = c.instant;
}

-- The transaction of `authorize_backup_transfer`
unfoldable pub use_drill : Clock → Actor → String → String → Transfer → Fields → Method (Unit {0})
use_drill c actor plan id t conditions = do
  begin
  consume_approval c actor id (drill_use t conditions) false
  found ← gets (λ s. count_rows (is_awaiting plan) s.live.backup_transfer_outbox)
  check (nat_eq found 1)
      (validation_error "Backup transfer authorization raced with another update")
  write (λ d. record d {
    backup_transfer_outbox =
        update (is_awaiting plan) (set_authorized c id) d.backup_transfer_outbox;
  })
  audit_uncommitted c actor "AUTHORIZE_BACKUP_TRANSFER" allowed
      "Exact single-use backup plan approval consumed" (some id)
      (dict (
        ("network_performed", bool false)
        ∷ ("plan_sha256", str plan)
        ∷ ("scope", str "IAC")
        ∷ ("upload_performed", bool false)
        ∷ []))
  commit

unfoldable pub undo : Error → Method (Unit {0})
undo e = rollback >> raise e

unfoldable pub authorize_row : Clock → Actor → String → String → Transfer → Method Transfer
authorize_row c actor plan id t =
    if is_authorized t.status && holds_text t.approval_id id then pure t else do
      check (is_validated t.status)
          (validation_error "Backup transfer is not awaiting exact approval")
      conditions ← from_result (approval_conditions t)
      catch (use_drill c actor plan id t conditions) undo
      get_backup_transfer actor plan

-- `authorize_backup_transfer`
unfoldable pub authorize_backup_transfer : Clock → Actor → String → String → Method Transfer
authorize_backup_transfer c actor plan id = do
  check actor.is_sean (authorization_error "Only Sean may authorize a backup transfer")
  t ← get_backup_transfer actor plan
  authorize_row c actor plan id t
