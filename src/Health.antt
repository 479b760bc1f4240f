-- ===== src/Health.antt =====
-- The health of the runtime, `runtime_health` of sean_os/store.py. The result of `integrity_check`,
-- SQLite's own check of the file, is an argument. A dict of counts is the function that `.get(status, 0)`
-- computes from it.
use iac_ai_runtime.Prelude.{
  ℕ, ◌+◌, ◌*◌, String, Bool, true, Option, none, some, List, [], ◌∷◌, not, ◌&&◌, ◌||◌, ◌==◌, any,
  length, ltb, nat_eq, if◌then◌else◌,
}
use iac_ai_runtime.Exec.{gets, check, ◌>>=◌, ◌>>◌, authorization_error, validation_error}
use iac_ai_runtime.Time.{second}
use iac_ai_runtime.Table.{select, count_rows, order_by}
use iac_ai_runtime.Text.{text_ltb}
use iac_ai_runtime.Db.{
  shared, personal, Scope, iac, scope_eq, has_scope, scopes, allowed_scopes, Profile, Heartbeat,
  WorkStatus, Budget, Db, Store, Clock, Method, queued, running, succeeded, dead_letter,
  budget_blocked, approval_blocked, policy_blocked,
}
use iac_ai_runtime.Budget.{budget_status}
use iac_ai_runtime.Deliveries.{delivery_status_name}
use iac_ai_runtime.Transfers.{transfer_status_name}
use iac_ai_runtime.Restores.{restore_status_name}

-- A heartbeat with `stale`
pub record Worker : Type 0 where
  pub heartbeat : Heartbeat
  pub stale : Bool

abbrev pub Counts : Type 0
Counts = String → ℕ

pub record Health : Type 0 where
  pub healthy : Bool
  pub kill_switch : Bool
  pub integrity_ok : Bool
  pub queue : Counts
  pub workers : List Worker
  pub delivery_outbox : Counts
  pub backup_transfer_outbox : Counts
  pub backup_restore_outbox : Counts
  pub budgets : List (Budget × ℕ)
  pub needs_attention : ℕ
  pub active_worker_count : ℕ

abbrev pub work_status_name : WorkStatus → String
work_status_name queued = "QUEUED"
work_status_name running = "RUNNING"
work_status_name succeeded = "SUCCEEDED"
work_status_name dead_letter = "DEAD_LETTER"
work_status_name budget_blocked = "BUDGET_BLOCKED"
work_status_name approval_blocked = "APPROVAL_BLOCKED"
work_status_name policy_blocked = "POLICY_BLOCKED"

-- `WHERE owner_scope=?`, where a scope is given
abbrev pub is_scoped : Option Scope → Scope → Bool
is_scoped none owner = true
is_scoped (some scope) owner = scope_eq owner scope

abbrev pub reads_backups : Option Scope → Bool
reads_backups none = true
reads_backups (some scope) = scope_eq scope iac

abbrev pub is_stopped : Heartbeat → Bool
is_stopped h = h.status == "STOPPED"

-- `last_seen_at < cutoff`, the cutoff `stale_after` seconds before the instant
unfoldable pub mark_stale : ℕ → ℕ → Heartbeat → Worker
mark_stale now stale_after h = record {
  heartbeat = h;
  stale = not (is_stopped h) && ltb (h.last_seen_at + stale_after * second) now;
}

unfoldable pub mark_all : ℕ → ℕ → List Heartbeat → List Worker
mark_all now stale_after [] = []
mark_all now stale_after (h ∷ hs) = mark_stale now stale_after h ∷ mark_all now stale_after hs

abbrev pub is_active_worker : Worker → Bool
is_active_worker w = not (is_stopped w.heartbeat) && not w.stale

abbrev pub workers_before : Heartbeat → Heartbeat → Bool
workers_before g h = text_ltb g.worker_id h.worker_id

unfoldable pub queue_counts : Option Scope → Db → Counts
queue_counts scope d name =
    count_rows (λ w. is_scoped scope w.owner_scope && work_status_name w.status == name)
      d.work_queue

unfoldable pub delivery_counts : Option Scope → Db → Counts
delivery_counts scope d name =
    count_rows (λ x. is_scoped scope x.owner_scope && delivery_status_name x.status == name)
      d.alert_delivery_outbox

unfoldable pub backup_counts : Option Scope → Db → Counts
backup_counts scope d name =
    if reads_backups scope
    then count_rows (λ t. transfer_status_name t.status == name) d.backup_transfer_outbox
    else 0

unfoldable pub restore_counts : Option Scope → Db → Counts
restore_counts scope d name =
    if reads_backups scope
    then count_rows (λ t. restore_status_name t.status == name) d.backup_restore_outbox
    else 0

-- `[b for b in budgets if b is not None]`
abbrev pub add_budget : Option (Budget × ℕ) → List (Budget × ℕ) → List (Budget × ℕ)
add_budget none bs = bs
add_budget (some b) bs = b ∷ bs

unfoldable pub budget_statuses : Store → String → List Scope → List (Budget × ℕ)
budget_statuses s period [] = []
budget_statuses s period (x ∷ xs) =
    add_budget (budget_status s x period) (budget_statuses s period xs)

-- `sorted(self.allowed_scopes)`: IAC, PERSONAL and SHARED, as far as they are allowed
abbrev pub sorted_scopes : List Scope
sorted_scopes = iac ∷ personal ∷ shared ∷ []

abbrev pub budget_scopes : Profile → Option Scope → List Scope
budget_scopes profile none = select (λ x. has_scope x (allowed_scopes profile)) sorted_scopes
budget_scopes profile (some scope) = scope ∷ []

-- The value that `healthy` gets.
unfoldable pub is_healthy :
    Bool → Bool → List Worker → Counts → Counts → Counts → Counts → Bool → ℕ → Bool
is_healthy ok_file killed workers queue deliveries transfers restores require active =
    ok_file
    && not killed
    && not (any (λ w. w.stale) workers)
    && nat_eq (queue "DEAD_LETTER") 0
    && nat_eq (queue "POLICY_BLOCKED") 0
    && nat_eq (deliveries "FAILED") 0
    && nat_eq (transfers "FAILED") 0
    && nat_eq (transfers "RECONCILIATION_REQUIRED") 0
    && nat_eq (restores "FAILED") 0
    && nat_eq (restores "RECONCILIATION_REQUIRED") 0
    && (not require || not (nat_eq active 0))

unfoldable pub attention_count : Counts → Counts → Counts → Counts → ℕ
attention_count queue deliveries transfers restores =
    queue "APPROVAL_BLOCKED"
    + queue "BUDGET_BLOCKED"
    + queue "POLICY_BLOCKED"
    + queue "DEAD_LETTER"
    + deliveries "FAILED"
    + transfers "FAILED"
    + transfers "RECONCILIATION_REQUIRED"
    + restores "FAILED"
    + restores "RECONCILIATION_REQUIRED"

-- The dict that `runtime_health` returns.
unfoldable pub measure_health : Clock → Bool → ℕ → Bool → Option Scope → Store → Health
measure_health c ok_file stale_after require scope s =
    let workers = mark_all c.instant stale_after (
      order_by workers_before
        (select (λ h. is_scoped scope h.owner_scope) s.live.worker_heartbeats)) in
    let active = length (select is_active_worker workers) in
    record {
      healthy =
          is_healthy ok_file s.live.kill_switch workers (queue_counts scope s.live)
            (delivery_counts scope s.live) (backup_counts scope s.live)
            (restore_counts scope s.live) require active;
      kill_switch = s.live.kill_switch;
      integrity_ok = ok_file;
      queue = queue_counts scope s.live;
      workers = workers;
      delivery_outbox = delivery_counts scope s.live;
      backup_transfer_outbox = backup_counts scope s.live;
      backup_restore_outbox = restore_counts scope s.live;
      budgets = budget_statuses s c.month (budget_scopes s.scope_profile scope);
      needs_attention =
          attention_count (queue_counts scope s.live) (delivery_counts scope s.live)
            (backup_counts scope s.live) (restore_counts scope s.live);
      active_worker_count = active;
    }

abbrev pub is_known : Option Scope → Bool
is_known none = true
is_known (some scope) = has_scope scope scopes

abbrev pub is_allowed : Profile → Option Scope → Bool
is_allowed profile none = true
is_allowed profile (some scope) = has_scope scope (allowed_scopes profile)

-- `runtime_health`
unfoldable pub runtime_health : Clock → Bool → ℕ → Bool → Option Scope → Method Health
runtime_health c ok_file stale_after require scope = do
  check (is_known scope) (validation_error "Runtime health scope is invalid")
  bound ← gets (λ s. is_allowed s.scope_profile scope)
  check bound (authorization_error "Scope is outside the database's scope profile")
  gets (measure_health c ok_file stale_after require scope)
