-- ===== src/Deliveries/Listing.antt =====
-- Listing, diagnosing and resetting alert deliveries in sean_os/store.py.
use iac_ai_runtime.Prelude.{
  ℕ, String, Bool, true, false, Option, none, some, holds_text, List, [], ◌∷◌, not, ◌&&◌, ◌||◌,
  ◌==◌, is_some, has_text, length, ltb, nat_eq, if◌then◌else◌,
}
use iac_ai_runtime.Text.{has_content, text_ltb}
use iac_ai_runtime.Exec.{
  pure, raise, gets, check, ◌>>=◌, ◌>>◌, authorization_error, validation_error,
}
use iac_ai_runtime.Json.{bool, num, str, obj, dict}
use iac_ai_runtime.Table.{select, first, update, count_rows, order_by}
use iac_ai_runtime.Security.{has_secret}
use iac_ai_runtime.Db.{
  Scope, personal, iac, scope_eq, has_scope, scope_name, Actor, allowed, Clock, Method, write,
  commit,
}
use iac_ai_runtime.Access.{audit, authorize, write_access, read_access}
use iac_ai_runtime.Db.{Delivery, DeliveryStatus}
use iac_ai_runtime.Prelude.{min}
use iac_ai_runtime.Deliveries.{
  is_delivery, is_staged, is_authorized, is_delivered, is_failed, delivery_status_name,
  get_alert_delivery, LeaseState, lease_state, lease_expired, lease_active,
}

unfoldable pub get_all : Actor → List Delivery → Method (List Delivery)
get_all actor [] = pure []
get_all actor (d ∷ ds) = do
  seen ← get_alert_delivery actor d.delivery_id
  rest ← get_all actor ds
  pure (seen ∷ rest)

abbrev pub statuses : List String
statuses = "STAGED" ∷ "AUTHORIZED" ∷ "SYNTHETIC_DELIVERED" ∷ "FAILED" ∷ []

abbrev pub is_status : Option String → Bool
is_status none = true
is_status (some name) = has_text name statuses

abbrev pub is_listed : Scope → Option String → Delivery → Bool
is_listed scope none d = scope_eq d.owner_scope scope
is_listed scope (some name) d =
    scope_eq d.owner_scope scope && delivery_status_name d.status == name

-- ORDER BY created_at DESC, delivery_id
unfoldable pub newest_before : Delivery → Delivery → Bool
newest_before d e =
    ltb e.created_at d.created_at
    || nat_eq e.created_at d.created_at && text_ltb d.delivery_id e.delivery_id

-- `list_alert_deliveries`
unfoldable pub list_alert_deliveries : Actor → Scope → Option String → Method (List Delivery)
list_alert_deliveries actor scope status = do
  check (has_scope scope (personal ∷ iac ∷ []))
      (validation_error "Alert deliveries require PERSONAL or IAC scope")
  authorize actor scope [] read_access
  check (is_status status) (validation_error "Unknown alert delivery status")
  rows ←
      gets
        (λ s. order_by newest_before (select (is_listed scope status) s.live.alert_delivery_outbox))
  get_all actor rows

abbrev pub is_expired : LeaseState → Bool
is_expired lease_expired = true
is_expired _ = false

abbrev pub is_leased : LeaseState → Bool
is_leased lease_active = true
is_leased _ = false

-- The result of `alert_delivery_diagnostics`; `attention` is the rows themselves.
pub record Diagnostics : Type 0 where
  pub scope : Scope
  pub staged_count : ℕ
  pub authorized_count : ℕ
  pub delivered_count : ℕ
  pub failed_count : ℕ
  pub active_leases : ℕ
  pub expired_leases : ℕ
  pub oldest_authorized : Option ℕ
  pub attention : List Delivery

abbrev pub needs_attention : ℕ → Delivery → Bool
unfolding lease_state
needs_attention now d = is_failed d.status || is_expired (lease_state now d)

abbrev pub earlier : Option ℕ → ℕ → Option ℕ
earlier none t = some t
earlier (some u) t = some (min u t)

unfoldable pub oldest : List Delivery → Option ℕ
oldest [] = none
oldest (d ∷ ds) =
    let rest = oldest ds in if is_authorized d.status then earlier rest d.created_at else rest

unfoldable pub diagnose : ℕ → Scope → List Delivery → Diagnostics
unfolding count_rows select oldest lease_state
diagnose now scope ds = record {
  scope = scope;
  staged_count = count_rows (λ d. is_staged d.status) ds;
  authorized_count = count_rows (λ d. is_authorized d.status) ds;
  delivered_count = count_rows (λ d. is_delivered d.status) ds;
  failed_count = count_rows (λ d. is_failed d.status) ds;
  active_leases = count_rows (λ d. is_leased (lease_state now d)) ds;
  expired_leases = count_rows (λ d. is_expired (lease_state now d)) ds;
  oldest_authorized = oldest ds;
  attention = select (needs_attention now) ds;
}

-- `alert_delivery_diagnostics`
unfoldable pub alert_delivery_diagnostics : Clock → Actor → Scope → Method Diagnostics
alert_delivery_diagnostics c actor scope = do
  ds ← list_alert_deliveries actor scope none
  audit c actor "READ_ALERT_DELIVERY_DIAGNOSTICS" allowed "Scope-safe delivery diagnostics returned"
      none
      (dict (
        ("attention_count", num (length (select (needs_attention c.instant) ds)))
        ∷ ("scope", str (scope_name scope))
        ∷ []))
  pure (diagnose c.instant scope ds)

abbrev pub reset_message : String
reset_message = "Recovery reset; fresh approval required"

-- A row that a reset has left.
unfoldable pub is_reset : Delivery → Bool
is_reset d =
    is_staged d.status
    && not (is_some d.approval_id)
    && nat_eq d.attempt_count 0
    && holds_text d.last_error reset_message

-- WHERE delivery_id=? AND status='FAILED'
unfoldable pub is_failed_delivery : String → Delivery → Bool
is_failed_delivery id d = d.delivery_id == id && is_failed d.status

unfoldable pub reset_row : ℕ → Delivery → Delivery
reset_row stamp d = record d {
  status = DeliveryStatus.staged;
  approval_id = none;
  attempt_count = 0;
  available_at = stamp;
  lease_owner = none;
  lease_expires_at = none;
  last_error = some reset_message;
  receipt_payload = none;
  delivered_at = none;
  updated_at = stamp;
}

unfoldable pub write_reset : Clock → Actor → String → String → Delivery → Method Delivery
write_reset c actor id reason d = do
  check (is_failed d.status) (validation_error "Only failed alert delivery may be reset")
  write (λ b. record b {
    alert_delivery_outbox =
        update (is_failed_delivery id) (reset_row c.instant) b.alert_delivery_outbox;
  })
  commit
  audit c actor "RESET_ALERT_DELIVERY" allowed reason (some id) (
      dict (
        ("fresh_approval_required", bool true)
        ∷ ("manual_execution_authorized", bool false)
        ∷ ("next_status", str "STAGED")
        ∷ ("scope", str (scope_name d.owner_scope))
        ∷ []))
  get_alert_delivery actor id

unfoldable pub reset_found : Clock → Actor → String → String → Option Delivery → Method Delivery
reset_found c actor id reason none = raise (validation_error "Alert delivery not found")
reset_found c actor id reason (some d) = do
  authorize actor d.owner_scope [] write_access
  if is_reset d then get_alert_delivery actor id else write_reset c actor id reason d

-- `reset_failed_alert_delivery`
unfoldable pub reset_failed_alert_delivery : Clock → Actor → String → String → Method Delivery
reset_failed_alert_delivery c actor id reason = do
  check actor.is_sean (authorization_error "Only Sean may reset failed alert delivery")
  check (has_content reason) (validation_error "Alert delivery reset requires a reason")
  found ← gets (λ s. has_secret s.patterns (obj (dict (("reason", str reason) ∷ []))))
  check (not found) (validation_error "Secret-like material is prohibited in recovery evidence")
  row ← gets (λ s. first (is_delivery id) s.live.alert_delivery_outbox)
  reset_found c actor id reason row
