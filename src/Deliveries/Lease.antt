-- ===== src/Deliveries/Lease.antt =====
-- The leases on alert deliveries in sean_os/store.py: claiming, completing and failing one.
use iac_ai_runtime.Prelude.{
  ℕ, ◌+◌, ◌*◌, String, Bool, true, false, Option, none, some, List, [], ◌∷◌, not, ◌&&◌, ◌||◌, ◌==◌,
  is_some, is_empty, ltb, leb, nat_eq, if◌then◌else◌,
}
use iac_ai_runtime.Text.{has_content, text_ltb}
use iac_ai_runtime.Exec.{pure, gets, check, ◌>>=◌, ◌>>◌, validation_error}
use iac_ai_runtime.Json.{bool, num, str, end, dict}
use iac_ai_runtime.Time.{second}
use iac_ai_runtime.Table.{select, first_by, update, count_rows}
use iac_ai_runtime.Db.{
  Scope, personal, iac, has_scope, scope_name, allowed_scopes, Actor, allowed, failed, Clock,
  Method, begin, write, commit, rollback,
}
use iac_ai_runtime.Access.{audit, decline, kill_switch_enabled}
use iac_ai_runtime.Db.{Delivery, DeliveryStatus, Profile}
use iac_ai_runtime.Deliveries.{is_authorized, get_alert_delivery}
use iac_ai_runtime.Queue.{lease_over}

-- `lease_owner IS NULL OR lease_expires_at<=?`
abbrev pub is_free : ℕ → Delivery → Bool
is_free stamp d = not (is_some d.lease_owner) || lease_over d.lease_expires_at stamp

-- AUTHORIZED, without an attempt left, under no lease that runs, and in one of the scopes
unfoldable pub is_exhausted : ℕ → List Scope → Delivery → Bool
is_exhausted stamp within d =
    is_authorized d.status
    && leb d.max_attempts d.attempt_count
    && is_free stamp d
    && has_scope d.owner_scope within

unfoldable pub is_ready : ℕ → List Scope → Delivery → Bool
is_ready stamp within d =
    is_authorized d.status
    && leb d.available_at stamp
    && ltb d.attempt_count d.max_attempts
    && is_free stamp d
    && has_scope d.owner_scope within

-- ORDER BY created_at, delivery_id
unfoldable pub deliveries_before : Delivery → Delivery → Bool
deliveries_before d e =
    ltb d.created_at e.created_at
    || nat_eq d.created_at e.created_at && text_ltb d.delivery_id e.delivery_id

unfoldable pub close_exhausted : ℕ → Delivery → Delivery
close_exhausted stamp d = record d {
  status = DeliveryStatus.failed;
  last_error = some "Lease expired after maximum attempts";
  updated_at = stamp;
  lease_owner = none;
  lease_expires_at = none;
}

unfoldable pub lease_delivery : Clock → String → ℕ → Delivery → Delivery
lease_delivery c worker seconds d = record d {
  lease_owner = some worker;
  lease_expires_at = some (c.instant + seconds * second);
  attempt_count = d.attempt_count + 1;
  updated_at = c.instant;
}

-- WHERE delivery_id=? AND status='AUTHORIZED' AND (lease_owner IS NULL OR lease_expires_at<=?)
unfoldable pub is_takable : String → ℕ → Delivery → Bool
is_takable id stamp d = d.delivery_id == id && is_authorized d.status && is_free stamp d

-- the loop over `terminal_rows`
unfoldable pub audit_terminal : Clock → Actor → List Delivery → Method (Unit {0})
audit_terminal c actor [] = pure tt
audit_terminal c actor (d ∷ ds) = do
  audit c actor "FAIL_ALERT_DELIVERY" failed "Lease expired after maximum attempts"
      (some d.delivery_id)
      (dict (
        ("network_used", bool false)
        ∷ ("next_status", str "FAILED")
        ∷ ("recovered_from_expired_lease", bool true)
        ∷ ("scope", str (scope_name d.owner_scope))
        ∷ []))
  audit_terminal c actor ds

unfoldable pub report_delivery : Clock → Actor → String → String → Method (Option Delivery)
report_delivery c actor worker id = do
  claimed ← get_alert_delivery actor id
  audit c actor "CLAIM_ALERT_DELIVERY" allowed "Authorized synthetic delivery lease acquired"
      (some id)
      (dict (
        ("attempt", num claimed.attempt_count)
        ∷ ("network_used", bool false)
        ∷ ("scope", str (scope_name claimed.owner_scope))
        ∷ ("worker_id", str worker)
        ∷ []))
  pure (some claimed)

unfoldable pub take_delivery :
    Clock → Actor → String → ℕ → List Delivery → String → Method (Option Delivery)
take_delivery c actor worker seconds terminal id = do
  write (λ b. record b {
    alert_delivery_outbox =
        update (is_takable id c.instant) (lease_delivery c worker seconds) b.alert_delivery_outbox;
  })
  commit
  audit_terminal c actor terminal
  report_delivery c actor worker id

unfoldable pub grant_delivery :
    Clock → Actor → String → ℕ → List Delivery → Option Delivery → Method (Option Delivery)
grant_delivery c actor worker seconds terminal none = do
  commit
  audit_terminal c actor terminal
  pure none
grant_delivery c actor worker seconds terminal (some d) = do
  found ← gets (λ s. count_rows (is_takable d.delivery_id c.instant) s.live.alert_delivery_outbox)
  if nat_eq found 1
      then take_delivery c actor worker seconds terminal d.delivery_id
      else rollback >> pure none

-- `claim_authorized_alert_delivery` from BEGIN IMMEDIATE on
unfoldable pub claim_delivery_open :
    Clock → Actor → String → ℕ → List Scope → Method (Option Delivery)
claim_delivery_open c actor worker seconds within = do
  begin
  terminal ← gets (λ s. select (is_exhausted c.instant within) s.live.alert_delivery_outbox)
  write (λ b. record b {
    alert_delivery_outbox =
        update (is_exhausted c.instant within) (close_exhausted c.instant) b.alert_delivery_outbox;
  })
  row ← gets (λ s.
      first_by deliveries_before (select (is_ready c.instant within) s.live.alert_delivery_outbox))
  grant_delivery c actor worker seconds terminal row

-- `actor.scopes & self.allowed_scopes & {"PERSONAL", "IAC"}`
unfoldable pub delivery_scopes : Profile → List Scope → List Scope
delivery_scopes profile [] = []
delivery_scopes profile (x ∷ xs) =
    let rest = delivery_scopes profile xs in
    if has_scope x (allowed_scopes profile) && has_scope x (personal ∷ iac ∷ [])
    then x ∷ rest
    else rest

unfoldable pub claim_in_scopes : Clock → Actor → String → ℕ → List Scope → Method (Option Delivery)
claim_in_scopes c actor worker seconds within =
    if is_empty within
    then decline c actor "CLAIM_ALERT_DELIVERY" "Worker has no authorized delivery scope" none end
    else claim_delivery_open c actor worker seconds within

-- `claim_authorized_alert_delivery`
unfoldable pub claim_authorized_alert_delivery :
    Clock → Actor → String → ℕ → Method (Option Delivery)
claim_authorized_alert_delivery c actor worker seconds = do
  check (has_content worker) (validation_error "Alert delivery worker ID is required")
  check (leb 1 seconds && leb seconds 300)
      (validation_error "Alert delivery lease must be between 1 and 300 seconds")
  killed ← kill_switch_enabled
  within ← gets (λ s. delivery_scopes s.scope_profile actor.scopes)
  if killed
      then decline c actor "CLAIM_ALERT_DELIVERY" "Kill switch is ON" none end
      else claim_in_scopes c actor worker seconds within
