-- ===== src/Deliveries/Approval.antt =====
-- The approval of an alert delivery in sean_os/store.py, its authorization and the record of a
-- synthetic delivery.
use iac_ai_runtime.Prelude.{
  ℕ, ◌+◌, String, Bool, false, none, some, holds_text, List, [], ◌∷◌, not, ◌&&◌, ◌||◌, ◌==◌, nat_eq,
  if◌then◌else◌,
}
use iac_ai_runtime.Text.{has_content}
use iac_ai_runtime.Exec.{
  Result, ok, err, pure, raise, gets, check, when, catch, from_result, ◌>>=◌, ◌>>◌,
  authorization_error, validation_error,
}
use iac_ai_runtime.Json.{Json, bool, str, dict, get_key}
use iac_ai_runtime.Time.{Stamp}
use iac_ai_runtime.Table.{select, update, count_rows, order_by}
use iac_ai_runtime.Db.{
  Scope, scope_eq, scope_name, Actor, allowed, Clock, Method, begin, write, commit,
}
use iac_ai_runtime.Access.{audit, audit_uncommitted, authorize, write_access}
use iac_ai_runtime.Db.{Delivery, DeliveryStatus, Approval}
use iac_ai_runtime.Prelude.{any}
use iac_ai_runtime.Deliveries.{is_staged, is_authorized, is_delivered, get_alert_delivery}
use iac_ai_runtime.Time.{same_stamp}
use iac_ai_runtime.Alerts.{is_false, text_or}
use iac_ai_runtime.Approvals.{Ask, is_pending, request_approval}
use iac_ai_runtime.Approvals.Consume.{Use, consume_approval}
use iac_ai_runtime.Transfers.{same_payload}
use iac_ai_runtime.Transfers.Approval.{ids_before, is_over, expire_all, undo}

abbrev pub deliver_alert : String
deliver_alert = "DELIVER_ALERT"

-- WHERE action_type='DELIVER_ALERT' AND target=? AND scope=? AND status='PENDING'
unfoldable pub is_pending_delivery : String → Scope → Approval → Bool
is_pending_delivery id scope a =
    a.action_type == deliver_alert
    && a.target == id
    && scope_eq a.scope scope
    && is_pending a.status

abbrev pub delivery_ask : Delivery → String → Stamp → Ask
delivery_ask d max_impact expires_at = record {
  action_type = deliver_alert;
  target = d.delivery_id;
  scope = d.owner_scope;
  max_impact = max_impact;
  expires_at = expires_at;
  conditions =
      dict (("delivery_id", str d.delivery_id) ∷ ("payload_sha256", str d.payload_sha256) ∷ []);
}

unfoldable pub answer_pending :
    Clock → Actor → String → Delivery → String → Stamp → List Approval → Method String
answer_pending c actor id d max_impact expires_at [] =
    request_approval c actor id (delivery_ask d max_impact expires_at)
answer_pending c actor id d max_impact expires_at (a ∷ []) =
    if a.max_impact == max_impact && same_stamp a.expires_at expires_at
    then pure a.record_id
    else raise (validation_error "A different alert delivery approval request is already pending")
answer_pending c actor id d max_impact expires_at (a ∷ b ∷ more) =
    raise (validation_error "A different alert delivery approval request is already pending")

-- `request_alert_delivery_approval`; `id` is the `uuid4` of a new request.
unfoldable pub request_alert_delivery_approval :
    Clock → Actor → String → String → String → Stamp → Method String
request_alert_delivery_approval c actor id delivery max_impact expires_at = do
  d ← get_alert_delivery actor delivery
  authorize actor d.owner_scope [] write_access
  check (is_staged d.status) (validation_error "Only staged deliveries may request approval")
  check (has_content max_impact)
      (validation_error "Alert delivery approval requires a bounded impact")
  pendings ← gets (λ s.
      order_by ids_before (select (is_pending_delivery delivery d.owner_scope) s.live.approvals))
  write (expire_all c.instant pendings)
  when (any (is_over c.instant) pendings) commit
  answer_pending c actor id d max_impact expires_at
      (select (λ a. not (is_over c.instant a)) pendings)

abbrev pub delivery_use : Delivery → Use
delivery_use d = record {
  action_type = deliver_alert;
  target = d.delivery_id;
  at = none;
  scope = some d.owner_scope;
  conditions = none;
}

-- WHERE delivery_id=? AND status='STAGED'
unfoldable pub is_awaiting : String → Delivery → Bool
is_awaiting id d = d.delivery_id == id && is_staged d.status

unfoldable pub set_authorized : Clock → String → Delivery → Delivery
set_authorized c approval d = record d {
  status = DeliveryStatus.authorized;
  approval_id = some approval;
  updated_at = c.instant;
}

-- The transaction of `authorize_alert_delivery`
unfoldable pub use_delivery : Clock → Actor → String → String → Delivery → Method (Unit {0})
use_delivery c actor id approval d = do
  begin
  consume_approval c actor approval (delivery_use d) false
  found ← gets (λ s. count_rows (is_awaiting id) s.live.alert_delivery_outbox)
  check (nat_eq found 1) (validation_error "Alert delivery authorization raced with another update")
  write (λ b. record b {
    alert_delivery_outbox =
        update (is_awaiting id) (set_authorized c approval) b.alert_delivery_outbox;
  })
  audit_uncommitted c actor "AUTHORIZE_ALERT_DELIVERY" allowed "Exact delivery approval consumed"
      (some id)
      (dict (("approval_id", str approval) ∷ ("scope", str (scope_name d.owner_scope)) ∷ []))
  commit

unfoldable pub authorize_row : Clock → Actor → String → String → Delivery → Method Delivery
authorize_row c actor id approval d =
    if not (is_staged d.status)
    then (if is_authorized d.status && holds_text d.approval_id approval
        then pure d
        else raise (validation_error "Alert delivery is not awaiting approval"))
    else do catch (use_delivery c actor id approval d) undo; get_alert_delivery actor id

-- `authorize_alert_delivery`
unfoldable pub authorize_alert_delivery : Clock → Actor → String → String → Method Delivery
authorize_alert_delivery c actor id approval = do
  check actor.is_sean (authorization_error "Only Sean may authorize alert delivery")
  d ← get_alert_delivery actor id
  authorize_row c actor id approval d

-- What a receipt must say of a delivery.
unfoldable pub check_receipt : Json → Delivery → Result (Unit {0})
unfolding get_key
check_receipt receipt d =
    if not (text_or (get_key "mode" receipt) == "SYNTHETIC")
      || not (is_false (get_key "network_used" receipt))
    then err (validation_error "Only no-network synthetic delivery receipts are accepted")
    else if not (is_false (get_key "external_effect" receipt))
    then err (validation_error "Synthetic delivery receipt must prove no external effect")
    else if not (text_or (get_key "delivery_id" receipt) == d.delivery_id)
        || not (text_or (get_key "payload_sha256" receipt) == d.payload_sha256)
    then err (validation_error "Synthetic delivery receipt does not match staged payload")
    else ok tt

-- A receipt for a row that is delivered already.
unfoldable pub same_receipt : Json → Delivery → Method Delivery
same_receipt receipt d =
    if same_payload d.receipt_payload receipt
    then pure d
    else raise (validation_error "Alert delivery already has different receipt evidence")

-- WHERE delivery_id=? AND status='AUTHORIZED'
unfoldable pub is_authorized_delivery : String → Delivery → Bool
is_authorized_delivery id d = d.delivery_id == id && is_authorized d.status

unfoldable pub set_recorded : Clock → Json → String → Delivery → Delivery
set_recorded c receipt delivered_at d = record d {
  status = DeliveryStatus.synthetic_delivered;
  attempt_count = d.attempt_count + 1;
  receipt_payload = some receipt;
  delivered_at = some delivered_at;
  updated_at = c.instant;
}

module _ (iso_text : ℕ → String) where
  unfoldable pub record_receipt : Clock → Actor → String → Json → Delivery → Method Delivery
  record_receipt c actor id receipt d =
      if is_delivered d.status
      then same_receipt receipt d
      else if not (is_authorized d.status)
      then raise (authorization_error "Alert delivery lacks exact approval")
      else do
        write (λ b. record b {
          alert_delivery_outbox =
              update (is_authorized_delivery id) (set_recorded c receipt (iso_text c.instant))
                b.alert_delivery_outbox;
        })
        commit
        audit c actor "SYNTHETIC_DELIVER_ALERT" allowed "No-network synthetic adapter completed"
            (some id)
            (dict (("network_used", bool false) ∷ ("scope", str (scope_name d.owner_scope)) ∷ []))
        get_alert_delivery actor id

  -- `record_synthetic_alert_delivery`; `iso_text` is `isoformat`.
  unfoldable pub record_synthetic_alert_delivery : Clock → Actor → String → Json → Method Delivery
  record_synthetic_alert_delivery c actor id receipt = do
    d ← get_alert_delivery actor id
    authorize actor d.owner_scope [] write_access
    from_result (check_receipt receipt d)
    record_receipt c actor id receipt d
