-- ===== src/Monitoring/Plans/Laws.antt =====
-- What the plans and receipts of the monitor promise to the store.
use iac_ai_runtime.Prelude.{
  String, true, false, ◌≡◌, refl, subst, List, [], ◌∷◌, eq_refl, Bool-cases, inl, inr, has_text,
}
use iac_ai_runtime.Exec.{Result, ok, err}
use iac_ai_runtime.Exec.Laws.{of_ok}
use iac_ai_runtime.Json.{Json, get_key, get_field}
use iac_ai_runtime.Time.{Stamp, Iso}
use iac_ai_runtime.Db.{Delivery}
use iac_ai_runtime.Deliveries.{is_authorized}
use iac_ai_runtime.Deliveries.Approval.{check_receipt}
use iac_ai_runtime.Monitoring.Plans.{
  plan_id_of, keep_new, deduplicate_seen, deduplicate_alert_plans, cons_ok, receipt_fields,
  receipt_at, synthetic_delivery_receipt,
}

-- The plans have ids that are different and were not seen.
abbrev pub AreNew : List String → List Json → Type 0
AreNew seen [] = Unit
AreNew seen (plan ∷ plans) =
    (id : String) × (plan_id_of (get_key "plan_id" plan) ≡ ok id)
    × (has_text id seen ≡ false)
    × AreNew (id ∷ seen) plans

cons_ok_inv :
    {A : Type 0} (a : A) (r : Result (List A)) {bs : List A}
    → cons_ok a r ≡ ok bs
    → (rest : List A) × (r ≡ ok rest) × (a ∷ rest ≡ bs)
cons_ok_inv a (ok rest) e = (rest, refl, of_ok e)
cons_ok_inv a (err x) e = absurd (cc e)

keep_new-AreNew :
    (seen : List String) (plan : Json) (plans : List Json) (r : Result String) {kept : List Json}
    → plan_id_of (get_key "plan_id" plan) ≡ r
    → keep_new seen plan r (λ ids. deduplicate_seen ids plans) ≡ ok kept
    → ((ids : List String) (rest : List Json)
        → deduplicate_seen ids plans ≡ ok rest
        → AreNew ids rest)
    → AreNew seen kept
unfolding keep_new
keep_new-AreNew seen plan plans (err x) same e later = absurd (cc e)
keep_new-AreNew seen plan plans (ok id) {kept} same e later = elim (Bool-cases (has_text id seen)) [
  | inl again ↦ later seen kept (rw again at e)
  | inr fresh ↦
      let (rest, r, is_kept) =
        cons_ok_inv plan (deduplicate_seen (id ∷ seen) plans) (rw fresh at e) in
      subst (AreNew seen) is_kept (id, same, fresh, later (id ∷ seen) rest r)
]

deduplicate_seen-AreNew :
    (seen : List String) (plans kept : List Json)
    → deduplicate_seen seen plans ≡ ok kept
    → AreNew seen kept
unfolding deduplicate_seen
deduplicate_seen-AreNew seen [] kept e = subst (AreNew seen) (of_ok e) tt
deduplicate_seen-AreNew seen (plan ∷ plans) kept e =
    keep_new-AreNew seen plan plans (plan_id_of (get_key "plan_id" plan)) refl e
      (λ ids rest h. deduplicate_seen-AreNew ids plans rest h)

AreNew-deduplicate_seen :
    (seen : List String) (plans : List Json)
    → AreNew seen plans
    → deduplicate_seen seen plans ≡ ok plans
unfolding deduplicate_seen keep_new
AreNew-deduplicate_seen seen [] h = refl
AreNew-deduplicate_seen seen (plan ∷ plans) (id, is_id, fresh, rest) =
    rw (is_id, fresh, AreNew-deduplicate_seen (id ∷ seen) plans rest) refl

-- No evidence is planned twice: the plans that the deduplication returns have ids that are different
-- and were not seen before, and deduplicating them again changes nothing.
pub deduplicate_alert_plans-AreNew :
    (plans : List Json) (seen : List String) {kept : List Json}
    → deduplicate_alert_plans plans seen ≡ ok kept
    → AreNew seen kept × (deduplicate_alert_plans kept seen ≡ ok kept)
unfolding deduplicate_alert_plans
deduplicate_alert_plans-AreNew plans seen {kept} e =
    let are_new = deduplicate_seen-AreNew seen plans kept e in
    (are_new, AreNew-deduplicate_seen seen kept are_new)

receipt_at-checked :
    (digest : Json → String) (iso_text : Stamp → String) (d : Delivery) (r : Result Stamp)
    {receipt : Json}
    → receipt_at digest iso_text d r ≡ ok receipt
    → (check_receipt receipt d ≡ ok tt) × (is_authorized d.status ≡ true)
unfolding receipt_at receipt_fields check_receipt get_key get_field
receipt_at-checked digest iso_text d (err e) h = absurd (cc h)
receipt_at-checked digest iso_text d (ok t) h = elim (Bool-cases (is_authorized d.status)) [
  | inl active ↦
      subst (λ r. (check_receipt r d ≡ ok tt) × (is_authorized d.status ≡ true))
        (of_ok (rw active at h)) (rw (eq_refl d.delivery_id, eq_refl d.payload_sha256) refl, active)
  | inr other ↦ absurd (cc (rw other at h))
]

-- The synthetic adapter and the outbox agree: a receipt that the adapter makes for a delivery says
-- what the outbox requires of a receipt for that delivery, and the delivery was authorized.
pub synthetic_delivery_receipt-checked :
    (digest : Json → String) (iso_text : Stamp → String) (d : Delivery) (at : Iso) {receipt : Json}
    → synthetic_delivery_receipt digest iso_text d at ≡ ok receipt
    → (check_receipt receipt d ≡ ok tt) × (is_authorized d.status ≡ true)
unfolding synthetic_delivery_receipt
synthetic_delivery_receipt-checked digest iso_text d at e = receipt_at-checked digest iso_text d _ e
