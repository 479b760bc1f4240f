-- ===== src/Deliveries/Reset.antt =====
-- A delivery of an alert that failed starts again from nothing: `reset_failed_alert_delivery` of
-- sean_os/store.py.
use iac_ai_runtime.Prelude.{
  none, some, [], ◌∷◌, ℕ, String, true, ◌≡◌, inl, inr, refl, sym, ap, subst, ◌∙◌, Option,
  Bool-cases, List, ◌==◌, of_some,
}
use iac_ai_runtime.Exec.{ok, ◌>>=◌, check, gets, pure, raise, from_result}
use iac_ai_runtime.Exec.Laws.{bind_ok, pair_left, of_ok, check_ok}
use iac_ai_runtime.Table.{first, update}
use iac_ai_runtime.Db.{commit, write, Store, Clock, Actor, Delivery}
use iac_ai_runtime.Access.{audit_uncommitted, audit, authorize, read_access, write_access}
use iac_ai_runtime.Deliveries.{is_delivery, is_failed, get_alert_delivery, open_delivery}
use iac_ai_runtime.Deliveries.Listing.{
  is_reset, is_failed_delivery, reset_row, write_reset, reset_found, reset_failed_alert_delivery,
}

opens :
    (actor : Actor) (row : Option Delivery) (s : Store) {v : Delivery} {t : Store}
    → open_delivery actor row s ≡ (ok v, t)
    → row ≡ some v
unfolding open_delivery authorize from_result pure raise
opens actor none s e = absurd (cc (pair_left e))
opens actor (some w) s e =
    let (_, _, e₁) = bind_ok (authorize actor w.owner_scope [] read_access) _ s e in
    ap some (of_ok (pair_left e₁))

gets_delivery :
    (actor : Actor) (id : String) (s : Store) {v : Delivery} {t : Store}
    → get_alert_delivery actor id s ≡ (ok v, t)
    → first (is_delivery id) s.live.alert_delivery_outbox ≡ some v
unfolding get_alert_delivery gets
gets_delivery actor id s e =
    let (row, read, e₁) =
      bind_ok (gets (λ s. first (is_delivery id) s.live.alert_delivery_outbox)) _ s e in
    of_ok (pair_left read) ∙ opens actor row s e₁

first-reset :
    (id : String) (now : ℕ) (ds : List Delivery) {d : Delivery}
    → first (is_delivery id) ds ≡ some d
    → is_failed d.status ≡ true
    → first (is_delivery id) (update (is_failed_delivery id) (reset_row now) ds)
      ≡ some (reset_row now d)
unfolding first update is_delivery is_failed_delivery reset_row
first-reset id now [] e f = absurd (cc e)
first-reset id now (x ∷ xs) {d} e f = elim (Bool-cases (x.delivery_id == id)) [
  | inr miss ↦ rw miss (rw miss (first-reset id now xs (rw miss at e) f))
  | inl hit ↦
      let is_d = of_some (rw hit at e) in
      let failed = ap (λ (z : Delivery). is_failed z.status) is_d ∙ f in
      rw hit (rw failed (rw hit (ap (λ z. some (reset_row now z)) is_d)))
]

module _ (c : Clock) (actor : Actor) (id reason : String) where
  writes :
      (d : Delivery) (s : Store) {t : Delivery} {u : Store}
      → first (is_delivery id) s.live.alert_delivery_outbox ≡ some d
      → write_reset c actor id reason d s ≡ (ok t, u)
      → reset_row c.instant d ≡ t
  unfolding write_reset write commit audit audit_uncommitted ◌>>=◌
  writes d s found e = elim (Bool-cases (is_failed d.status)) [
    | inr other ↦ absurd (cc (pair_left (rw other at e)))
    | inl failed ↦ of_some (
        sym (first-reset id c.instant s.live.alert_delivery_outbox found failed)
        ∙ gets_delivery actor id _ (rw failed at e))
  ]

  reset_row-is_reset : (now : ℕ) (d : Delivery) → is_reset (reset_row now d) ≡ true
  unfolding is_reset reset_row
  reset_row-is_reset now d = refl

  resets_found :
      (row : Option Delivery) (s : Store) {t : Delivery} {u : Store}
      → first (is_delivery id) s.live.alert_delivery_outbox ≡ row
      → reset_found c actor id reason row s ≡ (ok t, u)
      → is_reset t ≡ true
  unfolding reset_found authorize from_result raise
  resets_found none s found e = absurd (cc (pair_left e))
  resets_found (some d) s found e =
      let (_, _, e₁) = bind_ok (authorize actor d.owner_scope [] write_access) _ s e in
      elim (Bool-cases (is_reset d)) [
        | inl already ↦
            let is_d = of_some (sym found ∙ gets_delivery actor id s (rw already at e₁)) in
            subst (λ (z : Delivery). is_reset z ≡ true) is_d already
        | inr anew ↦
            subst (λ (z : Delivery). is_reset z ≡ true) (writes d s found (rw anew at e₁))
              (reset_row-is_reset c.instant d)
      ]

  -- A reset makes a failed delivery ask for a fresh approval: a reset that returns was made by Sean,
  -- and the delivery that it returns is staged, with no approval, no attempt used and the message of
  -- the reset as its error.
  pub reset_failed_alert_delivery_lem :
      (s : Store) {t : Delivery} {u : Store}
      → reset_failed_alert_delivery c actor id reason s ≡ (ok t, u)
      → (actor.is_sean ≡ true) × (is_reset t ≡ true)
  unfolding reset_failed_alert_delivery gets
  reset_failed_alert_delivery_lem s e =
      let (_, sean, e₁) = bind_ok (check actor.is_sean _) _ s e in
      let (_, _, e₂) = bind_ok (check _ _) _ _ e₁ in
      let (_, _, e₃) = bind_ok (gets _) _ _ e₂ in
      let (_, _, e₄) = bind_ok (check _ _) _ _ e₃ in
      let (row, read, e₅) =
        bind_ok (gets (λ s. first (is_delivery id) s.live.alert_delivery_outbox)) _ _ e₄ in
      (check_ok actor.is_sean _ s sean, resets_found row _ (of_ok (pair_left read)) e₅)
