-- ===== src/Transfers/Authorized.antt =====
-- What `authorize_backup_transfer` of sean_os/store.py has used where it returns.
use iac_ai_runtime.Prelude.{
  refl, none, some, [], String, true, false, ◌≡◌, ◌⊎◌, inl, inr, sym, ap, subst, ◌∙◌, Option,
  Bool-cases, ◌&&◌, holds_text,
}
use iac_ai_runtime.Exec.{raise, pure, ok, Error, ◌>>=◌, check, from_result, catch, gets}
use iac_ai_runtime.Exec.Laws.{bind_ok, pair_left, pair_right, of_ok, check_ok, check_same, catch_ok}
use iac_ai_runtime.Table.{first}
use iac_ai_runtime.Json.{Fields}
use iac_ai_runtime.Db.{begin, Db, rollback, Store, Clock, Actor, Transfer, Approval}
use iac_ai_runtime.Access.{authorize, read_access}
use iac_ai_runtime.Approvals.{is_approval}
use iac_ai_runtime.Approvals.Consume.{consume_approval}
use iac_ai_runtime.Approvals.Once.{IsUsable, consume_approval_lem}
use iac_ai_runtime.Transfers.{
  is_plan, is_authorized, is_validated, get_backup_transfer, open_transfer,
}
use iac_ai_runtime.Transfers.Approval.{
  approval_conditions, drill_use, use_drill, undo, authorize_row, authorize_backup_transfer,
}

opens :
    (actor : Actor) (row : Option Transfer) (s : Store) {v : Transfer} {t : Store}
    → open_transfer actor row s ≡ (ok v, t)
    → (row ≡ some v) × (s ≡ t)
unfolding open_transfer authorize from_result pure raise
opens actor none s e = absurd (cc (pair_left e))
opens actor (some w) s e =
    let (_, _, e₁) = bind_ok (authorize actor w.owner_scope [] read_access) _ s e in
    (ap some (of_ok (pair_left e₁)), pair_right e₁)

gets_transfer :
    (actor : Actor) (plan : String) (s : Store) {v : Transfer} {t : Store}
    → get_backup_transfer actor plan s ≡ (ok v, t)
    → (first (is_plan plan) s.live.backup_transfer_outbox ≡ some v) × (s ≡ t)
unfolding get_backup_transfer gets
gets_transfer actor plan s e =
    let (row, read, e₁) =
      bind_ok (gets (λ s. first (is_plan plan) s.live.backup_transfer_outbox)) _ s e in
    let (is_v, same) = opens actor row s e₁ in (of_ok (pair_left read) ∙ is_v, same)

begin_lem :
    (s : Store) → ((begin s).1.live ≡ s.live) × ((begin s).1.scope_profile ≡ s.scope_profile)
unfolding begin
begin_lem s = elim (Bool-cases s.is_open) [
  | inl opened ↦ rw opened (refl, refl)
  | inr closed ↦ rw closed (refl, refl)
]

undo_raises : (e : Error) (s : Store) → (undo e s).0 ≡ ok tt → ⊥
unfolding undo rollback raise ◌>>=◌
undo_raises e s h = cc h

module _ (c : Clock) (actor : Actor) (id : String) where
  -- The approval that the authorization of `v` uses.
  pub record IsExact (s : Store) (v : Transfer) : Type 0 where
    pub validated : is_validated v.status ≡ true
    pub conditions : Fields
    pub exact : approval_conditions v ≡ ok conditions
    pub row : Approval
    pub found : first (is_approval id) s.live.approvals ≡ some row
    pub usable : IsUsable s.scope_profile actor c.instant (drill_use v conditions) row

  drills :
      (plan : String) (v : Transfer) (fs : Fields) (s : Store) {x : Unit {0}} {t : Store}
      → use_drill c actor plan id v fs s ≡ (ok x, t)
      → (a : Approval) × (first (is_approval id) s.live.approvals ≡ some a)
        × IsUsable s.scope_profile actor c.instant (drill_use v fs) a
  unfolding use_drill
  drills plan v fs s e =
      let (_, _, e₁) = bind_ok begin _ s e in
      let (_, used, _) = bind_ok (consume_approval c actor id (drill_use v fs) false) _ _ e₁ in
      let permit = consume_approval_lem c actor id (drill_use v fs) false (begin s).1 used in
      let (live, profile) = begin_lem s in
      (
        permit.row,
        subst (λ (d : Db). first (is_approval id) d.approvals ≡ some permit.row) live permit.found,
        subst (λ p. IsUsable p actor c.instant (drill_use v fs) permit.row) profile permit.usable,
      )

  authorizes_row :
      (plan : String) (v : Transfer) (s : Store) {t : Transfer} {u : Store}
      → authorize_row c actor plan id v s ≡ (ok t, u)
      → (is_authorized v.status && holds_text v.approval_id id ≡ true) ⊎ IsExact s v
  unfolding authorize_row from_result
  authorizes_row plan v s e =
      elim (Bool-cases (is_authorized v.status && holds_text v.approval_id id)) [
        | inl already ↦ inl already
        | inr anew ↦
            let (_, held, e₁) = bind_ok (check (is_validated v.status) _) _ s (rw anew at e) in
            let (fs, exact, e₂) = bind_ok (from_result (approval_conditions v)) _ _ e₁ in
            let (_, caught, _) = bind_ok (catch (use_drill c actor plan id v fs) undo) _ _ e₂ in
            let (answer, same) =
              catch_ok (use_drill c actor plan id v fs) undo _ (λ x z h. undo_raises x z h)
                caught in
            let (a, found, usable) = drills plan v fs _ (λ i. (answer i, same i)) in
            inr (
              subst (λ z. IsExact z v) (check_same (is_validated v.status) _ s)
                (record {
                  validated = check_ok (is_validated v.status) _ s held;
                  conditions = fs;
                  exact = pair_left exact;
                  row = a;
                  found = found;
                  usable = usable;
                }))
      ]

  -- A backup transfer is authorized by Sean with an approval of exactly its plan: an authorization
  -- that returns was asked for by Sean and found the row of the plan, which either carried this
  -- approval already and was authorized, or was validated; then the approval of this id was approved
  -- for the drill of its target in the scope IAC, under the conditions that the plan fixes, and was
  -- not over in the order of the texts of the times.
  pub authorize_backup_transfer_lem :
      (plan : String) (s : Store) {t : Transfer} {u : Store}
      → authorize_backup_transfer c actor plan id s ≡ (ok t, u)
      → (actor.is_sean ≡ true)
        × ((v : Transfer) × (first (is_plan plan) s.live.backup_transfer_outbox ≡ some v)
            × ((is_authorized v.status && holds_text v.approval_id id ≡ true) ⊎ IsExact s v))
  unfolding authorize_backup_transfer
  authorize_backup_transfer_lem plan s e =
      let (_, sean, e₁) = bind_ok (check actor.is_sean _) _ s e in
      let (v, got, e₂) = bind_ok (get_backup_transfer actor plan) _ _ e₁ in
      let (found, same) = gets_transfer actor plan _ got in
      let start = check_same actor.is_sean _ s in
      (
        check_ok actor.is_sean _ s sean,
        (
          v,
          subst (λ (z : Store). first (is_plan plan) z.live.backup_transfer_outbox ≡ some v) start
              found,
          subst (λ z. (is_authorized v.status && holds_text v.approval_id id ≡ true) ⊎ IsExact z v)
              (sym same ∙ start) (authorizes_row plan v _ e₂),
        ),
      )
