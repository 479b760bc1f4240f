-- ===== src/Restores/Guard.antt =====
-- What the guard before an isolated restore in sean_os/store.py has checked where it returns.
use iac_ai_runtime.Access.{
  audit_uncommitted, audit, read_access, write_access, kill_switch_enabled, authorize, deny,
}
use iac_ai_runtime.Prelude.{
  none, some, [], String, Bool, true, false, ◌≡◌, inl, inr, refl, ap, subst, ◌∙◌, arith, Option,
  is_some, Bool-cases, Option-cases, eq_iff, ◌==◌, or_else, holds_text,
}
use iac_ai_runtime.Exec.{raise, pure, Result, ok, err, ◌>>=◌, from_result, gets}
use iac_ai_runtime.Exec.Laws.{bind_ok, pair_left, of_ok}
use iac_ai_runtime.Table.{first}
use iac_ai_runtime.Time.{Stamp, Iso}
use iac_ai_runtime.Db.{commit, write, iac, Store, Clock, Actor, Restore, RestoreStatus}
use iac_ai_runtime.Restores.{Evidence, is_plan, is_authorized, get_backup_restore, open_restore}
use iac_ai_runtime.Restores.Approval.{in_window, given_time}
use iac_ai_runtime.Restores.Lease.{window_of}
use iac_ai_runtime.Restores.Execution.{
  lease_ended, guard_refusal, window_refusal, full_refusal, guard_answer,
  assert_backup_restore_execution_allowed,
}

authorized_eq : (s : RestoreStatus) → is_authorized s ≡ true → s ≡ RestoreStatus.authorized
authorized_eq RestoreStatus.authorized e = refl
authorized_eq RestoreStatus.staged e = absurd (cc e)
authorized_eq RestoreStatus.preflight_validated e = absurd (cc e)
authorized_eq RestoreStatus.restored e = absurd (cc e)
authorized_eq RestoreStatus.failed e = absurd (cc e)
authorized_eq RestoreStatus.reconciliation_required e = absurd (cc e)

holds_eq : (o : Option String) (t : String) → holds_text o t ≡ true → o ≡ some t
holds_eq none t e = absurd (cc e)
holds_eq (some u) t e = ap some ((eq_iff u t).0 e)

has_approval : (o : Option String) → (or_else o "" == "") ≡ false → is_some o ≡ true
has_approval none e = absurd (cc e)
has_approval (some a) e = refl

module _ (evidence : Evidence) where
  -- All that must hold for a worker to restore at `instant`.
  pub record MayRestore (plan worker : String) (instant : Stamp) (s : Store) (t : Restore)
      : Type 0 where
    pub alive : s.live.kill_switch ≡ false
    pub row : first (is_plan plan) s.live.backup_restore_outbox ≡ some t
    pub authorized : t.status ≡ RestoreStatus.authorized
    pub approved : is_some t.approval_id ≡ true
    pub held : t.lease_owner ≡ some worker
    pub runs : lease_ended t.lease_expires_at instant ≡ false
    pub window :
        (w : Stamp × Stamp) × (window_of evidence (evidence.verify_plan t.plan_payload) ≡ ok w)
        × (in_window w.0 instant w.1 ≡ true)

  window_open :
      (at : Stamp) (r : Result (Stamp × Stamp))
      → window_refusal at r ≡ ok none
      → (w : Stamp × Stamp) × (r ≡ ok w) × (in_window w.0 at w.1 ≡ true)
  unfolding in_window
  window_open at (err e) h = absurd (cc h)
  window_open at (ok (start, stop)) h = elim (Bool-cases (in_window start at stop)) [
    | inl inside ↦ ((start, stop), refl, inside)
    | inr outside ↦ absurd (cc (rw outside at h))
  ]

  refuses_not :
      (worker : String) (at : Stamp) (t : Restore)
      → guard_refusal false worker at (some t) ≡ none
      → (is_authorized t.status ≡ true)
        × ((or_else t.approval_id "" == "") ≡ false)
        × (holds_text t.lease_owner worker ≡ true)
        × (lease_ended t.lease_expires_at at ≡ false)
  unfolding guard_refusal
  refuses_not worker at t h = ground (arith, h)

  passes :
      (killed : Bool) (plan worker : String) (at : Stamp) (row : Option Restore) (s : Store)
      → s.live.kill_switch ≡ killed
      → first (is_plan plan) s.live.backup_restore_outbox ≡ row
      → full_refusal evidence at (guard_refusal killed worker at row) row ≡ ok none
      → (t : Restore) × (row ≡ some t) × MayRestore plan worker at s t
  unfolding full_refusal guard_refusal
  passes true plan worker at row s k f h = absurd (cc h)
  passes false plan worker at none s k f h = absurd (cc h)
  passes false plan worker at (some t) s k f h =
      elim (Option-cases (guard_refusal false worker at (some t))) [
        | inr (why, e) ↦ absurd (cc (rw e at h))
        | inl e ↦
            let (active, has_id, owned, unexpired) = refuses_not worker at t e in
            (
              t,
              refl,
              record {
                alive = k;
                row = f;
                authorized = authorized_eq t.status active;
                approved = has_approval t.approval_id has_id;
                held = holds_eq t.lease_owner worker owned;
                runs = unexpired;
                window = window_open at _ (rw e at h);
              },
            )
      ]

  answers :
      (c : Clock) (actor : Actor) (plan worker : String) (why : Option String) (s : Store)
      {t : Restore} {u : Store}
      → guard_answer c actor plan worker why s ≡ (ok t, u)
      → (why ≡ none) × (get_backup_restore actor plan s ≡ (ok t, u))
  unfolding guard_answer deny audit audit_uncommitted write commit raise ◌>>=◌
  answers c actor plan worker none s e = (refl, e)
  answers c actor plan worker (some why) s e = absurd (cc (pair_left e))

  opens :
      (actor : Actor) (v : Restore) (s : Store) {t : Restore} {u : Store}
      → open_restore actor (some v) s ≡ (ok t, u)
      → v ≡ t
  unfolding open_restore pure
  opens actor v s e =
      let (_, _, e₁) = bind_ok (authorize actor v.owner_scope [] read_access) _ s e in
      of_ok (pair_left e₁)

  gets_row :
      (actor : Actor) (plan : String) (s : Store) {t v : Restore} {u : Store}
      → first (is_plan plan) s.live.backup_restore_outbox ≡ some v
      → get_backup_restore actor plan s ≡ (ok t, u)
      → v ≡ t
  unfolding get_backup_restore gets ◌>>=◌
  gets_row actor plan s {v = v} found e = opens actor v s (rw found at e)

  -- A guard that lets a restore through has found, at the time that it was given, that the kill
  -- switch is off, the row of the plan authorized with an approval, its lease held by the worker and
  -- not over, and the time inside the window of the plan, which it has verified again.
  pub assert_backup_restore_execution_allowed_lem :
      (c : Clock) (actor : Actor) (plan worker : String) (at : Option Iso) (s : Store) {t : Restore}
      {u : Store}
      → assert_backup_restore_execution_allowed evidence c actor plan worker at s ≡ (ok t, u)
      → (instant : Stamp) × (given_time "Backup restore guard time must be ISO-8601"
            "Backup restore guard time must include a timezone" c.instant at
          ≡ ok instant)
        × MayRestore plan worker instant s t
  unfolding assert_backup_restore_execution_allowed authorize from_result gets kill_switch_enabled
  assert_backup_restore_execution_allowed_lem c actor plan worker at s {t} e =
      let (_, _, e₁) = bind_ok (authorize actor iac [] write_access) _ s e in
      let (instant, given, e₂) =
        bind_ok
          (from_result (
            given_time "Backup restore guard time must be ISO-8601"
              "Backup restore guard time must include a timezone" c.instant at))
          _ s e₁ in
      let (row, read, e₃) =
        bind_ok (gets (λ s. first (is_plan plan) s.live.backup_restore_outbox)) _ s e₂ in
      let (killed, seen, e₄) = bind_ok kill_switch_enabled _ s e₃ in
      let (why, refused, e₅) =
        bind_ok
          (from_result
            (full_refusal evidence instant (guard_refusal killed worker instant row) row))
          _ s e₄ in
      let (clear, e₆) = answers c actor plan worker why s e₅ in
      let (v, is_v, may) =
        passes killed plan worker instant row s (of_ok (pair_left seen)) (of_ok (pair_left read))
          (pair_left refused ∙ ap ok clear) in
      let same = gets_row actor plan s (of_ok (pair_left read) ∙ is_v) e₆ in
      (instant, pair_left given, subst (MayRestore plan worker instant s) same may)
