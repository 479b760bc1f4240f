-- ===== src/Transfers/Preserves/Endings.antt =====
-- Failing, holding and completing a leased backup transfer moves the rows by steps of their
-- lifecycle.
use iac_ai_runtime.Outbox.{HasKeys}
use iac_ai_runtime.Access.{write_access, authorize}
use iac_ai_runtime.Json.{Json}
use iac_ai_runtime.Transfers.Execution.{
  same_receipt, answer_again, complete_claimed_backup_transfer, set_completed, complete_row,
  store_receipt, is_live_lease,
}
use iac_ai_runtime.Time.{second}
use iac_ai_runtime.Outbox.Kept.{only_row, IsKept-update}
use iac_ai_runtime.Table.Laws.{first_holds, All-map}
use iac_ai_runtime.Transfers.Lifecycle.{same_plan, IsFresh, plan_of}
use iac_ai_runtime.Access.Preserves.{
  Preserves-rollback, Preserves-authorize, Preserves-kill_switch_enabled, Preserves-commit, InDb,
}
use iac_ai_runtime.Exec.Preserves.{bind_at, gets_bind, bind_then, preserves_rules, Preserves}
use iac_ai_runtime.Exec.{raise, ◌>>=◌, gets}
use iac_ai_runtime.Table.{first, update}
use iac_ai_runtime.Transfers.{is_plan, Evidence, is_authorized}
use iac_ai_runtime.Transfers.Lease.{
  fail_claimed_backup_transfer, fail_transfer, after_failure, hold_transfer, is_leased_to,
  hold_claimed_backup_transfer_for_reconciliation,
}
use iac_ai_runtime.Db.{iac, reconciliation_required, Store, Actor, write, Clock, Transfer}
use iac_ai_runtime.Transfers.Lifecycle.{Moves, retries, fails, holds, completes}
use iac_ai_runtime.Prelude.{
  eq_iff, ap, sym, subst, leb, none, [], inr, inl, Bool-cases, some, ◌*◌, ◌+◌, arith, Option, All,
  List, ℕ, String, true, ◌≡◌, refl,
}
use iac_ai_runtime.Transfers.Preserves.{Kept, audits, updates, reads, authorized_eq}

module _ (rows : List Transfer) where
  abbrev failed_row : Clock → String → ℕ → Transfer → Transfer → Transfer
  failed_row c error retry t u = record u {
    status = after_failure t;
    available_at = c.instant + retry * second;
    lease_owner = none;
    lease_expires_at = none;
    last_error = some error;
    updated_at = c.instant;
  }

  -- The row that `fail_claimed_backup_transfer` reads is the one that its UPDATE changes.
  fails_one :
      (c : Clock) (error : String) (retry : ℕ) (t u : Transfer)
      → is_authorized t.status ≡ true
      → u ≡ t
      → Moves u (failed_row c error retry t u)
  fails_one c error retry t u active same = elim (Bool-cases (leb t.max_attempts t.attempt_count)) [
    | inl over ↦
        subst (λ z. Moves z (failed_row c error retry t z)) (sym same)
          (rw over (
            fails error (c.instant + retry * second) c.instant (authorized_eq _ active)
              (ground (arith, over)) refl))
    | inr left ↦
        subst (λ z. Moves z (failed_row c error retry t z)) (sym same)
          (rw left (
            retries error (c.instant + retry * second) c.instant (authorized_eq _ active)
              (ground (arith, left))
              (ap
                (λ st. record t {
                  status = st;
                  available_at = c.instant + retry * second;
                  lease_owner = none;
                  lease_expires_at = none;
                  last_error = some error;
                  updated_at = c.instant;
                })
                (sym (authorized_eq _ active)))))
  ]

  fails_found :
      (c : Clock) (plan worker error : String) (retry : ℕ) (t : Transfer) (ts : List Transfer)
      → HasKeys plan_of ts
      → first (is_leased_to plan worker) ts ≡ some t
      → All (λ u. is_plan plan u ≡ true → Moves u (failed_row c error retry t u)) ts
  unfolding is_leased_to is_plan
  fails_found c plan worker error retry t ts keys found =
      let held = first_holds (is_leased_to plan worker) ts found in
      All-map _ _ ts
        (λ u only hit. fails_one c error retry t u (ground (arith, held)) (
          only (
            ground (
              arith,
              held,
              hit,
              eq_iff (plan_of u) (plan_of t),
              eq_iff (plan_of u) plan,
              eq_iff (plan_of t) plan,
            ))))
        (only_row plan_of (is_leased_to plan worker) ts keys found)

  authorize_same : (actor : Actor) (s : Store) → (authorize actor iac [] write_access s).1 ≡ s
  unfolding authorize ◌>>=◌
  authorize_same actor s = refl

  fails_written :
      (c : Clock) (plan worker error : String) (retry : ℕ) (t : Transfer) (s : Store)
      → InDb (Kept rows) s
      → first (is_leased_to plan worker) s.live.backup_transfer_outbox ≡ some t
      → InDb
          (Kept rows)
          (write
            (λ d. record d {
              backup_transfer_outbox =
                  update (is_plan plan) (failed_row c error retry t) d.backup_transfer_outbox;
            })
            s).1
  unfolding write
  fails_written c plan worker error retry t s h found = record {
    in_live =
        IsKept-update plan_of Moves IsFresh same_plan _ _ rows _ h.in_live
          (fails_found c plan worker error retry t _ h.in_live.keys found);
    in_durable = h.in_durable;
  }

  fails_row :
      (c : Clock) (actor : Actor) (plan worker error : String) (retry : ℕ) (row : Option Transfer)
      (s : Store)
      → InDb (Kept rows) s
      → first (is_leased_to plan worker) s.live.backup_transfer_outbox ≡ row
      → InDb (Kept rows) (fail_transfer c actor plan error retry row s).1
  unfolding fail_transfer write raise
  fails_row c actor plan worker error retry none s h found = h
  fails_row c actor plan worker error retry (some t) s h found =
      bind_at (InDb (Kept rows)) (authorize actor iac [] write_access) _ s
        ((Preserves-authorize actor iac [] write_access).after s h)
        (λ _ _.
          bind_then (InDb (Kept rows)) _ _ _
            (fails_written c plan worker error retry t _
              ((Preserves-authorize actor iac [] write_access).after s h)
              (subst (λ z. first (is_leased_to plan worker) z.live.backup_transfer_outbox ≡ some t)
                (sym (authorize_same actor s)) found))
            (λ _. search (preserves_rules, Preserves-commit, audits)))

  fails_leased :
      (c : Clock) (actor : Actor) (plan worker error : String) (retry : ℕ)
      → Preserves (InDb (Kept rows)) (
          gets (λ s. first (is_leased_to plan worker) s.live.backup_transfer_outbox)
          >>= (λ row. fail_transfer c actor plan error retry row))
  fails_leased c actor plan worker error retry =
      gets_bind (InDb (Kept rows)) _ _ (λ s h. fails_row c actor plan worker error retry _ s h refl)

  pub Preserves-fail_claimed_backup_transfer :
      (c : Clock) (actor : Actor) (plan worker error : String) (retry : ℕ)
      → Preserves (InDb (Kept rows)) (fail_claimed_backup_transfer c actor plan worker error retry)
  unfolding fail_claimed_backup_transfer
  Preserves-fail_claimed_backup_transfer c actor plan worker error retry =
      search (preserves_rules, fails_leased) depth 9

  holds_leased :
      (c : Clock) (plan worker error : String)
      → Preserves (InDb (Kept rows)) (
          write (λ d. record d {
            backup_transfer_outbox =
                update
                  (is_leased_to plan worker)
                  (λ u. record u {
                    status = reconciliation_required;
                    lease_owner = none;
                    lease_expires_at = none;
                    last_error = some error;
                    updated_at = c.instant;
                  })
                  d.backup_transfer_outbox;
          }))
  unfolding is_leased_to
  holds_leased c plan worker error =
      updates rows _ _ (λ t hit. holds error c.instant (authorized_eq _ (ground (arith, hit))) refl)

  holds_row :
      (c : Clock) (actor : Actor) (plan worker error : String) (row : Option Transfer)
      → Preserves (InDb (Kept rows)) (hold_transfer c actor plan worker error row)
  unfolding hold_transfer
  holds_row c actor plan worker error none = search preserves_rules
  holds_row c actor plan worker error (some t) =
      search (preserves_rules, Preserves-authorize, holds_leased, Preserves-commit, audits) depth 9

  pub Preserves-hold_claimed_backup_transfer_for_reconciliation :
      (c : Clock) (actor : Actor) (plan worker error : String)
      → Preserves
          (InDb (Kept rows))
          (hold_claimed_backup_transfer_for_reconciliation c actor plan worker error)
  unfolding hold_claimed_backup_transfer_for_reconciliation
  Preserves-hold_claimed_backup_transfer_for_reconciliation c actor plan worker error =
      search (preserves_rules, holds_row) depth 9

  completes_live :
      (c : Clock) (plan worker : String) (verified : Json) (uploaded_at : String)
      → Preserves (InDb (Kept rows)) (
          write (λ d. record d {
            backup_transfer_outbox =
                update
                  (is_live_lease plan worker c.instant)
                  (set_completed c verified uploaded_at)
                  d.backup_transfer_outbox;
          }))
  unfolding is_live_lease set_completed
  completes_live c plan worker verified uploaded_at = updates rows _ _ (λ t hit.
      completes verified uploaded_at c.instant (authorized_eq _ (ground (arith, hit))) refl)

  stores_receipt :
      (c : Clock) (actor : Actor) (plan worker : String) (verified : Json) (uploaded_at : String)
      → Preserves (InDb (Kept rows)) (store_receipt c actor plan worker verified uploaded_at)
  unfolding store_receipt
  stores_receipt c actor plan worker verified uploaded_at =
      search (preserves_rules, Preserves-rollback, completes_live, Preserves-commit, audits, reads)
        depth 9

  module _ (evidence : Evidence) where
    answers_again :
        (actor : Actor) (plan : String) (receipt : Json) (row : Option Transfer)
        → Preserves (InDb (Kept rows)) (answer_again evidence actor plan receipt row)
    unfolding answer_again same_receipt
    answers_again actor plan receipt none = search preserves_rules
    answers_again actor plan receipt (some t) = search (preserves_rules, reads)

    completes_row :
        (c : Clock) (actor : Actor) (plan worker : String) (receipt : Json) (row : Option Transfer)
        → Preserves (InDb (Kept rows)) (complete_row evidence c actor plan worker receipt row)
    unfolding complete_row
    completes_row c actor plan worker receipt none = search (preserves_rules, answers_again)
    completes_row c actor plan worker receipt (some t) =
        search (preserves_rules, Preserves-authorize, stores_receipt)

    pub Preserves-complete_claimed_backup_transfer :
        (c : Clock) (actor : Actor) (plan worker : String) (receipt : Json)
        → Preserves
            (InDb (Kept rows))
            (complete_claimed_backup_transfer evidence c actor plan worker receipt)
    unfolding complete_claimed_backup_transfer
    Preserves-complete_claimed_backup_transfer c actor plan worker receipt =
        search (preserves_rules, Preserves-kill_switch_enabled, completes_row) depth 9
