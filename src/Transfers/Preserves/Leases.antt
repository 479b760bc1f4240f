-- ===== src/Transfers/Preserves/Leases.antt =====
-- Claiming a backup transfer moves the rows by steps of their lifecycle.
use iac_ai_runtime.Access.{deny, decline}
use iac_ai_runtime.Json.{Fields}
use iac_ai_runtime.Time.{second}
use iac_ai_runtime.Outbox.Kept.{IsKept-update}
use iac_ai_runtime.Table.Laws.{All-map}
use iac_ai_runtime.Transfers.Lifecycle.{same_plan, IsFresh, plan_of}
use iac_ai_runtime.Access.Preserves.{
  Preserves-begin, Preserves-deny, Preserves-decline, Preserves-kill_switch_enabled,
  Preserves-commit, InDb,
}
use iac_ai_runtime.Exec.Preserves.{Preserves-bind, bind_then, preserves_rules, Preserves}
use iac_ai_runtime.Exec.{Error, pure, ◌>>=◌, gets}
use iac_ai_runtime.Table.{count_rows, update}
use iac_ai_runtime.Transfers.{is_authorized}
use iac_ai_runtime.Transfers.Lease.{
  claim_authorized_backup_transfer, is_free, lease_transfer, close_exhausted, take_transfer,
  audit_terminal, grant_transfer, report_transfer, is_exhausted, claim_transfer_open,
  claim_next_transfer, is_takable,
}
use iac_ai_runtime.Db.{rollback, commit, Store, Actor, write, Clock, Transfer}
use iac_ai_runtime.Transfers.Lifecycle.{Moves, leases, fails}
use iac_ai_runtime.Prelude.{
  none, [], ◌∷◌, inr, inl, nat_eq, Bool-cases, some, ◌*◌, ◌+◌, arith, Option, ◌<◌, All, ◌&&◌, List,
  ℕ, String, true, ◌≡◌, refl,
}
use iac_ai_runtime.Transfers.Preserves.{Kept, audits, updates, reads, authorized_eq}

-- An AUTHORIZED row that a claim may take has an attempt left.
abbrev pub HasAttempt : ℕ → Transfer → Type 0
HasAttempt now t =
    (is_authorized t.status && is_free now t) ≡ true → t.attempt_count < t.max_attempts

module _ (rows : List Transfer) where
  closes :
      (now : ℕ)
      → Preserves (InDb (Kept rows)) (
          write (λ d. record d {
            backup_transfer_outbox =
                update (is_exhausted now) (close_exhausted now) d.backup_transfer_outbox;
          }))
  unfolding is_exhausted close_exhausted
  closes now = updates rows _ _ (λ t hit.
      fails "Lease expired after maximum attempts" t.available_at now
        (authorized_eq _ (ground (arith, hit))) (ground (arith, hit)) refl)

  pub after_closing :
      (now : ℕ) (ts : List Transfer)
      → All (HasAttempt now) (update (is_exhausted now) (close_exhausted now) ts)
  unfolding update is_exhausted close_exhausted
  after_closing now [] = tt
  after_closing now (t ∷ ts) = elim (Bool-cases (is_exhausted now t)) [
    | inl hit ↦ rw hit (λ e. absurd (cc e), after_closing now ts)
    | inr miss ↦ rw miss (λ e. ground (arith, miss, e), after_closing now ts)
  ]

  audits_terminal :
      (c : Clock) (actor : Actor) (ts : List Transfer)
      → Preserves (InDb (Kept rows)) (audit_terminal c actor ts)
  unfolding audit_terminal
  audits_terminal c actor [] = search preserves_rules
  audits_terminal c actor (t ∷ ts) =
      Preserves-bind _ _ (audits rows c actor _ _ _ _ _) (λ _. audits_terminal c actor ts)

  reports :
      (c : Clock) (actor : Actor) (worker plan : String)
      → Preserves (InDb (Kept rows)) (report_transfer c actor worker plan)
  unfolding report_transfer
  reports c actor worker plan = search (preserves_rules, reads, audits)

  leases_in :
      (c : Clock) (worker plan : String) (seconds : ℕ) (ts : List Transfer)
      → All (HasAttempt c.instant) ts
      → All
          (λ t. is_takable plan c.instant t ≡ true → Moves t (lease_transfer c worker seconds t))
          ts
  unfolding is_takable lease_transfer
  leases_in c worker plan seconds ts h =
      All-map _ _ ts
        (λ t left hit.
          leases worker (c.instant + seconds * second) c.instant
            (authorized_eq _ (ground (arith, hit))) (left (ground (arith, hit))) refl)
        h

  takes :
      (c : Clock) (actor : Actor) (worker plan : String) (seconds : ℕ) (terminal : List Transfer)
      (s : Store)
      → InDb (Kept rows) s
      → All (HasAttempt c.instant) s.live.backup_transfer_outbox
      → InDb (Kept rows) (take_transfer c actor worker seconds terminal plan s).1
  unfolding take_transfer write
  takes c actor worker plan seconds terminal s h left =
      bind_then (InDb (Kept rows)) _ _ s
        (record {
          in_live =
              IsKept-update plan_of Moves IsFresh same_plan _ _ rows _ h.in_live
                (leases_in c worker plan seconds _ left);
          in_durable = h.in_durable;
        })
        (λ _. search (preserves_rules, Preserves-commit, audits_terminal, reports))

  grants :
      (c : Clock) (actor : Actor) (worker : String) (seconds : ℕ) (terminal : List Transfer)
      (row : Option Transfer) (s : Store)
      → InDb (Kept rows) s
      → All (HasAttempt c.instant) s.live.backup_transfer_outbox
      → InDb (Kept rows) (grant_transfer c actor worker seconds terminal row s).1
  unfolding grant_transfer gets rollback ◌>>=◌
  grants c actor worker seconds terminal none s h left = (closed c actor terminal).after s h
    where
      closed :
          (c : Clock) (actor : Actor) (terminal : List Transfer)
          → Preserves {A = Option Transfer}
              (InDb (Kept rows))
              (commit >>= (λ _. audit_terminal c actor terminal >>= (λ _. pure none)))
      closed c actor terminal = search (preserves_rules, Preserves-commit, audits_terminal)
  grants c actor worker seconds terminal (some t) s h left =
      elim (Bool-cases (
        nat_eq (count_rows (is_takable t.plan_sha256 c.instant) s.live.backup_transfer_outbox) 1)) [
          | inl one ↦ rw one (takes c actor worker t.plan_sha256 seconds terminal s h left)
          | inr none_or_more ↦
              rw none_or_more (record { in_live = h.in_durable; in_durable = h.in_durable })
        ]

  claims_next :
      (c : Clock) (actor : Actor) (worker : String) (seconds : ℕ)
      → Preserves (InDb (Kept rows)) (claim_next_transfer c actor worker seconds)
  unfolding claim_next_transfer gets write ◌>>=◌
  claims_next c actor worker seconds = record {
    after = λ s h.
        grants c actor worker seconds _ _ _ ((closes c.instant).after s h)
          (after_closing c.instant _);
  }

  claims_open :
      (c : Clock) (actor : Actor) (worker : String) (seconds : ℕ)
      → Preserves (InDb (Kept rows)) (claim_transfer_open c actor worker seconds)
  unfolding claim_transfer_open
  claims_open c actor worker seconds = search (preserves_rules, Preserves-begin, claims_next)

  declines :
      {A : Type 0} (c : Clock) (actor : Actor) (action reason : String) (id : Option String)
      (details : Fields)
      → Preserves (InDb (Kept rows)) (decline {A = A} c actor action reason id details)
  declines = Preserves-decline (λ d log h. h)

  denies :
      {A : Type 0} (c : Clock) (actor : Actor) (action reason : String) (id : Option String)
      (details : Fields) (e : Error)
      → Preserves (InDb (Kept rows)) (deny {A = A} c actor action reason id details e)
  denies = Preserves-deny (λ d log h. h)

  pub Preserves-claim_authorized_backup_transfer :
      (c : Clock) (actor : Actor) (worker : String) (seconds : ℕ)
      → Preserves (InDb (Kept rows)) (claim_authorized_backup_transfer c actor worker seconds)
  unfolding claim_authorized_backup_transfer
  Preserves-claim_authorized_backup_transfer c actor worker seconds =
      search (preserves_rules, Preserves-kill_switch_enabled, declines, claims_open) depth 12
