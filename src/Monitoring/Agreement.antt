-- ===== src/Monitoring/Agreement.antt =====
-- The monitor and the health of the store agree, and what the monitor makes is what the store takes.
use iac_ai_runtime.Health.{Counts}
use iac_ai_runtime.Prelude.{
  any, ℕ, String, Bool, true, false, ◌≡◌, ◌↔◌, refl, Option, List, [], ◌∷◌, ◌++◌, not, ◌&&◌, ◌||◌,
  ◌==◌, All, Bool-cases, inl, inr, nat_eq, arith,
}
use iac_ai_runtime.Table.Laws.{All-append}
use iac_ai_runtime.Db.{Clock, Store, Scope}
use iac_ai_runtime.Health.{Health, measure_health, is_healthy}
use iac_ai_runtime.Monitoring.{
  Entry, classify_alerts, tests, flatten, queue_alert, add_if, failed_backup,
}

-- Work that waits for its budget or an approval
abbrev pub IsWaiting : Entry → Type 0
IsWaiting e = e.code == "BUDGET_BLOCKED" || e.code == "APPROVAL_BLOCKED" ≡ true

split : (xs ys : List Entry) → All IsWaiting (xs ++ ys) → All IsWaiting xs × All IsWaiting ys
split [] ys h = (tt, h)
split (x ∷ xs) ys h = let (a, b) = split xs ys h.1 in ((h.0, a), b)

join-All : (ess : List (List Entry)) → All (All IsWaiting) ess → All IsWaiting (flatten ess)
join-All [] h = tt
join-All (es ∷ ess) h = All-append IsWaiting es (flatten ess) h.0 (join-All ess h.1)

split-All : (ess : List (List Entry)) → All IsWaiting (flatten ess) → All (All IsWaiting) ess
split-All [] h = tt
split-All (es ∷ ess) h = let (a, b) = split es (flatten ess) h in (a, split-All ess b)

absent : (b : Bool) (e : Entry) → b ≡ false → All IsWaiting (add_if b e)
absent b e off = rw off tt

silent :
    (b : Bool) (e : Entry)
    → (e.code == "BUDGET_BLOCKED" || e.code == "APPROVAL_BLOCKED") ≡ false
    → All IsWaiting (add_if b e)
    → b ≡ false
silent true e other h = absurd (cc (other, h.0))
silent false e other h = refl

-- The conjuncts of `healthy`, where an active worker is required, and of a backup that has not failed
abbrev Parts : Health → Bool → Type 0
Parts h b =
    (not h.integrity_ok ≡ false)
    × (h.kill_switch ≡ false)
    × (any (λ w. w.stale) h.workers ≡ false)
    × (nat_eq (h.queue "DEAD_LETTER") 0 ≡ true)
    × (nat_eq (h.queue "POLICY_BLOCKED") 0 ≡ true)
    × (nat_eq h.active_worker_count 0 ≡ false)
    × (not (nat_eq (h.delivery_outbox "FAILED") 0) ≡ false)
    × (not (nat_eq (h.backup_transfer_outbox "FAILED") 0) ≡ false)
    × (not (nat_eq (h.backup_transfer_outbox "RECONCILIATION_REQUIRED") 0) ≡ false)
    × (not (nat_eq (h.backup_restore_outbox "FAILED") 0) ≡ false)
    × (not (nat_eq (h.backup_restore_outbox "RECONCILIATION_REQUIRED") 0) ≡ false)
    × (b ≡ false)

abbrev is_well : Health → Bool → Bool
is_well h b =
    is_healthy h.integrity_ok h.kill_switch h.workers h.queue h.delivery_outbox
      h.backup_transfer_outbox h.backup_restore_outbox true h.active_worker_count
    && not b

parts : (h : Health) (b : Bool) → is_well h b ≡ true → Parts h b
unfolding is_healthy
parts h b e = ground (arith, e)

whole : (h : Health) (b : Bool) → Parts h b → is_well h b ≡ true
unfolding is_healthy
whole h b e = ground (arith, e)

module _ (shown : ℕ → String → String) where
  unqueued :
      (queue : Counts) (status severity summary : String)
      → nat_eq (queue status) 0 ≡ true
      → All IsWaiting (queue_alert shown queue status severity summary)
  unfolding queue_alert
  unqueued queue status severity summary e = rw e tt

  queued_waits :
      (queue : Counts) (status severity summary : String)
      → (status == "BUDGET_BLOCKED" || status == "APPROVAL_BLOCKED") ≡ true
      → All IsWaiting (queue_alert shown queue status severity summary)
  unfolding queue_alert
  queued_waits queue status severity summary e = elim (Bool-cases (nat_eq (queue status) 0)) [
    | inl none_queued ↦ rw none_queued tt
    | inr some_queued ↦ rw some_queued (e, tt)
  ]

  queue_silent :
      (queue : Counts) (status severity summary : String)
      → (status == "BUDGET_BLOCKED" || status == "APPROVAL_BLOCKED") ≡ false
      → All IsWaiting (queue_alert shown queue status severity summary)
      → nat_eq (queue status) 0 ≡ true
  unfolding queue_alert
  queue_silent queue status severity summary other h = elim (Bool-cases (nat_eq (queue status) 0)) [
    | inl none_queued ↦ none_queued
    | inr some_queued ↦ let k = rw some_queued at h in absurd (cc (other, k.0))
  ]

  wait-of-Parts :
      (h : Health) (b : Option Bool)
      → Parts h (failed_backup b)
      → All (All IsWaiting) (tests shown h b)
  unfolding tests
  wait-of-Parts h b (p1, p2, p3, p4, p5, p6, p7, p8, p9, p10, p11, p12) = (
    absent _ _ p1,
    (
      absent _ _ p2,
      (
        absent _ _ p3,
        (
          unqueued h.queue "DEAD_LETTER" _ _ p4,
          (
            unqueued h.queue "POLICY_BLOCKED" _ _ p5,
            (
              queued_waits h.queue "BUDGET_BLOCKED" _ _ refl,
              (
                queued_waits h.queue "APPROVAL_BLOCKED" _ _ refl,
                (
                  absent _ _ p6,
                  (
                    absent _ _ p7,
                    (
                      absent _ _ p8,
                      (absent _ _ p9, (absent _ _ p10, (absent _ _ p11, (absent _ _ p12, tt)))),
                    ),
                  ),
                ),
              ),
            ),
          ),
        ),
      ),
    ),
  )

  Parts-of-wait :
      (h : Health) (b : Option Bool)
      → All (All IsWaiting) (tests shown h b)
      → Parts h (failed_backup b)
  unfolding tests
  Parts-of-wait h b
        (
          k1,
          (k2, (k3, (k4, (k5, (k6, (k7, (k8, (k9, (k10, (k11, (k12, (k13, (k14, k15))))))))))))),
        ) =
      (
        silent _ _ refl k1,
        silent _ _ refl k2,
        silent _ _ refl k3,
        queue_silent h.queue "DEAD_LETTER" _ _ refl k4,
        queue_silent h.queue "POLICY_BLOCKED" _ _ refl k5,
        silent _ _ refl k8,
        silent _ _ refl k9,
        silent _ _ refl k10,
        silent _ _ refl k11,
        silent _ _ refl k12,
        silent _ _ refl k13,
        silent _ _ refl k14,
      )

  -- The monitor and the store agree on health: for a snapshot that requires an active worker, the
  -- health is reported as healthy and the backup as not failed exactly where every alert of the
  -- classification is about work that waits for its budget or an approval.
  pub healthy-classify_alerts :
      (c : Clock) (ok_file : Bool) (stale_after : ℕ) (scope : Option Scope) (s : Store)
      (backup_ok : Option Bool)
      → ((measure_health c ok_file stale_after true scope s).healthy
            && not (failed_backup backup_ok)
          ≡ true)
        ↔ All IsWaiting
            (classify_alerts shown (measure_health c ok_file stale_after true scope s) backup_ok)
  unfolding measure_health classify_alerts
  healthy-classify_alerts c ok_file stale_after scope s backup_ok =
      let h = measure_health c ok_file stale_after true scope s in
      (
        λ e. join-All _ (wait-of-Parts h backup_ok (parts h (failed_backup backup_ok) e)),
        λ k. whole h (failed_backup backup_ok) (Parts-of-wait h backup_ok (split-All _ k)),
      )
