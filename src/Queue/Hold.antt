-- ===== src/Queue/Hold.antt =====
-- A lease over any history: while it runs, only the calls of its owner about its work end it.
pub mod Calls
pub mod History
use iac_ai_runtime.Prelude.{
  ℕ, ◌+◌, ◌*◌, ◌<◌, String, Bool, true, false, ◌≡◌, ◌≢◌, ◌⊎◌, inl, inr, refl, sym, ap, subst, any,
  ◌∙◌, Option, none, some, List, [], ◌∷◌, ◌++◌, All, ◌==◌, eq_iff, holds_text, is_some, is_empty,
  Bool-cases, Option-cases, nat_eq, if◌then◌else◌, arith,
}
use iac_ai_runtime.Json.{Json, Fields}
use iac_ai_runtime.Time.{Stamp, second}
use iac_ai_runtime.Exec.{Error, Result, ok, err, raise, pure, gets, ◌>>=◌}
use iac_ai_runtime.Exec.Preserves.{
  Preserves, preserves_rules, Preserves-bind, Preserves-raise, Preserves-if, bind_at,
}
use iac_ai_runtime.Table.{first, count_rows, update}
use iac_ai_runtime.Table.Laws.{All-append, update-All, first_holds}
use iac_ai_runtime.Db.{
  Scope, Actor, Work, Reservation, Db, Store, Clock, AuditResult, write, commit, rollback,
}
use iac_ai_runtime.Access.{audit, deny, decline, kill_switch_enabled}
use iac_ai_runtime.Access.Preserves.{
  InDb, IgnoresAudit, Preserves-write, Preserves-commit, Preserves-rollback, Preserves-authorize,
  Preserves-kill_switch_enabled, Preserves-audit, Preserves-deny, Preserves-decline,
}
use iac_ai_runtime.Budget.{
  is_budget, lacks_room, is_overdrawn, is_reserved_for, block_for_budget, is_work, book,
  refuse_budget, settle, settled, settle_found, settle_cost, settled_db, reserve_units,
  reserve_cost,
}
use iac_ai_runtime.Queue.{is_running, enqueue_work}
use iac_ai_runtime.Queue.Claim.{
  lease_work, take_lease, report_claim, grant_work, claim_row, claim_open, claim_work,
  worker_scopes, next_work,
}
use iac_ai_runtime.Queue.Claim.Exclusive.{LeasedRow, IsLeased, next_work_lem, leased_not_claimable}
use iac_ai_runtime.Queue.Finish.{
  is_held, update_held, fail_held, block_work, complete_work, fail_work,
}

settled_queue :
    (c : Clock) (r : Reservation) (consume : Bool) (d : Db)
    → (settled_db c r consume d).work_queue ≡ d.work_queue
unfolding settled_db
settled_queue c r true d = refl
settled_queue c r false d = refl

module _ (id owner : String) (until : ℕ) where
  abbrev pub Held : Db → Type 0
  Held = IsLeased id owner until

  pub audits :
      (c : Clock) (a : Actor) (action : String) (r : AuditResult) (reason : String)
      (about : Option String) (details : Fields)
      → Preserves (InDb Held) (audit c a action r reason about details)
  audits = Preserves-audit (λ d rows h. h)

  pub declines :
      {A : Type 0} (c : Clock) (a : Actor) (action reason : String) (about : Option String)
      (details : Fields)
      → Preserves (InDb Held) (decline {A = A} c a action reason about details)
  declines = Preserves-decline (λ d rows h. h)

  pub denies :
      {A : Type 0} (c : Clock) (a : Actor) (action reason : String) (about : Option String)
      (details : Fields) (e : Error)
      → Preserves (InDb Held) (deny {A = A} c a action reason about details e)
  denies = Preserves-deny (λ d rows h. h)

  -- An UPDATE of rows of other ids.
  pub updates :
      (p : Work → Bool) (f : Work → Work)
      → ((w : Work) → LeasedRow id owner until w → p w ≡ true → LeasedRow id owner until (f w))
      → Preserves (InDb Held) (write (λ d. record d { work_queue = update p f d.work_queue }))
  updates p f keep = Preserves-write _ (λ d h.
      update-All (LeasedRow id owner until) (LeasedRow id owner until) p f d.work_queue keep
        (λ w k miss. k) h)

  settled_at :
      (s : Store) (c : Clock) (r : Reservation) (consume : Bool)
      → InDb Held s
      → InDb Held (settled s (settle c r consume s.live)).1
  unfolding settled settle
  settled_at s c r consume h = elim (Bool-cases (any (is_overdrawn r) s.live.budgets)) [
    | inl bad ↦ rw bad h
    | inr fine ↦ rw fine (record {
      in_live =
          subst (All (LeasedRow id owner until)) (sym (settled_queue c r consume s.live)) h.in_live;
      in_durable = h.in_durable;
    })
  ]

  found_at :
      (s : Store) (c : Clock) (o : Option Reservation) (consume : Bool)
      → InDb Held s
      → InDb Held (settle_found c o consume s).1
  unfolding settle_found
  found_at s c none consume h = h
  found_at s c (some r) consume h = settled_at s c r consume h

  pub settles :
      (c : Clock) (about : String) (consume : Bool)
      → Preserves (InDb Held) (settle_cost c about consume)
  unfolding settle_cost
  settles c about consume = record { after = λ s h. found_at s c _ consume h }

  -- An UPDATE that keeps the id of a row which is not of this id.
  pub keeps :
      (f : Work → Work) (w : Work)
      → (f w).id ≡ w.id
      → is_work id w ≡ false
      → LeasedRow id owner until (f w)
  unfolding is_work
  keeps f w same miss there = absurd (cc (miss, there, ap (λ i. i == id) same))

  -- The steps of a claim of a row of another id.
  module _ (c : Clock) (a : Actor) (worker : String) (l : ℕ) (v : Work)
      (other : is_work id v ≡ false) where
    misses : (w : Work) → is_work v.id w ≡ true → is_work id w ≡ false
    unfolding is_work
    misses w hit = ground (arith, eq_iff w.id v.id, eq_iff w.id id, eq_iff v.id id, other)

    refuses : (d : Db) → Held d → Held (refuse_budget c v d)
    unfolding refuse_budget
    refuses d h =
        update-All (LeasedRow id owner until) (LeasedRow id owner until) (is_work v.id)
          (block_for_budget c) d.work_queue
          (λ w k hit. keeps (block_for_budget c) w refl (misses w hit)) (λ w k miss. k) h

    reserves_units : (units : ℕ) → Preserves (InDb Held) (reserve_units c v units)
    unfolding reserve_units book
    reserves_units units = record {
      after = λ s h.
          elim (Bool-cases (is_some (first (is_reserved_for v.id) s.live.cost_reservations))) [
            | inl old ↦ rw old h
            | inr fresh ↦
                rw fresh
                  (elim (Bool-cases
                    (lacks_room units (first (is_budget v.owner_scope c.month) s.live.budgets))) [
                      | inl full ↦
                          rw full (record {
                            in_live = refuses s.live h.in_live;
                            in_durable = h.in_durable;
                          })
                      | inr room ↦
                          rw room (record { in_live = h.in_live; in_durable = h.in_durable })
                    ])
          ];
    }

    reserves : Preserves (InDb Held) (reserve_cost c v)
    unfolding reserve_cost
    reserves = search (preserves_rules, reserves_units)

    reports : (o : Option Work) → Preserves (InDb Held) (report_claim c a worker o)
    unfolding report_claim
    reports none = search preserves_rules
    reports (some w) = search (preserves_rules, audits)

    leases : Preserves (InDb Held) (write (lease_work c worker l v))
    unfolding lease_work take_lease
    leases =
        updates (is_work v.id) (take_lease c worker l)
          (λ w k hit. keeps (take_lease c worker l) w refl (misses w hit))

    grants : Preserves (InDb Held) (grant_work c a worker l v)
    unfolding grant_work
    grants = search (preserves_rules, Preserves-commit, leases, reports)

    claims_row : Preserves (InDb Held) (claim_row c a worker l (some v))
    unfolding claim_row
    claims_row = search (preserves_rules, Preserves-commit, reserves, grants, declines)

  claims_none :
      (c : Clock) (a : Actor) (worker : String) (l : ℕ)
      → Preserves (InDb Held) (claim_row c a worker l none)
  unfolding claim_row
  claims_none c a worker l = search (preserves_rules, Preserves-commit)

  -- A claim made before the lease ends takes no row of the id.
  module _ (c : Clock) (a : Actor) (worker : String) (l : ℕ) (early : c.instant < until) where
    pub claims_next :
        (s : Store) (o : Option Work)
        → InDb Held s
        → next_work c.instant (worker_scopes a) s.live ≡ o
        → InDb Held (claim_row c a worker l o s).1
    claims_next s none h e = (claims_none c a worker l).after s h
    claims_next s (some v) h e =
        let (row, open_row) =
          next_work_lem (LeasedRow id owner until) c.instant (worker_scopes a) s.live h.in_live e in
        (claims_row c a worker l v (
            leased_not_claimable id owner until c.instant (worker_scopes a) v row open_row
              early)).after
          s h
