-- ===== src/Queue/Preserves.antt =====
-- The operations of the work queue (sean_os/store.py) and the invariants of the budgets.
use iac_ai_runtime.Prelude.{ℕ, String, Bool, Option, none, some, List, Bool-cases, inl, inr, nat_eq}
use iac_ai_runtime.Json.{Json, Fields}
use iac_ai_runtime.Time.{Stamp}
use iac_ai_runtime.Exec.{Error}
use iac_ai_runtime.Exec.Preserves.{Preserves, preserves_rules, Preserves-bind, Preserves-raise}
use iac_ai_runtime.Table.{count_rows}
use iac_ai_runtime.Db.{Scope, Actor, Work, Db, Clock, AuditResult, write, rollback}
use iac_ai_runtime.Access.Preserves.{
  InDb, Preserves-write, Preserves-audit, Preserves-deny, Preserves-decline, Preserves-begin,
  Preserves-commit, Preserves-rollback, Preserves-authorize, Preserves-kill_switch_enabled,
}
use iac_ai_runtime.Access.{audit, deny, decline}
use iac_ai_runtime.Budget.{settle_cost, reserve_cost}
use iac_ai_runtime.Budget.Invariant.{IsBookInvariant, Preserves-reserve_cost, Preserves-settle_cost}
use iac_ai_runtime.Queue.{enqueue_work}
use iac_ai_runtime.Queue.Claim.{
  lease_work, report_claim, grant_work, claim_row, claim_next, claim_open, claim_work,
}
use iac_ai_runtime.Queue.Finish.{
  is_held, update_held, fail_held, block_work, complete_work, fail_work,
}

module _ {G : Db → Type 0} (inv : IsBookInvariant G) where
  -- A statement that writes the work queue alone.
  Preserves-queue :
      (f : Db → List Work) → Preserves (InDb G) (write (λ d. record d { work_queue = f d }))
  Preserves-queue f = Preserves-write _ (λ d h. inv.blind_queue d (f d) h)

  audits :
      (c : Clock) (actor : Actor) (action : String) (r : AuditResult) (reason : String)
      (id : Option String) (details : Fields)
      → Preserves (InDb G) (audit c actor action r reason id details)
  audits = Preserves-audit inv.blind_audit

  declines :
      {A : Type 0} (c : Clock) (actor : Actor) (action reason : String) (id : Option String)
      (details : Fields)
      → Preserves (InDb G) (decline {A = A} c actor action reason id details)
  declines = Preserves-decline inv.blind_audit

  denies :
      {A : Type 0} (c : Clock) (actor : Actor) (action reason : String) (id : Option String)
      (details : Fields) (e : Error)
      → Preserves (InDb G) (deny {A = A} c actor action reason id details e)
  denies = Preserves-deny inv.blind_audit

  reserves : (c : Clock) (w : Work) → Preserves (InDb G) (reserve_cost c w)
  reserves = Preserves-reserve_cost inv

  settles :
      (c : Clock) (id : String) (consume : Bool) → Preserves (InDb G) (settle_cost c id consume)
  settles = Preserves-settle_cost inv

  reports :
      (c : Clock) (actor : Actor) (worker : String) (o : Option Work)
      → Preserves (InDb G) (report_claim c actor worker o)
  unfolding report_claim
  reports c actor worker none = search preserves_rules
  reports c actor worker (some w) = search (preserves_rules, audits)

  grants :
      (c : Clock) (actor : Actor) (worker : String) (l : ℕ) (w : Work)
      → Preserves (InDb G) (grant_work c actor worker l w)
  unfolding grant_work lease_work
  grants c actor worker l w = search (preserves_rules, Preserves-commit, Preserves-queue, reports)

  claims_row :
      (c : Clock) (actor : Actor) (worker : String) (l : ℕ) (o : Option Work)
      → Preserves (InDb G) (claim_row c actor worker l o)
  unfolding claim_row
  claims_row c actor worker l none = search (preserves_rules, Preserves-commit)
  claims_row c actor worker l (some w) =
      search (preserves_rules, Preserves-commit, reserves, grants, declines)

  claims_next :
      (c : Clock) (actor : Actor) (worker : String) (l : ℕ)
      → Preserves (InDb G) (claim_next c actor worker l)
  unfolding claim_next
  claims_next c actor worker l = search (preserves_rules, Preserves-commit, claims_row, declines)

  claims_open :
      (c : Clock) (actor : Actor) (worker : String) (l : ℕ)
      → Preserves (InDb G) (claim_open c actor worker l)
  unfolding claim_open
  claims_open c actor worker l = search (preserves_rules, Preserves-begin, claims_next)

  pub Preserves-claim_work :
      (c : Clock) (actor : Actor) (worker : String) (l : ℕ)
      → Preserves (InDb G) (claim_work c actor worker l)
  unfolding claim_work
  Preserves-claim_work c actor worker l =
      search (preserves_rules, Preserves-kill_switch_enabled, declines, claims_open)

  updates_held :
      (id worker : String) (f : Work → Work) → Preserves (InDb G) (update_held id worker f)
  unfolding update_held
  updates_held id worker f = record {
    after = λ s h. elim (Bool-cases (nat_eq (count_rows (is_held id worker) s.live.work_queue) 1)) [
      | inl e ↦ rw e ((Preserves-queue _).after s h)
      | inr e ↦
          rw e ((Preserves-bind rollback _ Preserves-rollback (λ _. Preserves-raise _)).after s h)
    ];
  }

  pub Preserves-block_work :
      (c : Clock) (actor : Actor) (id worker reason : String) (b : Bool)
      → Preserves (InDb G) (block_work c actor id worker reason b)
  unfolding block_work
  Preserves-block_work c actor id worker reason b =
      search (preserves_rules, Preserves-commit, updates_held, settles, audits) depth 9

  pub Preserves-complete_work :
      (c : Clock) (actor : Actor) (id worker : String) (result : Json)
      → Preserves (InDb G) (complete_work c actor id worker result)
  unfolding complete_work
  Preserves-complete_work c actor id worker result =
      search (preserves_rules, Preserves-commit, updates_held, settles, audits, denies) depth 9

  fails_held :
      (c : Clock) (actor : Actor) (id worker said : String) (n : ℕ) (o : Option Work)
      → Preserves (InDb G) (fail_held c actor id worker said n o)
  unfolding fail_held
  fails_held c actor id worker said n none = search preserves_rules
  fails_held c actor id worker said n (some w) =
      search (preserves_rules, Preserves-commit, Preserves-queue, settles, audits) depth 9

  pub Preserves-fail_work :
      (c : Clock) (actor : Actor) (id worker error : String) (n : ℕ)
      → Preserves (InDb G) (fail_work c actor id worker error n)
  unfolding fail_work
  Preserves-fail_work c actor id worker error n = search (preserves_rules, fails_held)

  pub Preserves-enqueue_work :
      (c : Clock) (actor : Actor) (id task_type : String) (scope : Scope) (payload : Json)
      (priority max_attempts : ℕ) (at : Option Stamp)
      → Preserves
          (InDb G)
          (enqueue_work c actor id task_type scope payload priority max_attempts at)
  unfolding enqueue_work
  Preserves-enqueue_work c actor id task_type scope payload priority max_attempts at =
      search
        (preserves_rules, Preserves-commit, Preserves-queue, Preserves-authorize, audits, denies)
        depth 12
