-- ===== src/Queue/History.antt =====
-- Any history of calls on the queue, the budgets and the kill switch, by any actors and workers, at
-- any readings of the clock, whether the calls return or raise.
use iac_ai_runtime.Prelude.{ℕ, String, Bool, false, Option, List, [], ◌∷◌}
use iac_ai_runtime.Json.{Json, Fields}
use iac_ai_runtime.Time.{Stamp}
use iac_ai_runtime.Exec.Preserves.{Preserves, preserves_rules}
use iac_ai_runtime.Db.{Scope, Actor, Store, Clock, Profile, write, empty_db, AuditResult}
use iac_ai_runtime.Exec.{Error}
use iac_ai_runtime.Security.{Search}
use iac_ai_runtime.Access.{set_kill_switch, audit, deny}
use iac_ai_runtime.Access.Preserves.{
  InDb, Preserves-write, Preserves-audit, Preserves-deny, Preserves-commit,
}
use iac_ai_runtime.Budget.{set_limit, configure_budget}
use iac_ai_runtime.Budget.Accounts.{IsOrderly}
use iac_ai_runtime.Budget.Conserved.{set_limit-IsOrderly}
use iac_ai_runtime.Budget.Invariant.{IsOrderly-invariant}
use iac_ai_runtime.Queue.{enqueue_work}
use iac_ai_runtime.Queue.Claim.{claim_work}
use iac_ai_runtime.Queue.Finish.{block_work, complete_work, fail_work}
use iac_ai_runtime.Queue.Preserves.{
  Preserves-claim_work, Preserves-block_work, Preserves-complete_work, Preserves-fail_work,
  Preserves-enqueue_work,
}

-- A call by a worker or a client; `configure_budget` and `set_kill_switch` are Sean's.
pub data Call : Type 0 where
  enqueues : Actor → String → String → Scope → Json → ℕ → ℕ → Option Stamp → Call
  claims : Actor → String → ℕ → Call
  blocks : Actor → String → String → String → Bool → Call
  completes : Actor → String → String → Json → Call
  fails : Actor → String → String → String → ℕ → Call

pub data OwnerCall : Type 0 where
  call : Call → OwnerCall
  configures : Actor → Scope → ℕ → Option String → OwnerCall
  switches : Actor → Bool → OwnerCall

unfoldable pub perform : Clock → Call → Store → Store
perform c (enqueues a id kind scope payload priority n at) s =
    (enqueue_work c a id kind scope payload priority n at s).1
perform c (claims a worker l) s = (claim_work c a worker l s).1
perform c (blocks a id worker reason b) s = (block_work c a id worker reason b s).1
perform c (completes a id worker result) s = (complete_work c a id worker result s).1
perform c (fails a id worker error n) s = (fail_work c a id worker error n s).1

unfoldable pub perform_owner : Clock → OwnerCall → Store → Store
unfolding perform
perform_owner c (call k) s = perform c k s
perform_owner c (configures a scope limit period) s = (configure_budget c a scope limit period s).1
perform_owner c (switches a on) s = (set_kill_switch c a on s).1

-- The calls in their order, each with its reading of the clock.
unfoldable pub run : Store → List (Clock × Call) → Store
unfolding perform
run s [] = s
run s ((c, k) ∷ ks) = run (perform c k s) ks

unfoldable pub run_owner : Store → List (Clock × OwnerCall) → Store
unfolding perform_owner
run_owner s [] = s
run_owner s ((c, k) ∷ ks) = run_owner (perform_owner c k s) ks

-- A new database
abbrev pub new_store : Profile → Search → Store
new_store profile patterns = record {
  live = empty_db;
  durable = empty_db;
  is_open = false;
  scope_profile = profile;
  patterns = patterns;
}

audits :
    (c : Clock) (a : Actor) (action : String) (r : AuditResult) (reason : String)
    (id : Option String) (details : Fields)
    → Preserves (InDb IsOrderly) (audit c a action r reason id details)
audits = Preserves-audit IsOrderly-invariant.blind_audit

denies :
    {A : Type 0} (c : Clock) (a : Actor) (action reason : String) (id : Option String)
    (details : Fields) (e : Error)
    → Preserves (InDb IsOrderly) (deny {A = A} c a action reason id details e)
denies = Preserves-deny IsOrderly-invariant.blind_audit

limits :
    (c : Clock) (scope : Scope) (period : String) (limit : ℕ)
    → Preserves (InDb IsOrderly) (write (set_limit c scope period limit))
limits c scope period limit = Preserves-write _ (set_limit-IsOrderly c scope period limit)

flips : (on : Bool) → Preserves (InDb IsOrderly) (write (λ d. record d { kill_switch = on }))
flips on =
    Preserves-write _ (λ d h. record { keyed = h.keyed; distinct = h.distinct; backed = h.backed })

configure-IsOrderly :
    (c : Clock) (a : Actor) (scope : Scope) (limit : ℕ) (period : Option String)
    → Preserves (InDb IsOrderly) (configure_budget c a scope limit period)
unfolding configure_budget
configure-IsOrderly c a scope limit period =
    search (preserves_rules, limits, Preserves-commit, audits, denies) depth 9

switch-IsOrderly :
    (c : Clock) (a : Actor) (on : Bool) → Preserves (InDb IsOrderly) (set_kill_switch c a on)
unfolding set_kill_switch
switch-IsOrderly c a on = search (preserves_rules, flips, Preserves-commit, audits, denies) depth 9

perform-IsOrderly :
    (c : Clock) (k : Call) (s : Store) → InDb IsOrderly s → InDb IsOrderly (perform c k s)
unfolding perform
perform-IsOrderly c (enqueues a id kind scope payload priority n at) s h =
    (Preserves-enqueue_work IsOrderly-invariant c a id kind scope payload priority n at).after s h
perform-IsOrderly c (claims a worker l) s h =
    (Preserves-claim_work IsOrderly-invariant c a worker l).after s h
perform-IsOrderly c (blocks a id worker reason b) s h =
    (Preserves-block_work IsOrderly-invariant c a id worker reason b).after s h
perform-IsOrderly c (completes a id worker result) s h =
    (Preserves-complete_work IsOrderly-invariant c a id worker result).after s h
perform-IsOrderly c (fails a id worker error n) s h =
    (Preserves-fail_work IsOrderly-invariant c a id worker error n).after s h

perform_owner-IsOrderly :
    (c : Clock) (k : OwnerCall) (s : Store)
    → InDb IsOrderly s
    → InDb IsOrderly (perform_owner c k s)
unfolding perform_owner
perform_owner-IsOrderly c (call k) s h = perform-IsOrderly c k s h
perform_owner-IsOrderly c (configures a scope limit period) s h =
    (configure-IsOrderly c a scope limit period).after s h
perform_owner-IsOrderly c (switches a on) s h = (switch-IsOrderly c a on).after s h

run_owner-IsOrderly :
    (s : Store) (ks : List (Clock × OwnerCall)) → InDb IsOrderly s → InDb IsOrderly (run_owner s ks)
unfolding run_owner
run_owner-IsOrderly s [] h = h
run_owner-IsOrderly s ((c, k) ∷ ks) h =
    run_owner-IsOrderly (perform_owner c k s) ks (perform_owner-IsOrderly c k s h)

-- The books stay in order: starting from a new database, after any calls, returning or raising, in what the connection sees and in what is committed, no two budgets are for
-- the same scope and period, no piece of work has two open reservations, and every open reservation
-- has a budget for its scope and period.
pub books_in_order :
    (profile : Profile) (patterns : Search) (ks : List (Clock × OwnerCall))
    → InDb IsOrderly (run_owner (new_store profile patterns) ks)
books_in_order profile patterns ks =
    run_owner-IsOrderly (new_store profile patterns) ks
      (record { in_live = fresh; in_durable = fresh })
  where
    fresh : IsOrderly empty_db
    fresh = record { keyed = tt; distinct = tt; backed = tt }
