-- ===== src/Transfers/History.antt =====
-- Any history of calls on the outbox of backup transfers and on its approvals, by any actors and
-- workers, at any readings of the clock, whether the calls return or raise.

pub mod Evidenced
use iac_ai_runtime.Transfers.Preserves.Endings.{
  Preserves-complete_claimed_backup_transfer,
  Preserves-hold_claimed_backup_transfer_for_reconciliation, Preserves-fail_claimed_backup_transfer,
}
use iac_ai_runtime.Transfers.Preserves.Leases.{Preserves-claim_authorized_backup_transfer}
use iac_ai_runtime.Transfers.Lease.{
  hold_claimed_backup_transfer_for_reconciliation, fail_claimed_backup_transfer,
  claim_authorized_backup_transfer,
}
use iac_ai_runtime.Approvals.Preserves.{Preserves-decide_approval}
use iac_ai_runtime.Approvals.{decide_approval}
use iac_ai_runtime.Transfers.Approval.{authorize_backup_transfer, request_backup_transfer_approval}
use iac_ai_runtime.Exec.{Error}
use iac_ai_runtime.Time.{Stamp, Iso}
use iac_ai_runtime.Json.{Fields, Json}
use iac_ai_runtime.Transfers.Execution.{
  complete_claimed_backup_transfer, guard_answer, assert_backup_transfer_execution_allowed,
}
use iac_ai_runtime.Access.Preserves.{
  Preserves-deny, Preserves-kill_switch_enabled, Preserves-write, Preserves-commit,
  Preserves-authorize, InDb,
}
use iac_ai_runtime.Exec.Preserves.{Preserves-pure, Preserves-bind, preserves_rules, Preserves}
use iac_ai_runtime.Access.{deny, set_kill_switch}
use iac_ai_runtime.Db.{write, Transfer, Actor, Clock, Store}
use iac_ai_runtime.Prelude.{
  Option, none, some, [], ◌∷◌, ℕ, String, Bool, true, false, ◌≡◌, ◌≤◌, refl, sym, subst, List,
  arith,
}
use iac_ai_runtime.Outbox.{HasKeys, Evolves, Evolves-same, Evolves-All, Evolves-final, Reaches}
use iac_ai_runtime.Outbox.Kept.{IsKept}
use iac_ai_runtime.Transfers.{
  record_backup_transfer_preflight, list_backup_transfers, stage_backup_transfer, get_all, Evidence,
}
use iac_ai_runtime.Transfers.Lifecycle.{Moves, IsFresh, plan_of, same_plan}
use iac_ai_runtime.Transfers.Preserves.{
  audits, Preserves-authorize_backup_transfer, Preserves-request_backup_transfer_approval, reads,
  Preserves-record_backup_transfer_preflight, Preserves-stage_backup_transfer, Kept, ignores,
}

pub data Call : Type 0 where
  stages : Actor → Json → Json → Call
  preflights : Actor → String → Json → Call
  requests : Actor → String → String → String → Stamp → Call
  decides : Actor → String → Bool → String → Call
  authorizes : Actor → String → String → Call
  claims : Actor → String → ℕ → Call
  guards : Actor → String → String → Option Iso → Call
  fails : Actor → String → String → String → ℕ → Call
  holds : Actor → String → String → String → Call
  completes : Actor → String → String → Json → Call
  lists : Actor → Option String → Call
  switches : Actor → Bool → Call

module _ (evidence : Evidence) where
  unfoldable pub perform : Clock → Call → Store → Store
  perform c (stages a plan approval) s = (stage_backup_transfer evidence c a plan approval s).1
  perform c (preflights a plan receipt) s =
      (record_backup_transfer_preflight evidence c a plan receipt s).1
  perform c (requests a id plan impact expiry) s =
      (request_backup_transfer_approval c a id plan impact expiry s).1
  perform c (decides a id approve reason) s = (decide_approval c a id approve reason s).1
  perform c (authorizes a plan id) s = (authorize_backup_transfer c a plan id s).1
  perform c (claims a worker seconds) s = (claim_authorized_backup_transfer c a worker seconds s).1
  perform c (guards a plan worker at) s =
      (assert_backup_transfer_execution_allowed c a plan worker at s).1
  perform c (fails a plan worker error retry) s =
      (fail_claimed_backup_transfer c a plan worker error retry s).1
  perform c (holds a plan worker error) s =
      (hold_claimed_backup_transfer_for_reconciliation c a plan worker error s).1
  perform c (completes a plan worker receipt) s =
      (complete_claimed_backup_transfer evidence c a plan worker receipt s).1
  perform c (lists a status) s = (list_backup_transfers c a status s).1
  perform c (switches a on) s = (set_kill_switch c a on s).1

  -- The calls in their order, each with its reading of the clock.
  unfoldable pub run : Store → List (Clock × Call) → Store
  unfolding perform
  run s [] = s
  run s ((c, k) ∷ ks) = run (perform c k s) ks

  module _ (rows : List Transfer) where
    denies :
        {A : Type 0} (c : Clock) (actor : Actor) (action reason : String) (id : Option String)
        (details : Fields) (e : Error)
        → Preserves (InDb (Kept rows)) (deny {A = A} c actor action reason id details e)
    denies = Preserves-deny (λ d log h. h)

    answers :
        (c : Clock) (actor : Actor) (plan worker : String) (why : Option String)
        → Preserves (InDb (Kept rows)) (guard_answer c actor plan worker why)
    unfolding guard_answer
    answers c actor plan worker none = search (preserves_rules, reads)
    answers c actor plan worker (some why) = search (preserves_rules, denies)

    keeps_guard :
        (c : Clock) (actor : Actor) (plan worker : String) (at : Option Iso)
        → Preserves
            (InDb (Kept rows))
            (assert_backup_transfer_execution_allowed c actor plan worker at)
    unfolding assert_backup_transfer_execution_allowed
    keeps_guard c actor plan worker at =
        search (preserves_rules, Preserves-authorize, Preserves-kill_switch_enabled, answers) depth
          9

    reads_all :
        (actor : Actor) (ts : List Transfer) → Preserves (InDb (Kept rows)) (get_all actor ts)
    unfolding get_all
    reads_all actor [] = search preserves_rules
    reads_all actor (t ∷ ts) =
        Preserves-bind _ _ (reads rows actor t.plan_sha256)
          (λ seen. Preserves-bind _ _ (reads_all actor ts) (λ rest. Preserves-pure _))

    keeps_list :
        (c : Clock) (actor : Actor) (status : Option String)
        → Preserves (InDb (Kept rows)) (list_backup_transfers c actor status)
    unfolding list_backup_transfers
    keeps_list c actor status =
        search (preserves_rules, Preserves-authorize, reads_all, audits) depth 9

    flips : (on : Bool) → Preserves (InDb (Kept rows)) (write (λ d. record d { kill_switch = on }))
    flips on = Preserves-write _ (λ d h. h)

    keeps_switch :
        (c : Clock) (a : Actor) (on : Bool) → Preserves (InDb (Kept rows)) (set_kill_switch c a on)
    unfolding set_kill_switch
    keeps_switch c a on = search (preserves_rules, flips, Preserves-commit, audits, denies) depth 9

    pub perform-Kept :
        (c : Clock) (k : Call) (s : Store) → InDb (Kept rows) s → InDb (Kept rows) (perform c k s)
    unfolding perform
    perform-Kept c (stages a plan approval) =
        (Preserves-stage_backup_transfer rows evidence c a plan approval).after
    perform-Kept c (preflights a plan receipt) =
        (Preserves-record_backup_transfer_preflight rows evidence c a plan receipt).after
    perform-Kept c (requests a id plan impact expiry) =
        (Preserves-request_backup_transfer_approval rows c a id plan impact expiry).after
    perform-Kept c (decides a id approve reason) =
        (Preserves-decide_approval (ignores rows) c a id approve reason).after
    perform-Kept c (authorizes a plan id) =
        (Preserves-authorize_backup_transfer rows c a plan id).after
    perform-Kept c (claims a worker seconds) =
        (Preserves-claim_authorized_backup_transfer rows c a worker seconds).after
    perform-Kept c (guards a plan worker at) = (keeps_guard c a plan worker at).after
    perform-Kept c (fails a plan worker error retry) =
        (Preserves-fail_claimed_backup_transfer rows c a plan worker error retry).after
    perform-Kept c (holds a plan worker error) =
        (Preserves-hold_claimed_backup_transfer_for_reconciliation rows c a plan worker error).after
    perform-Kept c (completes a plan worker receipt) =
        (Preserves-complete_claimed_backup_transfer rows evidence c a plan worker receipt).after
    perform-Kept c (lists a status) = (keeps_list c a status).after
    perform-Kept c (switches a on) = (keeps_switch c a on).after

    run-Kept :
        (s : Store) (ks : List (Clock × Call)) → InDb (Kept rows) s → InDb (Kept rows) (run s ks)
    unfolding run
    run-Kept s [] h = h
    run-Kept s ((c, k) ∷ ks) h = run-Kept (perform c k s) ks (perform-Kept c k s h)

-- The outbox follows the lifecycle: from a store whose rows have different plans and are committed,
-- any calls, returning or raising, move each row of a backup transfer by steps of the automaton
-- alone, keep the rows in their order, and add only rows that were staged with three unused attempts
-- and have moved by such steps since.
pub transfers_evolve :
    (evidence : Evidence) (s : Store) (ks : List (Clock × Call))
    → HasKeys plan_of s.live.backup_transfer_outbox
    → s.durable.backup_transfer_outbox ≡ s.live.backup_transfer_outbox
    → Evolves Moves IsFresh s.live.backup_transfer_outbox
        (run evidence s ks).live.backup_transfer_outbox
transfers_evolve evidence s ks keys saved =
    (run-Kept evidence s.live.backup_transfer_outbox s ks (record {
      in_live = start s keys;
      in_durable =
          subst (λ ts. IsKept plan_of Moves IsFresh s.live.backup_transfer_outbox ts) (sym saved)
            (start s keys);
    })).in_live.evolves
  where
    start :
        (s : Store)
        → HasKeys plan_of s.live.backup_transfer_outbox
        → IsKept plan_of Moves IsFresh s.live.backup_transfer_outbox s.live.backup_transfer_outbox
    start s keys = record {
      evolves = Evolves-same Moves IsFresh s.live.backup_transfer_outbox;
      keys = keys;
    }
