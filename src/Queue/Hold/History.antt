-- ===== src/Queue/Hold/History.antt =====
-- A lease over a history of calls.
use iac_ai_runtime.Access.{deny, audit}
use iac_ai_runtime.Budget.{is_work}
use iac_ai_runtime.Queue.Claim.Lease.{claim_work_lem}
use iac_ai_runtime.Queue.Claim.Exclusive.{id-claim, claim_keeps_IsLeased, claim-IsLeased, IsLeased}
use iac_ai_runtime.Exec.Preserves.{preserves_rules, Preserves}
use iac_ai_runtime.Time.{second, Stamp}
use iac_ai_runtime.Exec.{Error, Result, ok, err}
use iac_ai_runtime.Queue.Claim.{claim_work}
use iac_ai_runtime.Json.{Fields, Json}
use iac_ai_runtime.Queue.Hold.{denies, audits, Held}
use iac_ai_runtime.Access.Preserves.{Preserves-authorize, Preserves-commit, InDb}
use iac_ai_runtime.Db.{AuditResult, write, Work, Scope, Actor, Store, Clock}
use iac_ai_runtime.Queue.{enqueue_work}
use iac_ai_runtime.Prelude.{
  inr, inl, ◌==◌, Bool-cases, ◌++◌, ◌∙◌, eq_iff, sym, subst, ◌*◌, ◌+◌, some, none, of_some, refl,
  Option, ◌<◌, ℕ, String, ◌≡◌, ◌≢◌, List, [], ◌∷◌, All,
}
use iac_ai_runtime.Queue.History.{Call, enqueues, claims, blocks, completes, fails, perform, run}
use iac_ai_runtime.Queue.Hold.Calls.{
  IsOther, enqueues_at, holds-claim_work, holds-block_work, holds-complete_work, holds-fail_work,
}

module _ (id owner : String) (until : ℕ) where
  -- A call that leaves a lease alone: one by another worker or about other work, a claim by
  -- anybody while the lease runs, and a new piece of work with an id of its own.
  abbrev pub IsForeign : Clock × Call → Type 0
  IsForeign (c, enqueues a new kind scope payload priority n at) = new ≢ id
  IsForeign (c, claims a worker l) = c.instant < until
  IsForeign (c, blocks a about worker reason b) = IsOther id owner until about worker
  IsForeign (c, completes a about worker result) = IsOther id owner until about worker
  IsForeign (c, fails a about worker error n) = IsOther id owner until about worker

  said :
      (c : Clock) (a : Actor) (action : String) (r : AuditResult) (reason : String)
      (about : Option String) (details : Fields)
      → Preserves (InDb (Held id owner until)) (audit c a action r reason about details)
  said = audits id owner until

  refused :
      {A : Type 0} (c : Clock) (a : Actor) (action reason : String) (about : Option String)
      (details : Fields) (e : Error)
      → Preserves (InDb (Held id owner until)) (deny {A = A} c a action reason about details e)
  refused = denies id owner until

  adds :
      (row : Work)
      → row.id ≢ id
      → Preserves
          (InDb (Held id owner until))
          (write (λ d. record d { work_queue = d.work_queue ++ row ∷ [] }))
  unfolding is_work
  adds row apart = enqueues_at id owner until row (elim (Bool-cases (row.id == id)) [
    | inl same ↦ absurd (apart ((eq_iff row.id id).0 same))
    | inr other ↦ other
  ])

  holds-enqueue_work :
      (c : Clock) (a : Actor) (new kind : String) (scope : Scope) (payload : Json) (priority n : ℕ)
      (at : Option Stamp)
      → new ≢ id
      → Preserves
          (InDb (Held id owner until))
          (enqueue_work c a new kind scope payload priority n at)
  unfolding enqueue_work
  holds-enqueue_work c a new kind scope payload priority n at apart =
      search (preserves_rules, Preserves-commit, Preserves-authorize, adds, said, refused, apart)
        depth 12

  holds-perform :
      (c : Clock) (k : Call) (s : Store)
      → IsForeign (c, k)
      → InDb (Held id owner until) s
      → InDb (Held id owner until) (perform c k s)
  unfolding perform
  holds-perform c (enqueues a new kind scope payload priority n at) s f h =
      (holds-enqueue_work c a new kind scope payload priority n at f).after s h
  holds-perform c (claims a worker l) s f h =
      (holds-claim_work id owner until c a worker l f).after s h
  holds-perform c (blocks a about worker reason b) s f h =
      (holds-block_work id owner until c a about worker f reason b).after s h
  holds-perform c (completes a about worker result) s f h =
      (holds-complete_work id owner until c a about worker f result).after s h
  holds-perform c (fails a about worker error n) s f h =
      (holds-fail_work id owner until c a about worker f error n).after s h

  holds-run :
      (s : Store) (ks : List (Clock × Call))
      → All IsForeign ks
      → InDb (Held id owner until) s
      → InDb (Held id owner until) (run s ks)
  unfolding run
  holds-run s [] f h = h
  holds-run s ((c, k) ∷ ks) f h = holds-run (perform c k s) ks f.1 (holds-perform c k s f.0 h)

-- A lease is kept: once a claim has returned a piece of work, and after any calls that are claims
-- made before the lease ends, new work under other ids, or ends of work by other workers or about
-- other work, returning or raising, every row of the id, in what the connection sees and in what is
-- committed, is RUNNING under the lease of that worker, with the end that it had.
pub lease_is_kept :
    (c : Clock) (actor : Actor) (worker : String) (l : ℕ) (s : Store) (w : Work) (t : Store)
    (ks : List (Clock × Call))
    → claim_work c actor worker l s ≡ (ok (some w), t)
    → All (IsForeign w.id worker (c.instant + l * second)) ks
    → InDb (IsLeased w.id worker (c.instant + l * second)) (run t ks)
lease_is_kept c actor worker l s w t ks e foreign =
    let claim = claim_work_lem c actor worker l s e in
    let leased = claim-IsLeased c actor worker l claim in
    holds-run w.id worker (c.instant + l * second) t ks foreign (record {
      in_live = leased;
      in_durable =
          subst (IsLeased w.id worker (c.instant + l * second)) (sym claim.committed) leased;
    })

-- The id of the work that a claim returned.
abbrev pub claimed_id : Result (Option Work) → Option String
claimed_id (ok (some w)) = some w.id
claimed_id _ = none

claimed_work :
    (r : Result (Option Work)) (id : String)
    → claimed_id r ≡ some id
    → (x : Work) × (r ≡ ok (some x)) × (x.id ≡ id)
claimed_work (ok (some w)) id e = (w, refl, of_some e)
claimed_work (ok none) id e = absurd (cc e)
claimed_work (err x) id e = absurd (cc e)

-- A worker that claimed a piece of work holds it alone: after such calls, no claim made before the
-- lease ends, by any worker and whatever its outcome, returns the same piece of work.
pub lease_is_exclusive :
    (c₁ c₂ : Clock) (a₁ a₂ : Actor) (worker₁ worker₂ : String) (l₁ l₂ : ℕ) (s : Store) (w : Work)
    (t : Store) (ks : List (Clock × Call))
    → claim_work c₁ a₁ worker₁ l₁ s ≡ (ok (some w), t)
    → All (IsForeign w.id worker₁ (c₁.instant + l₁ * second)) ks
    → c₂.instant < c₁.instant + l₁ * second
    → claimed_id (claim_work c₂ a₂ worker₂ l₂ (run t ks)).0 ≢ some w.id
lease_is_exclusive c₁ c₂ a₁ a₂ worker₁ worker₂ l₁ l₂ s w t ks e foreign early returned =
    let after = lease_is_kept c₁ a₁ worker₁ l₁ s w t ks e foreign in
    let answer = claim_work c₂ a₂ worker₂ l₂ (run t ks) in
    let (x, f, same) = claimed_work answer.0 w.id returned in
    let second_claim =
      claim_work_lem c₂ a₂ worker₂ l₂ (run t ks) {w = x} {t = answer.1} (λ i. (f i, answer.1)) in
    let (other, _) =
      claim_keeps_IsLeased c₂ a₂ worker₂ l₂ second_claim w.id worker₁ (c₁.instant + l₁ * second)
        early after.in_live in
    absurd (
      unfold is_work in
      cc (other, (eq_iff _ _).1 (sym (id-claim c₂ a₂ worker₂ l₂ second_claim) ∙ same)))
