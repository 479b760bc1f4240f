-- ===== src/Queue/Claim/Exclusive.antt =====
-- The lease that `claim_work` of sean_os/store.py leaves, and what another claim does to it.
use iac_ai_runtime.Prelude.{
  ℕ, ◌+◌, ◌*◌, ◌<◌, String, true, false, ◌≡◌, refl, sym, ap, subst, some, List, [], ◌∷◌, Bool-cases,
  inl, inr, arith, All, eq_iff,
}
use iac_ai_runtime.Time.{second}
use iac_ai_runtime.Table.{select}
use iac_ai_runtime.Table.Laws.{first_by-All, select-All, update-All, first_holds}
use iac_ai_runtime.Db.{Scope, Actor, Work, running, Db, Store, Clock}
use iac_ai_runtime.Budget.{is_work}
use iac_ai_runtime.Queue.Claim.{is_claimable, claims_before, worker_scopes, next_work, take_lease}
use iac_ai_runtime.Queue.Claim.Lease.{IsClaim}

-- Every row of the id is RUNNING under a lease of the worker that ends at `until`.
abbrev pub LeasedRow : String → String → ℕ → Work → Type 0
LeasedRow id worker until w =
    is_work id w ≡ true
    → (w.status ≡ running) × (w.lease_owner ≡ some worker) × (w.lease_expires_at ≡ some until)

abbrev pub IsLeased : String → String → ℕ → Db → Type 0
IsLeased id worker until d = All (LeasedRow id worker until) d.work_queue

-- The row that the query of a claim returns stood in the queue and satisfied its conditions.
pub next_work_lem {κ} :
    (P : Work → Type κ) (stamp : ℕ) (within : List Scope) (d : Db) {v : Work}
    → All P d.work_queue
    → next_work stamp within d ≡ some v
    → P v × (is_claimable stamp within v ≡ true)
unfolding next_work
next_work_lem P stamp within d h e =
    first_by-All (λ v. P v × (is_claimable stamp within v ≡ true)) claims_before
      (select (is_claimable stamp within) d.work_queue)
      (select-All P (is_claimable stamp within) d.work_queue h) e

-- A row under a lease that still runs cannot be claimed.
pub leased_not_claimable :
    (id worker : String) (until stamp : ℕ) (within : List Scope) (v : Work)
    → LeasedRow id worker until v
    → is_claimable stamp within v ≡ true
    → stamp < until
    → is_work id v ≡ false
unfolding is_claimable
leased_not_claimable id worker until stamp within v h e early = elim (Bool-cases (is_work id v)) [
  | inl hit ↦ let (r, o, l) = h hit in absurd (ground arith)
  | inr miss ↦ miss
]

All-rows : (q : List Work) → All (λ (w : Work). Unit {0}) q
All-rows [] = tt
All-rows (w ∷ q) = (tt, All-rows q)

module _ (c : Clock) (actor : Actor) (worker : String) (lease_seconds : ℕ) {s : Store} {w : Work}
    {t : Store} (claim : IsClaim c actor worker lease_seconds s w t) where
  pub id-claim : w.id ≡ claim.row.id
  unfolding is_work
  id-claim = (eq_iff _ _).0 (first_holds (is_work claim.row.id) _ claim.returned)

  -- The claim leaves the row leased to its worker.
  pub claim-IsLeased : IsLeased w.id worker (c.instant + lease_seconds * second) t.live
  unfolding take_lease is_work
  claim-IsLeased =
      subst (All (LeasedRow w.id worker (c.instant + lease_seconds * second))) (sym claim.queue) (
        update-All (λ _. Unit {0}) _ (is_work claim.row.id) (take_lease c worker lease_seconds)
          s.live.work_queue (λ v _ hit _. (refl, refl, refl))
          (λ v _ miss hit. absurd (cc (ap (λ id. is_work id v) id-claim)))
          (All-rows s.live.work_queue))

  pub claim_keeps_IsLeased :
      (id owner : String) (until : ℕ)
      → c.instant < until
      → IsLeased id owner until s.live
      → (is_work id claim.row ≡ false) × IsLeased id owner until t.live
  unfolding take_lease is_work
  claim_keeps_IsLeased id owner until early h =
      let (row, open_row) =
        next_work_lem (LeasedRow id owner until) c.instant (worker_scopes actor) s.live h
          claim.chosen in
      let other =
        leased_not_claimable id owner until c.instant (worker_scopes actor) claim.row row open_row
          early in
      (
        other,
        subst (All (LeasedRow id owner until)) (sym claim.queue) (
            update-All (LeasedRow id owner until) (LeasedRow id owner until) (is_work claim.row.id)
              (take_lease c worker lease_seconds) s.live.work_queue
              (λ v k hit same.
                absurd (
                  ground (arith, eq_iff v.id claim.row.id, eq_iff v.id id, eq_iff claim.row.id id)))
              (λ v k miss. k) h),
      )
