-- ===== src/Queue/Claim/Progress.antt =====
-- When `claim_work` in sean_os/store.py gets work done.
use iac_ai_runtime.Json.{Fields, obj, null, get_field, float_of, end}
use iac_ai_runtime.Access.{decline, audit_uncommitted, kill_switch_enabled, audit}
use iac_ai_runtime.Prelude.{
  ap, true, Option-cases, eq_iff, ◌==◌, none, some, [], ◌∷◌, ℕ, String, false, ◌≡◌, inl, inr, refl,
  sym, subst, List, arith, All, Option, is_some, is_empty, nat_eq, not, ◌||◌, eq_refl,
  if◌then◌else◌,
}
use iac_ai_runtime.Exec.{
  Result, err, type_error, operational_error, ok, ◌>>=◌, pure, gets, from_result,
}
use iac_ai_runtime.Table.{first}
use iac_ai_runtime.Table.Laws.{All-map, first_by-All, select-All, first-update, first_holds}
use iac_ai_runtime.Db.{begin, commit, write, Work, Store, Clock, Actor, Db, Scope, has_scope}
use iac_ai_runtime.Budget.{
  is_work, cost_of, lacks_room, is_budget, reserve_cost, reserve_units, book,
}
use iac_ai_runtime.Queue.Claim.{
  claim_work, claim_open, claim_next, claim_row, grant_work, report_claim, next_work, worker_scopes,
  is_claimable, claims_before, take_lease, lease_work,
}

-- A row of the queue is found by its id.
found_by_id : (ws : List Work) → All (λ w. is_some (first (is_work w.id) ws) ≡ true) ws
unfolding first is_work
found_by_id [] = tt
found_by_id (w ∷ ws) =
    (rw (eq_refl w.id) refl, All-map _ _ ws (λ v h. behind w v ws h) (found_by_id ws))
  where
    behind :
        (w v : Work) (ws : List Work)
        → is_some (first (is_work v.id) ws) ≡ true
        → is_some (if w.id == v.id then some w else first (is_work v.id) ws) ≡ true
    behind w v ws h = ground (arith, h)

next_work-found :
    (now : ℕ) (within : List Scope) (d : Db) {v : Work}
    → next_work now within d ≡ some v
    → (is_some (first (is_work v.id) d.work_queue) ≡ true) × (is_claimable now within v ≡ true)
unfolding next_work
next_work-found now within d e =
    first_by-All
      (λ w.
        (is_some (first (is_work w.id) d.work_queue) ≡ true) × (is_claimable now within w ≡ true))
      claims_before _
      (select-All _ (is_claimable now within) d.work_queue (found_by_id d.work_queue)) e

has_scopes :
    (now : ℕ) (within : List Scope) (v : Work)
    → is_claimable now within v ≡ true
    → is_empty within ≡ false
unfolding is_claimable has_scope
has_scopes now [] v e = ground (arith, e)
has_scopes now (x ∷ xs) v e = refl

module _ (c : Clock) (actor : Actor) (worker : String) (seconds : ℕ) where
  -- The work costs nothing, or the budget of its scope for the month has room for it.
  abbrev pub IsPayable : Store → Work → ℕ → Type 0
  IsPayable s v n =
      (nat_eq n 0 || not (lacks_room n (first (is_budget v.owner_scope c.month) s.live.budgets)))
      ≡ true

  reserves :
      (v : Work) (n : ℕ) (s : Store)
      → cost_of v.payload ≡ ok n
      → IsPayable s v n
      → ((reserve_cost c v s).0 ≡ ok true)
        × ((reserve_cost c v s).1.live.work_queue ≡ s.live.work_queue)
  unfolding reserve_cost reserve_units book from_result pure ◌>>=◌
  reserves v n s cost room = rw cost (ground (arith, room))

  -- The method returns `v`'s row under a lease of the worker.
  abbrev pub Returns : Work → Result (Option Work) → Type 0
  Returns v r = (w : Work) × (r ≡ ok (some w)) × (w.id ≡ v.id) × (w.lease_owner ≡ some worker)

  grants :
      (v : Work) (s : Store)
      → is_some (first (is_work v.id) s.live.work_queue) ≡ true
      → Returns v (grant_work c actor worker seconds v s).0
  unfolding grant_work lease_work report_claim audit audit_uncommitted write commit ◌>>=◌ take_lease
      is_work
  grants v s found = elim (Option-cases (first (is_work v.id) s.live.work_queue)) [
    | inl none_found ↦ absurd (cc (rw none_found at found))
    | inr (x, e) ↦
        let leased =
          first-update (is_work v.id) (take_lease c worker seconds) s.live.work_queue (λ y h. h)
            e in
        (
          take_lease c worker seconds x,
          rw leased refl,
          (eq_iff x.id v.id).0 (first_holds (is_work v.id) s.live.work_queue e),
          refl,
        )
  ]

  claims_row :
      (v : Work) (n : ℕ) (s : Store)
      → is_some (first (is_work v.id) s.live.work_queue) ≡ true
      → cost_of v.payload ≡ ok n
      → IsPayable s v n
      → Returns v (claim_row c actor worker seconds (some v) s).0
  unfolding claim_row ◌>>=◌
  claims_row v n s found cost room =
      let (funded, same) = reserves v n s cost room in
      rw funded (grants v (reserve_cost c v s).1 (rw same found))

  claims_next :
      (v : Work) (n : ℕ) (s : Store)
      → next_work c.instant (worker_scopes actor) s.live ≡ some v
      → cost_of v.payload ≡ ok n
      → IsPayable s v n
      → Returns v (claim_next c actor worker seconds s).0
  unfolding claim_next gets ◌>>=◌
  claims_next v n s chosen cost room =
      let (found, claimable) = next_work-found c.instant (worker_scopes actor) s.live chosen in
      rw (has_scopes c.instant (worker_scopes actor) v claimable, chosen)
        (claims_row v n s found cost room)

  claims_open :
      (v : Work) (n : ℕ) (s : Store)
      → s.is_open ≡ false
      → next_work c.instant (worker_scopes actor) s.live ≡ some v
      → cost_of v.payload ≡ ok n
      → IsPayable s v n
      → Returns v (claim_open c actor worker seconds s).0
  unfolding claim_open begin ◌>>=◌
  claims_open v n s closed chosen cost room =
      rw closed (claims_next v n (record s { is_open = true }) chosen cost room)

  -- Work gets done: if the connection is in no transaction, the kill switch is off, the query returns
  -- a piece of work, and that costs nothing or the budget of its scope for the month has room for it,
  -- then the claim returns that piece of work, leased to the worker.
  pub claim_progress :
      (v : Work) (n : ℕ) (s : Store)
      → s.is_open ≡ false
      → s.live.kill_switch ≡ false
      → next_work c.instant (worker_scopes actor) s.live ≡ some v
      → cost_of v.payload ≡ ok n
      → IsPayable s v n
      → Returns v (claim_work c actor worker seconds s).0
  unfolding claim_work kill_switch_enabled gets ◌>>=◌
  claim_progress v n s closed alive chosen cost room =
      subst
        (λ killed.
          Returns v
            ((if killed
                then decline c actor "CLAIM_WORK" "Kill switch is ON" none end
                else claim_open c actor worker seconds)
              s).0)
        (sym alive) (claims_open v n s closed chosen cost room)

  jams_open :
      (v : Work) (fs : Fields) (s : Store)
      → s.is_open ≡ false
      → next_work c.instant (worker_scopes actor) s.live ≡ some v
      → v.payload ≡ obj fs
      → get_field "estimated_cost_units" fs ≡ some null
      → claim_open c actor worker seconds s ≡ (err type_error, record s { is_open = true })
  unfolding claim_open begin claim_next claim_row reserve_cost cost_of float_of from_result gets
      ◌>>=◌
  jams_open v fs s closed chosen payload cost =
      let (_, claimable) = next_work-found c.instant (worker_scopes actor) s.live chosen in
      rw (closed, has_scopes c.instant (worker_scopes actor) v claimable, chosen, payload, cost)
        refl

  jams :
      (v : Work) (fs : Fields) (s : Store)
      → s.is_open ≡ false
      → s.live.kill_switch ≡ false
      → next_work c.instant (worker_scopes actor) s.live ≡ some v
      → v.payload ≡ obj fs
      → get_field "estimated_cost_units" fs ≡ some null
      → claim_work c actor worker seconds s ≡ (err type_error, record s { is_open = true })
  unfolding claim_work kill_switch_enabled gets ◌>>=◌
  jams v fs s closed alive chosen payload cost =
      subst
        (λ killed.
          (if killed
              then decline c actor "CLAIM_WORK" "Kill switch is ON" none end
              else claim_open c actor worker seconds)
            s
          ≡ (err type_error, record s { is_open = true }))
        (sym alive) (jams_open v fs s closed chosen payload cost)

  refused_open :
      (s : Store)
      → s.is_open ≡ true
      → s.live.kill_switch ≡ false
      → (claim_work c actor worker seconds s).0 ≡ err operational_error
  unfolding claim_work claim_open begin kill_switch_enabled gets ◌>>=◌
  refused_open s opened alive =
      subst
        (λ killed.
          ((if killed
              then decline c actor "CLAIM_WORK" "Kill switch is ON" none end
              else claim_open c actor worker seconds)
            s).0
          ≡ err operational_error)
        (sym alive) (rw opened refl)

-- One piece of work whose cost is null stops the connection: if it is in no transaction, the kill
-- switch is off and the query returns work whose `estimated_cost_units` is null, then the claim
-- raises a TypeError and changes no table, and every claim on the connection right after it, by any
-- actor and worker at any time, raises an OperationalError.
pub claim_work_jams :
    (c₁ c₂ : Clock) (a₁ a₂ : Actor) (worker₁ worker₂ : String) (l₁ l₂ : ℕ) (v : Work) (fs : Fields)
    (s : Store)
    → s.is_open ≡ false
    → s.live.kill_switch ≡ false
    → next_work c₁.instant (worker_scopes a₁) s.live ≡ some v
    → v.payload ≡ obj fs
    → get_field "estimated_cost_units" fs ≡ some null
    → ((claim_work c₁ a₁ worker₁ l₁ s).0 ≡ err type_error)
      × ((claim_work c₁ a₁ worker₁ l₁ s).1.live ≡ s.live)
      × ((claim_work c₂ a₂ worker₂ l₂ (claim_work c₁ a₁ worker₁ l₁ s).1).0 ≡ err operational_error)
claim_work_jams c₁ c₂ a₁ a₂ worker₁ worker₂ l₁ l₂ v fs s closed alive chosen payload cost =
    let first_claim = jams c₁ a₁ worker₁ l₁ v fs s closed alive chosen payload cost in
    (
      ap (λ (p : Result (Option Work) × Store). p.0) first_claim,
      ap (λ (p : Result (Option Work) × Store). p.1.live) first_claim,
      subst
          (λ (p : Result (Option Work) × Store).
            (claim_work c₂ a₂ worker₂ l₂ p.1).0 ≡ err operational_error)
          (sym first_claim)
          (refused_open c₂ a₂ worker₂ l₂ (record s { is_open = true }) refl alive),
    )
