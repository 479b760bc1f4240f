-- ===== src/Queue/Hold/Calls.antt =====
-- The calls of other workers, or about other work, on the queue of sean_os/store.py, and a lease
-- that runs.
use iac_ai_runtime.Table.{update, count_rows, first}
use iac_ai_runtime.Security.{safe_persisted_text}
use iac_ai_runtime.Json.{Json}
use iac_ai_runtime.Budget.{is_work}
use iac_ai_runtime.Exec.Laws.{of_ok}
use iac_ai_runtime.Db.{rollback, write, Store, Work, WorkStatus, Actor, Clock, commit}
use iac_ai_runtime.Queue.Claim.Exclusive.{LeasedRow}
use iac_ai_runtime.Queue.Claim.{
  claim_row, next_work, worker_scopes, claim_next, claim_open, claim_work,
}
use iac_ai_runtime.Access.Preserves.{
  Preserves-write, Preserves-begin, Preserves-rollback, InDb, Preserves-kill_switch_enabled,
  Preserves-commit,
}
use iac_ai_runtime.Queue.Finish.{
  set_failed, complete_work, update_held, block_work, fail_work, is_held, set_succeeded, fail_held,
  set_blocked,
}
use iac_ai_runtime.Exec.{◌>>=◌, gets, raise}
use iac_ai_runtime.Table.Laws.{All-append, first_holds, first-All}
use iac_ai_runtime.Prelude.{
  ◌++◌, sym, ◌==◌, eq_iff, false, arith, nat_eq, true, is_empty, Bool-cases, ◌<◌, ℕ, String, Bool,
  ◌≡◌, ◌≢◌, ◌⊎◌, inl, inr, refl, [], ◌∷◌, Option, none, some,
}
use iac_ai_runtime.Exec.Preserves.{
  Preserves-raise, Preserves-bind, Preserves, preserves_rules, bind_at,
}
use iac_ai_runtime.Queue.Hold.{Held, audits, declines, denies, updates, settles, keeps, claims_next}

module _ (id owner : String) (until : ℕ) where
  module _ (c : Clock) (a : Actor) (worker : String) (l : ℕ) (early : c.instant < until) where
    claims_inside : Preserves (InDb (Held id owner until)) (claim_next c a worker l)
    unfolding claim_next
    claims_inside = record {
      after = λ s h. elim (Bool-cases (is_empty (worker_scopes a))) [
        | inl e ↦ rw e (
            (Preserves-bind commit _ Preserves-commit
                (λ _. declines id owner until c a _ _ _ _)).after
              s h)
        | inr e ↦ rw e (
            bind_at (InDb (Held id owner until))
              (gets (λ t. next_work c.instant (worker_scopes a) t.live)) (claim_row c a worker l) s
              (unfold gets in h)
              (λ o found.
                unfold gets in claims_next id owner until c a worker l early s o h (of_ok found)))
      ];
    }

    claims_open : Preserves (InDb (Held id owner until)) (claim_open c a worker l)
    unfolding claim_open
    claims_open = search (preserves_rules, Preserves-begin, claims_inside)

    pub holds-claim_work : Preserves (InDb (Held id owner until)) (claim_work c a worker l)
    unfolding claim_work
    holds-claim_work =
        search (preserves_rules, Preserves-kill_switch_enabled, declines, claims_open)

  -- A call about a piece of work by a worker is no call of the owner about this one.
  abbrev pub IsOther : String → String → Type 0
  IsOther about worker = (about ≢ id) ⊎ (worker ≢ owner)

  held_id :
      (about worker : String) (w : Work)
      → about ≡ id
      → is_held about worker w ≡ true
      → is_work id w ≡ true
  unfolding is_held is_work
  held_id about worker w same hit = ground (arith, eq_iff w.id id, eq_iff w.id about)

  not_held :
      (about worker : String) (w : Work)
      → IsOther about worker
      → LeasedRow id owner until w
      → is_held about worker w ≡ true
      → is_work id w ≡ false
  unfolding is_held is_work
  not_held about worker w (inl apart) k hit = ground (arith, eq_iff w.id id, eq_iff w.id about)
  not_held about worker w (inr apart) k hit = elim (Bool-cases (w.id == id)) [
    | inl same ↦
        let (r, o, e) = k same in absurd (apart (sym ((eq_iff owner worker).0 (ground (arith)))))
    | inr miss ↦ miss
  ]

  module _ (c : Clock) (a : Actor) (about worker : String) (other : IsOther about worker) where
    holds-update_held :
        (f : Work → Work)
        → ((w : Work) → (f w).id ≡ w.id)
        → Preserves (InDb (Held id owner until)) (update_held about worker f)
    unfolding update_held
    holds-update_held f same = record {
      after = λ s h.
          elim (Bool-cases (nat_eq (count_rows (is_held about worker) s.live.work_queue) 1)) [
            | inl e ↦ rw e (
                (updates id owner until (is_held about worker) f (λ w k hit.
                    keeps id owner until f w (same w) (not_held about worker w other k hit))).after
                  s h)
            | inr e ↦
                rw e (
                  (Preserves-bind rollback _ Preserves-rollback (λ _. Preserves-raise _)).after s h)
          ];
    }

    blocks_held :
        (b : Bool) (said : String)
        → Preserves (InDb (Held id owner until)) (update_held about worker (set_blocked c b said))
    blocks_held b said = holds-update_held (set_blocked c b said) (λ w. refl)

    completes_held :
        (result : Json)
        → Preserves (InDb (Held id owner until)) (update_held about worker (set_succeeded c result))
    completes_held result = holds-update_held (set_succeeded c result) (λ w. refl)

    pub holds-block_work :
        (reason : String) (b : Bool)
        → Preserves (InDb (Held id owner until)) (block_work c a about worker reason b)
    unfolding block_work
    holds-block_work reason b =
        search (preserves_rules, Preserves-commit, blocks_held, settles, audits) depth 9

    pub holds-complete_work :
        (result : Json)
        → Preserves (InDb (Held id owner until)) (complete_work c a about worker result)
    unfolding complete_work
    holds-complete_work result =
        search (preserves_rules, Preserves-commit, completes_held, settles, audits, denies) depth 9

    fails_rows :
        (status : WorkStatus) (n : ℕ) (said : String)
        → about ≢ id
        → Preserves (InDb (Held id owner until)) (
            write (λ d. record d {
              work_queue = update (is_work about) (set_failed c status n said) d.work_queue;
            }))
    unfolding is_work
    fails_rows status n said apart =
        updates id owner until (is_work about) (set_failed c status n said) (λ w k hit.
          keeps id owner until (set_failed c status n said) w refl
            (ground (arith, eq_iff w.id about, eq_iff w.id id)))

    -- A row that the owner does not hold, and the UPDATE of all rows of its id.
    fails_some :
        (said : String) (n : ℕ) (w : Work)
        → about ≢ id
        → Preserves (InDb (Held id owner until)) (fail_held c a about worker said n (some w))
    unfolding fail_held
    fails_some said n w apart =
        search (preserves_rules, Preserves-commit, fails_rows, settles, audits) depth 9

    fails_other :
        (w : Work) (s : Store)
        → Held id owner until s.live
        → first (is_held about worker) s.live.work_queue ≡ some w
        → about ≢ id
    fails_other w s h e same =
        let row =
          first-All (LeasedRow id owner until) (is_held about worker) s.live.work_queue h e in
        let hit = first_holds (is_held about worker) s.live.work_queue e in
        absurd (cc (not_held about worker w other row hit, held_id about worker w same hit))

    fails_row :
        (said : String) (n : ℕ) (o : Option Work) (s : Store)
        → InDb (Held id owner until) s
        → first (is_held about worker) s.live.work_queue ≡ o
        → InDb (Held id owner until) (fail_held c a about worker said n o s).1
    fails_row said n none s h e = unfold fail_held raise in h
    fails_row said n (some w) s h e = (fails_some said n w (fails_other w s h.in_live e)).after s h

    pub holds-fail_work :
        (error : String) (n : ℕ)
        → Preserves (InDb (Held id owner until)) (fail_work c a about worker error n)
    unfolding fail_work
    holds-fail_work error n = record {
      after =
          λ s h. unfold gets ◌>>=◌ in fails_row (safe_persisted_text s.patterns error) n _ s h refl;
    }

  pub enqueues_at :
      (row : Work)
      → is_work id row ≡ false
      → Preserves
          (InDb (Held id owner until))
          (write (λ d. record d { work_queue = d.work_queue ++ row ∷ [] }))
  enqueues_at row apart = Preserves-write _ (λ d h.
      All-append (LeasedRow id owner until) d.work_queue (row ∷ []) h
        ((λ hit. absurd (cc (apart, hit))), tt))
