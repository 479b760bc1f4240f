-- ===== src/Queue/Claim/Lease.antt =====
-- What `claim_work` has done when it returns a piece of work.
use iac_ai_runtime.Prelude.{
  ℕ, String, true, false, ◌≡◌, refl, sym, ap, ◌∙◌, Option, none, some, Bool-cases, inl, inr,
  is_empty, if◌then◌else◌, arith,
}
use iac_ai_runtime.Exec.{ok, ◌>>=◌}
use iac_ai_runtime.Json.{Fields, end}
use iac_ai_runtime.Exec.Laws.{bind_ok, pair_left, pair_right, of_ok}
use iac_ai_runtime.Table.{first, update}
use iac_ai_runtime.Db.{Actor, Work, Store, Clock, write, commit, begin}
use iac_ai_runtime.Access.{decline, kill_switch_enabled, audit, audit_uncommitted}
use iac_ai_runtime.Budget.{is_work, reserve_cost, reserve_units, book}
use iac_ai_runtime.Queue.Claim.{
  worker_scopes, next_work, take_lease, lease_work, report_claim, grant_work, claim_row, claim_next,
  claim_open, claim_work,
}

-- The work `w` that a claim returned, and the store `t` that it left.
pub record IsClaim (c : Clock) (actor : Actor) (worker : String) (lease_seconds : ℕ) (s : Store)
    (w : Work) (t : Store) : Type 0 where
  pub row : Work
  pub alive : s.live.kill_switch ≡ false
  pub chosen : next_work c.instant (worker_scopes actor) s.live ≡ some row
  pub queue :
      t.live.work_queue
      ≡ update (is_work row.id) (take_lease c worker lease_seconds) s.live.work_queue
  pub returned : first (is_work row.id) t.live.work_queue ≡ some w
  pub committed : t.durable ≡ t.live

module _ (c : Clock) (actor : Actor) (worker : String) (lease_seconds : ℕ) where
  -- Every row of the id of `v` is leased, `w` is the first of them, and all is committed.
  abbrev Granted : Work → Store → Work → Store → Type 0
  Granted v s w t =
      (t.live.work_queue
        ≡ update (is_work v.id) (take_lease c worker lease_seconds) s.live.work_queue)
      × (first (is_work v.id) t.live.work_queue ≡ some w)
      × (t.durable ≡ t.live)

  report_claim_lem :
      (o : Option Work) (s : Store) {w : Work} {t : Store}
      → report_claim c actor worker o s ≡ (ok (some w), t)
      → (o ≡ some w) × (t.live.work_queue ≡ s.live.work_queue) × (t.durable ≡ t.live)
  unfolding report_claim audit audit_uncommitted write commit ◌>>=◌
  report_claim_lem none s e = absurd (cc (pair_left e))
  report_claim_lem (some v) s e =
      let same = pair_right e in
      (
        of_ok (pair_left e),
        sym (ap (λ (u : Store). u.live.work_queue) same),
        sym (ap (λ (u : Store). u.durable) same) ∙ ap (λ (u : Store). u.live) same,
      )

  grant_work_lem :
      (v : Work) (s : Store) {w : Work} {t : Store}
      → grant_work c actor worker lease_seconds v s ≡ (ok (some w), t)
      → Granted v s w t
  unfolding grant_work lease_work write commit ◌>>=◌
  grant_work_lem v s e =
      let (found, same, done) = report_claim_lem _ _ e in (same, rw same found, done)

  decline_lem :
      (action reason : String) (id : Option String) (details : Fields) (s : Store) {w : Work}
      {t : Store}
      → decline c actor action reason id details s ≡ (ok (some w), t)
      → ⊥
  unfolding decline audit audit_uncommitted write commit ◌>>=◌
  decline_lem action reason id details s e = cc (pair_left e)

  reserve_units_lem :
      (v : Work) (units : ℕ) (s : Store) {t : Store}
      → reserve_units c v units s ≡ (ok true, t)
      → t.live.work_queue ≡ s.live.work_queue
  unfolding reserve_units book
  reserve_units_lem v units s e = ground arith

  reserve_cost_lem :
      (v : Work) (s : Store) {t : Store}
      → reserve_cost c v s ≡ (ok true, t)
      → t.live.work_queue ≡ s.live.work_queue
  unfolding reserve_cost reserve_units book ◌>>=◌
  reserve_cost_lem v s e = ground arith

  claim_row_lem :
      (o : Option Work) (s : Store) {w : Work} {t : Store}
      → claim_row c actor worker lease_seconds o s ≡ (ok (some w), t)
      → (v : Work) × (o ≡ some v) × Granted v s w t
  unfolding claim_row decline audit audit_uncommitted write commit ◌>>=◌
  claim_row_lem none s e = absurd (cc (pair_left e))
  claim_row_lem (some v) s {w = w} {t = t} e =
      let (funded, p, q) = bind_ok (reserve_cost c v) _ s e in
      elim (Bool-cases funded) [
        | inl yes_funded ↦
            let (queue, found, done) =
              grant_work_lem v (reserve_cost c v s).1 (rw yes_funded at q) in
            let kept = reserve_cost_lem v s (rw yes_funded at p) in
            (v, refl, (rw kept at queue, found, done))
        | inr not_funded ↦ absurd (cc (pair_left (rw not_funded at q)))
      ]

  claim_next_lem :
      (s : Store) {w : Work} {t : Store}
      → claim_next c actor worker lease_seconds s ≡ (ok (some w), t)
      → (v : Work) × (next_work c.instant (worker_scopes actor) s.live ≡ some v) × Granted v s w t
  unfolding claim_next decline audit audit_uncommitted write commit ◌>>=◌
  claim_next_lem s e = elim (Bool-cases (is_empty (worker_scopes actor))) [
    | inl none_left ↦ absurd (cc (pair_left (rw none_left at e)))
    | inr some_left ↦ claim_row_lem _ s (rw some_left at e)
  ]

  claim_open_lem :
      (s : Store) {w : Work} {t : Store}
      → claim_open c actor worker lease_seconds s ≡ (ok (some w), t)
      → (v : Work) × (next_work c.instant (worker_scopes actor) s.live ≡ some v) × Granted v s w t
  unfolding claim_open begin ◌>>=◌
  claim_open_lem s e = elim (Bool-cases s.is_open) [
    | inl opened ↦ absurd (cc (pair_left (rw opened at e)))
    | inr closed ↦ claim_next_lem (record s { is_open = true }) (rw closed at e)
  ]

  -- A claim that returns a piece of work found the kill switch off, took the row that the query
  -- returns, and left every row of that id leased to the worker and the other rows as they were.
  pub claim_work_lem :
      (s : Store) {w : Work} {t : Store}
      → claim_work c actor worker lease_seconds s ≡ (ok (some w), t)
      → IsClaim c actor worker lease_seconds s w t
  unfolding claim_work kill_switch_enabled decline audit audit_uncommitted write commit ◌>>=◌
  claim_work_lem s e =
      let (killed, p, q) =
        bind_ok kill_switch_enabled
          (λ killed.
            if killed
            then decline c actor "CLAIM_WORK" "Kill switch is ON" none end
            else claim_open c actor worker lease_seconds)
          s e in
      elim (Bool-cases killed) [
        | inl on ↦ absurd (cc (pair_left (rw on at q)))
        | inr off ↦
            let (v, chosen, granted) = claim_open_lem s (rw off at q) in
            record {
              row = v;
              alive = of_ok (pair_left p) ∙ off;
              chosen = chosen;
              queue = granted.0;
              returned = granted.1;
              committed = granted.2;
            }
      ]
