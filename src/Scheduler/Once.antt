-- ===== src/Scheduler/Once.antt =====
-- The dispatches of one schedule in one period (sean_os/scheduler.py).
use iac_ai_runtime.Exec.Preserves.{bind_at, Preserves, preserves_rules}
use iac_ai_runtime.Access.Preserves.{
  InDb, Preserves-begin, Preserves-write, Preserves-audit, Preserves-authorize, Preserves-commit,
  Preserves-rollback,
}
use iac_ai_runtime.Json.{Fields}
use iac_ai_runtime.Db.{Db}
use iac_ai_runtime.Budget.{is_work}
use iac_ai_runtime.Access.{write_access, authorize, audit_uncommitted, audit}
use iac_ai_runtime.Actions.{record_policy_decision}
use iac_ai_runtime.Table.{first}
use iac_ai_runtime.Prelude.{
  eq_refl, String, true, false, none, if◌then◌else◌, ◌≡◌, refl, sym, ap, Option, some, [], ◌∷◌,
  ◌++◌, Bool-cases, inl, inr, is_some, Bool, List, subst, ◌∙◌,
}
use iac_ai_runtime.Exec.{◌>>=◌, ◌>>◌, when, catch, pure, gets, ok}
use iac_ai_runtime.Exec.Laws.{of_ok, bind_ok, pair_left, pair_right}
use iac_ai_runtime.Db.{iac, commit, write, begin, rollback, Method, Store, Clock, Actor}
use iac_ai_runtime.Scheduler.{
  insert_scheduled, Schedule, dispatch_begin, dispatch_once, dispatch_new, is_dispatched,
  scheduled_work,
}

-- The period of the schedule has its row in `schedule_dispatches`.
abbrev pub IsMarked : String → String → Db → Type 0
IsMarked name period d = is_some (first (is_dispatched name period) d.schedule_dispatches) ≡ true

-- What a dispatch of `j` that returned an id did: the work was appended to the queue, and the period is marked.
pub record IsDispatched (c : Clock) (work_id : String) (j : Schedule) (s t : Store) : Type 0 where
  pub queue : t.live.work_queue ≡ s.live.work_queue ++ scheduled_work c work_id j ∷ []
  pub marked : IsMarked j.schedule_name j.period_key t.live
  pub committed : t.durable ≡ t.live
  pub closed : t.is_open ≡ false

module _ (c : Clock) (actor : Actor) (work_id : String) (j : Schedule) where
  dispatch_new_lem :
      (s : Store) {o : Option String} {t : Store}
      → dispatch_new c actor work_id j s ≡ (ok o, t)
      → IsDispatched c work_id j s t
  unfolding dispatch_new insert_scheduled record_policy_decision rollback audit audit_uncommitted
      write commit when ◌>>=◌ is_dispatched first
  dispatch_new_lem s e = elim (Bool-cases (is_some (first (is_work work_id) s.live.work_queue))) [
    | inl taken ↦ absurd (cc (pair_left (rw taken at e)))
    | inr fresh ↦
        let same = pair_right (rw fresh at e) in
        record {
          queue = ap (λ (u : Store). u.live.work_queue) (sym same);
          marked =
              rw
                (
                  sym (ap (λ (u : Store). u.live.schedule_dispatches) same),
                  eq_refl j.schedule_name,
                  eq_refl j.period_key,
                )
                refl;
          committed = sym (ap (λ (u : Store). u.durable) same) ∙ ap (λ (u : Store). u.live) same;
          closed = sym (ap (λ (u : Store). u.is_open) same);
        }
  ]

  -- What follows BEGIN IMMEDIATE.
  abbrev dispatch_open : Method (Option String)
  dispatch_open = do
    exists ← gets (λ s.
        is_some (first (is_dispatched j.schedule_name j.period_key) s.live.schedule_dispatches))
    if exists then commit >> pure none else dispatch_new c actor work_id j

  begun : (s : Store) → s.is_open ≡ false → dispatch_begin s ≡ (ok tt, record s { is_open = true })
  unfolding dispatch_begin begin catch
  begun s closed = rw closed refl

  dispatch_open_lem :
      (s : Store) {x : String} {t : Store}
      → dispatch_open s ≡ (ok (some x), t)
      → IsDispatched c work_id j s t
  unfolding ◌>>=◌
  dispatch_open_lem s rest =
      elim (Bool-cases
        (is_some (first (is_dispatched j.schedule_name j.period_key) s.live.schedule_dispatches))) [
          | inl done ↦ absurd (unfold commit in cc (of_ok (pair_left (rw done at rest))))
          | inr fresh ↦ dispatch_new_lem s (rw fresh at rest)
        ]

  dispatch_once_lem :
      (s : Store) {x : String} {t : Store}
      → dispatch_once c actor work_id j s ≡ (ok (some x), t)
      → IsDispatched c work_id j s t
  unfolding dispatch_once authorize ◌>>=◌ dispatch_begin begin catch rollback
  dispatch_once_lem s e =
      let (_, _, rest) = bind_ok (authorize actor iac [] write_access) _ s e in
      elim (Bool-cases s.is_open) [
        | inl opened ↦ absurd (cc (pair_left (rw opened at rest)))
        | inr closed ↦
            let sent = dispatch_open_lem (record s { is_open = true }) (rw closed at rest) in
            record {
              queue = sent.queue;
              marked = sent.marked;
              committed = sent.committed;
              closed = sent.closed;
            }
      ]

  dispatch_again :
      (t : Store)
      → t.is_open ≡ false
      → IsMarked j.schedule_name j.period_key t.live
      → (dispatch_once c actor work_id j t).1.live.work_queue ≡ t.live.work_queue
  unfolding dispatch_once authorize commit ◌>>=◌
  dispatch_again t closed done =
      bind_at (λ u. u.live.work_queue ≡ t.live.work_queue) (authorize actor iac [] write_access) _ t
        refl (λ a _. rw (begun t closed, done) refl)

  -- A dispatch leaves no transaction open.
  closes : (s : Store) → s.is_open ≡ false → (dispatch_once c actor work_id j s).1.is_open ≡ false
  unfolding dispatch_once authorize commit dispatch_new record_policy_decision rollback audit
      audit_uncommitted write when ◌>>=◌
  closes s closed =
      bind_at (λ u. u.is_open ≡ false) (authorize actor iac [] write_access) _ s closed
        (λ a _.
          rw (begun s closed)
            (elim (Bool-cases (
              is_some
                (first (is_dispatched j.schedule_name j.period_key) s.live.schedule_dispatches))) [
                  | inl done ↦ rw done refl
                  | inr fresh ↦
                      elim (Bool-cases (is_some (first (is_work work_id) s.live.work_queue))) [
                        | inl taken ↦ rw (fresh, taken) refl
                        | inr free ↦ rw (fresh, free) refl
                      ]
                ]))

-- A dispatch with its reading of the clock, its actor, the new id and the schedule.
abbrev pub Attempt : Type 0
Attempt = Clock × Actor × String × Schedule

-- Dispatches in their order, returning or raising.
unfoldable pub attempt_all : List Attempt → Store → Store
attempt_all [] s = s
attempt_all ((c, actor, work_id, j) ∷ xs) s = attempt_all xs (dispatch_once c actor work_id j s).1

module _ (name period : String) where
  marks :
      (c : Clock) (work_id : String) (j : Schedule)
      → Preserves (InDb (IsMarked name period)) (write (insert_scheduled c work_id j))
  unfolding insert_scheduled first
  marks c work_id j = Preserves-write _ (λ d h.
      elim (Bool-cases (
        is_dispatched name period (record {
          schedule_name = j.schedule_name;
          period_key = j.period_key;
          work_id = work_id;
          dispatched_at = c.instant;
        }))) [ inl now ↦ rw now refl | inr not_now ↦ rw not_now h ])

  decides :
      (c : Clock) (actor : Actor) (id : String) (ok_given : Bool) (reason : String)
      (details : Fields)
      → Preserves
          (InDb (IsMarked name period))
          (record_policy_decision c actor id ok_given reason details)
  unfolding record_policy_decision
  decides c actor id ok_given reason details =
      Preserves-audit (λ d rows h. h) c actor _ _ reason _ details

  begins : Preserves (InDb (IsMarked name period)) dispatch_begin
  unfolding dispatch_begin
  begins = search (preserves_rules, Preserves-begin, Preserves-rollback)

  IsMarked-dispatch_once :
      (c : Clock) (actor : Actor) (work_id : String) (j : Schedule)
      → Preserves (InDb (IsMarked name period)) (dispatch_once c actor work_id j)
  unfolding dispatch_once dispatch_new when
  IsMarked-dispatch_once c actor work_id j =
      search
        (
          preserves_rules, Preserves-authorize, Preserves-commit, Preserves-rollback, begins, marks,
          decides,
        )
        depth 14

  IsMarked-attempt_all :
      (xs : List Attempt) (s : Store)
      → s.is_open ≡ false
      → InDb (IsMarked name period) s
      → ((attempt_all xs s).is_open ≡ false) × InDb (IsMarked name period) (attempt_all xs s)
  unfolding attempt_all
  IsMarked-attempt_all [] s closed h = (closed, h)
  IsMarked-attempt_all ((c, actor, work_id, j) ∷ xs) s closed h =
      IsMarked-attempt_all xs _ (closes c actor work_id j s closed)
        ((IsMarked-dispatch_once c actor work_id j).after s h)

-- A schedule dispatches one piece of work in a period: a dispatch that returned an id has appended
-- that work to the queue, and after any further dispatches, of any schedules by any actors,
-- returning or raising, a dispatch of the same schedule for the same period, by any actor and
-- whatever its outcome, leaves the queue as it finds it.
pub dispatch_once_twice :
    (c₁ c₂ : Clock) (a₁ a₂ : Actor) (id₁ id₂ : String) (j₁ j₂ : Schedule) (s : Store) {x : String}
    {t : Store} (between : List Attempt)
    → dispatch_once c₁ a₁ id₁ j₁ s ≡ (ok (some x), t)
    → j₂.schedule_name ≡ j₁.schedule_name
    → j₂.period_key ≡ j₁.period_key
    → (t.live.work_queue ≡ s.live.work_queue ++ scheduled_work c₁ id₁ j₁ ∷ [])
      × ((dispatch_once c₂ a₂ id₂ j₂ (attempt_all between t)).1.live.work_queue
          ≡ (attempt_all between t).live.work_queue)
dispatch_once_twice c₁ c₂ a₁ a₂ id₁ id₂ j₁ j₂ s {t = t} between e name period =
    let sent = dispatch_once_lem c₁ a₁ id₁ j₁ s e in
    let both : InDb (IsMarked j₁.schedule_name j₁.period_key) t = record {
      in_live = sent.marked;
      in_durable = subst (IsMarked j₁.schedule_name j₁.period_key) (sym sent.committed) sent.marked;
    } in
    let (closed, kept) =
      IsMarked-attempt_all j₁.schedule_name j₁.period_key between t sent.closed both in
    (
      sent.queue,
      dispatch_again c₂ a₂ id₂ j₂ (attempt_all between t) closed (rw (name, period) kept.in_live),
    )
