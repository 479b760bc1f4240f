-- ===== src/Queue/Claim/Next.antt =====
-- Which piece of work `claim_work` of sean_os/store.py takes, and what it makes of it.
use iac_ai_runtime.Prelude.{
  ℕ, ◌+◌, ◌*◌, ◌≤◌, ◌<◌, String, true, false, ◌≡◌, ◌⊎◌, inl, inr, refl, sym, ap, ◌∙◌, subst, some,
  List, [], ◌∷◌, All, arith, Bool-cases, of_some, Option, none, ◌↔◌, ◌&&◌,
}
use iac_ai_runtime.Time.{utc, text_leb, second}
use iac_ai_runtime.Exec.{ok}
use iac_ai_runtime.Table.{first}
use iac_ai_runtime.Table.Laws.{All-map, first_by-least, All-unselect, first-update}
use iac_ai_runtime.Db.{
  Scope, has_scope, scope_eq, scope_eq_iff, scopes, Actor, Db, Work, queued, running, Store, Clock,
}
use iac_ai_runtime.Budget.{is_work}
use iac_ai_runtime.Queue.{is_queued, is_running, lease_over}
use iac_ai_runtime.Db.{WorkStatus}
use iac_ai_runtime.Queue.Claim.{
  is_claimable, claims_before, select_scopes, worker_scopes, next_work, take_lease, claim_work,
}
use iac_ai_runtime.Queue.Claim.Lease.{claim_work_lem}
use iac_ai_runtime.Queue.Claim.Exclusive.{id-claim, next_work_lem}

-- The actor works in this scope: Sean in every scope there is, another one in those of its own.
abbrev pub Serves : Actor → Scope → Type 0
Serves actor x =
    (has_scope x scopes ≡ true) × ((actor.is_sean ≡ true) ⊎ (has_scope x actor.scopes ≡ true))

-- The lease has an end, and it is reached.
pub record HasEnded (o : Option ℕ) (now : ℕ) : Type 0 where
  pub end : ℕ
  pub is_end : o ≡ some end
  pub reached : end ≤ now

-- The row waits in the queue and its time has come, or it is RUNNING and its lease is over.
abbrev pub IsDue : ℕ → Work → Type 0
IsDue now w =
    ((w.status ≡ queued) × (text_leb w.available_at (utc now) ≡ true))
    ⊎ ((w.status ≡ running) × HasEnded w.lease_expires_at now)

-- The row `v` comes no later than `x`: it has a lower number, or the same one and is no younger.
abbrev pub ComesFirst : Work → Work → Type 0
ComesFirst v x =
    (v.priority < x.priority) ⊎ ((v.priority ≡ x.priority) × (v.created_at ≤ x.created_at))

has_scope-select :
    (x : Scope) (xs : List Scope)
    → has_scope x (select_scopes xs) ≡ (has_scope x xs && has_scope x scopes)
unfolding select_scopes has_scope
has_scope-select x [] = refl
has_scope-select x (y ∷ ys) = elim (Bool-cases (scope_eq y x)) [
  | inl hit ↦
      let same : y ≡ x = (scope_eq_iff y x).0 hit in
      ground (arith, same, hit, has_scope-select x ys)
  | inr miss ↦ ground (arith, miss, has_scope-select x ys)
]

worker_scopes-Serves :
    (actor : Actor) (x : Scope) → (has_scope x (worker_scopes actor) ≡ true) ↔ Serves actor x
unfolding worker_scopes
worker_scopes-Serves actor x = (there, back)
  where
    there : has_scope x (worker_scopes actor) ≡ true → Serves actor x
    there e = ground (arith, has_scope-select x actor.scopes)

    back : Serves actor x → has_scope x (worker_scopes actor) ≡ true
    back h = ground (arith, h, has_scope-select x actor.scopes)

queued_iff : (status : WorkStatus) → (is_queued status ≡ true) ↔ (status ≡ queued)
queued_iff queued = ((λ e. refl), (λ e. refl))
queued_iff _ = ground arith

running_iff : (status : WorkStatus) → (is_running status ≡ true) ↔ (status ≡ running)
running_iff running = ((λ e. refl), (λ e. refl))
running_iff _ = ground arith

lease_over_iff : (o : Option ℕ) (now : ℕ) → (lease_over o now ≡ true) ↔ HasEnded o now
lease_over_iff none now = ((λ e. absurd (cc e)), (λ h. absurd (cc (h.is_end))))
lease_over_iff (some e) now = (
  (λ h. record { end = e; is_end = refl; reached = ground arith }),
  (λ h. let same : e ≡ h.end = of_some h.is_end in let early = h.reached in ground arith),
)

claimable_iff :
    (now : ℕ) (within : List Scope) (w : Work)
    → (is_claimable now within w ≡ true) ↔ (IsDue now w × (has_scope w.owner_scope within ≡ true))
unfolding is_claimable
claimable_iff now within w = (there, back)
  where
    there : is_claimable now within w ≡ true → IsDue now w × (has_scope w.owner_scope within ≡ true)
    there e = elim (Bool-cases (is_queued w.status && text_leb w.available_at (utc now))) [
      | inl waits ↦
          (inl ((queued_iff w.status).0 (ground (arith)), ground (arith)), ground (arith, e))
      | inr miss ↦
          let ended : lease_over w.lease_expires_at now ≡ true = ground (arith) in
          (
            inr (
              (running_iff w.status).0 (ground (arith)),
              (lease_over_iff w.lease_expires_at now).0 ended,
            ),
            ground (arith),
          )
    ]

    back : IsDue now w × (has_scope w.owner_scope within ≡ true) → is_claimable now within w ≡ true
    back (inl (s, t), h) = rw ((queued_iff w.status).1 s, t, h) refl
    back (inr (s, t), h) =
        let old = (running_iff w.status).1 s in
        let ended = (lease_over_iff w.lease_expires_at now).1 t in ground (arith, old, ended, h)

-- What a claim that returned `w` took from the queue, and what it left.
pub record IsNext (c : Clock) (actor : Actor) (worker : String) (l : ℕ) (s : Store) (w : Work)
    (t : Store) : Type 0 where
  pub row : Work
  pub stood : first (is_work w.id) s.live.work_queue ≡ some row
  pub due : IsDue c.instant row
  pub serves : Serves actor row.owner_scope
  pub earliest :
      All
        (λ x. (¬ (IsDue c.instant x × Serves actor x.owner_scope)) ⊎ ComesFirst row x)
        s.live.work_queue
  pub status : w.status ≡ running
  pub owner : w.lease_owner ≡ some worker
  pub end : w.lease_expires_at ≡ some (c.instant + l * second)
  pub attempt : w.attempts ≡ row.attempts + 1
  pub task : (w.task_type ≡ row.task_type) × (w.payload ≡ row.payload)
  pub committed : first (is_work w.id) t.durable.work_queue ≡ some w

classify :
    (now : ℕ) (actor : Actor) (v x : Work)
    → (is_claimable now (worker_scopes actor) x ≡ false) ⊎ (claims_before x v ≡ false)
    → (¬ (IsDue now x × Serves actor x.owner_scope)) ⊎ ComesFirst v x
unfolding claims_before
classify now actor v x (inl closed) = inl (λ (is_due, serving). absurd (
    cc (
      closed,
      (claimable_iff now (worker_scopes actor) x).1
          (is_due, (worker_scopes-Serves actor x.owner_scope).1 serving),
    )))
classify now actor v x (inr later) = inr (ground arith)

earliest_of :
    (now : ℕ) (actor : Actor) (d : Db) {v : Work}
    → next_work now (worker_scopes actor) d ≡ some v
    → All (λ x. (¬ (IsDue now x × Serves actor x.owner_scope)) ⊎ ComesFirst v x) d.work_queue
unfolding next_work claims_before
earliest_of now actor d {v} e = All-map _ _ d.work_queue (classify now actor v) (
    All-unselect (λ x. claims_before x v ≡ false) (is_claimable now (worker_scopes actor))
      d.work_queue
      (first_by-least claims_before (λ x y h. ground (arith, h)) (λ x y z h k. ground (arith, h, k))
        _ e))

-- A claim that returns a piece of work takes the next one: if the ids in the queue are distinct, the
-- row of that id stood QUEUED with its time come, or RUNNING with its lease over, in a scope that
-- the worker's actor serves; no row that is due in such a scope has a lower priority number, or the
-- same one and is older; and the work that is returned is that row RUNNING, leased to the worker for
-- the seconds asked, with one more attempt and the same task and payload, and is committed so.
pub claim_work-IsNext :
    (c : Clock) (actor : Actor) (worker : String) (l : ℕ) (s : Store) (w : Work) (t : Store)
    → All (λ x. first (is_work x.id) s.live.work_queue ≡ some x) s.live.work_queue
    → claim_work c actor worker l s ≡ (ok (some w), t)
    → IsNext c actor worker l s w t
unfolding take_lease is_work
claim_work-IsNext c actor worker l s w t keyed e =
    let claim = claim_work_lem c actor worker l s e in
    let (found, open_row) =
      next_work_lem (λ x. first (is_work x.id) s.live.work_queue ≡ some x) c.instant
        (worker_scopes actor) s.live keyed claim.chosen in
    let (is_due, in_scope) = (claimable_iff c.instant (worker_scopes actor) claim.row).0 open_row in
    let same_id = id-claim c actor worker l claim in
    let taken : w ≡ take_lease c worker l claim.row = of_some (
      sym claim.returned
      ∙ ap (first (is_work claim.row.id)) claim.queue
      ∙ first-update (is_work claim.row.id) (take_lease c worker l) s.live.work_queue (λ y h. h)
          found) in
    record {
      row = claim.row;
      stood = subst (λ i. first (is_work i) s.live.work_queue ≡ some claim.row) (sym same_id) found;
      due = is_due;
      serves = (worker_scopes-Serves actor claim.row.owner_scope).0 in_scope;
      earliest = earliest_of c.instant actor s.live claim.chosen;
      status = ap (λ (x : Work). x.status) taken;
      owner = ap (λ (x : Work). x.lease_owner) taken;
      end = ap (λ (x : Work). x.lease_expires_at) taken;
      attempt = ap (λ (x : Work). x.attempts) taken;
      task = (ap (λ (x : Work). x.task_type) taken, ap (λ (x : Work). x.payload) taken);
      committed =
          subst (λ (d : Db). first (is_work w.id) d.work_queue ≡ some w) (sym claim.committed)
            (subst (λ i. first (is_work i) t.live.work_queue ≡ some w) (sym same_id)
              claim.returned);
    }
