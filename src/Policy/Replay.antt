-- ===== src/Policy/Replay.antt =====
-- What the receipt of an execution (sean_os/policy.py, sean_os/store.py) is good for: the action is
-- not run again.
use iac_ai_runtime.Table.{first}
use iac_ai_runtime.Table.Laws.{first_holds, first-All}
use iac_ai_runtime.Db.{Method, Db, Execution, Store, Work, Actor, Clock, commit, write}
use iac_ai_runtime.Access.{audit_uncommitted, audit, deny}
use iac_ai_runtime.Access.Preserves.{InDb, Preserves-audit, Preserves-kill_switch_enabled}
use iac_ai_runtime.Approvals.Preserves.{IgnoresApprovals, Preserves-consume_approval}
use iac_ai_runtime.Approvals.Consume.{Use, consume_approval}
use iac_ai_runtime.Security.{has_secret}
use iac_ai_runtime.Budget.{is_work}
use iac_ai_runtime.Exec.{authorization_error, policy_denied, raise, pure}
use iac_ai_runtime.Exec.Preserves.{Preserves, preserves_rules}
use iac_ai_runtime.Exec.Laws.{bind_ok, catch_ok, of_ok, pair_left, pair_right}
use iac_ai_runtime.Actions.{
  stored_cost, is_execution, insert_execution, record_policy_decision, record_action_result,
  replay_of, loads, completed_action_result,
}
use iac_ai_runtime.Prelude.{
  ℕ, String, Bool, true, false, ◌≡◌, ◌≢◌, refl, sym, ap, subst, none, some, [], ◌∷◌, ◌==◌, All,
  eq_iff, eq_refl, Bool-cases, Option-cases, not, inl, inr,
}
use iac_ai_runtime.Exec.{Result, ok, Error, ◌>>=◌, ◌>>◌, when, gets, from_result, catch}
use iac_ai_runtime.Policy.{
  ActionPolicy, Handler, Registry, execute, execute_or_replay, run_action, clear_action,
  refuse_action, use_approval, as_denial, policy_for, is_entry,
}
use iac_ai_runtime.Policy.Gate.{clear_action_lem}
use iac_ai_runtime.Json.{Json, null, Fields, str, dict}

-- There is no receipt for the work.
abbrev pub IsUnrecorded : String → Db → Type 0
IsUnrecorded id d = first (is_execution id) d.action_executions ≡ none

-- There is a receipt for the work, with the type of its action and this result.
pub record HasReceipt (w : Work) (r : Json) (t : Store) : Type 0 where
  pub row : Execution
  pub found : first (is_execution w.id) t.live.action_executions ≡ some row
  pub typed : row.task_type ≡ w.task_type
  pub same : row.result ≡ r

-- A handler of the registry writes no receipt for the work itself.
abbrev pub LeavesReceipts : String → ActionPolicy × Handler → Type 0
LeavesReceipts id e = (payload : Json) → Preserves (InDb (IsUnrecorded id)) (e.1 payload)

loads-some : (v : Json) → v ≢ null → loads v ≡ some v
unfolding loads
loads-some null e = absurd (e refl)
loads-some _ e = refl

module _ (c : Clock) (actor : Actor) (w : Work) where
  decides :
      (granted : Bool) (reason : String) (details : Fields)
      → Preserves
          (InDb (IsUnrecorded w.id))
          (record_policy_decision c actor w.id granted reason details)
  unfolding record_policy_decision
  decides granted reason details = Preserves-audit (λ d rows h. h) c actor _ _ reason _ details

  records :
      (r : Json) (s : Store) {u : Unit {0}} {t : Store}
      → IsUnrecorded w.id s.live
      → record_action_result c actor w.id w.task_type r s ≡ (ok u, t)
      → HasReceipt w r t
  unfolding record_action_result gets from_result deny insert_execution first is_execution audit
      audit_uncommitted write commit ◌>>=◌
  records r s {t = t} fresh e = elim (Bool-cases (has_secret s.patterns r)) [
    | inl secret ↦ absurd (cc (pair_left (rw secret at e)))
    | inr clean ↦
        let (_, _, e₁) =
          bind_ok (from_result (stored_cost (first (is_work w.id) s.live.work_queue))) _ s
            (rw clean at e) in
        let same = pair_right (rw fresh at e₁) in
        record {
          row = record {
            work_id = w.id;
            task_type = w.task_type;
            result = r;
            completed_at = c.instant;
          };
          found =
              subst
                (λ (u : Store).
                  first (is_execution w.id) u.live.action_executions
                  ≡ some (record {
                    work_id = w.id;
                    task_type = w.task_type;
                    result = r;
                    completed_at = c.instant;
                  }))
                same (rw (eq_refl w.id) refl);
          typed = refl;
          same = refl;
        }
  ]

  replays :
      (entries : Registry) (r : Json) (t : Store)
      → (w.id == "") ≡ false
      → r ≢ null
      → HasReceipt w r t
      → execute c actor entries w t ≡ (
        ok r,
        (record_policy_decision c actor w.id true
            "Returning durable result; handler replay suppressed"
            (dict (("task_type", str w.task_type) ∷ []))
            t).1,
      )
  unfolding execute execute_or_replay completed_action_result replay_of record_policy_decision audit
      audit_uncommitted write commit ◌>>=◌
  replays entries r t named value receipt =
      let loaded : loads receipt.row.result ≡ some r =
        subst (λ v. loads v ≡ some r) (sym receipt.same) (loads-some r value) in
      rw (named, receipt.found, receipt.typed, eq_refl w.task_type, loaded) refl

  ignores : IgnoresApprovals (IsUnrecorded w.id)
  ignores = record {
    blind_audit = λ d rows h. h;
    blind_approvals = λ d rows h. h;
    blind_records = λ d rows states h. h;
  }

  consumes :
      (id : String) (u : Use) (commits : Bool)
      → Preserves (InDb (IsUnrecorded w.id)) (consume_approval c actor id u commits)
  consumes id u commits = Preserves-consume_approval ignores c actor id u commits

  denials : (e : Error) → Preserves (InDb (IsUnrecorded w.id)) (as_denial e)
  unfolding as_denial
  denials (authorization_error t) = search preserves_rules
  denials (policy_denied t b) = search preserves_rules
  denials _ = search preserves_rules

  clears :
      (entries : Registry) → Preserves (InDb (IsUnrecorded w.id)) (clear_action c actor entries w)
  unfolding clear_action use_approval
  clears entries =
      search (preserves_rules, Preserves-kill_switch_enabled, consumes, denials) depth 14

  refusals :
      (e : Error) (s : Store) {a : (ActionPolicy × Handler) × ℕ}
      → (refuse_action c actor w e s).0 ≡ ok a
      → ⊥
  unfolding refuse_action record_policy_decision audit audit_uncommitted write commit raise ◌>>=◌
  refusals (policy_denied t b) s h = cc h
  refusals _ s h = cc h

  finishes :
      (name : String) (result : Json) (u : Store) {r : Json} {t : Store}
      → (w.id == "") ≡ false
      → name ≡ w.task_type
      → IsUnrecorded w.id u.live
      → (when (not (w.id == "")) (record_action_result c actor w.id name result) >> pure result) u
        ≡ (ok r, t)
      → HasReceipt w r t
  unfolding pure when ◌>>=◌
  finishes name result u {r} {t} named typed fresh e =
      let stores : Method (Unit {0}) =
        when (not (w.id == "")) (record_action_result c actor w.id name result) in
      let (_, stored, e₁) = bind_ok stores (λ _. pure result) u e in
      let receipt : HasReceipt w result (stores u).1 = records result u {t = (stores u).1} fresh (
        subst
          (λ b.
            when (not b) (record_action_result c actor w.id w.task_type result) u
            ≡ (ok tt, (stores u).1))
          named
          (subst
            (λ n.
              when (not (w.id == "")) (record_action_result c actor w.id n result) u
              ≡ (ok tt, (stores u).1))
            typed stored)) in
      subst (HasReceipt w r) (pair_right e₁)
        (subst (λ v. HasReceipt w v (stores u).1) (of_ok (pair_left e₁)) receipt)

  runs :
      (p : ActionPolicy) (h : Handler) (n : ℕ) (s : Store) {r : Json} {t : Store}
      → (w.id == "") ≡ false
      → p.name ≡ w.task_type
      → LeavesReceipts w.id (p, h)
      → InDb (IsUnrecorded w.id) s
      → run_action c actor w ((p, h), n) s ≡ (ok r, t)
      → HasReceipt w r t
  unfolding run_action
  runs p h n s named typed quiet fresh e =
      let (_, _, e₁) = bind_ok (record_policy_decision c actor w.id true _ _) _ s e in
      let (result, _, e₂) = bind_ok (h w.payload) _ _ e₁ in
      finishes p.name result _ named typed
        ((quiet w.payload).after _ ((decides true _ _).after s fresh)).in_live e₂

  entry_lem :
      (entries : Registry) {p : ActionPolicy} {h : Handler}
      → All (LeavesReceipts w.id) entries
      → policy_for entries w.task_type ≡ ok (p, h)
      → (p.name ≡ w.task_type) × LeavesReceipts w.id (p, h)
  unfolding policy_for is_entry
  entry_lem entries quiet e = elim (Option-cases (first (is_entry w.task_type) entries)) [
    | inl missing ↦ absurd (cc (rw missing at e))
    | inr (x, found) ↦
        let same = of_ok (rw found at e) in
        let hit =
          subst (λ y. is_entry w.task_type y ≡ true) same
            (first_holds (is_entry w.task_type) entries found) in
        (
          (eq_iff _ _).0 hit,
          subst (LeavesReceipts w.id) same (first-All _ (is_entry w.task_type) entries quiet found),
        )
  ]

  acts :
      (entries : Registry) (s : Store) {r : Json} {t : Store}
      → (w.id == "") ≡ false
      → IsUnrecorded w.id s.live
      → execute c actor entries w s ≡ (ok r, t)
      → execute_or_replay c actor entries w none s ≡ (ok r, t)
  unfolding execute completed_action_result replay_of from_result ◌>>=◌
  acts entries s named fresh e = rw (named, fresh) at e

  execute_lem :
      (entries : Registry) (s : Store) {r : Json} {t : Store}
      → (w.id == "") ≡ false
      → All (LeavesReceipts w.id) entries
      → InDb (IsUnrecorded w.id) s
      → execute c actor entries w s ≡ (ok r, t)
      → HasReceipt w r t
  unfolding execute_or_replay
  execute_lem entries s named quiet fresh e =
      let gate : Method ((ActionPolicy × Handler) × ℕ) =
        catch (clear_action c actor entries w) (refuse_action c actor w) in
      let (x, cleared, ran) =
        bind_ok gate (run_action c actor w) s (acts entries s named fresh.in_live e) in
      let (answer, same) =
        catch_ok (clear_action c actor entries w) (refuse_action c actor w) s {a = x}
          {t = (gate s).1} (λ y u h. refusals y u h) cleared in
      let found =
        clear_action_lem c actor entries w s {p = x.0.0} {h = x.0.1} {n = x.1}
          {t = (clear_action c actor entries w s).1}
          (λ i. (answer i, (clear_action c actor entries w s).1)) in
      let (typed, silent) = entry_lem entries quiet found.registered in
      runs x.0.0 x.0.1 x.1 (gate s).1 named typed silent
        (subst (InDb (IsUnrecorded w.id)) same ((clears entries).after s fresh)) ran

-- An action is done once: if work with an id had no receipt, in what the connection saw and in what
-- was committed, `execute` returned `r` for it, which is not null, and the handlers of the registry
-- write no receipt for it themselves, then from the store
-- that this run left `execute` returns `r` again, whatever the actor, the registry and its handlers
-- are, and changes nothing but the audit log.
pub execute_twice :
    (c₁ c₂ : Clock) (a₁ a₂ : Actor) (entries₁ entries₂ : Registry) (w : Work) (r : Json)
    (s t : Store)
    → (w.id == "") ≡ false
    → r ≢ null
    → All (LeavesReceipts w.id) entries₁
    → InDb (IsUnrecorded w.id) s
    → execute c₁ a₁ entries₁ w s ≡ (ok r, t)
    → ((execute c₂ a₂ entries₂ w t).0 ≡ ok r)
      × ((execute c₂ a₂ entries₂ w t).1.live
          ≡ record t.live { audit_log = (execute c₂ a₂ entries₂ w t).1.live.audit_log })
unfolding record_policy_decision audit audit_uncommitted write commit ◌>>=◌
execute_twice c₁ c₂ a₁ a₂ entries₁ entries₂ w r s t named value quiet fresh e =
    let receipt = execute_lem c₁ a₁ w entries₁ s named quiet fresh e in
    let again = replays c₂ a₂ w entries₂ r t named value receipt in
    (
      ap (λ (p : Result Json × Store). p.0) again,
      subst
          (λ (p : Result Json × Store). p.1.live ≡ record t.live { audit_log = p.1.live.audit_log })
          (sym again) refl,
    )
