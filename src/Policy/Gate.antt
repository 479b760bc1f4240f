-- ===== src/Policy/Gate.antt =====
-- What the gate of the registry lets through.
use iac_ai_runtime.Access.{kill_switch_enabled}
use iac_ai_runtime.Budget.{cost_of}
use iac_ai_runtime.Prelude.{ℕ, Bool, true, false, ◌≡◌, refl, subst, not, ◌||◌, arith}
use iac_ai_runtime.Exec.{Error, ◌>>◌, ok, check, from_result, ◌>>=◌}
use iac_ai_runtime.Exec.Laws.{of_ok, bind_ok, pair_left}
use iac_ai_runtime.Db.{Method, Store, Clock, Actor, Work, has_scope}
use iac_ai_runtime.Policy.{
  Registry, Handler, ActionPolicy, clear_action, check_policy, check_effects, policy_for,
  use_approval,
}

-- The policy that the gate found, and what holds of it and of the work.
pub record IsCleared (entries : Registry) (w : Work) (s : Store) (p : ActionPolicy) (h : Handler)
    (n : ℕ) : Type 0 where
  pub alive : s.live.kill_switch ≡ false
  pub registered : policy_for entries w.task_type ≡ ok (p, h)
  pub permitted : p.prohibited ≡ false
  pub in_scope : has_scope w.owner_scope p.allowed_scopes ≡ true
  pub cost : cost_of w.payload ≡ ok n
  pub approved_effects : p.external_effect || not p.reversible ≡ true → p.approval_required ≡ true

after_check :
    {A : Type 0} (b : Bool) (x : Error) (rest : Method A) (s : Store) {a : A} {t : Store}
    → (check b x >> rest) s ≡ (ok a, t)
    → (b ≡ true) × (rest s ≡ (ok a, t))
unfolding ◌>>=◌
after_check true x rest s e = (refl, e)
after_check false x rest s e = absurd (cc (pair_left e))

cleared :
    (entries : Registry) (w : Work) (s : Store) (entry : ActionPolicy × Handler) (n : ℕ)
    {x y : Unit {0}}
    → not s.live.kill_switch ≡ true
    → policy_for entries w.task_type ≡ ok entry
    → check_policy entry.0 w ≡ ok x
    → cost_of w.payload ≡ ok n
    → check_effects entry.0 n ≡ ok y
    → IsCleared entries w s entry.0 entry.1 n
unfolding check_policy check_effects
cleared entries w s entry n off found fits cost fine = record {
  alive = ground arith;
  registered = found;
  permitted = ground arith;
  in_scope = ground arith;
  cost = cost;
  approved_effects = λ strong. ground arith;
}

-- An action that the gate lets through is registered and not prohibited, its scope is one of its
-- policy, the kill switch is off, and its policy requires an approval if it is external or cannot be
-- undone.
pub clear_action_lem :
    (c : Clock) (actor : Actor) (entries : Registry) (w : Work) (s : Store) {p : ActionPolicy}
    {h : Handler} {n : ℕ} {t : Store}
    → clear_action c actor entries w s ≡ (ok ((p, h), n), t)
    → IsCleared entries w s p h n
unfolding clear_action kill_switch_enabled ◌>>=◌
clear_action_lem c actor entries w s e =
    let (off, e₁) = after_check (not s.live.kill_switch) _ _ s e in
    let (entry, found, e₂) = bind_ok (from_result (policy_for entries w.task_type)) _ s e₁ in
    let (_, fits, e₃) = bind_ok (from_result (check_policy entry.0 w)) _ s e₂ in
    let (units, cost, e₄) = bind_ok (from_result (cost_of w.payload)) _ s e₃ in
    let (_, fine, e₅) = bind_ok (from_result (check_effects entry.0 units)) _ s e₄ in
    let (_, _, e₆) = bind_ok (use_approval c actor entry.0 w) _ s e₅ in
    let same = of_ok (pair_left e₆) in
    subst (λ r. IsCleared entries w s r.0.0 r.0.1 r.1) same
      (cleared entries w s entry units off (pair_left found) (pair_left fits) (pair_left cost)
        (pair_left fine))
