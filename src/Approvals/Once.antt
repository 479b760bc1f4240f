-- ===== src/Approvals/Once.antt =====
-- The use of an approval: what it needs, and that an approval which is not reusable is used once.
use iac_ai_runtime.Table.Laws.{first-update}
use iac_ai_runtime.Access.{audit, deny, audit_uncommitted}
use iac_ai_runtime.Table.{update, first}
use iac_ai_runtime.Time.{utc, text_leb}
use iac_ai_runtime.Approvals.{is_approval, set_approval, is_approved}
use iac_ai_runtime.Db.{commit, write, consumed, Store, Clock, allowed_scopes}
use iac_ai_runtime.Db.{has_scope, Approval, Actor, Profile}
use iac_ai_runtime.Prelude.{
  subst, ◌≢◌, ℕ, String, Bool, true, false, ◌≡◌, refl, sym, ap, ◌∙◌, Option, none, some, ◌==◌,
  Bool-cases, Option-cases, or_else, inl, inr, arith, of_some,
}
use iac_ai_runtime.Exec.{◌>>=◌, ok}
use iac_ai_runtime.Exec.Laws.{pair_left, pair_right}
use iac_ai_runtime.Approvals.Consume.{
  conditions_secret, spend, fits_conditions, Use, refusal, consume_row, consume_approval,
  is_in_scope,
}

-- The approval `a` and what it must be for the use `u`.
pub record IsUsable (profile : Profile) (actor : Actor) (now : ℕ) (u : Use) (a : Approval)
    : Type 0 where
  pub in_profile : has_scope a.scope (allowed_scopes profile) ≡ true
  pub in_actor : has_scope a.scope actor.scopes ≡ true
  pub in_scope : is_in_scope u.scope a ≡ true
  pub approved : is_approved a.status ≡ true
  pub action : a.action_type == u.action_type ≡ true
  pub target : a.target == u.target ≡ true
  pub conditions : fits_conditions u.conditions a ≡ true
  pub alive : text_leb a.expires_at (or_else u.at (utc now)) ≡ false

refusal_lem :
    (profile : Profile) (actor : Actor) (now : ℕ) (u : Use) (row : Option Approval)
    → refusal profile actor now u row ≡ none
    → (a : Approval) × (row ≡ some a) × IsUsable profile actor now u a
unfolding refusal
refusal_lem profile actor now u none e = absurd (cc e)
refusal_lem profile actor now u (some a) e = (
  a,
  refl,
  record {
    in_profile = ground arith;
    in_actor = ground arith;
    in_scope = ground arith;
    approved = ground arith;
    action = ground arith;
    target = ground arith;
    conditions = ground arith;
    alive = ground arith;
  },
)

module _ (c : Clock) (actor : Actor) (id : String) (u : Use) (commits : Bool) where
  consume_approval_row :
      (s : Store) {x : Unit {0}} {t : Store}
      → consume_approval c actor id u commits s ≡ (ok x, t)
      → consume_row c actor id u commits
          (first (is_approval id) s.live.approvals)
          (refusal s.scope_profile actor c.instant u (first (is_approval id) s.live.approvals))
          s
        ≡ (ok x, t)
  unfolding consume_approval ◌>>=◌
  consume_approval_row s e = elim (Bool-cases (conditions_secret s u.conditions)) [
    | inl hit ↦ absurd (cc (pair_left (rw hit at e)))
    | inr miss ↦ rw miss at e
  ]

  -- The status after a use.
  abbrev IsSpent : Approval → Store → Type 0
  IsSpent a t =
      a.reusable ≡ false
      → first (is_approval id) t.live.approvals ≡ some (record a { status = consumed })

  consume_row-IsSpent :
      (a : Approval) (s : Store) {x : Unit {0}} {t : Store}
      → first (is_approval id) s.live.approvals ≡ some a
      → consume_row c actor id u commits (some a) none s ≡ (ok x, t)
      → IsSpent a t
  unfolding consume_row spend set_approval audit_uncommitted write commit ◌>>=◌ is_approval
  consume_row-IsSpent a s {t = t} found e once =
      let rows =
        first-update (is_approval id) (λ b. record b { status = consumed }) s.live.approvals
          (λ y h. h) found in
      let moved : ((update (is_approval id) (λ b. record b { status = consumed }) s.live.approvals)
          ≡ t.live.approvals) =
        elim (Bool-cases commits) [
          | inl hit ↦ ap (λ (v : Store). v.live.approvals) (pair_right (rw (once, hit) at e))
          | inr miss ↦ ap (λ (v : Store). v.live.approvals) (pair_right (rw (once, miss) at e))
        ] in
      subst (λ as_rows. first (is_approval id) as_rows ≡ some (record a { status = consumed }))
        moved rows

  refused :
      (row : Option Approval) (why : String) (s : Store) {x : Unit {0}} {t : Store}
      → consume_row c actor id u commits row (some why) s ≢ (ok x, t)
  unfolding consume_row deny audit audit_uncommitted write commit ◌>>=◌
  refused row why s e = absurd (cc (pair_left e))

-- The approval that a use has used, in the store `s` before it and in the store `t` after it.
pub record IsUsed (profile : Profile) (actor : Actor) (now : ℕ) (id : String) (u : Use)
    (s t : Store) : Type 0 where
  pub row : Approval
  pub found : first (is_approval id) s.live.approvals ≡ some row
  pub usable : IsUsable profile actor now u row
  pub spent :
      row.reusable ≡ false
      → first (is_approval id) t.live.approvals ≡ some (record row { status = consumed })

-- A use of an approval that returns has found it approved, for the same action, target, scope and
-- conditions, in a scope of the actor and of the database, and, in the order of the texts of the
-- times, not at its end; if the approval is not reusable, its status is CONSUMED afterwards.
pub consume_approval_lem :
    (c : Clock) (actor : Actor) (id : String) (u : Use) (commits : Bool) (s : Store) {x : Unit {0}}
    {t : Store}
    → consume_approval c actor id u commits s ≡ (ok x, t)
    → IsUsed s.scope_profile actor c.instant id u s t
consume_approval_lem c actor id u commits s e =
    let rest = consume_approval_row c actor id u commits s e in
    elim (Option-cases
      (refusal s.scope_profile actor c.instant u (first (is_approval id) s.live.approvals))) [
        | inl clear ↦
            let (a, found, usable) = refusal_lem s.scope_profile actor c.instant u _ clear in
            record {
              row = a;
              found = found;
              usable = usable;
              spent =
                  consume_row-IsSpent c actor id u commits a s found (rw (clear, found) at rest);
            }
        | inr (why, stop) ↦ absurd (refused c actor id u commits _ why s (rw stop at rest))
      ]

-- An approval that is not reusable is used once: after a use that returned, no use of it returns,
-- by any actor, for any action and at any time.
pub consume_once :
    (c₁ c₂ : Clock) (a₁ a₂ : Actor) (id : String) (u₁ u₂ : Use) (b₁ b₂ : Bool) (s : Store)
    {a : Approval} {x y : Unit {0}} {t v : Store}
    → first (is_approval id) s.live.approvals ≡ some a
    → a.reusable ≡ false
    → consume_approval c₁ a₁ id u₁ b₁ s ≡ (ok x, t)
    → consume_approval c₂ a₂ id u₂ b₂ t ≢ (ok y, v)
consume_once c₁ c₂ a₁ a₂ id u₁ u₂ b₁ b₂ s {t = t} here single e f =
    let first_use = consume_approval_lem c₁ a₁ id u₁ b₁ s e in
    let second_use = consume_approval_lem c₂ a₂ id u₂ b₂ t f in
    let same = of_some (sym here ∙ first_use.found) in
    let gone = first_use.spent (ap (λ (r : Approval). r.reusable) (sym same) ∙ single) in
    let row = of_some (sym gone ∙ second_use.found) in
    absurd (cc (ap (λ (r : Approval). is_approved r.status) row, second_use.usable.approved))
