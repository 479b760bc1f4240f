-- ===== src/Budget/Invariant.antt =====
-- What a property of the database needs in order to be an invariant of `_reserve_cost` and
-- `_settle_cost`, and the one that is.
use iac_ai_runtime.Prelude.{
  ℕ, String, Bool, false, ◌≡◌, refl, sym, subst, eq_iff, Option, none, some, List, is_some,
  Bool-cases, Option-cases, inl, inr,
}
use iac_ai_runtime.Exec.{Result, ok, err}
use iac_ai_runtime.Exec.Preserves.{Preserves, preserves_rules}
use iac_ai_runtime.Table.{first}
use iac_ai_runtime.Table.Laws.{first_holds}
use iac_ai_runtime.Db.{Work, Reservation, Db, Store, Clock}
use iac_ai_runtime.Access.Preserves.{InDb, IgnoresAudit}
use iac_ai_runtime.Budget.{
  is_budget, is_reserved_for, lacks_room, book, refuse_budget, settle, settled, settle_found,
  settle_cost, reserve_units, reserve_cost,
}
use iac_ai_runtime.Budget.Accounts.{IsOrderly}
use iac_ai_runtime.Budget.Conserved.{book-IsOrderly, settle-IsOrderly}

pub record IsBookInvariant (G : Db → Type 0) : Type 0 where
  pub blind_audit : IgnoresAudit G
  pub blind_queue : (d : Db) (q : List Work) → G d → G (record d { work_queue = q })
  pub booked :
      (c : Clock) (w : Work) (units : ℕ) (d : Db)
      → G d
      → first (is_reserved_for w.id) d.cost_reservations ≡ none
      → lacks_room units (first (is_budget w.owner_scope c.month) d.budgets) ≡ false
      → G (book c w units d)
  pub settles :
      (c : Clock) (r : Reservation) (consume : Bool) (d e : Db)
      → G d
      → first (is_reserved_for r.work_id) d.cost_reservations ≡ some r
      → settle c r consume d ≡ ok e
      → G e

pub IsOrderly-invariant : IsBookInvariant IsOrderly
IsOrderly-invariant = record {
  blind_audit = λ d rows h. record { keyed = h.keyed; distinct = h.distinct; backed = h.backed };
  blind_queue = λ d q h. record { keyed = h.keyed; distinct = h.distinct; backed = h.backed };
  booked = λ c w units d h fresh room. book-IsOrderly c w units d h fresh room;
  settles = λ c r consume d e h found eq. settle-IsOrderly c r consume d h eq;
}

is_none : {A : Type 0} (o : Option A) → is_some o ≡ false → o ≡ none
is_none none e = refl
is_none (some a) e = cc

module _ {G : Db → Type 0} (inv : IsBookInvariant G) where
  Preserves-reserve_units :
      (c : Clock) (w : Work) (units : ℕ) → Preserves (InDb G) (reserve_units c w units)
  unfolding reserve_units refuse_budget
  Preserves-reserve_units c w units = record {
    after = λ s h.
        elim (Bool-cases (is_some (first (is_reserved_for w.id) s.live.cost_reservations))) [
          | inl old ↦ rw old h
          | inr fresh ↦
              rw fresh
                (elim (Bool-cases
                  (lacks_room units (first (is_budget w.owner_scope c.month) s.live.budgets))) [
                    | inl full ↦ rw full (record {
                      in_live = inv.blind_queue s.live _ h.in_live;
                      in_durable = h.in_durable;
                    })
                    | inr room ↦ rw room (record {
                      in_live = inv.booked c w units s.live h.in_live (is_none _ fresh) room;
                      in_durable = h.in_durable;
                    })
                  ])
        ];
  }

  pub Preserves-reserve_cost : (c : Clock) (w : Work) → Preserves (InDb G) (reserve_cost c w)
  unfolding reserve_cost
  Preserves-reserve_cost c w = search (preserves_rules, Preserves-reserve_units)

  settled_at :
      (s : Store) (r : Result Db) → InDb G s → ((e : Db) → r ≡ ok e → G e) → InDb G (settled s r).1
  unfolding settled
  settled_at s (ok e) h k = record { in_live = k e refl; in_durable = h.in_durable }
  settled_at s (err x) h k = h

  pub Preserves-settle_cost :
      (c : Clock) (id : String) (consume : Bool) → Preserves (InDb G) (settle_cost c id consume)
  unfolding settle_cost settle_found
  Preserves-settle_cost c id consume = record {
    after = λ s h. elim (Option-cases (first (is_reserved_for id) s.live.cost_reservations)) [
      | inl e ↦ rw e h
      | inr (r, e) ↦
          let same : r.work_id ≡ id =
            unfold is_reserved_for in
            (eq_iff r.work_id id).0 (first_holds (is_reserved_for id) _ e) in
          let found =
            subst (λ i. first (is_reserved_for i) s.live.cost_reservations ≡ some r) (sym same) e in
          rw e (
            settled_at s (settle c r consume s.live) h
              (λ x eq. inv.settles c r consume s.live x h.in_live found eq))
    ];
  }
