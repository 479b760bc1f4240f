-- ===== src/Reports/Export.antt =====
-- What a sale export returns.
use iac_ai_runtime.Records.Reading.{records_before}
use iac_ai_runtime.Security.{has_secret}
use iac_ai_runtime.Access.{audit_uncommitted, audit, deny}
use iac_ai_runtime.Prelude.{
  ◌||◌, ◌&&◌, not, Bool, true, false, ◌≡◌, refl, subst, List, [], ◌∷◌, All, Bool-cases, inl, inr,
  arith,
}
use iac_ai_runtime.Exec.{ok, ◌>>=◌}
use iac_ai_runtime.Json.{arr}
use iac_ai_runtime.Db.{shared, unknown_scope, Scope, has_scope}
use iac_ai_runtime.Exec.Laws.{pair_left, of_ok}
use iac_ai_runtime.Table.{order_by, insert_by}
use iac_ai_runtime.Table.Laws.{select-All}
use iac_ai_runtime.Db.{
  has_scope, commit, write, RecordRow, personal, iac, scope_eq, Store, Clock, Actor,
}
use iac_ai_runtime.Reports.{rows_json, sale_export, export_rows, is_exported}

module _ {A : Type 0} (P : A → Type 0) (before : A → A → Bool) where
  insert_by-All : (x : A) (ys : List A) → P x → All P ys → All P (insert_by before x ys)
  insert_by-All x [] p h = (p, tt)
  insert_by-All x (y ∷ ys) p h = elim (Bool-cases (before y x)) [
    | inl first_y ↦ rw first_y (h.0, insert_by-All x ys p h.1)
    | inr first_x ↦ rw first_x (p, h)
  ]

  order_by-All : (xs : List A) → All P xs → All P (order_by before xs)
  unfolding order_by
  order_by-All [] h = tt
  order_by-All (x ∷ xs) h = insert_by-All x (order_by before xs) h.0 (order_by-All xs h.1)

-- A record that may leave on a sale: it is marked as portable, and its scope is not PERSONAL.
pub record IsPortable (r : RecordRow) : Type 0 where
  pub marked : r.portable_on_sale ≡ true
  pub shareable : scope_eq r.owner_scope personal ≡ false

All-rows : (rs : List RecordRow) → All (λ (r : RecordRow). Unit {0}) rs
All-rows [] = tt
All-rows (r ∷ rs) = (tt, All-rows rs)

exported_scope :
    (scope : Scope) (b : Bool)
    → scope_eq scope iac && b || scope_eq scope shared && b ≡ true
    → scope_eq scope personal ≡ false
unfolding scope_eq
exported_scope personal b e = absurd (cc e)
exported_scope iac b e = refl
exported_scope shared b e = refl
exported_scope (unknown_scope t) b e = refl

exported-IsPortable :
    (rs : List RecordRow) → All (λ r. Unit {0} × (is_exported r ≡ true)) rs → All IsPortable rs
unfolding is_exported scope_eq
exported-IsPortable [] h = tt
exported-IsPortable (r ∷ rs) h = (
  record {
    marked = ground (arith, h.0.1);
    shareable = exported_scope r.owner_scope r.portable_on_sale h.0.1;
  },
  exported-IsPortable rs h.1,
)

export_rows_lem :
    (c : Clock) (a : Actor) (rows : List RecordRow) (s : Store) {out : List RecordRow} {t : Store}
    → export_rows c a rows s ≡ (ok out, t)
    → rows ≡ out
unfolding export_rows deny audit audit_uncommitted write commit ◌>>=◌
export_rows_lem c a rows s e = elim (Bool-cases (has_secret s.patterns (arr (rows_json rows)))) [
  | inl found ↦ absurd (cc (pair_left (rw found at e)))
  | inr clean ↦ of_ok (pair_left (rw clean at e))
]

-- A sale export that returns contains no PERSONAL record and no record that is not marked as
-- portable.
pub sale_export-IsPortable :
    (c : Clock) (a : Actor) (s : Store) {out : List RecordRow} {t : Store}
    → sale_export c a s ≡ (ok out, t)
    → All IsPortable out
unfolding sale_export deny audit audit_uncommitted write commit ◌>>=◌
sale_export-IsPortable c a s e = elim (Bool-cases (not a.is_sean && not (has_scope iac a.scopes))) [
  | inl outside ↦ absurd (cc (pair_left (rw outside at e)))
  | inr inside ↦ subst (All IsPortable) (export_rows_lem c a _ s (rw inside at e)) (
      exported-IsPortable _ (
        order_by-All _ records_before _
          (select-All (λ _. Unit {0}) is_exported s.live.records (All-rows s.live.records))))
]
