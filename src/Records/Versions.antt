-- ===== src/Records/Versions.antt =====
-- Optimistic concurrency on records: one update for each version.
use iac_ai_runtime.Security.{has_secret}
use iac_ai_runtime.Prelude.{
  ℕ, ◌+◌, String, Bool, true, false, ◌≡◌, ◌≢◌, refl, sym, ap, Option, none, some, List, [], ◌∷◌,
  Bool-cases, inl, inr, nat_eq, arith,
}
use iac_ai_runtime.Access.{write_access, audit_uncommitted, deny, audit, authorize, Access}
use iac_ai_runtime.Exec.{
  authorization_error, validation_error, key_error, value_error, policy_denied, type_error,
  integrity_error, operational_error, ok, Error, ◌>>=◌,
}
use iac_ai_runtime.Exec.Laws.{of_ok, bind_ok, pair_left, pair_right}
use iac_ai_runtime.Exec.Preserves.{Preserves, preserves_rules}
use iac_ai_runtime.Json.{Json, Fields}
use iac_ai_runtime.Table.{count_rows, update}
use iac_ai_runtime.Db.{commit, write, rollback, Store, Clock, Actor, RecordRow, AuditResult, Scope}
use iac_ai_runtime.Records.Reading.{
  is_version, set_payload, write_version, update_record, get_record, read_record, refuse_read,
}

count_rows-update :
    {A : Type 0} (p : A → Bool) (f : A → A) (xs : List A)
    → ((x : A) → p x ≡ true → p (f x) ≡ false)
    → count_rows p (update p f xs) ≡ 0
unfolding count_rows update
count_rows-update p f [] gone = refl
count_rows-update p f (x ∷ xs) gone = elim (Bool-cases (p x)) [
  | inl hit ↦ rw (hit, gone x hit) (omega (arith, count_rows-update p f xs gone))
  | inr miss ↦ rw (miss, miss) (omega (arith, count_rows-update p f xs gone))
]

module _ (rs : List RecordRow) where
  abbrev HasRecords : Store → Type 0
  HasRecords s = s.live.records ≡ rs

  audits :
      (c : Clock) (a : Actor) (action : String) (r : AuditResult) (reason : String)
      (id : Option String) (details : Fields)
      → Preserves HasRecords (audit c a action r reason id details)
  unfolding audit audit_uncommitted write commit ◌>>=◌
  audits c a action r reason id details = record { after = λ s h. h }

  denies :
      {A : Type 0} (c : Clock) (a : Actor) (action reason : String) (id : Option String)
      (details : Fields) (e : Error)
      → Preserves HasRecords (deny {A = A} c a action reason id details e)
  unfolding deny audit audit_uncommitted write commit ◌>>=◌
  denies c a action reason id details e = record { after = λ s h. h }

  authorizes :
      (a : Actor) (scope : Scope) (principals : List String) (access : Access)
      → Preserves HasRecords (authorize a scope principals access)
  unfolding authorize ◌>>=◌
  authorizes a scope principals access = record { after = λ s h. h }

  refuses :
      (c : Clock) (a : Actor) (id : String) (e : Error)
      → Preserves HasRecords (refuse_read c a id e)
  unfolding refuse_read
  refuses c a id (authorization_error t) = denies c a _ _ _ _ _
  refuses c a id (validation_error t) = search (preserves_rules)
  refuses c a id (key_error t) = search (preserves_rules)
  refuses c a id (value_error t) = search (preserves_rules)
  refuses c a id (policy_denied t b) = search (preserves_rules)
  refuses c a id type_error = search (preserves_rules)
  refuses c a id operational_error = search (preserves_rules)
  refuses c a id integrity_error = search (preserves_rules)

  reads :
      (c : Clock) (a : Actor) (id : String) (row : Option RecordRow)
      → Preserves HasRecords (read_record c a id row)
  unfolding read_record
  reads c a id none = search (denies)
  reads c a id (some r) = search (preserves_rules, authorizes, refuses, audits) depth 9

  gets_record : (c : Clock) (a : Actor) (id : String) → Preserves HasRecords (get_record c a id)
  unfolding get_record
  gets_record c a id = search (preserves_rules, reads) depth 9

module _ (c : Clock) (actor : Actor) (id : String) (payload : Json) (expected : ℕ) where
  write_version_lem :
      (s : Store) {v : ℕ} {t : Store}
      → write_version c actor id payload expected s ≡ (ok v, t)
      → (nat_eq (count_rows (is_version id expected) s.live.records) 1 ≡ true)
        × (v ≡ expected + 1)
        × (count_rows (is_version id expected) t.live.records ≡ 0)
  unfolding is_version set_payload write_version deny rollback audit audit_uncommitted write commit
      ◌>>=◌
  write_version_lem s e =
      elim (Bool-cases (nat_eq (count_rows (is_version id expected) s.live.records) 1)) [
        | inl hit ↦
            let moved = ap (λ (u : Store). u.live.records) (pair_right (rw hit at e)) in
            (
              hit,
              sym (of_ok (pair_left (rw hit at e))),
              rw (sym moved) (
                  count_rows-update (is_version id expected) (set_payload c payload) s.live.records
                    (λ r same. ground arith)),
            )
        | inr miss ↦ absurd (cc (pair_left (rw miss at e)))
      ]

  update_record_lem :
      (s : Store) {v : ℕ} {t : Store}
      → update_record c actor id payload expected s ≡ (ok v, t)
      → (nat_eq (count_rows (is_version id expected) s.live.records) 1 ≡ true)
        × (v ≡ expected + 1)
        × (count_rows (is_version id expected) t.live.records ≡ 0)
  unfolding update_record deny audit audit_uncommitted write commit authorize ◌>>=◌
  update_record_lem s e = elim (Bool-cases (has_secret s.patterns payload)) [
    | inl found ↦ absurd (cc (pair_left (rw found at e)))
    | inr clean ↦
        let (row, _, rest) = bind_ok (get_record c actor id) _ s (rw clean at e) in
        let (_, _, last) =
          bind_ok (authorize actor row.owner_scope row.permitted_principals write_access) _ _
            rest in
        let (one, next, none_left) = write_version_lem _ last in
        let same = (gets_record s.live.records c actor id).after s refl in
        (rw (sym same) one, next, none_left)
  ]

-- Of the updates of one record for one version, one returns: an update that returned has given the
-- next version, and from the store that it left no update that expects the version that it replaced
-- returns, by any actor and with any payload.
pub update_record_once :
    (c₁ c₂ : Clock) (a₁ a₂ : Actor) (id : String) (p₁ p₂ : Json) (n : ℕ) (s : Store) {v w : ℕ}
    {t u : Store}
    → update_record c₁ a₁ id p₁ n s ≡ (ok v, t)
    → (v ≡ n + 1) × (update_record c₂ a₂ id p₂ n t ≢ (ok w, u))
update_record_once c₁ c₂ a₁ a₂ id p₁ p₂ n s {t = t} e =
    let (_, next, gone) = update_record_lem c₁ a₁ id p₁ n s e in
    (
      next,
      λ f.
          let (one, _, _) = update_record_lem c₂ a₂ id p₂ n t f in
          absurd (ground (arith, one, gone)),
    )
