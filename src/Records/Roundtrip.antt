-- ===== src/Records/Roundtrip.antt =====
-- A canonical record of sean_os/store.py is read back as it was written.
use iac_ai_runtime.Exec.{integrity_error}
use iac_ai_runtime.Security.{has_secret}
use iac_ai_runtime.Time.{Stamp}
use iac_ai_runtime.Prelude.{
  ◌==◌, some, [], ◌∷◌, ◌++◌, String, true, false, ◌≡◌, inl, inr, refl, sym, ap, subst, ◌∙◌, List,
  arith, Option, has_text, is_some, Bool-cases, eq_refl,
}
use iac_ai_runtime.Exec.{check, gets, pure, raise, ok, Error, ◌>>=◌, catch, from_result}
use iac_ai_runtime.Exec.Laws.{catch_ok, check_same, check_ok, bind_ok, pair_left, pair_right, of_ok}
use iac_ai_runtime.Table.{first}
use iac_ai_runtime.Db.{commit, write, rollback, Store, Clock, Actor, Scope, RecordRow, Profile}
use iac_ai_runtime.Access.{
  audit_uncommitted, audit, deny, permits, read_access, write_access, authorize,
}
use iac_ai_runtime.Text.{upper, sorted_set, has_text-sorted_set}
use iac_ai_runtime.Db.{scope_name}
use iac_ai_runtime.Records.{
  canonical, scope_of, write_record, check_times, check_record, is_entity, NewRecord, new_record,
  is_record, fits_table, create_record, try_create_record, refuse_record, insert_record,
}
use iac_ai_runtime.Records.Reading.{get_record, read_record}

refuses :
    (c : Clock) (actor : Actor) (id : String) (n : NewRecord) (e : Error) (s : Store) {v : String}
    → (refuse_record c actor id n e s).0 ≡ ok v
    → ⊥
unfolding refuse_record deny rollback audit audit_uncommitted write commit raise ◌>>=◌
refuses c actor id n e s h = cc h

-- Who may write in a scope may read there.
write-read :
    (p : Profile) (actor : Actor) (scope : Scope) (principals : List String)
    → permits p actor scope principals write_access ≡ ok tt
    → permits p actor scope principals read_access ≡ ok tt
unfolding permits
write-read p actor scope principals e = ground (arith, e)

first-append :
    (id : String) (rs : List RecordRow) (r : RecordRow)
    → r.id ≡ id
    → is_some (first (is_record id) rs) ≡ false
    → first (is_record id) (rs ++ r ∷ []) ≡ some r
unfolding first is_record
first-append id [] r e new = rw (e, eq_refl id) refl
first-append id (x ∷ rs) r e new = elim (Bool-cases (x.id == id)) [
  | inl hit ↦ absurd (cc (rw hit at new))
  | inr miss ↦ rw miss (first-append id rs r e (rw miss at new))
]

module _ (c : Clock) (actor : Actor) (id : String) (n : NewRecord) where
  -- The row that the INSERT wrote.
  pub record IsCreated (t : Store) : Type 0 where
    pub row : RecordRow
    pub found : first (is_record id) t.live.records ≡ some row
    pub payload : row.payload ≡ n.payload
    pub scope : row.owner_scope ≡ n.scope
    pub principals : row.permitted_principals ≡ n.permitted_principals
    pub fresh : row.version ≡ 1
    pub may_write :
        permits t.scope_profile actor n.scope n.permitted_principals write_access ≡ ok tt
    pub committed : t.durable ≡ t.live

  written :
      (times : Stamp × Option Stamp) (s : Store) {v : String} {t : Store}
      → fits_table (new_record c actor id n times) s.live.records ≡ true
      → permits s.scope_profile actor n.scope n.permitted_principals write_access ≡ ok tt
      → write_record c actor id n times s ≡ (ok v, t)
      → IsCreated t
  unfolding write_record insert_record fits_table write commit audit audit_uncommitted pure ◌>>=◌
  written times s {t} fits may e =
      let last = pair_right e in
      record {
        row = new_record c actor id n times;
        found =
            subst
              (λ (u : Store).
                first (is_record id) u.live.records ≡ some (new_record c actor id n times))
              last
              (first-append id s.live.records (new_record c actor id n times) refl
                (ground (arith, fits)));
        payload = refl;
        scope = refl;
        principals = refl;
        fresh = refl;
        may_write =
            subst
              (λ (u : Store).
                permits u.scope_profile actor n.scope n.permitted_principals write_access ≡ ok tt)
              last may;
        committed = sym (ap (λ (u : Store). u.durable) last) ∙ ap (λ (u : Store). u.live) last;
      }

  tries :
      (s : Store) {v : String} {t : Store}
      → try_create_record c actor id n s ≡ (ok v, t)
      → IsCreated t
  unfolding try_create_record gets authorize from_result
  tries s {v} {t} e =
      let (_, _, e₁) = bind_ok (check (is_entity n.entity_type) _) _ s e in
      let (_, _, e₂) = bind_ok (gets (λ s. has_secret s.patterns n.payload)) _ _ e₁ in
      let (_, _, e₃) = bind_ok (check _ _) _ _ e₂ in
      let (_, may, e₄) =
        bind_ok (authorize actor n.scope n.permitted_principals write_access) _ _ e₃ in
      let (_, _, e₅) = bind_ok (from_result (check_record n)) _ _ e₄ in
      let (times, _, e₆) =
        bind_ok (from_result (check_times c.instant n.effective_at n.expires_at)) _ _ e₅ in
      let (fits, now, e₇) =
        bind_ok (gets (λ s. fits_table (new_record c actor id n times) s.live.records)) _ _ e₆ in
      let (_, held, e₈) = bind_ok (check fits integrity_error) _ _ e₇ in
      let fitting = of_ok (pair_left now) ∙ check_ok fits integrity_error _ held in
      written times _ fitting (pair_left may) (
        subst (λ u. write_record c actor id n times u ≡ (ok v, t))
          (check_same fits integrity_error _) e₈)

-- A record is read back as it was written: after a creation that returned, the creator's read of the
-- id at any time returns a row with the payload that was given, the scope that was given in upper
-- case, the principals that were given, sorted and without repetition, among them exactly those that
-- were given, in its first version, and the row is committed.
pub create-get_record :
    (c₁ c₂ : Clock) (actor : Actor) (id : String) (n : NewRecord) (s : Store) {v : String}
    {t : Store}
    → create_record c₁ actor id n s ≡ (ok v, t)
    → (r : RecordRow) × ((get_record c₂ actor id t).0 ≡ ok r)
      × (r.payload ≡ n.payload)
      × (r.owner_scope ≡ scope_of (upper (scope_name n.scope)))
      × (r.permitted_principals ≡ sorted_set n.permitted_principals)
      × ((p : String) → has_text p r.permitted_principals ≡ has_text p n.permitted_principals)
      × (r.version ≡ 1)
      × (first (is_record id) t.durable.records ≡ some r)
unfolding create_record get_record read_record catch authorize from_result audit audit_uncommitted
    write commit gets pure ◌>>=◌ canonical
create-get_record c₁ c₂ actor id n s {t} e =
    let (answer, same) =
      catch_ok (try_create_record c₁ actor id (canonical n))
        (refuse_record c₁ actor id (canonical n)) s
        (λ x u h. refuses c₁ actor id (canonical n) x u h) e in
    let made = tries c₁ actor id (canonical n) s (λ i. (answer i, same i)) in
    let may =
      write-read t.scope_profile actor (canonical n).scope (canonical n).permitted_principals
        made.may_write in
    (
      made.row,
      rw made.found (rw (made.scope, made.principals) (rw may refl)),
      made.payload,
      made.scope,
      made.principals,
      λ p. ap (has_text p) made.principals ∙ has_text-sorted_set p n.permitted_principals,
      made.fresh,
      rw made.committed made.found,
    )
