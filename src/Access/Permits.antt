-- ===== src/Access/Permits.antt =====
-- Who may do what.
use iac_ai_runtime.Prelude.{
  String, Bool, true, ◌≡◌, ◌↔◌, List, not, ◌&&◌, ◌||◌, ◌==◌, has_text, arith,
}
use iac_ai_runtime.Exec.{ok}
use iac_ai_runtime.Db.{
  Profile, Actor, Scope, shared, personal, has_scope, scope_eq, scopes, allowed_scopes,
}
use iac_ai_runtime.Access.{Access, permits, is_write}

-- The rule of access, as one condition: the scope is a known one of the database's profile, and the
-- actor is Sean or has the scope, is named where the scope is SHARED, and does not write what is
-- PERSONAL under another id than "sean".
abbrev pub may : Profile → Actor → Scope → List String → Access → Bool
may profile actor scope principals access =
    has_scope scope scopes
    && has_scope scope (allowed_scopes profile)
    && (actor.is_sean
        || has_scope scope actor.scopes
          && (not (scope_eq scope shared) || has_text actor.id principals)
          && (not (is_write access) || not (scope_eq scope personal) || actor.id == "sean"))

-- An actor is let through exactly where the scope is a known one of the database's profile, and the
-- actor is Sean or has the scope, is named where the scope is SHARED, and does not write what is
-- PERSONAL under another id than "sean".
pub permits-may :
    (profile : Profile) (actor : Actor) (scope : Scope) (principals : List String) (access : Access)
    → (permits profile actor scope principals access ≡ ok tt)
      ↔ (may profile actor scope principals access ≡ true)
unfolding permits
permits-may profile actor scope principals access = ((λ e. ground arith), (λ e. ground arith))
