-- ===== src/Db/Actors.antt =====
-- Scopes, actors and profiles (sean_os/store.py).
use iac_ai_runtime.Prelude.{
  ◌≡◌, ◌↔◌, ap, arith, eq_iff, String, Bool, true, false, List, [], ◌∷◌, ◌||◌, ◌==◌,
}

-- SCOPES, and any other text that a caller may pass
pub data Scope : Type 0 where
  personal iac shared : Scope
  unknown_scope : String → Scope

unfoldable pub scope_eq : Scope → Scope → Bool
scope_eq personal personal = true
scope_eq iac iac = true
scope_eq shared shared = true
scope_eq (unknown_scope s) (unknown_scope t) = s == t
scope_eq _ _ = false

unfoldable pub has_scope : Scope → List Scope → Bool
has_scope s [] = false
has_scope s (t ∷ ts) = scope_eq t s || has_scope s ts

abbrev pub scopes : List Scope
scopes = personal ∷ iac ∷ shared ∷ []

abbrev pub scope_name : Scope → String
scope_name personal = "PERSONAL"
scope_name iac = "IAC"
scope_name shared = "SHARED"
scope_name (unknown_scope t) = t

pub record Actor : Type 0 where
  pub id : String
  pub scopes : List Scope
  pub is_sean : Bool

-- Actor.sean()
abbrev pub sean : Actor
sean = record { id = "sean"; scopes = personal ∷ iac ∷ shared ∷ []; is_sean = true }

-- the keys of `profiles` in `SeanOSStore.__init__`
pub data Profile : Type 0 where
  development iac_profile personal_profile : Profile

-- self.allowed_scopes
abbrev pub allowed_scopes : Profile → List Scope
allowed_scopes development = personal ∷ iac ∷ shared ∷ []
allowed_scopes iac_profile = iac ∷ []
allowed_scopes personal_profile = personal ∷ shared ∷ []

pub scope_eq_iff : (s t : Scope) → (scope_eq s t ≡ true) ↔ (s ≡ t)
unfolding scope_eq
scope_eq_iff (unknown_scope u) (unknown_scope v) =
    ((λ e. ap unknown_scope ((eq_iff u v).0 e)), (λ e. (eq_iff u v).1 (cc)))
scope_eq_iff _ _ = ground arith
