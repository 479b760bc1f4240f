-- ===== src/Approvals/Consume.antt =====
-- `consume_approval` of sean_os/store.py: the use of an approval.
use iac_ai_runtime.Prelude.{
  ℕ, String, Bool, true, false, Option, none, some, or_else, [], ◌∷◌, not, ◌||◌, ◌==◌,
  if◌then◌else◌,
}
use iac_ai_runtime.Exec.{
  pure, gets, check, when, ◌>>=◌, ◌>>◌, authorization_error, validation_error,
}
use iac_ai_runtime.Json.{str, obj, Fields, dict, json_eq}
use iac_ai_runtime.Time.{Stamp, utc, text_leb}
use iac_ai_runtime.Table.{first}
use iac_ai_runtime.Security.{has_secret}
use iac_ai_runtime.Db.{
  pending, approved, expired, denied, ApprovalStatus, Scope, scope_eq, has_scope, allowed_scopes,
  Actor, allowed, Store, Clock, Method, write, commit,
}
use iac_ai_runtime.Access.{audit_uncommitted, deny}
use iac_ai_runtime.Db.{Approval, consumed, Profile}
use iac_ai_runtime.Approvals.{is_approval, is_approved, set_approval}

-- What a caller of `consume_approval` asks for.
pub record Use : Type 0 where
  pub action_type : String
  pub target : String
  pub at : Option Stamp
  pub scope : Option Scope
  pub conditions : Option Fields

abbrev pub is_in_scope : Option Scope → Approval → Bool
is_in_scope none a = true
is_in_scope (some s) a = scope_eq a.scope s

abbrev pub fits_conditions : Option Fields → Approval → Bool
fits_conditions none a = true
fits_conditions (some fs) a = json_eq a.conditions (obj fs)

abbrev pub status_refusal : ApprovalStatus → String
status_refusal pending = "Approval status is PENDING"
status_refusal approved = "Approval status is APPROVED"
status_refusal denied = "Approval status is DENIED"
status_refusal expired = "Approval status is EXPIRED"
status_refusal consumed = "Approval status is CONSUMED"

-- The chain of tests that sets `reason`
unfoldable pub refusal : Profile → Actor → ℕ → Use → Option Approval → Option String
refusal profile actor now u none = some "Approval not found"
refusal profile actor now u (some a) =
    if not (has_scope a.scope (allowed_scopes profile)) || not (has_scope a.scope actor.scopes)
    then some "Approval scope is not authorized for this actor or database"
    else if not (is_in_scope u.scope a)
    then some "Approval scope does not match the action scope"
    else if not (is_approved a.status)
    then some (status_refusal a.status)
    else if not (a.action_type == u.action_type) || not (a.target == u.target)
    then some "Approval does not match exact action and target"
    else if not (fits_conditions u.conditions a)
    then some "Approval conditions do not match the exact action plan"
    else if text_leb a.expires_at (or_else u.at (utc now))
    then some "Approval expired"
    else none

abbrev pub use_details : Use → Fields
use_details u = dict (("action_type", str u.action_type) ∷ ("target", str u.target) ∷ [])

-- `if not row["reusable"]: UPDATE ...`
unfoldable pub spend : String → Option Approval → Method (Unit {0})
spend id none = pure tt
spend id (some a) = if a.reusable then pure tt else write (set_approval id consumed)

abbrev pub conditions_secret : Store → Option Fields → Bool
conditions_secret s none = false
conditions_secret s (some fs) = has_secret s.patterns (obj fs)

unfoldable pub consume_row :
    Clock → Actor → String → Use → Bool → Option Approval → Option String → Method (Unit {0})
consume_row c actor id u commits row (some why) =
    deny c actor "CONSUME_APPROVAL" why (some id) (use_details u) (authorization_error why)
consume_row c actor id u commits row none = do
  spend id row
  audit_uncommitted c actor "CONSUME_APPROVAL" allowed "Exact active approval matched" (some id)
      (use_details u)
  when commits commit

-- `consume_approval`; `commits` is its argument `commit`.
unfoldable pub consume_approval : Clock → Actor → String → Use → Bool → Method (Unit {0})
consume_approval c actor id u commits = do
  found ← gets (λ s. conditions_secret s u.conditions)
  check (not found) (validation_error "Secret-like material is prohibited in approval conditions")
  row ← gets (λ s. first (is_approval id) s.live.approvals)
  why ← gets (λ s. refusal s.scope_profile actor c.instant u row)
  consume_row c actor id u commits row why
