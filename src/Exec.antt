-- ===== src/Exec.antt =====
-- Methods of `SeanOSStore`: they change the store and may raise. What was written before a raise
-- stays written, so that the state comes back beside the error too.
pub mod Laws
pub mod Preserves
use iac_ai_runtime.Prelude.{Bool, true, false, String}

-- The exceptions that the modelled methods raise (sean_os/store.py, sean_os/policy.py), each with
-- its message, or the fixed part of it; `policy_denied` is a subclass of `AuthorizationError` and carries
-- `approval_required`. `value_error` is the one of sean_os/monitoring.py. The last three are Python's own and SQLite's.
pub data Error : Type 0 where
  authorization_error : String → Error
  validation_error : String → Error
  key_error : String → Error
  value_error : String → Error
  policy_denied : String → Bool → Error
  type_error : Error
  integrity_error : Error
  operational_error : Error

pub data Result {ℓ} (A : Type ℓ) : Type ℓ where
  ok : A → Result A
  err : Error → Result A

abbrev pub Exec : Type 0 → Type 0 → Type 0
Exec S A = S → Result A × S

module _ {S A : Type 0} where
  unfoldable pub pure : A → Exec S A
  pure a s = (ok a, s)

  unfoldable pub raise : Error → Exec S A
  raise e s = (err e, s)

  unfoldable pub gets : (S → A) → Exec S A
  gets f s = (ok (f s), s)

  unfoldable pub from_result : Result A → Exec S A
  from_result r s = (r, s)

module _ {S : Type 0} where
  unfoldable pub modify : (S → S) → Exec S (Unit {0})
  modify f s = (ok tt, f s)

  -- `if not b: raise e`
  unfoldable pub check : Bool → Error → Exec S (Unit {0})
  check true e s = (ok tt, s)
  check false e s = (err e, s)

  unfoldable pub when : Bool → Exec S (Unit {0}) → Exec S (Unit {0})
  when true m s = m s
  when false m s = (ok tt, s)

module _ {S A B : Type 0} where
  abbrev pub resume : Result A → (A → Exec S B) → Exec S B
  resume (ok a) f s = f a s
  resume (err e) f s = (err e, s)

  infixl 5 ◌>>=◌ ◌>>◌
  -- to open this is to open the actions above too
  unfoldable pub ◌>>=◌ : Exec S A → (A → Exec S B) → Exec S B
  unfolding pure raise gets from_result modify check when
  ◌>>=◌ m f s = let (r, s') = m s in resume r f s'

  abbrev pub ◌>>◌ : Exec S A → Exec S B → Exec S B
  m >> n = m >>= λ _. n

module _ {S A : Type 0} where
  abbrev pub handle : Result A → (Error → Exec S A) → Exec S A
  handle (ok a) f s = (ok a, s)
  handle (err e) f s = f e s

  -- `try: m  except ...: f`
  unfoldable pub catch : Exec S A → (Error → Exec S A) → Exec S A
  catch m f s = let (r, s') = m s in handle r f s'
