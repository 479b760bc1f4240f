-- ===== src/Exec/Laws.antt =====
-- Inversion of a method that returned: each step of a `do` block returned too.
use iac_ai_runtime.Prelude.{Bool, true, false, ◌≡◌, refl, ap}
use iac_ai_runtime.Exec.{catch, handle, Error, check, Exec, Result, ok, err, resume, ◌>>=◌}

module _ {A B : Type 0} where
  pub pair_left : {a b : A} {x y : B} → ◌≡◌ {A = A × B} (a, x) (b, y) → a ≡ b
  pair_left e = ap (λ (p : A × B). p.0) e

  pub pair_right : {a b : A} {x y : B} → ◌≡◌ {A = A × B} (a, x) (b, y) → x ≡ y
  pair_right e = ap (λ (p : A × B). p.1) e

pub of_ok : {A : Type 0} {a b : A} → ok a ≡ ok b → a ≡ b
of_ok e = cc

module _ {S A B : Type 0} where
  resume_ok :
      (r : Result A) (t : S) (f : A → Exec S B) {b : B} {u : S}
      → resume r f t ≡ (ok b, u)
      → (a : A) × (r ≡ ok a) × (f a t ≡ (ok b, u))
  resume_ok (ok a) t f e = (a, refl, e)
  resume_ok (err x) t f e = absurd (cc (pair_left e))

  -- A `do` block that returned went through its first step, and returned from the rest.
  pub bind_ok :
      (m : Exec S A) (f : A → Exec S B) (s : S) {b : B} {u : S}
      → (m >>= f) s ≡ (ok b, u)
      → (a : A) × (m s ≡ (ok a, (m s).1)) × (f a (m s).1 ≡ (ok b, u))
  unfolding ◌>>=◌
  bind_ok m f s e = let (a, p, q) = resume_ok (m s).0 (m s).1 f e in (a, (λ i. (p i, (m s).1)), q)

module _ {S : Type 0} where
  -- A guard that let through held, and it leaves the state.
  pub check_ok :
      (b : Bool) (x : Error) (s : S) {a : Unit {0}} {t : S} → check b x s ≡ (ok a, t) → b ≡ true
  unfolding check
  check_ok true x s e = refl
  check_ok false x s e = absurd (cc (pair_left e))

  pub check_same : (b : Bool) (x : Error) (s : S) → (check b x s).1 ≡ s
  unfolding check
  check_same true x s = refl
  check_same false x s = refl

module _ {S A : Type 0} where
  handle_ok :
      (r : Result A) (f : Error → Exec S A) (s : S) {a : A} {t : S}
      → ((e : Error) (u : S) → (f e u).0 ≡ ok a → ⊥)
      → handle r f s ≡ (ok a, t)
      → (r ≡ ok a) × (s ≡ t)
  handle_ok (ok b) f s no_answer e = (pair_left e, pair_right e)
  handle_ok (err x) f s no_answer e = absurd (no_answer x s (pair_left e))

  -- A handler that never returns leaves what its body returned.
  pub catch_ok :
      (m : Exec S A) (f : Error → Exec S A) (s : S) {a : A} {t : S}
      → ((e : Error) (u : S) → (f e u).0 ≡ ok a → ⊥)
      → catch m f s ≡ (ok a, t)
      → ((m s).0 ≡ ok a) × ((m s).1 ≡ t)
  unfolding catch
  catch_ok m f s no_answer e = handle_ok (m s).0 f (m s).1 no_answer e
