-- ===== src/Exec/Preserves.antt =====
-- Invariants of methods: what holds before a method holds after it, whether it returns or raises.
-- There is a rule for each way in which a method is written.
use iac_ai_runtime.Prelude.{◌≡◌, refl, Bool, true, false, if◌then◌else◌}
use iac_ai_runtime.Exec.{
  Exec, Result, ok, err, Error, pure, raise, gets, from_result, check, when, resume, handle, catch,
  ◌>>=◌,
}

pub record Preserves {S A : Type 0} (P : S → Type 0) (m : Exec S A) : Type 0 where
  pub after : (s : S) → P s → P (m s).1

module _ {S A B : Type 0} (P : S → Type 0) where
  resume_at :
      (r : Result A) (f : A → Exec S B) (t : S)
      → P t
      → ((a : A) → r ≡ ok a → P (f a t).1)
      → P (resume r f t).1
  resume_at (ok a) f t h k = k a refl
  resume_at (err e) f t h k = h

  -- The rule for one run of a `do` block: the rest may use what the first step returned.
  pub bind_at :
      (m : Exec S A) (f : A → Exec S B) (s : S)
      → P (m s).1
      → ((a : A) → (m s).0 ≡ ok a → P (f a (m s).1).1)
      → P ((m >>= f) s).1
  unfolding ◌>>=◌
  bind_at m f s h k = resume_at (m s).0 f (m s).1 h k

module _ {S A : Type 0} {P : S → Type 0} where
  pub Preserves-pure : (a : A) → Preserves P (pure a)
  unfolding pure
  Preserves-pure a = record { after = λ s h. h }

  pub Preserves-raise : (e : Error) → Preserves P (raise {A = A} e)
  unfolding raise
  Preserves-raise e = record { after = λ s h. h }

  pub Preserves-gets : (f : S → A) → Preserves P (gets f)
  unfolding gets
  Preserves-gets f = record { after = λ s h. h }

  pub Preserves-from_result : (r : Result A) → Preserves P (from_result r)
  unfolding from_result
  Preserves-from_result r = record { after = λ s h. h }

  pub Preserves-if :
      (b : Bool) (m n : Exec S A) → Preserves P m → Preserves P n → Preserves P (if b then m else n)
  Preserves-if true m n h k = h
  Preserves-if false m n h k = k

  handle_at :
      (r : Result A) (f : Error → Exec S A) (t : S)
      → P t
      → ((e : Error) → Preserves P (f e))
      → P (handle r f t).1
  handle_at (ok a) f t h k = h
  handle_at (err e) f t h k = (k e).after t h

  pub Preserves-catch :
      (m : Exec S A) (f : Error → Exec S A)
      → Preserves P m
      → ((e : Error) → Preserves P (f e))
      → Preserves P (catch m f)
  unfolding catch
  Preserves-catch m f h k = record { after = λ s p. handle_at (m s).0 f (m s).1 (h.after s p) k }

module _ {S : Type 0} {P : S → Type 0} where
  pub Preserves-check : (b : Bool) (e : Error) → Preserves P (check b e)
  unfolding check
  Preserves-check true e = record { after = λ s h. h }
  Preserves-check false e = record { after = λ s h. h }

  pub Preserves-when : (b : Bool) (m : Exec S (Unit {0})) → Preserves P m → Preserves P (when b m)
  unfolding when
  Preserves-when true m h = record { after = λ s p. h.after s p }
  Preserves-when false m h = record { after = λ s p. p }

module _ {S A B : Type 0} {P : S → Type 0} where
  pub Preserves-bind :
      (m : Exec S A) (f : A → Exec S B)
      → Preserves P m
      → ((a : A) → Preserves P (f a))
      → Preserves P (m >>= f)
  Preserves-bind m f h k = record {
    after = λ s p. bind_at P m f s (h.after s p) (λ a _. (k a).after (m s).1 (h.after s p));
  }

module _ {S A B : Type 0} (P : S → Type 0) where
  -- Where the first step needs more than the invariant.
  pub bind_then :
      (m : Exec S A) (f : A → Exec S B) (s : S)
      → P (m s).1
      → ((a : A) → Preserves P (f a))
      → P ((m >>= f) s).1
  bind_then m f s h k = bind_at P m f s h (λ a _. (k a).after (m s).1 h)

  -- The rest of a `do` block may depend on what a SELECT reads.
  pub gets_bind :
      (f : S → A) (k : A → Exec S B)
      → ((s : S) → P s → P (k (f s) s).1)
      → Preserves P (gets f >>= k)
  unfolding gets ◌>>=◌
  gets_bind f k h = record { after = h }

pub ruleset preserves_rules = (
  Preserves-pure, Preserves-raise, Preserves-gets, Preserves-from_result, Preserves-if,
  Preserves-check, Preserves-when, Preserves-catch, Preserves-bind,
)
