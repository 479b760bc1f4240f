-- ===== src/Table/Laws.antt =====
-- What SELECT, UPDATE and DELETE keep, and what the rows that they return satisfy.
use iac_ai_runtime.Prelude.{
  Bool, true, false, ◌≡◌, refl, ap, subst, Option, none, some, List, [], ◌∷◌, ◌++◌, All, any,
  Bool-cases, of_some, sym, Option-cases, ◌⊎◌, inl, inr, arith,
}
use iac_ai_runtime.Table.{select, first, update, delete, first_by, better}

module _ {ℓ} {A : Type ℓ} where
  pub first_holds : (p : A → Bool) (xs : List A) {x : A} → first p xs ≡ some x → p x ≡ true
  unfolding first
  first_holds p [] e = cc
  first_holds p (y ∷ ys) {x = x} e = elim (Bool-cases (p y)) [
    | inl hit ↦ subst (λ z. p z ≡ true) (of_some (rw hit at e)) hit
    | inr miss ↦ first_holds p ys (rw miss at e)
  ]

  -- A row is found again after an UPDATE that its condition does not read.
  pub first-update :
      (p : A → Bool) (f : A → A) (xs : List A) {x : A}
      → ((y : A) → p y ≡ true → p (f y) ≡ true)
      → first p xs ≡ some x
      → first p (update p f xs) ≡ some (f x)
  unfolding first update
  first-update p f [] keep e = cc
  first-update p f (y ∷ ys) keep e = elim (Bool-cases (p y)) [
    | inl hit ↦ rw (hit, keep y hit) (ap (λ z. some (f z)) (of_some (rw hit at e)))
    | inr miss ↦ rw (miss, miss) (first-update p f ys keep (rw miss at e))
  ]

  -- An UPDATE that a condition does not read adds no row to it.
  pub first-update-none :
      (p q : A → Bool) (f : A → A) (xs : List A)
      → ((y : A) → p (f y) ≡ p y)
      → first p (update q f xs) ≡ none
      → first p xs ≡ none
  unfolding first update
  first-update-none p q f [] keep e = refl
  first-update-none p q f (y ∷ ys) keep e = ground (arith, keep y, first-update-none p q f ys keep)

  -- An UPDATE whose condition no row satisfies changes nothing.
  pub update-eq_of_none :
      (p : A → Bool) (f : A → A) (xs : List A) → first p xs ≡ none → update p f xs ≡ xs
  unfolding first update
  update-eq_of_none p f [] e = refl
  update-eq_of_none p f (x ∷ xs) e = elim (Bool-cases (p x)) [
    | inl hit ↦ cc (rw hit at e)
    | inr miss ↦ rw miss (ap (◌∷◌ x) (update-eq_of_none p f xs (rw miss at e)))
  ]

  pub update-first-none :
      (p q : A → Bool) (f : A → A) (xs : List A)
      → ((y : A) → p (f y) ≡ p y)
      → first p xs ≡ none
      → first p (update q f xs) ≡ none
  unfolding first update
  update-first-none p q f [] keep e = refl
  update-first-none p q f (y ∷ ys) keep e = ground (arith, keep y, update-first-none p q f ys keep)

  pub any-eq_false : (p : A → Bool) (xs : List A) → All (λ x. p x ≡ false) xs → any p xs ≡ false
  any-eq_false p [] h = refl
  any-eq_false p (x ∷ xs) h = rw h.0 (any-eq_false p xs h.1)

  better_cases :
      (before : A → A → Bool) (y x : A) (o : Option A)
      → better before y o ≡ some x
      → (y ≡ x) ⊎ (o ≡ some x)
  better_cases before y x none e = inl (of_some e)
  better_cases before y x (some z) e = ground arith

  pub first_by_cases :
      (before : A → A → Bool) (y : A) (ys : List A) (x : A)
      → first_by before (y ∷ ys) ≡ some x
      → (y ≡ x) ⊎ (first_by before ys ≡ some x)
  unfolding first_by
  first_by_cases before y ys x e = better_cases before y x (first_by before ys) e

module _ {ℓ κ} {A : Type ℓ} (P : A → Type κ) where
  pub All-append : (xs ys : List A) → All P xs → All P ys → All P (xs ++ ys)
  All-append [] ys h k = k
  All-append (x ∷ xs) ys h k = (h.0, All-append xs ys h.1 k)

  -- Every row that a SELECT returns satisfies its condition.
  pub select-All :
      (p : A → Bool) (xs : List A) → All P xs → All (λ x. P x × (p x ≡ true)) (select p xs)
  unfolding select
  select-All p [] h = tt
  select-All p (x ∷ xs) h = elim (Bool-cases (p x)) [
    | inl e ↦ rw e ((h.0, e), select-All p xs h.1)
    | inr e ↦ rw e (select-All p xs h.1)
  ]

  pub delete-All : (p : A → Bool) (xs : List A) → All P xs → All P (delete p xs)
  unfolding delete select
  delete-All p [] h = tt
  delete-All p (x ∷ xs) h = elim (Bool-cases (p x)) [
    | inl e ↦ rw e (delete-All p xs h.1)
    | inr e ↦ rw e (h.0, delete-All p xs h.1)
  ]

  pub first-All : (p : A → Bool) (xs : List A) {x : A} → All P xs → first p xs ≡ some x → P x
  unfolding first
  first-All p [] h e = cc
  first-All p (y ∷ ys) h e = elim (Bool-cases (p y)) [
    | inl hit ↦ subst P (of_some (rw hit at e)) h.0
    | inr miss ↦ first-All p ys h.1 (rw miss at e)
  ]

  pub first_by-All :
      (before : A → A → Bool) (xs : List A) {x : A} → All P xs → first_by before xs ≡ some x → P x
  unfolding first_by
  first_by-All before [] h e = cc
  first_by-All before (y ∷ ys) {x = x} h e = elim (first_by_cases before y ys x e) [
    | inl here ↦ subst P here h.0
    | inr later ↦ first_by-All before ys h.1 later
  ]

module _ {ℓ κ μ} {A : Type ℓ} (P : A → Type κ) (Q : A → Type μ) where
  pub All-map : (xs : List A) → ((x : A) → P x → Q x) → All P xs → All Q xs
  All-map [] f h = tt
  All-map (x ∷ xs) f h = (f x h.0, All-map xs f h.1)

  pub update-All :
      (p : A → Bool) (f : A → A) (xs : List A)
      → ((x : A) → P x → p x ≡ true → Q (f x))
      → ((x : A) → P x → p x ≡ false → Q x)
      → All P xs
      → All Q (update p f xs)
  unfolding update
  update-All p f [] hit miss h = tt
  update-All p f (x ∷ xs) hit miss h = elim (Bool-cases (p x)) [
    | inl e ↦ rw e (hit x h.0 e, update-All p f xs hit miss h.1)
    | inr e ↦ rw e (miss x h.0 e, update-All p f xs hit miss h.1)
  ]

module _ {ℓ κ} {A : Type ℓ} (P : A → Type κ) where
  pub All-of : (xs : List A) → ((x : A) → P x) → All P xs
  All-of [] h = tt
  All-of (x ∷ xs) h = (h x, All-of xs h)

-- No row sorts before the one that ORDER BY ... LIMIT 1 returns.
module _ {ℓ} {A : Type ℓ} (before : A → A → Bool)
    (asym : (x y : A) → before x y ≡ true → before y x ≡ false)
    (weak : (x y z : A) → before x y ≡ false → before y z ≡ false → before x z ≡ false) where
  not_before_itself : (x : A) → before x x ≡ false
  not_before_itself x = elim (Bool-cases (before x x)) [ inl hit ↦ asym x x hit | inr miss ↦ miss ]

  none_left : (xs : List A) → first_by before xs ≡ none → xs ≡ []
  unfolding first_by
  none_left [] e = refl
  none_left (x ∷ xs) e = elim (Option-cases (first_by before xs)) [
    | inl empty ↦ absurd (cc (rw empty at e))
    | inr (y, later) ↦ ground (arith, later)
  ]

  pub first_by-least :
      (xs : List A) {x : A} → first_by before xs ≡ some x → All (λ y. before y x ≡ false) xs
  unfolding first_by
  first_by-least [] e = tt
  first_by-least (y ∷ ys) {x} e = elim (Option-cases (first_by before ys)) [
    | inl empty ↦
        let same : y ≡ x = of_some (rw empty at e) in
        (
          subst (λ z. before y z ≡ false) same (not_before_itself y),
          subst (All (λ z. before z x ≡ false)) (sym (none_left ys empty)) tt,
        )
    | inr (z, later) ↦ elim (Bool-cases (before z y)) [
      | inl earlier ↦
          let same : z ≡ x = of_some (rw (later, earlier) at e) in
          subst (λ u. All (λ v. before v u ≡ false) (y ∷ ys)) same
            (asym z y earlier, first_by-least ys later)
      | inr not_earlier ↦
          let same : y ≡ x = of_some (rw (later, not_earlier) at e) in
          subst (λ u. All (λ v. before v u ≡ false) (y ∷ ys)) same
            (
              not_before_itself y,
              All-map _ _ ys (λ v h. weak v z y h not_earlier) (first_by-least ys later),
            )
    ]
  ]

-- What holds of the rows that a SELECT returns holds of each row, or its condition fails.
module _ {ℓ κ} {A : Type ℓ} (P : A → Type κ) where
  pub All-unselect :
      (p : A → Bool) (xs : List A) → All P (select p xs) → All (λ x. (p x ≡ false) ⊎ P x) xs
  unfolding select
  All-unselect p [] h = tt
  All-unselect p (x ∷ xs) h = elim (Bool-cases (p x)) [
    | inl hit ↦ let k = rw hit at h in (inr k.0, All-unselect p xs k.1)
    | inr miss ↦ (inl miss, All-unselect p xs (rw miss at h))
  ]
