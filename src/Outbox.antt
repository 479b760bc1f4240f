-- ===== src/Outbox.antt =====
-- Tables whose rows go through a lifecycle: from one state of the table to a later one every row
-- has moved by steps of the lifecycle, and the rows that are new have done so since they were fresh.
pub mod Kept
use iac_ai_runtime.Prelude.{
  String, Bool, true, ◌≡◌, refl, sym, ap, subst, ◌∙◌, ◌==◌, none, some, of_some, List, [], ◌∷◌,
  ◌++◌, All, Bool-cases, inl, inr,
}
use iac_ai_runtime.Table.{first, update}

-- Any number of steps
pub data Reaches {A : Type 0} (Moves : A → A → Type 0) (t : A) : A → Type 0 where
  here : Reaches Moves t t
  next : {u v : A} → Reaches Moves t u → Moves u v → Reaches Moves t v

-- A row out of which no step leads stays what it is.
pub Reaches-stuck :
    {A : Type 0} (Moves : A → A → Type 0) (P : A → Type 0)
    → ((t u : A) → P t → Moves t u → ⊥)
    → (t u : A) → P t
    → Reaches Moves t u
    → u ≡ t
Reaches-stuck Moves P ends t u h here = refl
Reaches-stuck Moves P ends t u h (next {u = v} r m) =
    absurd (ends v u (subst P (sym (Reaches-stuck Moves P ends t v h r)) h) m)

module _ {A : Type 0} (Moves : A → A → Type 0) (IsFresh : A → Type 0) where
  -- A row that came from a fresh one
  abbrev pub Born : A → Type 0
  Born y = (z : A) × IsFresh z × Reaches Moves z y

  abbrev pub Evolves : List A → List A → Type 0
  Evolves [] ys = All Born ys
  Evolves (x ∷ xs) [] = ⊥
  Evolves (x ∷ xs) (y ∷ ys) = Reaches Moves x y × Evolves xs ys

  pub Evolves-same : (xs : List A) → Evolves xs xs
  Evolves-same [] = tt
  Evolves-same (x ∷ xs) = (here, Evolves-same xs)

  -- One step of the rows that a condition finds
  pub Evolves-update :
      (p : A → Bool) (f : A → A) (xs ys : List A)
      → Evolves xs ys
      → All (λ y. p y ≡ true → Moves y (f y)) ys
      → Evolves xs (update p f ys)
  unfolding update
  Evolves-update p f [] [] h k = tt
  Evolves-update p f [] (y ∷ ys) h k = elim (Bool-cases (p y)) [
    | inl hit ↦
        let (z, fresh, r) = h.0 in
        rw hit ((z, fresh, next r (k.0 hit)), Evolves-update p f [] ys h.1 k.1)
    | inr miss ↦ rw miss (h.0, Evolves-update p f [] ys h.1 k.1)
  ]
  Evolves-update p f (x ∷ xs) [] h k = h
  Evolves-update p f (x ∷ xs) (y ∷ ys) h k = elim (Bool-cases (p y)) [
    | inl hit ↦ rw hit (next h.0 (k.0 hit), Evolves-update p f xs ys h.1 k.1)
    | inr miss ↦ rw miss (h.0, Evolves-update p f xs ys h.1 k.1)
  ]

  pub Evolves-append :
      (xs ys : List A) (z : A) → Evolves xs ys → IsFresh z → Evolves xs (ys ++ z ∷ [])
  Evolves-append [] [] z h fresh = ((z, fresh, here), tt)
  Evolves-append [] (y ∷ ys) z h fresh = (h.0, Evolves-append [] ys z h.1 fresh)
  Evolves-append (x ∷ xs) [] z h fresh = absurd h
  Evolves-append (x ∷ xs) (y ∷ ys) z h fresh = (h.0, Evolves-append xs ys z h.1 fresh)

  module _ (P : A → Type 0) (step : (t u : A) → Moves t u → P t → P u) where
    pub Reaches-keeps : {t u : A} → Reaches Moves t u → P t → P u
    Reaches-keeps here h = h
    Reaches-keeps (next {u} {v} r m) h = step u v m (Reaches-keeps r h)

    -- What every step keeps and every fresh row has, every row has later on.
    pub Evolves-All :
        (xs ys : List A) → ((z : A) → IsFresh z → P z) → All P xs → Evolves xs ys → All P ys
    Evolves-All [] [] fresh h e = tt
    Evolves-All [] (y ∷ ys) fresh h e =
        let (z, f, r) = e.0 in (Reaches-keeps r (fresh z f), Evolves-All [] ys fresh tt e.1)
    Evolves-All (x ∷ xs) [] fresh h e = absurd e
    Evolves-All (x ∷ xs) (y ∷ ys) fresh h e =
        (Reaches-keeps e.0 h.0, Evolves-All xs ys fresh h.1 e.1)

  module _ (key : A → String) (same_key : (t u : A) → Moves t u → key u ≡ key t) where
    Reaches-key : {t u : A} → Reaches Moves t u → key u ≡ key t
    Reaches-key here = refl
    Reaches-key (next {u} {v} r m) = same_key u v m ∙ Reaches-key r

    -- A row that no step leaves is found by its key as it stands.
    pub Evolves-final :
        (k : String) (xs ys : List A) {t : A}
        → first (λ x. key x == k) xs ≡ some t
        → ((u : A) → Reaches Moves t u → u ≡ t)
        → Evolves xs ys
        → first (λ x. key x == k) ys ≡ some t
    unfolding first
    Evolves-final k [] ys found stuck e = absurd (cc found)
    Evolves-final k (x ∷ xs) [] found stuck e = absurd e
    Evolves-final k (x ∷ xs) (y ∷ ys) found stuck e = elim (Bool-cases (key x == k)) [
      | inl hit ↦
          let is_t = of_some (rw hit at found) in
          let same = stuck y (subst (λ z. Reaches Moves z y) is_t e.0) in
          rw (ap (λ w. key w == k) (same ∙ sym is_t) ∙ hit) (ap some same)
      | inr miss ↦
          rw (ap (λ w. w == k) (Reaches-key e.0) ∙ miss)
            (Evolves-final k xs ys (rw miss at found) stuck e.1)
    ]

module _ {A : Type 0} (key : A → String) where
  -- No two rows have one key.
  abbrev pub HasKeys : List A → Type 0
  HasKeys [] = Unit
  HasKeys (x ∷ xs) = (first (λ y. key y == key x) xs ≡ none) × HasKeys xs
