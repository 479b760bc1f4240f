-- ===== src/Outbox/Kept.antt =====
-- Tables with a key whose rows go through a lifecycle: the statements that keep both the lifecycle
-- and the key.
use iac_ai_runtime.Prelude.{
  String, Bool, true, false, ◌≡◌, refl, ap, ◌∙◌, ◌==◌, eq_iff, none, some, of_some, List, [], ◌∷◌,
  ◌++◌, All, Bool-cases, inl, inr, arith,
}
use iac_ai_runtime.Table.{first, update}
use iac_ai_runtime.Table.Laws.{All-map, first-All}
use iac_ai_runtime.Outbox.{Evolves, Evolves-update, Evolves-append, HasKeys}

module _ {A : Type 0} where
  none-All : (p : A → Bool) (xs : List A) → first p xs ≡ none → All (λ x. p x ≡ false) xs
  unfolding first
  none-All p [] e = tt
  none-All p (x ∷ xs) e = elim (Bool-cases (p x)) [
    | inl hit ↦ absurd (cc (rw hit at e))
    | inr miss ↦ (miss, none-All p xs (rw miss at e))
  ]

  module _ (key : A → String) where
    none-update :
        (k : String) (p : A → Bool) (f : A → A) (xs : List A)
        → All (λ y. p y ≡ true → key (f y) ≡ key y) xs
        → first (λ y. key y == k) xs ≡ none
        → first (λ y. key y == k) (update p f xs) ≡ none
    unfolding first update
    none-update k p f [] h e = refl
    none-update k p f (x ∷ xs) h e = elim (Bool-cases (key x == k)) [
      | inl hit ↦ absurd (cc (rw hit at e))
      | inr miss ↦ elim (Bool-cases (p x)) [
        | inl b ↦
            rw b (rw (ap (λ w. w == k) (h.0 b) ∙ miss) (none-update k p f xs h.1 (rw miss at e)))
        | inr b ↦ rw b (rw miss (none-update k p f xs h.1 (rw miss at e)))
      ]
    ]

    HasKeys-update :
        (p : A → Bool) (f : A → A) (xs : List A)
        → All (λ y. p y ≡ true → key (f y) ≡ key y) xs
        → HasKeys key xs
        → HasKeys key (update p f xs)
    unfolding update
    HasKeys-update p f [] h k = tt
    HasKeys-update p f (x ∷ xs) h k = elim (Bool-cases (p x)) [
      | inl b ↦
          let rest = none-update (key x) p f xs h.1 k.0 in
          rw b (rw (h.0 b) rest, HasKeys-update p f xs h.1 k.1)
      | inr b ↦ rw b (none-update (key x) p f xs h.1 k.0, HasKeys-update p f xs h.1 k.1)
    ]

    none-append :
        (k : String) (xs : List A) (z : A)
        → first (λ y. key y == k) xs ≡ none
        → (key z == k) ≡ false
        → first (λ y. key y == k) (xs ++ z ∷ []) ≡ none
    unfolding first
    none-append k [] z e m = rw m refl
    none-append k (x ∷ xs) z e m = elim (Bool-cases (key x == k)) [
      | inl hit ↦ absurd (cc (rw hit at e))
      | inr miss ↦ rw miss (none-append k xs z (rw miss at e) m)
    ]

    HasKeys-append :
        (xs : List A) (z : A)
        → HasKeys key xs
        → All (λ y. (key z == key y) ≡ false) xs
        → HasKeys key (xs ++ z ∷ [])
    unfolding first
    HasKeys-append [] z h m = (refl, tt)
    HasKeys-append (x ∷ xs) z h m = (none-append (key x) xs z h.0 m.0, HasKeys-append xs z h.1 m.1)

    differs : (k l : String) → (k == l) ≡ false → (l == k) ≡ false
    differs k l e = ground (arith, eq_iff k l, eq_iff l k)

    -- A row that a condition finds is the only one with its key.
    pub only_row :
        (p : A → Bool) (xs : List A) {t : A}
        → HasKeys key xs
        → first p xs ≡ some t
        → All (λ y. (key y == key t) ≡ true → y ≡ t) xs
    unfolding first
    only_row p [] h e = tt
    only_row p (x ∷ xs) {t} h e = elim (Bool-cases (p x)) [
      | inl hit ↦
          let is_t = of_some (rw hit at e) in
          (λ _. is_t, All-map _ _ xs (apart x t is_t) (none-All _ xs h.0))
      | inr miss ↦
          let found = rw miss at e in
          (
            λ same. absurd (
                cc (
                  same,
                  differs _ _
                      (first-All (λ y. (key y == key x) ≡ false) p xs (none-All _ xs h.0) found),
                )),
            only_row p xs h.1 found,
          )
    ]
      where
        apart :
            (z u : A) → z ≡ u → (y : A) → (key y == key z) ≡ false → (key y == key u) ≡ true → y ≡ u
        apart z u is_u y other same = absurd (cc (ap key is_u, other, same))

    module _ (Moves : A → A → Type 0) (IsFresh : A → Type 0) where
      -- The rows have gone through the lifecycle from `xs` on, and they have different keys.
      pub record IsKept (xs ys : List A) : Type 0 where
        pub evolves : Evolves Moves IsFresh xs ys
        pub keys : HasKeys key ys

      pub IsKept-append :
          (xs ys : List A) (z : A)
          → IsKept xs ys
          → IsFresh z
          → first (λ y. key y == key z) ys ≡ none
          → IsKept xs (ys ++ z ∷ [])
      IsKept-append xs ys z h fresh e = record {
        evolves = Evolves-append Moves IsFresh xs ys z h.evolves fresh;
        keys =
            HasKeys-append ys z h.keys
              (All-map _ _ ys (λ y other. differs _ _ other) (none-All _ ys e));
      }

      module _ (same_key : (t u : A) → Moves t u → key u ≡ key t) where
        pub IsKept-update :
            (p : A → Bool) (f : A → A) (xs ys : List A)
            → IsKept xs ys
            → All (λ y. p y ≡ true → Moves y (f y)) ys
            → IsKept xs (update p f ys)
        IsKept-update p f xs ys h k = record {
          evolves = Evolves-update Moves IsFresh p f xs ys h.evolves k;
          keys = HasKeys-update p f ys (All-map _ _ ys (λ y m b. same_key y (f y) (m b)) k) h.keys;
        }
