-- ===== src/Table.antt =====
-- SQL over a table that is held as the list of its rows, in the order of their insertion.
pub mod Laws
use iac_ai_runtime.Prelude.{
  ℕ, zero, suc, ◌+◌, Bool, true, false, ◌≡◌, refl, Option, none, some, List, [], ◌∷◌, ◌++◌,
  if◌then◌else◌, not, arith,
}

module _ {ℓ} {A : Type ℓ} where
  -- SELECT ... WHERE p
  unfoldable pub select : (A → Bool) → List A → List A
  select p [] = []
  select p (x ∷ xs) = let rest = select p xs in if p x then x ∷ rest else rest

  -- SELECT ... WHERE p, `fetchone`
  unfoldable pub first : (A → Bool) → List A → Option A
  first p [] = none
  first p (x ∷ xs) = if p x then some x else first p xs

  -- UPDATE ... SET f WHERE p
  unfoldable pub update : (A → Bool) → (A → A) → List A → List A
  update p f [] = []
  update p f (x ∷ xs) = (if p x then f x else x) ∷ update p f xs

  -- SELECT COUNT(*) ... WHERE p, and the `rowcount` of an UPDATE
  unfoldable pub count_rows : (A → Bool) → List A → ℕ
  count_rows p [] = 0
  count_rows p (x ∷ xs) = (if p x then 1 else 0) + count_rows p xs

  -- DELETE ... WHERE p
  unfoldable pub delete : (A → Bool) → List A → List A
  unfolding select
  delete p xs = select (λ x. not (p x)) xs

  abbrev pub better : (A → A → Bool) → A → Option A → Option A
  better before x none = some x
  better before x (some y) = if before y x then some y else some x

  -- ORDER BY ... LIMIT 1: the earliest row before which no row comes. `before y x` holds where `y`
  -- sorts strictly before `x`.
  unfoldable pub first_by : (A → A → Bool) → List A → Option A
  first_by before [] = none
  first_by before (x ∷ xs) = better before x (first_by before xs)

  abbrev pub insert_by : (A → A → Bool) → A → List A → List A
  insert_by before x [] = x ∷ []
  insert_by before x (y ∷ ys) =
      let rest = insert_by before x ys in if before y x then y ∷ rest else x ∷ y ∷ ys

  -- ORDER BY ...
  unfoldable pub order_by : (A → A → Bool) → List A → List A
  order_by before [] = []
  order_by before (x ∷ xs) = insert_by before x (order_by before xs)
