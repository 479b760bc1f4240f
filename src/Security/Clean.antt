-- ===== src/Security/Clean.antt =====
-- What the secret scan of sean_os/security.py finds, said without it.
use iac_ai_runtime.Prelude.{
  ℕ, ◌+◌, String, true, false, ◌&&◌, ◌≡◌, ◌↔◌, refl, List, [], ◌∷◌, ◌++◌, All, is_empty, Bool-cases,
  inl, inr, arith,
}
use iac_ai_runtime.Json.{Json, null, bool, num, str, arr, obj, Items, nil, cons, Fields, end, field}
use iac_ai_runtime.Security.{
  Search, PathStep, at_key, at_index, secret_patterns, is_sensitive_key, text_findings,
  key_findings, secret_findings, items_findings, fields_findings, has_secret,
}

is_empty-append : {A : Type 0} (xs ys : List A) → is_empty (xs ++ ys) ≡ (is_empty xs && is_empty ys)
is_empty-append [] ys = refl
is_empty-append (x ∷ xs) ys = refl

module _ (matches : Search) where
  -- No pattern matches a text anywhere in the value, and no key at any depth is a sensitive one.
  mutual
    pub IsClean : Json → Type 0
    IsClean null = Unit
    IsClean (bool b) = Unit
    IsClean (num n) = Unit
    IsClean (str t) = All (λ kind. matches kind t ≡ false) secret_patterns
    IsClean (arr xs) = AreClean xs
    IsClean (obj fs) = HasCleanFields fs

    pub AreClean : Items → Type 0
    AreClean nil = Unit
    AreClean (cons x xs) = IsClean x × AreClean xs

    pub HasCleanFields : Fields → Type 0
    HasCleanFields end = Unit
    HasCleanFields (field k v fs) = (is_sensitive_key k ≡ false) × IsClean v × HasCleanFields fs

  text-clean :
      (kinds : List String) (path : List PathStep) (t : String)
      → is_empty (text_findings matches kinds path t) ≡ true
      → All (λ kind. matches kind t ≡ false) kinds
  unfolding text_findings
  text-clean [] path t e = tt
  text-clean (kind ∷ kinds) path t e = elim (Bool-cases (matches kind t)) [
    | inl hit ↦ absurd (cc (rw hit at e))
    | inr miss ↦ (miss, text-clean kinds path t (rw miss at e))
  ]

  clean-text :
      (kinds : List String) (path : List PathStep) (t : String)
      → All (λ kind. matches kind t ≡ false) kinds
      → is_empty (text_findings matches kinds path t) ≡ true
  unfolding text_findings
  clean-text [] path t h = refl
  clean-text (kind ∷ kinds) path t h = rw h.0 (clean-text kinds path t h.1)

  halves :
      {A : Type 0} (xs ys : List A)
      → is_empty (xs ++ ys) ≡ true
      → (is_empty xs ≡ true) × (is_empty ys ≡ true)
  halves xs ys e = ground (arith, e, is_empty-append xs ys)

  unhalve :
      {A : Type 0} (xs ys : List A)
      → is_empty xs ≡ true
      → is_empty ys ≡ true
      → is_empty (xs ++ ys) ≡ true
  unhalve xs ys e f = ground (arith, e, f, is_empty-append xs ys)

  key-clean :
      (path : List PathStep) (k : String)
      → is_empty (key_findings matches path k) ≡ true
      → is_sensitive_key k ≡ false
  unfolding key_findings
  key-clean path k e = ground (arith, e)

  clean-key :
      (path : List PathStep) (k : String)
      → is_sensitive_key k ≡ false
      → is_empty (key_findings matches path k) ≡ true
  unfolding key_findings
  clean-key path k e = rw e refl

  mutual
    unfolding secret_findings items_findings fields_findings IsClean AreClean HasCleanFields

    found-IsClean :
        (path : List PathStep) (v : Json)
        → is_empty (secret_findings matches path v) ≡ true
        → IsClean v
    found-IsClean path null e = tt
    found-IsClean path (bool b) e = tt
    found-IsClean path (num n) e = tt
    found-IsClean path (str t) e = text-clean secret_patterns path t e
    found-IsClean path (arr xs) e = items-clean path 0 xs e
    found-IsClean path (obj fs) e = fields-clean path fs e

    items-clean :
        (path : List PathStep) (i : ℕ) (xs : Items)
        → is_empty (items_findings matches path i xs) ≡ true
        → AreClean xs
    items-clean path i nil e = tt
    items-clean path i (cons x xs) e =
        let (a, b) =
          halves (secret_findings matches (path ++ at_index i ∷ []) x)
            (items_findings matches path (i + 1) xs) e in
        (found-IsClean (path ++ at_index i ∷ []) x a, items-clean path (i + 1) xs b)

    fields-clean :
        (path : List PathStep) (fs : Fields)
        → is_empty (fields_findings matches path fs) ≡ true
        → HasCleanFields fs
    fields-clean path end e = tt
    fields-clean path (field k v fs) e =
        let child = path ++ at_key k ∷ [] in
        let (r, d) =
          halves (key_findings matches child k ++ secret_findings matches child v)
            (fields_findings matches path fs) e in
        let (a, b) = halves (key_findings matches child k) (secret_findings matches child v) r in
        (key-clean child k a, found-IsClean child v b, fields-clean path fs d)

  mutual
    unfolding secret_findings items_findings fields_findings IsClean AreClean HasCleanFields

    IsClean-found :
        (path : List PathStep) (v : Json)
        → IsClean v
        → is_empty (secret_findings matches path v) ≡ true
    IsClean-found path null h = refl
    IsClean-found path (bool b) h = refl
    IsClean-found path (num n) h = refl
    IsClean-found path (str t) h = clean-text secret_patterns path t h
    IsClean-found path (arr xs) h = clean-items path 0 xs h
    IsClean-found path (obj fs) h = clean-fields path fs h

    clean-items :
        (path : List PathStep) (i : ℕ) (xs : Items)
        → AreClean xs
        → is_empty (items_findings matches path i xs) ≡ true
    clean-items path i nil h = refl
    clean-items path i (cons x xs) h =
        unhalve (secret_findings matches (path ++ at_index i ∷ []) x)
          (items_findings matches path (i + 1) xs) (IsClean-found (path ++ at_index i ∷ []) x h.0)
          (clean-items path (i + 1) xs h.1)

    clean-fields :
        (path : List PathStep) (fs : Fields)
        → HasCleanFields fs
        → is_empty (fields_findings matches path fs) ≡ true
    clean-fields path end h = refl
    clean-fields path (field k v fs) (key, val, rest) =
        let child = path ++ at_key k ∷ [] in
        unhalve (key_findings matches child k ++ secret_findings matches child v)
          (fields_findings matches path fs)
          (unhalve (key_findings matches child k) (secret_findings matches child v)
            (clean-key child k key) (IsClean-found child v val))
          (clean-fields path fs rest)

  -- The secret scan finds nothing in a value exactly where no pattern matches a text anywhere in it
  -- and no key of an object at any depth is a sensitive one.
  pub has_secret-IsClean : (v : Json) → (has_secret matches v ≡ false) ↔ IsClean v
  unfolding has_secret
  has_secret-IsClean v = (
    λ e. found-IsClean [] v (ground (arith, e)),
    λ h. let k = IsClean-found [] v h in ground (arith, k),
  )
