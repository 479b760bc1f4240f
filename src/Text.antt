-- ===== src/Text.antt =====
-- The text methods of Python that the source uses, over ASCII: `strip`, `lower`, `replace` of one
-- character, `upper`, the test that a text is not blank, and `sorted(set(texts))`.
use Prim.Native.Char.{Char, code}
use Prim.Native.Nat.{Ordering}
use Prim.Native.String.{compare}
use iac_ai_runtime.Prelude.{
  ℕ, zero, suc, ◌+◌, String, Bool, true, false, not, ◌&&◌, ◌||◌, List, [], ◌∷◌, map, leb, nat_eq,
  if◌then◌else◌, ◌==◌, ◌≡◌, ◌∙◌, refl, ap, arith, has_text, Bool-cases, inl, inr, eq_iff,
}

-- The code points of a text.
abbrev pub codes : String → List ℕ
codes String.[] = []
codes (String.◌∷◌ c s) = code c ∷ codes s

abbrev pub is_space : ℕ → Bool
is_space c = nat_eq c 32 || leb 9 c && leb c 13 || leb 28 c && leb c 31

-- text.strip() is empty
unfoldable pub is_blank : List ℕ → Bool
is_blank [] = true
is_blank (c ∷ cs) = is_space c && is_blank cs

-- bool(text.strip())
abbrev pub has_content : String → Bool
has_content t = not (is_blank (codes t))

strip_left : List ℕ → List ℕ
strip_left [] = []
strip_left (c ∷ cs) = let rest = strip_left cs in if is_space c then rest else c ∷ cs

strip_right : List ℕ → List ℕ
strip_right [] = []
strip_right (c ∷ cs) = let rest = strip_right cs in if is_blank (c ∷ cs) then [] else c ∷ rest

lower_code : ℕ → ℕ
lower_code c = if leb 65 c && leb c 90 then c + 32 else c

-- .replace("-", "_").replace(" ", "_")
underscore : ℕ → ℕ
underscore c = if nat_eq c b'-' || nat_eq c 32 then b'_' else c

-- str(key).strip().lower().replace("-", "_").replace(" ", "_")
unfoldable pub normalized : String → List ℕ
unfolding strip_left strip_right lower_code underscore is_blank
normalized key = map underscore (map lower_code (strip_left (strip_right (codes key))))

unfoldable pub same_codes : List ℕ → List ℕ → Bool
same_codes [] [] = true
same_codes [] (d ∷ ds) = false
same_codes (c ∷ cs) [] = false
same_codes (c ∷ cs) (d ∷ ds) = nat_eq c d && same_codes cs ds

-- Drops the white space in front.
trim_left : String → String
trim_left String.[] = String.[]
trim_left (String.◌∷◌ c s) =
    let rest = trim_left s in if is_space (code c) then rest else String.◌∷◌ c s

spaced : String → String
spaced String.[] = String.[]
spaced (String.◌∷◌ c s) =
    if is_space (code c) then String.◌∷◌ c s else String.◌∷◌ " " (String.◌∷◌ c s)

-- Each run of white space becomes one space, and the run at the end goes.
squeeze : String → String
unfolding spaced
squeeze String.[] = String.[]
squeeze (String.◌∷◌ c s) =
    let rest = squeeze s in if is_space (code c) then spaced rest else String.◌∷◌ c rest

-- " ".join(text.split())
unfoldable pub one_line : String → String
unfolding trim_left spaced squeeze
one_line text = squeeze (trim_left text)

-- text[:n]
unfoldable pub prefix : ℕ → String → String
prefix zero s = String.[]
prefix (suc n) String.[] = String.[]
prefix (suc n) (String.◌∷◌ c s) = String.◌∷◌ c (prefix n s)

-- `s < t`
abbrev pub text_ltb : String → String → Bool
text_ltb s t = elim (compare s t) [ Ordering.lt ↦ true | _ ↦ false ]

-- The letter of the second text that stands where `c` stands in the first.
upper_in : String → String → Char → Char
upper_in String.[] bs c = c
upper_in (String.◌∷◌ a as_) String.[] c = c
upper_in (String.◌∷◌ a as_) (String.◌∷◌ b bs) c =
    let rest = upper_in as_ bs c in if nat_eq (code a) (code c) then b else rest

-- text.upper()
unfoldable pub upper : String → String
unfolding upper_in
upper String.[] = String.[]
upper (String.◌∷◌ c s) =
    String.◌∷◌ (upper_in "abcdefghijklmnopqrstuvwxyz" "ABCDEFGHIJKLMNOPQRSTUVWXYZ" c) (upper s)

insert_text : String → List String → List String
insert_text s [] = s ∷ []
insert_text s (t ∷ ts) =
    let rest = insert_text s ts in
    if t == s then t ∷ ts else if text_ltb s t then s ∷ t ∷ ts else t ∷ rest

-- sorted(set(texts))
unfoldable pub sorted_set : List String → List String
unfolding insert_text
sorted_set [] = []
sorted_set (s ∷ ss) = insert_text s (sorted_set ss)

has_text-insert_text :
    (x s : String) (ts : List String) → has_text x (insert_text s ts) ≡ (s == x || has_text x ts)
unfolding insert_text
has_text-insert_text x s [] = refl
has_text-insert_text x s (t ∷ ts) = elim (Bool-cases (t == s)) [
  | inl hit ↦ let same = (eq_iff t s).0 hit in rw hit (ground (arith, same))
  | inr miss ↦ ground (arith, miss, has_text-insert_text x s ts)
]

-- Sorting and deleting repetitions keeps the members.
pub has_text-sorted_set :
    (x : String) (ts : List String) → has_text x (sorted_set ts) ≡ has_text x ts
unfolding sorted_set
has_text-sorted_set x [] = refl
has_text-sorted_set x (t ∷ ts) =
    has_text-insert_text x t (sorted_set ts) ∙ ap (λ b. t == x || b) (has_text-sorted_set x ts)
