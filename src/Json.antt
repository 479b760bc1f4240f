-- ===== src/Json.antt =====
-- The JSON values that the store keeps in its text columns (`json.dumps(..., sort_keys=True)` and
-- `json.loads`). The fields of an object stand in the order of their keys, so that equal objects
-- are equal values. A number is not negative and whole, in the smallest unit that the deployment
-- counts in.
use iac_ai_runtime.Text.{codes, text_ltb}
use iac_ai_runtime.Prelude.{
  ℕ, leb, ◌+◌, ◌*◌, ◌-◌, String, Bool, true, false, Option, none, some, List, [], ◌∷◌, ◌&&◌, ◌==◌,
  if◌then◌else◌, nat_eq,
}
use iac_ai_runtime.Exec.{Result, ok, err, type_error, value_error}

mutual
  pub data Json : Type 0 where
    null : Json
    bool : Bool → Json
    num : ℕ → Json
    str : String → Json
    arr : Items → Json
    obj : Fields → Json

  pub data Items : Type 0 where
    nil : Items
    cons : Json → Items → Items

  pub data Fields : Type 0 where
    end : Fields
    field : String → Json → Fields → Fields

abbrev pub bool_eq : Bool → Bool → Bool
bool_eq true b = b
bool_eq false true = false
bool_eq false false = true

-- `==` of two values
unfoldable mutual
  pub json_eq : Json → Json → Bool
  json_eq null null = true
  json_eq (bool a) (bool b) = bool_eq a b
  json_eq (num m) (num n) = nat_eq m n
  json_eq (str s) (str t) = s == t
  json_eq (arr xs) (arr ys) = items_eq xs ys
  json_eq (obj xs) (obj ys) = fields_eq xs ys
  json_eq _ _ = false

  pub items_eq : Items → Items → Bool
  items_eq nil nil = true
  items_eq (cons x xs) (cons y ys) = json_eq x y && items_eq xs ys
  items_eq _ _ = false

  pub fields_eq : Fields → Fields → Bool
  fields_eq end end = true
  fields_eq (field k x xs) (field j y ys) = k == j && json_eq x y && fields_eq xs ys
  fields_eq _ _ = false

-- dict.get(key)
unfoldable pub get_field : String → Fields → Option Json
get_field key end = none
get_field key (field k v fs) = if k == key then some v else get_field key fs

-- dict.get(key) of a value that must be a dict
unfoldable pub get_key : String → Json → Option Json
unfolding get_field
get_key key (obj fs) = get_field key fs
get_key key _ = none

-- The number that a text of digits shows.
digits_value : ℕ → List ℕ → Option ℕ
digits_value n [] = some n
digits_value n (c ∷ cs) =
    let rest = digits_value (n * 10 + (c - 48)) cs in if leb 48 c && leb c 57 then rest else none

numeral : List ℕ → Result ℕ
unfolding digits_value
numeral [] = err (value_error "could not convert string to float")
numeral (c ∷ cs) = elim (digits_value 0 (c ∷ cs)) [
  | none ↦ err (value_error "could not convert string to float")
  | some n ↦ ok n
]

-- float(value); of the texts that it reads, the ones of ASCII digits alone
unfoldable pub float_of : Json → Result ℕ
unfolding numeral
float_of (num n) = ok n
float_of (bool true) = ok 1
float_of (bool false) = ok 0
float_of (str t) = numeral (codes t)
float_of _ = err type_error

-- A dict literal, its keys written in order.
abbrev pub dict : List (String × Json) → Fields
dict [] = end
dict ((k, v) ∷ kvs) = field k v (dict kvs)

abbrev pub texts : List String → Items
texts [] = nil
texts (t ∷ ts) = cons (str t) (texts ts)

-- dict[key] = value
unfoldable pub put_field : String → Json → Fields → Fields
put_field key v end = field key v end
put_field key v (field k w fs) = if k == key then field k v fs else field k w (put_field key v fs)

-- A key that a dict does not have, in its place in the order of the keys
unfoldable pub insert_field : String → Json → Fields → Fields
insert_field key v end = field key v end
insert_field key v (field k w fs) =
    let rest = insert_field key v fs in
    if text_ltb key k then field key v (field k w fs) else field k w rest

-- dict.update(other)
unfoldable pub merge : Fields → Fields → Fields
unfolding put_field
merge fs end = fs
merge fs (field k v gs) = merge (put_field k v fs) gs
