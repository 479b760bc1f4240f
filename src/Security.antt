-- ===== src/Security.antt =====
-- sean_os/security.py: the scan for secret-like material. The compiled patterns are Python's `re`:
-- `matches kind text` stands for `pattern.search(text)` of the pattern that has that kind.
pub mod Clean
use iac_ai_runtime.Prelude.{
  ℕ, ◌+◌, String, Bool, List, [], ◌∷◌, ◌++◌, ◌||◌, not, false, if◌then◌else◌, is_empty,
}
use iac_ai_runtime.Text.{codes, normalized, same_codes, has_content, one_line, prefix}
use iac_ai_runtime.Json.{Json, str, arr, obj, Items, nil, cons, Fields, end, field}

abbrev pub Search : Type 0
Search = String → String → Bool

-- A step of the path of a finding: `.key` or `[index]`.
pub data PathStep : Type 0 where
  at_key : String → PathStep
  at_index : ℕ → PathStep

pub record Finding : Type 0 where
  pub path : List PathStep
  pub kind : String

abbrev pub sensitive_keys : List String
sensitive_keys =
    "password" ∷ "passphrase" ∷ "secret" ∷ "client_secret" ∷ "api_key" ∷ "access_token"
    ∷ "refresh_token" ∷ "recovery_code" ∷ "recovery_codes" ∷ "private_key" ∷ "account_number"
    ∷ "routing_number" ∷ "credential" ∷ "credentials" ∷ []

abbrev pub secret_patterns : List String
secret_patterns = "private_key_block" ∷ "openai_style_key" ∷ "aws_access_key" ∷ "bearer_token" ∷ []

is_listed : List ℕ → List String → Bool
is_listed cs [] = false
is_listed cs (k ∷ ks) = same_codes (codes k) cs || is_listed cs ks

-- `normalized in SENSITIVE_KEYS`
unfoldable pub is_sensitive_key : String → Bool
unfolding is_listed
is_sensitive_key key = is_listed (normalized key) sensitive_keys

module _ (matches : Search) where
  -- the loop over SECRET_PATTERNS
  unfoldable pub text_findings : List String → List PathStep → String → List Finding
  text_findings [] path text = []
  text_findings (kind ∷ kinds) path text =
      let rest = text_findings kinds path text in
      if matches kind text then record { path = path; kind = kind } ∷ rest else rest

  unfoldable pub key_findings : List PathStep → String → List Finding
  key_findings child key =
      if is_sensitive_key key then record { path = child; kind = "sensitive_key" } ∷ [] else []

  unfoldable mutual
    pub secret_findings : List PathStep → Json → List Finding
    secret_findings path (obj fs) = fields_findings path fs
    secret_findings path (arr xs) = items_findings path 0 xs
    secret_findings path (str t) = text_findings secret_patterns path t
    secret_findings path _ = []

    pub items_findings : List PathStep → ℕ → Items → List Finding
    items_findings path i nil = []
    items_findings path i (cons x xs) =
        secret_findings (path ++ at_index i ∷ []) x ++ items_findings path (i + 1) xs

    pub fields_findings : List PathStep → Fields → List Finding
    fields_findings path end = []
    fields_findings path (field k v fs) =
        let child = path ++ at_key k ∷ [] in
        key_findings child k ++ secret_findings child v ++ fields_findings path fs

  -- `if secret_findings(value)`
  unfoldable pub has_secret : Json → Bool
  has_secret v = not (is_empty (secret_findings [] v))

  -- `safe_persisted_text(value)`: one line of at most 500 characters, and a fixed text in the place
  -- of one that is blank or that the scan refuses
  unfoldable pub safe_persisted_text : String → String
  unfolding has_secret
  safe_persisted_text value =
      let text = one_line value in
      if not (has_content text) || has_secret (str text)
      then "Sensitive detail redacted"
      else prefix 500 text
