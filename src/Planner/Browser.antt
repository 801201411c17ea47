-- ===== src/Planner/Browser.antt =====
-- `_validate_intent` of foundry_action_bridge.py: the typed actions of the browser bridge.
use yantra_os.Prelude.{
  ℕ, String, Bool, true, false, ◌&&◌, ◌||◌, not, Option, none, some, List, [], ◌∷◌, ◌++◌, str_eq,
  ltb, leb, ◌==◌, if◌then◌else◌,
}
use yantra_os.Prelude.Lists.{length, any, all, codes}
use yantra_os.Json.{Json, str, obj, Fields, get, keys, subset_text, contains_text}
use yantra_os.Bridge.Action.{Schema, starts_with, is_hidden}
use yantra_os.Bridge.Task.{has_nul}

abbrev pub max_url_chars : ℕ
max_url_chars = 4096

abbrev pub max_path_chars : ℕ
max_path_chars = 512

abbrev pub max_instruction_chars : ℕ
max_instruction_chars = 2000

abbrev pub max_content_bytes : ℕ
max_content_bytes = 1048576

-- What `urlsplit` reads of a URL: the scheme in lower case, whether there is a host, a user or a
-- password, and a fragment.
pub record UrlParts : Type 0 where
  pub scheme : String
  pub has_host : Bool
  pub has_credentials : Bool
  pub has_fragment : Bool

-- What the checks call: `isspace`, `urlsplit` with its port, none where either raises, `strip`, the
-- parts between slashes, and the length of the UTF-8 encoding.
pub record Library : Type 0 where
  pub is_space : ℕ → Bool
  pub urlsplit : String → Option UrlParts
  pub strip : String → String
  pub split : String → List (List ℕ)
  pub byte_length : String → ℕ

-- `_ACTION_SCHEMAS`
unfoldable pub action_schema : String → Option Schema
action_schema action =
    if str_eq action "open_url"
    then some (record { required = "action" ∷ "url" ∷ []; optional = [] })
    else if str_eq action "create_dummy_file"
    then some (record { required = "action" ∷ "path" ∷ []; optional = "content" ∷ [] })
    else if str_eq action "navigate_and_extract"
    then some
        (record { required = "action" ∷ "url" ∷ "instruction" ∷ "output_path" ∷ []; optional = [] })
    else none

abbrev pub is_public : Option UrlParts → Bool
is_public none = false
is_public (some u) =
    contains_text u.scheme ("http" ∷ "https" ∷ [])
    && u.has_host
    && not u.has_credentials
    && not u.has_fragment

-- `_validate_url`
unfoldable pub is_valid_url : Library → Option Json → Bool
unfolding any contains_text
is_valid_url l (some (str url)) =
    not (str_eq url "")
    && not (ltb max_url_chars (length (codes url)))
    && not (any (λ c. l.is_space c || ltb c 32) (codes url))
    && not (any (λ c. c == b'\\') (codes url))
    && is_public (l.urlsplit url)
is_valid_url l _ = false

abbrev pub is_letter_or_digit : ℕ → Bool
is_letter_or_digit c =
    (leb b'A' c && leb c b'Z') || (leb b'a' c && leb c b'z') || (leb b'0' c && leb c b'9')

-- `_VISIBLE_PATH_COMPONENT`
abbrev pub is_component : List ℕ → Bool
is_component [] = false
is_component (c ∷ cs) =
    is_letter_or_digit c && all (λ d. is_letter_or_digit d || any (λ e. d == e) (codes " _.()-")) cs

-- `_validate_path`
unfoldable pub is_valid_path : Library → Option Json → Bool
unfolding any all
is_valid_path l (some (str path)) =
    not (str_eq path "")
    && not (ltb max_path_chars (length (codes path)))
    && str_eq path (l.strip path)
    && not (starts_with b'/' (codes path))
    && not (starts_with b'~' (codes path))
    && not (any (λ c. c == b'\\') (codes path))
    && not (any (λ part. is_hidden part || not (is_component part)) (l.split path))
is_valid_path l _ = false

-- `_validate_content` of `intent.get("content", "")`
unfoldable pub is_valid_content : Library → Option Json → Bool
unfolding any
is_valid_content l none = true
is_valid_content l (some (str s)) = not (ltb max_content_bytes (l.byte_length s)) && not (has_nul s)
is_valid_content l (some v) = false

-- `_validate_instruction`
unfoldable pub is_valid_instruction : Library → Option Json → Bool
unfolding any
is_valid_instruction l (some (str s)) =
    not (str_eq (l.strip s) "")
    && not (ltb max_instruction_chars (length (codes (l.strip s))))
    && not (has_nul (l.strip s))
is_valid_instruction l _ = false

-- the checks of an action whose fields are those of its schema
unfoldable pub is_valid_action : Library → String → Fields → Bool
unfolding get is_valid_url is_valid_path is_valid_content is_valid_instruction
is_valid_action l action fs =
    if str_eq action "open_url"
    then is_valid_url l (get "url" fs)
    else if str_eq action "create_dummy_file"
    then is_valid_path l (get "path" fs) && is_valid_content l (get "content" fs)
    else is_valid_url l (get "url" fs)
      && is_valid_instruction l (get "instruction" fs)
      && is_valid_path l (get "output_path" fs)

abbrev pub has_schema : Option Schema → Fields → Bool
has_schema none fs = false
has_schema (some s) fs =
    subset_text s.required (keys fs) && subset_text (keys fs) (s.required ++ s.optional)

abbrev pub is_valid_named : Library → Option Json → Fields → Bool
is_valid_named l (some (str action)) fs =
    has_schema (action_schema action) fs && is_valid_action l action fs
is_valid_named l _ fs = false

-- whether `_validate_intent` returns
unfoldable pub validates : Library → Json → Bool
unfolding is_valid_action action_schema get keys subset_text
validates l (obj fs) = is_valid_named l (get "action" fs) fs
validates l _ = false
