-- ===== src/Bridge/Action.antt =====
-- `_managed_parts` and `validate_model_action`: the paths of managed files, and the actions that a model
-- may name.
use yantra_os.Prelude.{
  ℕ, String, Bool, true, false, ◌&&◌, ◌||◌, not, Option, none, some, List, [], ◌∷◌, ◌++◌, str_eq,
  ltb, leb, ◌==◌, if◌then◌else◌,
}
use yantra_os.Prelude.Lists.{length, any, all, codes}
use yantra_os.Prelude.Result.{Result, ok, err, ◌>>◌, raise_if}
use yantra_os.Json.{Json, bool, int, neg, str, obj, Fields, get, keys, subset_text, contains_text}
use yantra_os.Bridge.Task.{has_nul}

abbrev pub max_model_text_bytes : ℕ
max_model_text_bytes = 4096

abbrev pub max_clipboard_bytes : ℕ
max_clipboard_bytes = 8192

abbrev pub max_key_events : ℕ
max_key_events = 32

abbrev pub max_key_string_chars : ℕ
max_key_string_chars = 256

abbrev pub max_wait_seconds : ℕ
max_wait_seconds = 10

abbrev pub max_done_reason_chars : ℕ
max_done_reason_chars = 1000

-- What the checks call: the length of a text's UTF-8 encoding, and the numbers of the events that
-- `_KEY_SEQUENCE_RE` and `split` find in a key sequence, none where it does not match.
pub record Texts : Type 0 where
  pub byte_length : String → ℕ
  pub key_codes : String → Option (List ℕ)

-- the fields that an action of the model must have, and those that it may have
pub record Schema : Type 0 where
  pub required : List String
  pub optional : List String

-- `_MODEL_ACTION_SCHEMAS`
unfoldable pub schema_of : String → Option Schema
schema_of action =
    if contains_text action ("click" ∷ "double_click" ∷ [])
    then some (record { required = "action" ∷ "x" ∷ "y" ∷ []; optional = "button" ∷ [] })
    else if str_eq action "type"
    then some (record { required = "action" ∷ "text" ∷ []; optional = [] })
    else if str_eq action "key"
    then some (record { required = "action" ∷ "key" ∷ []; optional = [] })
    else if str_eq action "wait"
    then some (record { required = "action" ∷ "seconds" ∷ []; optional = [] })
    else if str_eq action "clipboard_copy"
    then some (record { required = "action" ∷ []; optional = "text" ∷ [] })
    else if str_eq action "clipboard_paste"
    then some (record { required = "action" ∷ []; optional = [] })
    else if str_eq action "done"
    then some (record { required = "action" ∷ []; optional = "reason" ∷ "success" ∷ [] })
    else none

pub data ActionError : Type 0 where
  not_object unknown_action wrong_fields : ActionError
  not_integers no_dimensions outside bad_button : ActionError
  bad_text bad_key too_many_keys bad_wait bad_clipboard bad_reason bad_success : ActionError

-- a coordinate, none where the value is no integer (`True` and `False` are none either)
abbrev pub number_of : Option Json → Option ℕ
number_of (some (int n)) = some n
number_of _ = none

-- a value that is an integer of either sign
abbrev pub is_integer : Option Json → Bool
is_integer (some (int n)) = true
is_integer (some (neg n)) = true
is_integer _ = false

abbrev pub is_below : Option ℕ → ℕ → Bool
is_below none limit = false
is_below (some n) limit = ltb n limit

-- `action.get("button", "left")`
abbrev pub button_of : Option Json → Option String
button_of none = some "left"
button_of (some (str s)) = some s
button_of (some v) = none

abbrev pub is_button : Option String → Bool
is_button none = false
is_button (some s) = contains_text s ("left" ∷ "right" ∷ [])

-- the checks of a click, within the screenshot's size; a size that is not known is 0
unfoldable pub check_click : Fields → ℕ → ℕ → Result ActionError (Unit {0})
unfolding get contains_text
check_click fs w h = do
  raise_if (not (is_integer (get "x" fs)) || not (is_integer (get "y" fs))) not_integers
  raise_if (w == 0 || h == 0) no_dimensions
  raise_if (not (is_below (number_of (get "x" fs)) w && is_below (number_of (get "y" fs)) h))
      outside
  raise_if (not (is_button (button_of (get "button" fs)))) bad_button
  ok tt

unfoldable pub check_type : Texts → Option Json → Result ActionError (Unit {0})
unfolding any
check_type t (some (str s)) =
    if ltb max_model_text_bytes (t.byte_length s) || has_nul s then err bad_text else ok tt
check_type t _ = err bad_text

abbrev pub check_codes : Option (List ℕ) → Result ActionError (Unit {0})
check_codes none = err bad_key
check_codes (some ks) =
    if ltb max_key_events (length ks) || any (λ k. ltb 767 k) ks then err too_many_keys else ok tt

unfoldable pub check_key : Texts → Option Json → Result ActionError (Unit {0})
unfolding any
check_key t (some (str s)) =
    if ltb max_key_string_chars (length (codes s)) then err bad_key else check_codes (t.key_codes s)
check_key t _ = err bad_key

unfoldable pub check_wait : Option Json → Result ActionError (Unit {0})
check_wait (some (int n)) = if not (leb 1 n && leb n max_wait_seconds) then err bad_wait else ok tt
check_wait _ = err bad_wait

-- `_clipboard_bytes` of a text that is given
unfoldable pub check_clipboard : Texts → Option Json → Result ActionError (Unit {0})
unfolding any
check_clipboard t none = ok tt
check_clipboard t (some (str s)) =
    if ltb max_clipboard_bytes (t.byte_length s) || has_nul s then err bad_clipboard else ok tt
check_clipboard t (some v) = err bad_clipboard

abbrev pub is_reason : Option Json → Bool
is_reason none = true
is_reason (some (str s)) = not (ltb max_done_reason_chars (length (codes s)))
is_reason (some v) = false

abbrev pub is_flag : Option Json → Bool
is_flag none = true
is_flag (some (bool b)) = true
is_flag (some v) = false

unfoldable pub check_done : Fields → Result ActionError (Unit {0})
unfolding get
check_done fs = do
  raise_if (not (is_reason (get "reason" fs))) bad_reason
  raise_if (not (is_flag (get "success" fs))) bad_success
  ok tt

-- the checks of an action whose fields are those of its schema
unfoldable pub check_fields : Texts → ℕ → ℕ → String → Fields → Result ActionError (Unit {0})
unfolding check_click check_type check_key check_wait check_clipboard check_done get contains_text
check_fields t w h action fs =
    if contains_text action ("click" ∷ "double_click" ∷ [])
    then check_click fs w h
    else if str_eq action "type"
    then check_type t (get "text" fs)
    else if str_eq action "key"
    then check_key t (get "key" fs)
    else if str_eq action "wait"
    then check_wait (get "seconds" fs)
    else if str_eq action "clipboard_copy"
    then check_clipboard t (get "text" fs)
    else if str_eq action "done"
    then check_done fs
    else ok tt

abbrev pub fields_match : Schema → Fields → Bool
fields_match s fs =
    subset_text s.required (keys fs) && subset_text (keys fs) (s.required ++ s.optional)

unfoldable pub check_named :
    Texts → ℕ → ℕ → String → Fields → Option Schema → Result ActionError Fields
unfolding check_fields subset_text keys
check_named t w h action fs none = err unknown_action
check_named t w h action fs (some s) = do
  raise_if (not (fields_match s fs)) wrong_fields
  check_fields t w h action fs
  ok fs

unfoldable pub validate_fields : Texts → ℕ → ℕ → Option Json → Fields → Result ActionError Fields
unfolding check_named schema_of
validate_fields t w h (some (str action)) fs = check_named t w h action fs (schema_of action)
validate_fields t w h _ fs = err unknown_action

-- A validated action is the object that is given.
unfoldable pub validate_model_action : Texts → ℕ → ℕ → Json → Result ActionError Fields
unfolding validate_fields get
validate_model_action t w h (obj fs) = validate_fields t w h (get "action" fs) fs
validate_model_action t w h _ = err not_object

-- `_managed_parts`, of the text, its parts between slashes, whether it is its own `strip`, and the
-- test of `isalnum`
pub record Paths : Type 0 where
  pub split : String → List (List ℕ)
  pub is_stripped : String → Bool
  pub is_alnum : ℕ → Bool

abbrev pub is_path_char : Paths → ℕ → Bool
is_path_char p c = p.is_alnum c || any (λ d. c == d) (codes "_./ -")

abbrev pub starts_with : ℕ → List ℕ → Bool
starts_with c [] = false
starts_with c (d ∷ ds) = d == c

-- a part that is empty or hidden; `.` and `..` start with a dot
abbrev pub is_hidden : List ℕ → Bool
is_hidden [] = true
is_hidden (c ∷ cs) = c == b'.'

unfoldable pub managed_parts : Paths → Json → Option (List (List ℕ))
unfolding any all
managed_parts p (str value) =
    if not (p.is_stripped value)
      || ltb 512 (length (codes value))
      || starts_with b'/' (codes value)
      || starts_with b'~' (codes value)
      || any (λ c. not (is_path_char p c)) (codes value)
      || any is_hidden (p.split value)
    then none
    else some (p.split value)
managed_parts p v = none
