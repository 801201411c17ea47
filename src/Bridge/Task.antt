-- ===== src/Bridge/Task.antt =====
-- `validate_task_intent`, `_known_app_command` and `select_task_route`.
use yantra_os.Prelude.{
  ℕ, String, Bool, true, false, ◌&&◌, ◌||◌, not, Option, none, some, List, [], ◌∷◌, str_eq, ltb,
  ◌==◌, if◌then◌else◌,
}
use yantra_os.Prelude.Lists.{any, codes}
use yantra_os.Prelude.Result.{Result, ok, err, ◌>>=◌, ◌>>◌, raise_if}
use yantra_os.Json.{Json, str, obj, Fields, get, keys, keys_are, subset_text, contains_text}

abbrev pub max_task_instruction_bytes : ℕ
max_task_instruction_bytes = 8192

abbrev pub file_management_operations : List String
file_management_operations = "create" ∷ "move" ∷ "read" ∷ []

-- the methods of `str` that the checks call: `strip`, `casefold`, `isprintable` and the length of the
-- UTF-8 encoding; the two patterns, with the group that each gives; and the desktop entry that
-- `xdg-mime` reports for Telegram
pub record Desktop : Type 0 where
  pub strip : String → String
  pub casefold : String → String
  pub is_printable : String → Bool
  pub byte_length : String → ℕ
  pub chat_username : String → Option String
  pub launched_app : String → Option String
  pub telegram_desktop_id : Option String
  pub telegram_link : String → String

-- why a task is refused
pub data TaskError : Type 0 where
  not_object extra_fields bad_instruction control_characters too_long : TaskError
  unknown_action unknown_operation bad_fields bad_path bad_destination bad_content : TaskError

abbrev pub has_nul : String → Bool
has_nul s = any (λ c. c == 0) (codes s)

-- `intent.get("instruction")` of a computer-use task
unfoldable pub check_instruction : Desktop → Option Json → Result TaskError (Unit {0})
unfolding any
check_instruction d (some (str instruction)) = do
  raise_if (str_eq (d.strip instruction) "") bad_instruction
  raise_if (not (d.is_printable instruction) || has_nul instruction) control_characters
  raise_if (ltb max_task_instruction_bytes (d.byte_length instruction)) too_long
  ok tt
check_instruction d _ = err bad_instruction

abbrev pub is_text : Option Json → Bool
is_text (some (str s)) = true
is_text _ = false

abbrev pub text_or_empty : Option Json → String
text_or_empty (some (str s)) = s
text_or_empty _ = ""

-- the fields that an operation may have
unfoldable pub allowed_fields : String → List String
allowed_fields operation =
    "action"
    ∷ "operation"
    ∷ "path"
    ∷ (if str_eq operation "create"
        then "content" ∷ []
        else if str_eq operation "move"
        then "destination" ∷ []
        else [])

-- `intent.get("content", "")` of a file that is created
unfoldable pub is_content : Desktop → Option Json → Bool
unfolding any
is_content d none = true
is_content d (some (str s)) = not (has_nul s) && not (ltb 8192 (d.byte_length s))
is_content d (some v) = false

unfoldable pub check_file : Desktop → String → Fields → Result TaskError (Unit {0})
unfolding contains_text subset_text keys get is_content allowed_fields
check_file d operation fs = do
  raise_if (not (contains_text operation file_management_operations)) unknown_operation
  raise_if
      (not (subset_text (keys fs) (allowed_fields operation))
        || not (subset_text ("action" ∷ "operation" ∷ "path" ∷ []) (keys fs)))
      bad_fields
  raise_if (not (is_text (get "path" fs))) bad_path
  raise_if (str_eq operation "move" && not (is_text (get "destination" fs))) bad_destination
  raise_if (str_eq operation "create" && not (is_content d (get "content" fs))) bad_content
  ok tt

-- `operation not in FILE_MANAGEMENT_OPERATIONS`; a value that is no text is not one of them
abbrev pub check_operation : Desktop → Option Json → Fields → Result TaskError (Unit {0})
check_operation d (some (str operation)) fs = check_file d operation fs
check_operation d _ fs = err unknown_operation

-- the checks of an object, by its action
unfoldable pub check_action : Desktop → String → Fields → Result TaskError (Unit {0})
unfolding keys_are check_instruction check_file get
check_action d action fs =
    if str_eq action "computer_use_task"
    then if not (keys_are ("action" ∷ "instruction" ∷ []) fs)
      then err extra_fields
      else check_instruction d (get "instruction" fs)
    else if str_eq action "file_management"
    then check_operation d (get "operation" fs) fs
    else err unknown_action

-- A validated task is the object that is given.
unfoldable pub validate_task_intent : Desktop → Json → Result TaskError Fields
unfolding check_action get
validate_task_intent d (obj fs) =
    if is_text (get "action" fs)
    then check_action d (text_or_empty (get "action" fs)) fs >> ok fs
    else err unknown_action
validate_task_intent d _ = err not_object

pub data Route : Type 0 where
  cli_fast_path computer_use rejected : Route

-- `_KNOWN_APP_COMMANDS`
unfoldable pub known_app_commands : String → Option String
known_app_commands app =
    if contains_text app ("browser" ∷ "firefox" ∷ [])
    then some "/usr/bin/firefox"
    else if str_eq app "calculator"
    then some "/usr/bin/kcalc"
    else if contains_text app ("dolphin" ∷ "file manager" ∷ "files" ∷ [])
    then some "/usr/bin/dolphin"
    else if contains_text app ("konsole" ∷ "terminal" ∷ [])
    then some "/usr/bin/konsole"
    else if contains_text app ("settings" ∷ "system settings" ∷ [])
    then some "/usr/bin/systemsettings"
    else none

-- `_telegram_command` of a chat and of the app
unfoldable pub telegram_command : Desktop → Option String → Option (List String)
telegram_command d username = elim d.telegram_desktop_id [
  | none ↦ none
  | some id ↦ elim username [
    | some name ↦ some ("/usr/bin/gio" ∷ "open" ∷ d.telegram_link name ∷ [])
    | none ↦ some ("/usr/bin/gtk-launch" ∷ id ∷ [])
  ]
]

abbrev pub argv : Option String → Option (List String)
argv none = none
argv (some path) = some (path ∷ [])

unfoldable pub app_command : Desktop → Option String → Option (List String)
unfolding telegram_command known_app_commands
app_command d none = none
app_command d (some app) =
    let name = d.casefold (d.strip app) in
    if str_eq name "telegram" then telegram_command d none else argv (known_app_commands name)

abbrev pub chat_or_app : Desktop → String → Option String → Option (List String)
chat_or_app d instruction (some username) = telegram_command d (some username)
chat_or_app d instruction none = app_command d (d.launched_app instruction)

-- `_known_app_command` of a computer-use task's instruction
unfoldable pub known_app_command : Desktop → String → Option (List String)
unfolding app_command telegram_command
known_app_command d instruction =
    chat_or_app d (d.strip instruction) (d.chat_username (d.strip instruction))

abbrev pub route_of : Option (List String) → Route
route_of (some command) = cli_fast_path
route_of none = computer_use

-- the route of a validated task
unfoldable pub route_task : Desktop → Fields → Route
unfolding get known_app_command
route_task d fs =
    if str_eq (text_or_empty (get "action" fs)) "file_management"
    then if contains_text (text_or_empty (get "operation" fs)) ("create" ∷ "move" ∷ [])
      then cli_fast_path
      else rejected
    else route_of (known_app_command d (text_or_empty (get "instruction" fs)))

unfoldable pub select_task_route : Desktop → Json → Result TaskError Route
unfolding validate_task_intent route_task
select_task_route d intent = validate_task_intent d intent >>= λ fs. ok (route_task d fs)
