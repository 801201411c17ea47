-- ===== src/Planner/Plan.antt =====
-- `_telegram_template_steps`, `_normalize_browser_continuations` and `plan_query`.
use yantra_os.Prelude.{
  ℕ, String, Bool, false, ◌&&◌, ◌||◌, not, Option, none, some, List, [], ◌∷◌, str_eq, ltb, ◌==◌,
  if◌then◌else◌,
}
use yantra_os.Prelude.Lists.{length, any}
use yantra_os.Prelude.Result.{Result, ok, err, ◌>>=◌, ◌>>◌, raise_if}
use yantra_os.Json.{Json, str, arr, obj, Items, nil, cons, Fields, field, end, get, keys_are}
use yantra_os.Bridge.Task.{is_text, text_or_empty, has_nul}
use yantra_os.Planner.Advice.{
  Host, cli_fast_path, computer_use, HostStep, PlanError, invalid_json, not_steps, bad_count,
  empty_query, unsafe_query, personal_folder, absolute_output, planner_failed, no_text, host_step,
  validated_steps, template_steps, or_null,
}
use yantra_os.Planner.Template.{Words, template_actions, task}

abbrev pub max_plan_steps : ℕ
max_plan_steps = 5

-- What the planner calls: `json.loads` of a response without its fences, none where it raises; `str`
-- of a value; the name that `_TELEGRAM_USERNAME_RE` finds; and the texts that it makes.
pub record Texts : Type 0 where
  pub loads : String → Option Json
  pub to_str : Json → String
  pub username : String → Option String
  pub open_chat : String → String
  pub in_chat : String → String → String
  pub in_browser : String → String

unfoldable pub items_of : Items → List Json
items_of nil = []
items_of (cons x xs) = x ∷ items_of xs

-- the list of steps, within its bounds
abbrev pub bounded_steps : List Json → Result PlanError (List Json)
bounded_steps steps =
    if length steps == 0 || ltb max_plan_steps (length steps) then err bad_count else ok steps

abbrev pub steps_of : Option Json → Result PlanError (List Json)
steps_of (some (arr xs)) = bounded_steps (items_of xs)
steps_of _ = err bad_count

unfoldable pub parse_response : Texts → String → Result PlanError (List Json)
unfolding keys_are get items_of
parse_response t value = elim (t.loads value) [
  | none ↦ err invalid_json
  | some (obj fs) ↦
      if not (keys_are ("steps" ∷ []) fs) then err not_steps else steps_of (get "steps" fs)
  | some other ↦ err not_steps
]

module _ (h : Host) (t : Texts) where
  -- `str(action.get("instruction", "")).casefold()`
  unfoldable pub instruction_of : Fields → String
  unfolding get
  instruction_of fs = elim (get "instruction" fs) [ none ↦ "" | some v ↦ t.to_str v ]

  -- `any(word in instruction for word in …)`
  abbrev pub mentions : List String → String → Bool
  mentions words instruction =
      any (λ word. h.strings.contains word (h.strings.casefold instruction)) words

  -- `action.get("action") == "computer_use_task"` of an action that is an object
  unfoldable pub task_of : Json → Option Fields
  unfolding get
  task_of (obj fs) =
      if is_text (get "action" fs) && str_eq (text_or_empty (get "action" fs)) "computer_use_task"
      then some fs
      else none
  task_of _ = none

  -- the desktop action of a raw step
  unfoldable pub step_task : Json → Option Fields
  unfolding get task_of
  step_task (obj fs) = task_of (or_null (get "action" fs))
  step_task _ = none

  abbrev pub is_navigation : Option Fields → Bool
  is_navigation none = false
  is_navigation (some fs) =
      mentions ("telegram" ∷ []) (instruction_of fs)
      && not (mentions ("type" ∷ "write" ∷ "message" ∷ "send" ∷ []) (instruction_of fs))
      && mentions ("open" ∷ "launch" ∷ "search" ∷ "find" ∷ []) (instruction_of fs)

  unfoldable pub is_telegram_navigation_step : Json → Bool
  unfolding step_task instruction_of any
  is_telegram_navigation_step step = is_navigation (step_task step)

  -- `d[key] = value`
  unfoldable pub set_field : String → Json → Fields → Fields
  set_field k v end = field k v end
  set_field k v (field j u fs) =
      let rest = set_field k v fs in if str_eq j k then field j v fs else field j u rest

  -- a raw step in the chat that is open
  abbrev pub continued : String → Json → Option Fields → Json
  continued username (obj step) (some action) = obj (
      set_field "action"
        (obj (set_field "instruction" (str (t.in_chat username (instruction_of action))) action))
        step)
  continued username step _ = step

  unfoldable pub remaining : List Json → List Json
  unfolding is_telegram_navigation_step
  remaining [] = []
  remaining (step ∷ steps) =
      let rest = remaining steps in if is_telegram_navigation_step step then rest else step ∷ rest

  unfoldable pub continuations : String → List Json → List Json
  unfolding step_task set_field instruction_of
  continuations username [] = []
  continuations username (step ∷ steps) =
      continued username step (step_task step) ∷ continuations username steps

  -- `_telegram_template_steps` of a user's name; none where no step opens the chat
  unfoldable pub telegram_template_steps :
      String → List Json → Option (Result PlanError (List HostStep))
  unfolding remaining continuations host_step validated_steps
  telegram_template_steps username raw =
      if length (remaining raw) == length raw
      then none
      else some (
          host_step h (task (t.open_chat username)) "low" >>= λ launch.
          validated_steps h (continuations username (remaining raw)) >>= λ steps.
          ok (launch ∷ steps))

  -- `_telegram_username`
  unfoldable pub telegram_username : String → Option String
  telegram_username query =
      if h.strings.contains "telegram" (h.strings.casefold query) then t.username query else none

  abbrev pub is_fast_task : HostStep → Option Fields → Bool
  is_fast_task s none = false
  is_fast_task s (some fs) = elim s.route [
    | cli_fast_path ↦ mentions ("firefox" ∷ "browser" ∷ []) (instruction_of fs)
    | other ↦ false
  ]

  abbrev pub is_visual_task : HostStep → Option Fields → Bool
  is_visual_task s none = false
  is_visual_task s (some fs) = elim s.route [
    | computer_use ↦ mentions ("firefox" ∷ "browser" ∷ "hacker news" ∷ []) (instruction_of fs)
    | other ↦ false
  ]

  -- a visual step in the browser that is open
  abbrev pub in_open_browser : HostStep → Option Fields → Result PlanError HostStep
  in_open_browser s none = ok s
  in_open_browser s (some fs) =
      host_step h (obj (set_field "instruction" (str (t.in_browser (instruction_of fs))) fs))
        s.complexity

  -- one step, by whether the browser is open
  unfoldable pub normalized : Bool → HostStep → Result PlanError HostStep
  unfolding task_of instruction_of set_field host_step any
  normalized is_open s =
      if is_fast_task s (task_of s.action)
      then ok s
      else if is_open && is_visual_task s (task_of s.action)
      then in_open_browser s (task_of s.action)
      else ok s

  unfoldable pub normalize : Bool → List HostStep → Result PlanError (List HostStep)
  unfolding normalized task_of instruction_of any
  normalize is_open [] = ok []
  normalize is_open (s ∷ steps) = do
    first ← normalized is_open s
    rest ← normalize (is_open || is_fast_task s (task_of s.action)) steps
    ok (first ∷ rest)

  -- the steps of a response that is read, but for a chat
  unfoldable pub plain_steps : List Json → List Json → Result PlanError (List HostStep)
  unfolding validated_steps template_steps
  plain_steps [] raw = validated_steps h raw
  plain_steps (a ∷ actions) raw = template_steps h (a ∷ actions) raw

  abbrev pub or_plain :
      List Json
      → List Json
      → Option (Result PlanError (List HostStep))
      → Result PlanError (List HostStep)
  or_plain template raw (some steps) = steps
  or_plain template raw none = plain_steps template raw

  -- the steps of a response that is read
  unfoldable pub host_steps :
      List Json → Option String → List Json → Result PlanError (List HostStep)
  unfolding telegram_template_steps plain_steps
  host_steps template none raw = plain_steps template raw
  host_steps template (some username) raw =
      or_plain template raw (telegram_template_steps username raw)

  -- a response that is not read leaves the template, where there is one
  unfoldable pub chosen_steps :
      List Json → Option String → Result PlanError (List Json) → Result PlanError (List HostStep)
  unfolding host_steps template_steps
  chosen_steps template username (ok raw) = host_steps template username raw
  chosen_steps [] username (err e) = err e
  chosen_steps (a ∷ actions) username (err e) = template_steps h (a ∷ actions) []

  -- `plan_query` from the model's response on
  unfoldable pub plan_response : Words → String → String → Result PlanError (List HostStep)
  unfolding chosen_steps normalize parse_response telegram_username template_actions
  plan_response w query response =
      chosen_steps (template_actions h w query) (telegram_username query)
        (parse_response t response)
      >>= normalize false

  -- the model's answer: none where the call raises, and then none where it is no text
  unfoldable pub plan_answer :
      Words → String → Option (Option String) → Result PlanError (List HostStep)
  unfolding plan_response
  plan_answer w query none = err planner_failed
  plan_answer w query (some none) = err no_text
  plan_answer w query (some (some response)) = plan_response w query response

abbrev pub max_query_bytes : ℕ
max_query_bytes = 8192

-- What is asked of a query: the length of its UTF-8 encoding, what `_PERSONAL_FOLDER_RE` and
-- `_ABSOLUTE_OUTPUT_RE` find in it, and the answer of the model to it.
pub record Query : Type 0 where
  pub byte_length : String → ℕ
  pub names_folder : String → Bool
  pub names_output : String → Bool
  pub complete : String → Option (Option String)

unfoldable pub plan_query : Host → Texts → Words → Query → String → Result PlanError (List HostStep)
unfolding plan_answer any
plan_query h t w q query = do
  raise_if (str_eq (h.desktop.strip query) "") empty_query
  raise_if (ltb max_query_bytes (q.byte_length query) || has_nul query) unsafe_query
  raise_if (q.names_folder query) personal_folder
  raise_if (q.names_output query) absolute_output
  plan_answer h t w query (q.complete query)
