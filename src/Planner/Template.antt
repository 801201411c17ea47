-- ===== src/Planner/Template.antt =====
-- `_file_action` and `_template_actions`: the queries that have a fixed answer.
use yantra_os.Prelude.{
  String, Bool, true, false, ◌&&◌, not, Option, none, some, List, [], ◌∷◌, str_eq, if◌then◌else◌,
}
use yantra_os.Json.{Json, str, obj, field, end, contains_text}
use yantra_os.Prelude.Result.{Result, ok}
use yantra_os.Bridge.Task
use yantra_os.Bridge.Task.{TaskError, Route, select_task_route}
use yantra_os.Planner.Advice.{Host}

-- What the templates call: `shlex.split`, none where it raises; `rstrip(".")`; `" ".join`; the app and
-- the search text that `_SEARCH_RE` finds, stripped; and the texts that are made of them.
pub record Words : Type 0 where
  pub shlex_split : String → Option (List String)
  pub rstrip_dot : String → String
  pub join : List String → String
  pub search_match : String → Option (String × String)
  pub open_app : String → String
  pub search_instruction : String → String → String

abbrev pub file_words : List String
file_words = "a" ∷ "the" ∷ "new" ∷ "text" ∷ "markdown" ∷ "md" ∷ "json" ∷ "python" ∷ []

-- the desktop action of an instruction
abbrev pub task : String → Json
task instruction =
    obj (field "action" (str "computer_use_task") (field "instruction" (str instruction) end))

module _ (h : Host) (w : Words) where
  abbrev pub says : String → List String → Bool
  says token words = contains_text (h.strings.casefold token) words

  -- the words before the one that is looked for
  unfoldable pub skip : List String → List String → List String
  unfolding contains_text
  skip words [] = []
  skip words (token ∷ tokens) =
      let rest = skip words tokens in if says token words then rest else token ∷ tokens

  -- one word that may stand there
  abbrev pub skip_one : List String → List String → List String
  skip_one words [] = []
  skip_one words (token ∷ tokens) = if says token words then tokens else token ∷ tokens

  -- the content after the path: none where it is not announced
  unfoldable pub content_of : List String → Option (List String)
  unfolding contains_text
  content_of [] = some []
  content_of (first ∷ []) = if says first ("containing" ∷ []) then some [] else none
  content_of (first ∷ second ∷ rest) =
      if says first ("with" ∷ []) && says second ("content" ∷ [])
      then some rest
      else if says first ("containing" ∷ [])
      then some (second ∷ rest)
      else none

  abbrev pub create_action : String → Option (List String) → Option Json
  create_action path none = none
  create_action path (some content) = some (
      obj (
        field "action" (str "file_management") (
          field "operation" (str "create")
            (field "path" (str (w.rstrip_dot path)) (field "content" (str (w.join content)) end)))))

  abbrev pub create_at : List String → Option Json
  create_at [] = none
  create_at (path ∷ rest) = create_action path (content_of rest)

  -- after `create`
  unfoldable pub create_file : List String → Option Json
  unfolding skip content_of contains_text
  create_file tokens = elim (skip file_words tokens) [
    | [] ↦ none
    | file ∷ rest ↦
        if says file ("file" ∷ [])
        then create_at (skip_one ("called" ∷ "named" ∷ []) rest)
        else none
  ]

  abbrev pub move_action : List String → Option Json
  move_action (source ∷ to ∷ destination ∷ []) =
      if says to ("to" ∷ [])
      then some (
          obj (
            field "action" (str "file_management") (
              field "operation" (str "move") (
                field "path" (str source)
                  (field "destination" (str (w.rstrip_dot destination)) end)))))
      else none
  move_action _ = none

  -- after `move`
  unfoldable pub move_file : List String → Option Json
  unfolding skip contains_text
  move_file tokens = move_action (skip_one ("file" ∷ []) (skip ("a" ∷ "the" ∷ []) tokens))

  abbrev pub tokens_action : Option (List String) → Option Json
  tokens_action none = none
  tokens_action (some []) = none
  tokens_action (some (verb ∷ rest)) =
      if says verb ("create" ∷ [])
      then create_file rest
      else if says verb ("move" ∷ [])
      then move_file rest
      else none

  unfoldable pub file_action : String → Option Json
  unfolding create_file move_file contains_text
  file_action query = tokens_action (w.shlex_split query)

  abbrev pub is_fast : Result TaskError Route → Bool
  is_fast (ok Task.Route.cli_fast_path) = true
  is_fast _ = false

  abbrev pub or_launch : Option Json → Json → Bool → List Json
  or_launch (some action) launch fast = action ∷ []
  or_launch none launch true = launch ∷ []
  or_launch none launch false = []

  -- the query itself, where it has a fast path
  unfoldable pub plain_template : String → List Json
  unfolding file_action select_task_route
  plain_template query =
      let launch = task (h.desktop.strip query) in
      or_launch (file_action query) launch (is_fast (select_task_route h.desktop launch))

  -- `_template_actions`; no action stands for `None`
  unfoldable pub template_actions : String → List Json
  unfolding plain_template select_task_route
  template_actions query = elim (w.search_match query) [
    | none ↦ plain_template query
    | some (app, search) ↦
        let launch = task (w.open_app app) in
        if is_fast (select_task_route h.desktop launch) && not (str_eq search "")
        then launch ∷ task (w.search_instruction app search) ∷ []
        else plain_template query
  ]
