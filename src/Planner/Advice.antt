-- ===== src/Planner/Advice.antt =====
-- What the host makes of one proposed step and of a list of them: `_complexity`, `_host_step`,
-- `_validated_steps` and `_template_steps`.
use yantra_os.Prelude.{
  String, Bool, false, ◌&&◌, not, Option, none, some, List, [], ◌∷◌, str_eq, if◌then◌else◌,
}
use yantra_os.Prelude.Result.{Result, ok, err, ◌>>=◌, ◌>>◌, raise_if}
use yantra_os.Json.{Json, null, str, obj, Fields, get, keys_are, contains_text}
use yantra_os.Router.Endpoint.{Strings, Tier, tier_for_complexity}
use yantra_os.Bridge.Task
use yantra_os.Bridge.Task.{Desktop, Route, validate_task_intent, route_task, is_text, text_or_empty}
use yantra_os.Planner.Browser.{Library, validates}

pub data PlanError : Type 0 where
  invalid_json not_steps bad_count : PlanError
  bad_complexity bad_browser bad_action rejected_action : PlanError
  bad_schema bad_metadata bad_tier : PlanError
  empty_query unsafe_query personal_folder absolute_output planner_failed no_text : PlanError

-- What the planner calls of the other modules' libraries.
pub record Host : Type 0 where
  pub desktop : Desktop
  pub browser : Library
  pub strings : Strings

-- the routes that the host gives
pub data HostRoute : Type 0 where
  playwright cli_fast_path computer_use : HostRoute

pub record HostStep : Type 0 where
  pub action : Json
  pub complexity : String
  pub route : HostRoute
  pub model_tier : Option Tier

abbrev pub complexities : List String
complexities = "low" ∷ "medium" ∷ "high" ∷ []

abbrev pub model_tiers : List String
model_tiers = "luna" ∷ "terra" ∷ "sol" ∷ []

abbrev pub routes : List String
routes = "CLI_FAST_PATH" ∷ "COMPUTER_USE" ∷ "PLAYWRIGHT" ∷ "REJECTED" ∷ []

abbrev pub planner_fields : List String
planner_fields = "action" ∷ "complexity" ∷ "route" ∷ "model_tier" ∷ []

unfoldable pub complexity : Host → Option Json → Result PlanError String
unfolding contains_text
complexity h (some (str value)) =
    if contains_text (h.strings.casefold value) complexities
    then ok (h.strings.casefold value)
    else err bad_complexity
complexity h _ = err bad_complexity

-- `isinstance(action, dict) and action.get("action") == "navigate_and_extract"`
unfoldable pub is_extraction : Json → Bool
unfolding get
is_extraction (obj fs) =
    is_text (get "action" fs) && str_eq (text_or_empty (get "action" fs)) "navigate_and_extract"
is_extraction _ = false

-- the step of a validated desktop action, by its route
unfoldable pub routed : Host → Json → String → Route → Result PlanError HostStep
unfolding tier_for_complexity
routed h action c Task.Route.rejected = err rejected_action
routed h action c Task.Route.cli_fast_path =
    ok (record { action = action; complexity = c; route = cli_fast_path; model_tier = none })
routed h action c Task.Route.computer_use = ok (record {
  action = action;
  complexity = c;
  route = computer_use;
  model_tier = tier_for_complexity h.strings c;
})

abbrev pub typed_step :
    Host → Json → String → Result Task.TaskError Fields → Result PlanError HostStep
typed_step h action c (err e) = err bad_action
typed_step h action c (ok fs) = routed h action c (route_task h.desktop fs)

unfoldable pub host_step : Host → Json → String → Result PlanError HostStep
unfolding is_extraction validates routed validate_task_intent route_task
host_step h action c =
    if is_extraction action
    then if validates h.browser action
      then ok (record { action = action; complexity = c; route = playwright; model_tier = none })
      else err bad_browser
    else typed_step h action c (validate_task_intent h.desktop action)

-- `step.get("action")`
abbrev pub or_null : Option Json → Json
or_null none = null
or_null (some v) = v

-- the advice of a step: a route and a tier that are known, and that the host does not use
unfoldable pub check_advice : Host → Option Json → Option Json → Result PlanError (Unit {0})
unfolding contains_text
check_advice h (some (str route)) (some (str tier)) = do
  raise_if (not (contains_text (h.strings.upper route) routes)) bad_metadata
  raise_if (not (contains_text (h.strings.casefold tier) model_tiers)) bad_tier
  ok tt
check_advice h _ _ = err bad_metadata

unfoldable pub validated_step : Host → Json → Result PlanError HostStep
unfolding keys_are get complexity check_advice host_step
validated_step h (obj fs) =
    if not (keys_are planner_fields fs)
    then err bad_schema
    else complexity h (get "complexity" fs) >>= λ c.
        check_advice h (get "route" fs) (get "model_tier" fs)
        >> host_step h (or_null (get "action" fs)) c
validated_step h _ = err bad_schema

unfoldable pub validated_steps : Host → List Json → Result PlanError (List HostStep)
unfolding validated_step
validated_steps h [] = ok []
validated_steps h (step ∷ steps) = do
  s ← validated_step h step
  rest ← validated_steps h steps
  ok (s ∷ rest)

-- `step.get("complexity")` of a step that is an object
unfoldable pub step_complexity : Host → Json → Result PlanError String
unfolding complexity get
step_complexity h (obj fs) = complexity h (get "complexity" fs)
step_complexity h _ = err bad_complexity

abbrev pub or_low : Result PlanError String → String
or_low (ok c) = c
or_low (err e) = "low"

abbrev pub head_complexity : Host → List Json → String
head_complexity h [] = "low"
head_complexity h (step ∷ steps) = or_low (step_complexity h step)

abbrev pub tail : List Json → List Json
tail [] = []
tail (step ∷ steps) = steps

-- `_template_steps`; no raw steps stand for `None`
unfoldable pub template_steps : Host → List Json → List Json → Result PlanError (List HostStep)
unfolding host_step step_complexity
template_steps h [] raw = ok []
template_steps h (action ∷ actions) raw = do
  s ← host_step h action (head_complexity h raw)
  rest ← template_steps h actions (tail raw)
  ok (s ∷ rest)
