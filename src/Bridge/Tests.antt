-- ===== src/Bridge/Tests.antt =====
-- Runs of the retries and of the visual loop, and the theorems applied to them.
use yantra_os.Prelude.Lists.{codes}
use yantra_os.Bridge.Confinement.{resolve, managed_parts-IsConfined}
use yantra_os.Prelude.{
  leb, if◌then◌else◌, ◌==◌, ℕ, ◌≡◌, ◌≤◌, refl, true, false, none, some, List, [], ◌∷◌,
}
use yantra_os.Prelude.Result.{ok, err}
use yantra_os.Json.{int, str, obj, Fields, field, end, get}
use yantra_os.Bridge.Action.{Paths, managed_parts, Texts, validate_model_action, outside}
use yantra_os.Bridge.Accepted.{IsInside, IsShort, validate_model_action-IsBounded}
use yantra_os.Bridge.Task.{computer_use}
use yantra_os.Bridge.Attempts.{
  World, success, error, stalled, yantraos_action, absent, no_reason, judged, ran, audited,
  attempt_failed, failed, run_route,
}
use yantra_os.Bridge.Retries.{IsRounds, run_route-Rounds}
use yantra_os.Bridge.Progress.{click, Action}
use yantra_os.Bridge.Loop.{
  World as Scene, act, run_visual_task, confirmed, acted, outcome, logged, executed, stall,
}
use yantra_os.Bridge.Steps.{Steps, run_visual_task-Steps}
use yantra_os.Bridge.Stalling.{count_acted, run_visual_task-stalls}

-- a task whose first run fails without an effect, and whose second run succeeds
abbrev second_time : World
second_time = record {
  run = λ n approved why. some (if n == 2 then success else error);
  screenshot = λ n. true;
  verify = λ n. some (yantraos_action, absent, "wrong button");
  audit = λ n p. true;
}

second_time_run :
    (run_route second_time true true (ok computer_use)).events
    ≡ ran 1 true no_reason
      ∷ audited 1 attempt_failed true
      ∷ ran 2 false (judged "wrong button")
      ∷ []
unfolding run_route
second_time_run = refl

-- the same task, where no one can say whether there was an effect
unknown_run :
    (run_route (record second_time { verify = λ n. none }) true true (ok computer_use)).events
    ≡ ran 1 true no_reason ∷ audited 1 attempt_failed true ∷ audited 1 failed true ∷ []
unfolding run_route
unknown_run = refl

-- A second run that raises ends the task without a result.
raises_run :
    (run_route
      record second_time { run = λ n approved why. if n == 2 then none else some error }
      true
      true
      (ok computer_use)).result
    ≡ none
unfolding run_route
raises_run = refl

run_route-Rounds_example :
    IsRounds second_time true true 1 no_reason (run_route second_time true true (ok computer_use))
run_route-Rounds_example = run_route-Rounds second_time true true

abbrev the_click : Action
the_click = click "click" 10 20 "left"

-- a screen that never changes, under a model that clicks on one point
abbrev frozen : Scene
frozen = record {
  late = λ n. false;
  screen = λ n. some 0;
  changed = λ s t. false;
  decide = λ n now. some (act the_click);
  confirm = λ n. true;
  baseline = λ n. some 0;
  after_confirmation = λ n. some 0;
  execute = λ n a. true;
  log_outcome = λ n b. true;
  log = λ n p. true;
}

frozen_run :
    (run_visual_task frozen false).events
    ≡ confirmed 1 true
      ∷ acted 1 the_click true
      ∷ outcome 1 true true
      ∷ logged 1 executed true
      ∷ confirmed 2 true
      ∷ acted 2 the_click true
      ∷ outcome 2 true true
      ∷ logged 2 executed true
      ∷ logged 3 stall true
      ∷ []
unfolding run_visual_task
frozen_run = refl

frozen_exit : (run_visual_task frozen false).exit ≡ stalled
unfolding run_visual_task
frozen_exit = refl

run_visual_task-Steps_example :
    Steps frozen false 1 (run_visual_task frozen false).events (run_visual_task frozen false).exit
run_visual_task-Steps_example = run_visual_task-Steps frozen false

run_visual_task-stalls_example : count_acted (run_visual_task frozen false).events ≤ 2
run_visual_task-stalls_example =
    run_visual_task-stalls frozen false the_click (λ n now. refl) (λ s t. refl) refl

abbrev right_click : Fields
right_click =
    field "action" (str "click")
      (field "x" (int 10) (field "y" (int 20) (field "button" (str "right") end)))

abbrev texts : Texts
texts = record { byte_length = λ s. 0; key_codes = λ s. none }

right_click_run : validate_model_action texts 100 50 (obj right_click) ≡ ok right_click
unfolding validate_model_action
right_click_run = refl

validate_model_action-IsBounded_example :
    (right_click ≡ right_click)
    × (get "action" right_click ≡ some (str "click") → IsInside right_click 100 50)
    × (get "action" right_click ≡ some (str "double_click") → IsInside right_click 100 50)
    × (get "action" right_click ≡ some (str "wait") → IsShort right_click)
validate_model_action-IsBounded_example =
    validate_model_action-IsBounded texts 100 50 right_click right_click right_click_run

outside_run : validate_model_action texts 10 50 (obj right_click) ≡ err outside
unfolding validate_model_action
outside_run = refl

abbrev notes : List (List ℕ)
notes = codes "notes" ∷ codes "a.txt" ∷ []

abbrev paths : Paths
paths = record { split = λ s. notes; is_stripped = λ s. true; is_alnum = λ c. leb 97 c }

notes_run : managed_parts paths (str "notes/a.txt") ≡ some notes
unfolding managed_parts
notes_run = refl

managed_parts-IsConfined_example :
    resolve (codes "home" ∷ []) notes ≡ codes "home" ∷ codes "notes" ∷ codes "a.txt" ∷ []
managed_parts-IsConfined_example =
    managed_parts-IsConfined paths (str "notes/a.txt") notes (codes "home" ∷ []) notes_run
