-- ===== src/Bridge/Attempts.antt =====
-- `run_intent_result`: a task is run, and a visual task that fails is judged and perhaps run again.
use yantra_os.Prelude.{
  ℕ, zero, suc, String, Bool, true, false, ◌&&◌, ◌||◌, not, Option, none, some, List, [], ◌∷◌, ◌++◌,
  ltb, ◌==◌, if◌then◌else◌,
}
use yantra_os.Prelude.Result.{Result, ok, err}
use yantra_os.Json.{Json}
use yantra_os.Bridge.Task.{Desktop, TaskError, Route, computer_use, select_task_route}

abbrev pub max_action_attempts : ℕ
max_action_attempts = 3

-- the exit codes of `run_intent`
pub data Exit : Type 0 where
  success error step_cap refused stalled audit_failed : Exit

pub data Origin : Type 0 where
  external_app_software yantraos_action audit_failure unverified_side_effect : Origin

pub data Effect : Type 0 where
  absent present unknown : Effect

-- Why a run failed: as its exit code says, with whether there was no screenshot to verify it by; or as
-- the verifying model says.
pub data Reason : Type 0 where
  no_reason : Reason
  stated : Exit → Bool → Reason
  judged : String → Reason

-- what the caller is told
pub data Message : Type 0 where
  completed verified : Message
  not_audited retry_refused : Message
  fast_path_rejected fast_path_failed : Message
  suppressed action_failure external_failure : Reason → Message
  invalid : TaskError → Message

pub record ExternalActionResult : Type 0 where
  pub exit_code : Exit
  pub message : Message
  pub failure_origin : Option Origin
  pub attempts : ℕ

-- The origin, the effect and the reason that a verification gives.
pub record Verdict : Type 0 where
  pub origin : Origin
  pub effect : Effect
  pub reason : Reason

pub data Phase : Type 0 where
  attempt_failed failed completed_phase : Phase

-- What is done: a run of the task, with the attempt's number, whether it is under the approval of the
-- plan, and the reason of the retry; and an entry that is put to the log, with whether it is kept.
pub data Event : Type 0 where
  ran : ℕ → Bool → Reason → Event
  audited : ℕ → Phase → Bool → Event

-- What the attempts meet, each by its number: what a run returns, none where `run_intent` raises, which
-- nothing here catches; whether there is a screenshot after it, what the verifying model says, none where it gives no verdict, and whether an entry is kept.
pub record World : Type 0 where
  pub run : ℕ → Bool → Reason → Option Exit
  pub screenshot : ℕ → Bool
  pub verify : ℕ → Option (Origin × Effect × String)
  pub audit : ℕ → Phase → Bool

abbrev pub is_refused : Exit → Bool
is_refused refused = true
is_refused _ = false

-- the verdict where no model gives one
unfoldable pub default_verdict : Bool → Exit → Bool → Verdict
default_verdict risk exit seen = record {
  origin = if is_refused exit || not seen then external_app_software else yantraos_action;
  effect = if risk then unknown else absent;
  reason = stated exit (not seen);
}

abbrev pub verdict_or : Verdict → Option (Origin × Effect × String) → Verdict
verdict_or default none = default
verdict_or default (some (origin, effect, reason)) = record {
  origin = origin;
  effect = effect;
  reason = judged reason;
}

-- `_verify_failure` is asked where there is a screenshot and the run was not refused
unfoldable pub verdict : World → Bool → ℕ → Exit → Verdict
unfolding default_verdict
verdict w risk attempt exit =
    verdict_or (default_verdict risk exit (w.screenshot attempt))
      (if is_refused exit || not (w.screenshot attempt) then none else w.verify attempt)

abbrev pub is_absent : Effect → Bool
is_absent absent = true
is_absent _ = false

abbrev pub is_present : Effect → Bool
is_present present = true
is_present _ = false

abbrev pub is_own : Origin → Bool
is_own yantraos_action = true
is_own _ = false

-- How an attempt ends: with an exception, with a result, or with the reason of the next one.
pub data Next : Type 0 where
  raised : Next
  ends : ExternalActionResult → Next
  again : Reason → Next

pub record Step : Type 0 where
  pub events : List Event
  pub next : Next

abbrev pub result : Exit → Message → Option Origin → ℕ → ExternalActionResult
result e m o n = record { exit_code = e; message = m; failure_origin = o; attempts = n }

-- an entry that has to be kept before what follows
unfoldable pub audited_then : World → ℕ → Phase → Message → Step → Step
audited_then w n p refusal s =
    if w.audit n p then record { events = audited n p true ∷ s.events; next = s.next } else record {
      events = audited n p false ∷ [];
      next = ends (result audit_failed refusal (some audit_failure) n);
    }

abbrev pub stops : ExternalActionResult → Step
stops r = record { events = []; next = ends r }

-- the last entry and the result of a failure that is not retried
unfoldable pub give_up : World → ℕ → Exit → Verdict → Step
unfolding audited_then
give_up w n exit v = audited_then w n failed not_audited (
    stops (
      result exit (if is_own v.origin then action_failure v.reason else external_failure v.reason)
        (some v.origin) n))

-- after ATTEMPT_FAILED has been kept
unfoldable pub after_failure : World → Bool → ℕ → Exit → Verdict → Step
unfolding audited_then give_up
after_failure w risk n exit v =
    if risk && not (is_absent v.effect)
    then audited_then w n failed not_audited
        (stops (result error (suppressed v.reason) (some unverified_side_effect) n))
    else if is_own v.origin && is_absent v.effect && ltb n max_action_attempts
    then record { events = []; next = again v.reason }
    else give_up w n exit v

unfoldable pub judge : World → Bool → ℕ → Exit → Verdict → Step
unfolding audited_then after_failure
judge w risk n exit v =
    if is_present v.effect
    then audited_then w n completed_phase not_audited (stops (result success verified none n))
    else audited_then w n attempt_failed retry_refused (after_failure w risk n exit v)

-- after the run of an attempt
unfoldable pub after_run : World → Bool → ℕ → Exit → Step
unfolding judge verdict
after_run w risk n success = stops (result success completed none n)
after_run w risk n audit_failed = stops (result audit_failed not_audited (some audit_failure) n)
after_run w risk n exit = judge w risk n exit (verdict w risk n exit)

unfoldable pub after_call : World → Bool → ℕ → Option Exit → Step
unfolding after_run
after_call w risk n none = record { events = []; next = raised }
after_call w risk n (some exit) = after_run w risk n exit

unfoldable pub attempt : World → Bool → Bool → Reason → ℕ → Step
unfolding after_call
attempt w risk approved reason n =
    let s = after_call w risk n (w.run n (approved && n == 1) reason) in
    record { events = ran n (approved && n == 1) reason ∷ s.events; next = s.next }

-- What the call leaves behind: the events, and the result, none where it raises.
pub record Outcome : Type 0 where
  pub events : List Event
  pub result : Option ExternalActionResult

abbrev pub after : List Event → Outcome → Outcome
after es o = record { events = es ++ o.events; result = o.result }

-- The loop over `range(1, MAX_ACTION_ATTEMPTS + 1)`: how many attempts are left, and the number of the
-- next one.
unfoldable pub attempts : World → Bool → Bool → Reason → ℕ → ℕ → Outcome
unfolding attempt
attempts w risk approved why zero n = record { events = []; result = none }
attempts w risk approved why (suc left) n =
    let s = attempt w risk approved why n in
    elim s.next [
      | raised ↦ record { events = s.events; result = none }
      | ends r ↦ record { events = s.events; result = some r }
      | again next ↦ after s.events (attempts w risk approved next left (suc n))
    ]

-- the result of a route that runs once
abbrev pub once_result : Exit → ExternalActionResult
once_result success = result success completed none 1
once_result audit_failed = result audit_failed not_audited (some audit_failure) 1
once_result refused = result refused fast_path_rejected (some external_app_software) 1
once_result exit = result exit fast_path_failed (some external_app_software) 1

-- a route that runs once
unfoldable pub once : World → Bool → Outcome
once w approved = record {
  events = ran 1 approved no_reason ∷ [];
  result = elim (w.run 1 approved no_reason) [ none ↦ none | some exit ↦ some (once_result exit) ];
}

-- `risk` is what `_NON_IDEMPOTENT_RE` finds in the instruction
unfoldable pub run_route : World → Bool → Bool → Result TaskError Route → Outcome
unfolding attempts once
run_route w risk approved (err e) = record {
  events = [];
  result = some (result error (invalid e) (some yantraos_action) 1);
}
run_route w risk approved (ok computer_use) =
    attempts w risk approved no_reason max_action_attempts 1
run_route w risk approved (ok route) = once w approved

unfoldable pub run_intent_result : Desktop → World → (Json → Bool) → Bool → Json → Outcome
unfolding run_route select_task_route
run_intent_result d w risk approved intent =
    run_route w (risk intent) approved (select_task_route d intent)
