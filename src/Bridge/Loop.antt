-- ===== src/Bridge/Loop.antt =====
-- The loop of `run_intent` over the steps of a confirmed visual task: the screen is read, the model names
-- an action, the user confirms it, and it is carried out.
use yantra_os.Prelude.{
  ℕ, zero, suc, Bool, true, false, ◌&&◌, not, Option, none, some, List, [], ◌∷◌, ◌++◌, ltb, leb,
  if◌then◌else◌,
}
use yantra_os.Bridge.Attempts.{Exit, success, error, step_cap, refused, stalled, audit_failed}
use yantra_os.Bridge.Progress.{Action, Progress, update_ineffective_state, max_ineffective_actions}

abbrev pub max_steps : ℕ
max_steps = 50

-- What `get_next_action` returns: an action, or that the task is done, with its success.
pub data Decision : Type 0 where
  act : Action → Decision
  done : Bool → Decision

pub data Phase : Type 0 where
  stall failure completed executed : Phase

-- What is done at a step: a confirmation that is asked for, with its answer; an action that is carried
-- out, with whether it raised nothing; an outcome and an entry that are put to the log, with whether
-- they are kept.
pub data Event : Type 0 where
  confirmed : ℕ → Bool → Event
  acted : ℕ → Action → Bool → Event
  outcome : ℕ → Bool → Bool → Event
  logged : ℕ → Phase → Bool → Event

-- What the loop meets at each step, with screens by numbers of their own: whether the deadline has
-- passed; the screenshot, none where it raises; what the model decides on it; the answer of
-- `confirm_action`; the screens before and after the user's answer; whether an action gets through;
-- what the log answers. `confirm_action` and the log return here and do not raise; `changed` is whether
-- two screens differ by the threshold.
pub record World : Type 0 where
  pub late : ℕ → Bool
  pub screen : ℕ → Option ℕ
  pub changed : ℕ → ℕ → Bool
  pub decide : ℕ → ℕ → Option Decision
  pub confirm : ℕ → Bool
  pub baseline : ℕ → Option ℕ
  pub after_confirmation : ℕ → Option ℕ
  pub execute : ℕ → Action → Bool
  pub log_outcome : ℕ → Bool → Bool
  pub log : ℕ → Phase → Bool

-- what is left of the step before: its screen and its action
pub record Previous : Type 0 where
  pub screen : ℕ
  pub action : Action

-- How a step ends: with an exit code, or with an action on a screen.
pub data Next : Type 0 where
  breaks : Exit → Next
  goes_on : Next

pub record Part : Type 0 where
  pub events : List Event
  pub next : Next

abbrev pub stop : Exit → Part
stop e = record { events = []; next = breaks e }

-- an entry that ends the loop: the exit code where it is kept
abbrev pub log_and_stop : World → ℕ → Phase → Exit → Part
log_and_stop w n p e = record {
  events = logged n p (w.log n p) ∷ [];
  next = breaks (if w.log n p then e else audit_failed);
}

-- `execute_action`, and the log of its outcome
unfoldable pub carry_out : World → ℕ → Action → Part
carry_out w n a =
    if w.execute n a
    then if w.log_outcome n true
      then record {
        events = acted n a true ∷ outcome n true true ∷ logged n executed (w.log n executed) ∷ [];
        next = if w.log n executed then goes_on else breaks audit_failed;
      }
      else record {
        events = acted n a true ∷ outcome n true false ∷ [];
        next = breaks audit_failed;
      }
    else record {
      events = acted n a false ∷ outcome n false (w.log_outcome n false) ∷ [];
      next = breaks (if w.log_outcome n false then error else audit_failed);
    }

abbrev pub after : Event → Part → Part
after e p = record { events = e ∷ p.events; next = p.next }

-- the screen after the user's answer, against the one before it
unfoldable pub compare_screens : World → ℕ → Action → ℕ → Option ℕ → Part
unfolding carry_out
compare_screens w n a before none = stop error
compare_screens w n a before (some now) =
    if w.changed before now then stop refused else carry_out w n a

-- the user's answer to an action of the model
unfoldable pub ask : World → ℕ → Action → Option ℕ → Part
unfolding compare_screens
ask w n a none = stop error
ask w n a (some before) =
    after (confirmed n (w.confirm n))
      (if w.confirm n then compare_screens w n a before (w.after_confirmation n) else stop refused)

unfoldable pub approve : World → Bool → ℕ → Action → Part
unfolding ask carry_out
approve w approve_steps n a =
    if approve_steps
    then after (confirmed n (w.confirm n)) (if w.confirm n then carry_out w n a else stop refused)
    else ask w n a (w.baseline n)

-- what the model decides
unfoldable pub follow : World → Bool → ℕ → Option Decision → Part
unfolding approve
follow w approve_steps n none = stop error
follow w approve_steps n (some (done true)) = log_and_stop w n completed success
follow w approve_steps n (some (done false)) = log_and_stop w n failure error
follow w approve_steps n (some (act a)) = approve w approve_steps n a

-- the state after the screen has been read
unfoldable pub sense : World → Option Previous → ℕ → Progress → Progress
unfolding update_ineffective_state
sense w none now p = p
sense w (some before) now p = update_ineffective_state before.action (w.changed before.screen now) p

-- `not screen_changed and ineffective_actions > previous_ineffective_actions`, at the limit
unfoldable pub is_stalled : World → Option Previous → ℕ → Progress → Progress → Bool
is_stalled w none now p q = false
is_stalled w (some before) now p q =
    not (w.changed before.screen now) && ltb p.count q.count && leb max_ineffective_actions q.count

abbrev pub action_of : Option Decision → Option Action
action_of (some (act a)) = some a
action_of _ = none

-- One step, with the state that a next one starts from.
unfoldable pub step : World → Bool → ℕ → Option Previous → Progress → ℕ → Part
unfolding follow sense is_stalled
step w approve_steps n previous p now =
    if is_stalled w previous now p (sense w previous now p)
    then log_and_stop w n stall stalled
    else follow w approve_steps n (w.decide n now)

abbrev pub previous_of : ℕ → Option Action → Option Previous
previous_of now none = none
previous_of now (some a) = some (record { screen = now; action = a })

-- What the loop leaves behind.
pub record Outcome : Type 0 where
  pub events : List Event
  pub exit : Exit

abbrev pub joined : List Event → Outcome → Outcome
joined es o = record { events = es ++ o.events; exit = o.exit }

-- the steps that are left, and the number of the next one
unfoldable pub visual_loop : World → Bool → ℕ → ℕ → Option Previous → Progress → Outcome
unfolding step sense
visual_loop w approve_steps zero n previous p = record { events = []; exit = step_cap }
visual_loop w approve_steps (suc left) n previous p =
    if w.late n then record { events = []; exit = step_cap } else elim (w.screen n) [
      | none ↦ record { events = []; exit = error }
      | some now ↦
          let s = step w approve_steps n previous p now in
          elim s.next [
            | breaks e ↦ record { events = s.events; exit = e }
            | goes_on ↦ joined s.events (
                visual_loop w approve_steps left (suc n)
                  (previous_of now (action_of (w.decide n now))) (sense w previous now p))
          ]
    ]

abbrev pub no_progress : Progress
no_progress = record { count = 0; noop_click = none }

unfoldable pub run_visual_task : World → Bool → Outcome
unfolding visual_loop
run_visual_task w approve_steps = visual_loop w approve_steps max_steps 1 none no_progress
