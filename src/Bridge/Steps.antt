-- ===== src/Bridge/Steps.antt =====
-- What the visual loop does at each of its steps, as a protocol of its events.
use yantra_os.Prelude.{
  ℕ, zero, suc, ◌+◌, ◌≤◌, ◌≡◌, refl, Bool, true, false, Option, none, some, List, [], ◌∷◌,
  if◌then◌else◌, arith,
}
use yantra_os.Bridge.Attempts.{Exit, success, error, step_cap, stalled, audit_failed}
use yantra_os.Bridge.Progress.{Action, Progress}
use yantra_os.Bridge.Loop.{
  World, Decision, act, done, Phase, stall, failure, completed, executed, Event, confirmed, acted,
  outcome, logged, Previous, breaks, goes_on, Part, log_and_stop, follow, sense, is_stalled, step,
  action_of, previous_of, Outcome, joined, visual_loop, run_visual_task, max_steps, no_progress,
}
use yantra_os.Bridge.Confirmed.{
  nothing, logging, IsFresh, IsNamed, Ending, idle, Done, broke, went, approve-Done,
}

-- The steps from number n on, up to the limit: every action that is followed by another step has been
-- confirmed, has been carried out, and is in the log.
pub data Steps (w : World) (approve_steps : Bool) : ℕ → List Event → Exit → Type 0 where
  capped : {n : ℕ} → Steps w approve_steps n [] step_cap
  last :
      {n : ℕ} {es : List Event} {e : Exit}
      → n ≤ max_steps
      → Ending w approve_steps n es e
      → Steps w approve_steps n es e
  next :
      {n : ℕ} {a : Action} {es : List Event} {e : Exit}
      → n ≤ max_steps
      → IsFresh w approve_steps n
      → IsNamed w n a
      → Steps w approve_steps (suc n) es e
      → Steps w approve_steps n
          (confirmed n true ∷ acted n a true ∷ outcome n true true ∷ logged n executed true ∷ es)
          e

-- an entry that ends the loop without a success
log_and_stop-Done :
    (w : World) (approve_steps : Bool) (n : ℕ) (p : Phase) (e : Exit)
    → (e ≡ success → ⊥)
    → Done w approve_steps n (log_and_stop w n p e)
log_and_stop-Done w approve_steps n p e worse = kept (w.log n p)
  where
    kept :
        (b : Bool)
        → Done w approve_steps n
            (record { events = logged n p b ∷ []; next = breaks (if b then e else audit_failed) })
    kept true = broke (idle (logging {n = n} {p = p} {b = true} nothing) (λ s. elim (worse s) [ ]))
    kept false = broke (idle (logging {n = n} {p = p} {b = false} nothing) (λ s. cc))

follow-Done :
    (w : World) (approve_steps : Bool) (n now : ℕ) (d : Option Decision)
    → w.screen n ≡ some now
    → w.decide n now ≡ d
    → Done w approve_steps n (follow w approve_steps n d)
unfolding follow
follow-Done w approve_steps n now none s h = broke (idle nothing (λ s. cc))
follow-Done w approve_steps n now (some (done true)) s h = kept (w.log n completed)
  where
    kept :
        (b : Bool)
        → Done w approve_steps n (record {
          events = logged n completed b ∷ [];
          next = breaks (if b then success else audit_failed);
        })
    kept true = broke (idle (logging nothing) (λ s. (refl, now, h)))
    kept false = broke (idle (logging {n = n} {p = completed} {b = false} nothing) (λ s. cc))
follow-Done w approve_steps n now (some (done false)) s h =
    log_and_stop-Done w approve_steps n failure error (λ s. cc)
follow-Done w approve_steps n now (some (act a)) s h = approve-Done w approve_steps n a (now, s, h)

pub step-Done :
    (w : World) (approve_steps : Bool) (n : ℕ) (previous : Option Previous) (p : Progress) (now : ℕ)
    → w.screen n ≡ some now
    → Done w approve_steps n (step w approve_steps n previous p now)
unfolding step
step-Done w approve_steps n previous p now s =
    decided (is_stalled w previous now p (sense w previous now p))
  where
    decided :
        (stuck : Bool)
        → Done w approve_steps n (
            if stuck
            then log_and_stop w n stall stalled
            else follow w approve_steps n (w.decide n now))
    decided true = log_and_stop-Done w approve_steps n stall stalled (λ s. cc)
    decided false = follow-Done w approve_steps n now (w.decide n now) s refl

abbrev IsSteps : World → Bool → ℕ → Outcome → Type 0
IsSteps w approve_steps n o = Steps w approve_steps n o.events o.exit

-- one step, before those of the rest of the loop
step-IsSteps :
    (w : World) (approve_steps : Bool) (n : ℕ) (s : Part) (rest : Outcome)
    → n ≤ max_steps
    → Done w approve_steps n s
    → IsSteps w approve_steps (suc n) rest
    → IsSteps w approve_steps n (elim s.next [
      | breaks e ↦ record { events = s.events; exit = e }
      | goes_on ↦ joined s.events rest
    ])
step-IsSteps w approve_steps n _ rest bound (broke ending) later = last bound ending
step-IsSteps w approve_steps n _ rest bound (went fresh named) later = next bound fresh named later

visual_loop-Steps :
    (w : World) (approve_steps : Bool) (left n : ℕ) (previous : Option Previous) (p : Progress)
    → left + n ≤ suc max_steps
    → IsSteps w approve_steps n (visual_loop w approve_steps left n previous p)
unfolding visual_loop
visual_loop-Steps w approve_steps zero n previous p bound = capped
visual_loop-Steps w approve_steps (suc left) n previous p bound =
    begun (w.late n) (w.screen n) refl (λ now.
      visual_loop-Steps w approve_steps left (suc n) (previous_of now (action_of (w.decide n now)))
        (sense w previous now p) (omega (arith, bound)))
  where
    begun :
        (over : Bool) (screen : Option ℕ)
        → w.screen n ≡ screen
        → ((now : ℕ)
            → IsSteps w approve_steps (suc n) (
                visual_loop w approve_steps left
                  (suc n)
                  (previous_of now (action_of (w.decide n now)))
                  (sense w previous now p)))
        → IsSteps w approve_steps n (
            if over then record { events = []; exit = step_cap } else elim screen [
              | none ↦ record { events = []; exit = error }
              | some now ↦
                  let s = step w approve_steps n previous p now in
                  elim s.next [
                    | breaks e ↦ record { events = s.events; exit = e }
                    | goes_on ↦ joined s.events (
                        visual_loop w approve_steps left
                          (suc n)
                          (previous_of now (action_of (w.decide n now)))
                          (sense w previous now p))
                  ]
            ])
    begun true screen h later = capped
    begun false none h later = last (omega (arith, bound)) (idle nothing (λ s. cc))
    begun false (some now) h later =
        step-IsSteps w approve_steps n (step w approve_steps n previous p now) _
          (omega (arith, bound)) (step-Done w approve_steps n previous p now h) (later now)

-- The loop keeps to the protocol of its steps, whatever the model, the screen and the user do: at most
-- fifty steps; every action that is carried out is named by the model on the step's screen and is
-- confirmed, where all steps are approved by the recorded approval and without a look at the screen, else
-- by the user and on a screen that is the same before and after the answer; none follows one that is not
-- in the log; and a success is only where the model is done and COMPLETED is kept.
pub run_visual_task-Steps :
    (w : World) (approve_steps : Bool)
    → Steps w approve_steps 1
        (run_visual_task w approve_steps).events
        (run_visual_task w approve_steps).exit
unfolding run_visual_task
run_visual_task-Steps w approve_steps =
    visual_loop-Steps w approve_steps max_steps 1 none no_progress (omega arith)
