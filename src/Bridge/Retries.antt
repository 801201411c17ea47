-- ===== src/Bridge/Retries.antt =====
-- How often a visual task is run, and under which approval.
use yantra_os.Prelude.{
  ℕ, zero, suc, ◌+◌, ◌<◌, ◌≤◌, ◌≡◌, Bool, true, ◌&&◌, Option, none, some, List, [], ◌∷◌, refl, ◌==◌,
  arith,
}
use yantra_os.Prelude.Result.{ok}
use yantra_os.Bridge.Task.{computer_use}
use yantra_os.Bridge.Attempts.{
  Reason, no_reason, ExternalActionResult, attempt_failed, Event, ran, audited, World, Exit, raised,
  ends, again, Step, after_run, after_call, attempt, Outcome, attempts, run_route,
  max_action_attempts, after,
}
use yantra_os.Bridge.Judging.{
  Quiet, IsVerified, IsEarned, Following, ending, retrying, after_run-Following,
}

-- The rounds of attempts: number n is run under the plan's approval only if it is the first; its run
-- raises, or it is the last one, or ATTEMPT_FAILED is kept and there is another.
pub data Rounds (w : World) (risk approved : Bool)
    : ℕ → Reason → List Event → Option ExternalActionResult → Type 0 where
  broken :
      {n : ℕ} {why : Reason}
      → n ≤ max_action_attempts
      → w.run n (approved && n == 1) why ≡ none
      → Rounds w risk approved n why (ran n (approved && n == 1) why ∷ []) none
  last :
      {n : ℕ} {why : Reason} {exit : Exit} {es : List Event} {r : ExternalActionResult}
      → n ≤ max_action_attempts
      → w.run n (approved && n == 1) why ≡ some exit
      → Quiet es
      → r.attempts ≡ n
      → IsEarned n exit es r
      → Rounds w risk approved n why (ran n (approved && n == 1) why ∷ es) (some r)
  retry :
      {n : ℕ} {why next : Reason} {exit : Exit} {es : List Event} {r : Option ExternalActionResult}
      → w.run n (approved && n == 1) why ≡ some exit
      → n < max_action_attempts
      → IsVerified w risk n
      → Rounds w risk approved (suc n) next es r
      → Rounds w risk approved n why
          (ran n (approved && n == 1) why ∷ audited n attempt_failed true ∷ es)
          r

abbrev pub IsRounds : World → Bool → Bool → ℕ → Reason → Outcome → Type 0
IsRounds w risk approved n why o = Rounds w risk approved n why o.events o.result

-- one round, before those of the rest of the loop
round :
    (w : World) (risk approved : Bool) (why : Reason) (left n : ℕ)
    → n ≤ max_action_attempts
    → ((next : Reason)
        → n < max_action_attempts
        → IsRounds w risk approved (suc n) next (attempts w risk approved next left (suc n)))
    → IsRounds w risk approved n why (attempts w risk approved why (suc left) n)
unfolding attempts attempt after_call
round w risk approved why left n bound rest = called (w.run n (approved && n == 1) why) refl
  where
    ended :
        (exit : Exit) (s : Step)
        → w.run n (approved && n == 1) why ≡ some exit
        → Following w risk n exit s
        → IsRounds w risk approved n why (elim s.next [
          | raised ↦ record { events = ran n (approved && n == 1) why ∷ s.events; result = none }
          | ends r ↦ record { events = ran n (approved && n == 1) why ∷ s.events; result = some r }
          | again next ↦
              after
                (ran n (approved && n == 1) why ∷ s.events)
                (attempts w risk approved next left (suc n))
        ])
    ended exit _ h (ending quiet e earned) = last bound h quiet e earned
    ended exit _ h (retrying {why = next} more seen) = retry h more seen (rest next more)

    called :
        (o : Option Exit)
        → w.run n (approved && n == 1) why ≡ o
        → IsRounds w risk approved n why (
            let s = after_call w risk n o in
            elim s.next [
              | raised ↦ record {
                events = ran n (approved && n == 1) why ∷ s.events;
                result = none;
              }
              | ends r ↦ record {
                events = ran n (approved && n == 1) why ∷ s.events;
                result = some r;
              }
              | again next ↦
                  after
                    (ran n (approved && n == 1) why ∷ s.events)
                    (attempts w risk approved next left (suc n))
            ])
    called none h = broken bound h
    called (some exit) h =
        ended exit (after_run w risk n exit) h (after_run-Following w risk n exit)

is_last : (n : ℕ) → 0 + n ≡ max_action_attempts → n < max_action_attempts → ⊥
is_last n count more = omega (arith, count, more)

-- The rounds of a loop that has attempts left up to the third.
attempts-Rounds :
    (w : World) (risk approved : Bool) (why : Reason) (left n : ℕ)
    → left + n ≡ max_action_attempts
    → IsRounds w risk approved n why (attempts w risk approved why (suc left) n)
attempts-Rounds w risk approved why zero n count =
    round w risk approved why zero n (omega (arith, count))
      (λ next more. elim (is_last n count more) [ ])
attempts-Rounds w risk approved why (suc left) n count =
    round w risk approved why (suc left) n (omega (arith, count))
      (λ next more. attempts-Rounds w risk approved next left (suc n) (omega (arith, count)))

-- A visual task is run at most three times, and ends with a result unless a run raises, which ends it
-- at once: only the first run is under the plan's approval, each further one comes after ATTEMPT_FAILED
-- is kept, a task that is at risk is run again only where the verifying model saw no effect, and a
-- success is one of the last run, or has been verified and kept.
pub run_route-Rounds :
    (w : World) (risk approved : Bool)
    → IsRounds w risk approved 1 no_reason (run_route w risk approved (ok computer_use))
unfolding run_route
run_route-Rounds w risk approved = attempts-Rounds w risk approved no_reason 2 1 (omega arith)
