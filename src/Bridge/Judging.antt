-- ===== src/Bridge/Judging.antt =====
-- What follows the run of one attempt: its end, or the reason of another one.
use yantra_os.Prelude.{
  ℕ, ◌<◌, ◌≡◌, refl, ◌⊎◌, inl, inr, String, Bool, true, false, ◌&&◌, ◌||◌, not, Option, none, some,
  List, [], ◌∷◌, ltb, ltb→lt, if◌then◌else◌,
}
use yantra_os.Bridge.Attempts.{
  Exit, success, error, step_cap, refused, stalled, audit_failed, Origin, yantraos_action,
  external_app_software, audit_failure, unverified_side_effect, Effect, absent, present, unknown,
  Reason, not_audited, retry_refused, verified, suppressed, ExternalActionResult, Verdict, Phase,
  attempt_failed, failed, completed_phase, Event, audited, World, default_verdict, verdict_or,
  verdict, is_absent, is_present, is_own, is_refused, ends, again, Step, audited_then, stops,
  give_up, after_failure, judge, after_run, action_failure, external_failure, max_action_attempts,
  result,
}

-- Entries of the log, and no run.
pub data Quiet : List Event → Type 0 where
  silent : Quiet []
  entry : {n : ℕ} {p : Phase} {b : Bool} {es : List Event} → Quiet es → Quiet (audited n p b ∷ es)

-- A task that may have effects twice is run again only where the model that looked at the screen said
-- that there was no effect.
abbrev pub IsVerified : World → Bool → ℕ → Type 0
IsVerified w risk n = risk ≡ true → (s : String) × (w.verify n ≡ some (yantraos_action, absent, s))

-- A success is one of the run, or is one that has been verified and kept.
abbrev pub IsEarned : ℕ → Exit → List Event → ExternalActionResult → Type 0
IsEarned n exit es r =
    r.exit_code ≡ success → (exit ≡ success) ⊎ (es ≡ audited n completed_phase true ∷ [])

-- what may follow the run of an attempt, and what may follow its failure
pub data Following (w : World) (risk : Bool) (n : ℕ) (exit : Exit) : Step → Type 0 where
  ending :
      {es : List Event} {r : ExternalActionResult}
      → Quiet es
      → r.attempts ≡ n
      → IsEarned n exit es r
      → Following w risk n exit (record { events = es; next = ends r })
  retrying :
      {why : Reason}
      → n < max_action_attempts
      → IsVerified w risk n
      → Following w risk n exit
          (record { events = audited n attempt_failed true ∷ []; next = again why })

data Failing (w : World) (risk : Bool) (n : ℕ) : Step → Type 0 where
  ending :
      {es : List Event} {r : ExternalActionResult}
      → Quiet es
      → r.attempts ≡ n
      → (r.exit_code ≡ success → ⊥)
      → Failing w risk n (record { events = es; next = ends r })
  retrying :
      {why : Reason}
      → n < max_action_attempts
      → IsVerified w risk n
      → Failing w risk n (record { events = []; next = again why })

audited_then-Failing :
    (w : World) (risk : Bool) (n : ℕ) (r : ExternalActionResult)
    → r.attempts ≡ n
    → (r.exit_code ≡ success → ⊥)
    → Failing w risk n (audited_then w n failed not_audited (stops r))
unfolding audited_then
audited_then-Failing w risk n r e worse = kept (w.audit n failed)
  where
    kept :
        (b : Bool)
        → Failing w risk n (
            if b then record { events = audited n failed true ∷ []; next = ends r } else record {
              events = audited n failed false ∷ [];
              next = ends (result audit_failed not_audited (some audit_failure) n);
            })
    kept true = ending (entry silent) e worse
    kept false = ending (entry silent) refl (λ s. cc)

-- what an absent effect of a task that is at risk comes from
verdict-IsVerified :
    (w : World) (risk : Bool) (n : ℕ) (exit : Exit)
    → is_own (verdict w risk n exit).origin ≡ true
    → is_absent (verdict w risk n exit).effect ≡ true
    → IsVerified w risk n
unfolding verdict default_verdict
verdict-IsVerified w false n exit o e r = cc
verdict-IsVerified w true n exit o e r =
    seen (is_refused exit || not (w.screenshot n)) (w.verify n) refl o e
  where
    seen :
        (blind : Bool) (v : Option (Origin × Effect × String))
        → w.verify n ≡ v
        → is_own
            (verdict_or
              (default_verdict true exit (w.screenshot n))
              (if blind then none else v)).origin
          ≡ true
        → is_absent
            (verdict_or
              (default_verdict true exit (w.screenshot n))
              (if blind then none else v)).effect
          ≡ true
        → (s : String) × (w.verify n ≡ some (yantraos_action, absent, s))
    seen true v h o e = cc
    seen false none h o e = cc
    seen false (some (yantraos_action, absent, s)) h o e = (s, h)
    seen false (some (yantraos_action, present, s)) h o e = cc
    seen false (some (yantraos_action, unknown, s)) h o e = cc
    seen false (some (external_app_software, f, s)) h o e = cc
    seen false (some (audit_failure, f, s)) h o e = cc
    seen false (some (unverified_side_effect, f, s)) h o e = cc

after_failure-Failing :
    (w : World) (risk : Bool) (n : ℕ) (exit : Exit)
    → (exit ≡ success → ⊥)
    → Failing w risk n (after_failure w risk n exit (verdict w risk n exit))
unfolding after_failure give_up
after_failure-Failing w risk n exit worse =
    decided (risk && not (is_absent (verdict w risk n exit).effect))
      (is_own (verdict w risk n exit).origin) refl (is_absent (verdict w risk n exit).effect) refl
      (ltb n max_action_attempts) refl
  where
    v : Verdict
    v = verdict w risk n exit

    decided :
        (unsafe own : Bool)
        → is_own (verdict w risk n exit).origin ≡ own
        → (none_seen : Bool) → is_absent (verdict w risk n exit).effect ≡ none_seen
        → (left : Bool) → ltb n max_action_attempts ≡ left
        → Failing w risk n (
            if unsafe
            then audited_then w n failed not_audited
                (stops (result error (suppressed v.reason) (some unverified_side_effect) n))
            else if own && none_seen && left
            then record { events = []; next = again v.reason }
            else audited_then w n failed not_audited (
                stops (
                  result exit
                    (if own then action_failure v.reason else external_failure v.reason)
                    (some v.origin)
                    n)))
    decided true own o absence a left l = audited_then-Failing w risk n _ refl (λ s. cc)
    decided false true o true a true l =
        retrying (ltb→lt n max_action_attempts l) (verdict-IsVerified w risk n exit o a)
    decided false true o true a false l = audited_then-Failing w risk n _ refl worse
    decided false true o false a left l = audited_then-Failing w risk n _ refl worse
    decided false false o absence a left l = audited_then-Failing w risk n _ refl worse

-- the events of a failure come after ATTEMPT_FAILED
following :
    (w : World) (risk : Bool) (n : ℕ) (exit : Exit) (s : Step)
    → Failing w risk n s
    → Following w risk n exit (audited_then w n attempt_failed retry_refused s)
unfolding audited_then
following w risk n exit s f = kept (w.audit n attempt_failed) s f
  where
    kept :
        (b : Bool) (s : Step)
        → Failing w risk n s
        → Following w risk n exit (
            if b
            then record { events = audited n attempt_failed true ∷ s.events; next = s.next }
            else record {
              events = audited n attempt_failed false ∷ [];
              next = ends (result audit_failed retry_refused (some audit_failure) n);
            })
    kept false s f = ending (entry silent) refl (λ s. cc)
    kept true _ (ending quiet e worse) = ending (entry quiet) e (λ s. elim (worse s) [ ])
    kept true _ (retrying more seen) = retrying more seen

judge-Following :
    (w : World) (risk : Bool) (n : ℕ) (exit : Exit)
    → (exit ≡ success → ⊥)
    → Following w risk n exit (judge w risk n exit (verdict w risk n exit))
unfolding judge audited_then
judge-Following w risk n exit worse =
    decided (is_present (verdict w risk n exit).effect) (w.audit n completed_phase)
  where
    decided :
        (seen kept : Bool)
        → Following w risk n exit (
            if seen
            then if kept
              then record {
                events = audited n completed_phase true ∷ [];
                next = ends (result success verified none n);
              }
              else record {
                events = audited n completed_phase false ∷ [];
                next = ends (result audit_failed not_audited (some audit_failure) n);
              }
            else audited_then w n attempt_failed retry_refused
                (after_failure w risk n exit (verdict w risk n exit)))
    decided true true = ending (entry silent) refl (λ s. inr refl)
    decided true false = ending (entry silent) refl (λ s. cc)
    decided false kept = following w risk n exit _ (after_failure-Failing w risk n exit worse)

pub after_run-Following :
    (w : World) (risk : Bool) (n : ℕ) (exit : Exit)
    → Following w risk n exit (after_run w risk n exit)
unfolding after_run
after_run-Following w risk n success = ending silent refl (λ s. inl refl)
after_run-Following w risk n audit_failed = ending silent refl (λ s. cc)
after_run-Following w risk n error = judge-Following w risk n error (λ s. cc)
after_run-Following w risk n step_cap = judge-Following w risk n step_cap (λ s. cc)
after_run-Following w risk n refused = judge-Following w risk n refused (λ s. cc)
after_run-Following w risk n stalled = judge-Following w risk n stalled (λ s. cc)
