-- ===== src/Bridge/Confirmed.antt =====
-- What one step of the visual loop may be, and that an action is carried out only once it is confirmed.
use yantra_os.Prelude.{
  ℕ, ◌≡◌, refl, Bool, true, false, Option, none, some, List, [], ◌∷◌, if◌then◌else◌,
}
use yantra_os.Bridge.Attempts.{Exit, success, error, refused, audit_failed}
use yantra_os.Bridge.Progress.{Action}
use yantra_os.Bridge.Loop.{
  World, act, done, Phase, completed, executed, Event, confirmed, acted, outcome, logged, breaks,
  goes_on, Part, stop, carry_out, after, compare_screens, ask, approve,
}

-- Events of which none is an action.
pub data Idle : List Event → Type 0 where
  nothing : Idle []
  asking : {n : ℕ} {b : Bool} {es : List Event} → Idle es → Idle (confirmed n b ∷ es)
  reporting : {n : ℕ} {b c : Bool} {es : List Event} → Idle es → Idle (outcome n b c ∷ es)
  logging : {n : ℕ} {p : Phase} {b : Bool} {es : List Event} → Idle es → Idle (logged n p b ∷ es)

-- Where each step is confirmed, the screen is the same before and after the user's answer.
abbrev pub IsFresh : World → Bool → ℕ → Type 0
IsFresh w approve_steps n =
    approve_steps ≡ false
    → (before : ℕ) × (now : ℕ) × (w.baseline n ≡ some before)
      × (w.after_confirmation n ≡ some now)
      × (w.changed before now ≡ false)

-- The action that is carried out is the one that the model named on the screen of the step.
abbrev pub IsNamed : World → ℕ → Action → Type 0
IsNamed w n a = (now : ℕ) × (w.screen n ≡ some now) × (w.decide n now ≡ some (act a))

-- The last step: nothing is carried out, and it is a success only where COMPLETED is kept of a model
-- that is done; or an action is confirmed and carried out, and that is no success.
pub data Ending (w : World) (approve_steps : Bool) (n : ℕ) : List Event → Exit → Type 0 where
  idle :
      {es : List Event} {e : Exit}
      → Idle es
      → (e ≡ success
          → (es ≡ logged n completed true ∷ []) × (now : ℕ) × (w.decide n now ≡ some (done true)))
      → Ending w approve_steps n es e
  acting :
      {a : Action} {b : Bool} {es : List Event} {e : Exit}
      → IsFresh w approve_steps n
      → IsNamed w n a
      → Idle es
      → (e ≡ success → ⊥)
      → Ending w approve_steps n (confirmed n true ∷ acted n a b ∷ es) e

-- what one step may be
pub data Done (w : World) (approve_steps : Bool) (n : ℕ) : Part → Type 0 where
  broke :
      {es : List Event} {e : Exit}
      → Ending w approve_steps n es e
      → Done w approve_steps n (record { events = es; next = breaks e })
  went :
      {a : Action}
      → IsFresh w approve_steps n
      → IsNamed w n a
      → Done w approve_steps n (record {
        events =
            confirmed n true ∷ acted n a true ∷ outcome n true true ∷ logged n executed true ∷ [];
        next = goes_on;
      })

carry_out-Done :
    (w : World) (approve_steps : Bool) (n : ℕ) (a : Action)
    → IsFresh w approve_steps n
    → IsNamed w n a
    → Done w approve_steps n (after (confirmed n true) (carry_out w n a))
unfolding carry_out
carry_out-Done w approve_steps n a fresh named =
    went_on (w.execute n a) (w.log_outcome n true) (w.log n executed) (w.log_outcome n false)
  where
    went_on :
        (through kept entered told : Bool)
        → Done w approve_steps n (
            after (confirmed n true) (
              if through
              then if kept
                then record {
                  events = acted n a true ∷ outcome n true true ∷ logged n executed entered ∷ [];
                  next = if entered then goes_on else breaks audit_failed;
                }
                else record {
                  events = acted n a true ∷ outcome n true false ∷ [];
                  next = breaks audit_failed;
                }
              else record {
                events = acted n a false ∷ outcome n false told ∷ [];
                next = breaks (if told then error else audit_failed);
              }))
    went_on true true true told = went fresh named
    went_on true true false told =
        broke (acting fresh named (reporting (logging nothing)) (λ s. cc))
    went_on true false entered told = broke (acting fresh named (reporting nothing) (λ s. cc))
    went_on false kept entered true = broke (acting fresh named (reporting nothing) (λ s. cc))
    went_on false kept entered false = broke (acting fresh named (reporting nothing) (λ s. cc))

-- a step that is refused, or cannot be checked, carries nothing out
declined :
    (w : World) (approve_steps : Bool) (n : ℕ) (b : Bool) (e : Exit)
    → (e ≡ success → ⊥)
    → Done w approve_steps n (after (confirmed n b) (stop e))
declined w approve_steps n b e worse =
    broke (idle (asking {n = n} {b = b} nothing) (λ s. elim (worse s) [ ]))

ask-Done :
    (w : World) (n : ℕ) (a : Action) (baseline : Option ℕ)
    → w.baseline n ≡ baseline
    → IsNamed w n a
    → Done w false n (ask w n a baseline)
unfolding ask compare_screens
ask-Done w n a none h named = broke (idle nothing (λ s. cc))
ask-Done w n a (some before) h named = answered (w.confirm n) (w.after_confirmation n) refl
  where
    compared :
        (now : ℕ) (differs : Bool)
        → w.after_confirmation n ≡ some now
        → w.changed before now ≡ differs
        → Done w false n
            (after (confirmed n true) (if differs then stop refused else carry_out w n a))
    compared now true k c = declined w false n true refused (λ s. cc)
    compared now false k c = carry_out-Done w false n a (λ u. (before, now, h, k, c)) named

    answered :
        (yes : Bool) (later : Option ℕ)
        → w.after_confirmation n ≡ later
        → Done w false n (
            after
              (confirmed n yes)
              (if yes then compare_screens w n a before later else stop refused))
    answered false later k = declined w false n false refused (λ s. cc)
    answered true none k = declined w false n true error (λ s. cc)
    answered true (some now) k = compared now (w.changed before now) k refl

pub approve-Done :
    (w : World) (approve_steps : Bool) (n : ℕ) (a : Action)
    → IsNamed w n a
    → Done w approve_steps n (approve w approve_steps n a)
unfolding approve
approve-Done w false n a named = ask-Done w n a (w.baseline n) refl named
approve-Done w true n a named = answered (w.confirm n)
  where
    answered :
        (yes : Bool)
        → Done w true n (after (confirmed n yes) (if yes then carry_out w n a else stop refused))
    answered true = carry_out-Done w true n a (λ u. cc) named
    answered false = declined w true n false refused (λ s. cc)
