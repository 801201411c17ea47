-- ===== src/Bridge/Stalling.antt =====
-- How the visual loop ends where its actions do nothing.
use yantra_os.Prelude.{
  ℕ, zero, suc, ◌+◌, ◌≤◌, ◌≡◌, refl, sym, ap, subst, ◌∙◌, Bool, true, false, Option, none, some,
  List, [], ◌∷◌, ◌++◌, str_eq_refl, ◌==◌, if◌then◌else◌, arith,
}
use yantra_os.Bridge.Attempts.{step_cap, error, stalled}
use yantra_os.Bridge.Progress.{
  Action, click, typing, pressing, pasting, waiting, copying, Click, Progress, is_screen_changing,
  same_click, update_ineffective_state, click_identity,
}
use yantra_os.Bridge.Loop.{
  World, act, Event, confirmed, acted, outcome, logged, Previous, Next, breaks, goes_on, Part,
  log_and_stop, follow, sense, is_stalled, step, action_of, previous_of, Outcome, joined,
  visual_loop, run_visual_task, no_progress, stall,
}
use yantra_os.Bridge.Confirmed.{
  Idle, nothing, asking, reporting, logging, idle, acting, Done, broke, went,
}
use yantra_os.Bridge.Steps.{step-Done}

-- how many actions are carried out
unfoldable pub count_acted : List Event → ℕ
count_acted [] = 0
count_acted (acted n a b ∷ es) = suc (count_acted es)
count_acted (confirmed n b ∷ es) = count_acted es
count_acted (outcome n b c ∷ es) = count_acted es
count_acted (logged n p b ∷ es) = count_acted es

count_acted-append : (es fs : List Event) → count_acted (es ++ fs) ≡ count_acted es + count_acted fs
unfolding count_acted
count_acted-append [] fs = omega arith
count_acted-append (acted n a b ∷ es) fs = omega (arith, count_acted-append es fs)
count_acted-append (confirmed n b ∷ es) fs = count_acted-append es fs
count_acted-append (outcome n b c ∷ es) fs = count_acted-append es fs
count_acted-append (logged n p b ∷ es) fs = count_acted-append es fs

count_acted-Idle : (es : List Event) → Idle es → count_acted es ≡ 0
unfolding count_acted
count_acted-Idle _ nothing = refl
count_acted-Idle _ (asking i) = count_acted-Idle _ i
count_acted-Idle _ (reporting i) = count_acted-Idle _ i
count_acted-Idle _ (logging i) = count_acted-Idle _ i

-- one step carries out at most one action
count_acted-Done :
    (w : World) (approve_steps : Bool) (n : ℕ) (s : Part)
    → Done w approve_steps n s
    → count_acted s.events ≤ 1
unfolding count_acted
count_acted-Done w approve_steps n _ (broke (idle {es = es} i e)) =
    omega (arith, count_acted-Idle es i)
count_acted-Done w approve_steps n _ (broke (acting {es = es} f m i e)) =
    omega (arith, count_acted-Idle es i)
count_acted-Done w approve_steps n _ (went f m) = omega arith

-- the state after one action without effect, and after the same one again
abbrev once : Action → Progress
once a = update_ineffective_state a false no_progress

once-count : (a : Action) → is_screen_changing a ≡ true → (once a).count ≡ 1
unfolding update_ineffective_state click_identity
once-count (click kind x y button) h = refl
once-count (typing s) h = omega arith
once-count (pressing s) h = omega arith
once-count pasting h = omega arith
once-count (waiting n) h = cc
once-count (copying s) h = cc

eqb_refl : (n : ℕ) → (n == n) ≡ true
eqb_refl n = ground arith

same_click_refl : (c : Click) → same_click c c ≡ true
unfolding same_click
same_click_refl c = simp (str_eq_refl c.kind, eqb_refl c.x, eqb_refl c.y, str_eq_refl c.button)

twice-count :
    (a : Action)
    → is_screen_changing a ≡ true
    → (update_ineffective_state a false (once a)).count ≡ 2
unfolding update_ineffective_state click_identity
twice-count (click kind x y button) h =
    ap (λ b. if b then 1 + 1 else 1)
      (same_click_refl (record { kind = kind; x = x; y = y; button = button }))
twice-count (typing s) h = omega arith
twice-count (pressing s) h = omega arith
twice-count pasting h = omega arith
twice-count (waiting n) h = cc
twice-count (copying s) h = cc

abbrev acts : Outcome → ℕ
acts o = count_acted o.events

-- what is left of a step that carried out an action
abbrev left_by : Action → ℕ → Option Previous
left_by a now = some (record { screen = now; action = a })

module _ (w : World) (approve_steps : Bool) (a : Action)
    (same : (n now : ℕ) → w.decide n now ≡ some (act a))
    (still : (s t : ℕ) → w.changed s t ≡ false) where
  -- one step more
  one_more :
      (left n : ℕ) (previous : Option Previous) (p : Progress) (k : ℕ)
      → ((now : ℕ)
          → count_acted
              (visual_loop w approve_steps left
                (suc n)
                (left_by a now)
                (sense w previous now p)).events
            ≤ k)
      → count_acted (visual_loop w approve_steps (suc left) n previous p).events ≤ suc k
  unfolding visual_loop count_acted
  one_more left n previous p k rest = begun (w.late n) (w.screen n) refl
    where
      stepped :
          (s : Part) (o : Outcome)
          → count_acted s.events ≤ 1
          → count_acted o.events ≤ k
          → acts (elim s.next [
            | breaks e ↦ record { events = s.events; exit = e }
            | goes_on ↦ joined s.events o
          ])
            ≤ suc k
      stepped s o one more = ended s.events s.next one more
        where
          ended :
              (es : List Event) (next : Next)
              → count_acted es ≤ 1
              → count_acted o.events ≤ k
              → acts (elim next [
                | breaks e ↦ record { events = es; exit = e }
                | goes_on ↦ joined es o
              ])
                ≤ suc k
          ended es (breaks e) one more = omega (arith, one)
          ended es goes_on one more = omega (arith, one, more, count_acted-append es o.events)

      begun :
          (over : Bool) (screen : Option ℕ)
          → w.screen n ≡ screen
          → acts (
              if over then record { events = []; exit = step_cap } else elim screen [
                | none ↦ record { events = []; exit = error }
                | some now ↦
                    let s = step w approve_steps n previous p now in
                    elim s.next [
                      | breaks e ↦ record { events = s.events; exit = e }
                      | goes_on ↦ joined s.events (
                          visual_loop w approve_steps left
                            (suc n)
                            (previous_of now (action_of (w.decide n now)))
                            (sense w previous now p))
                    ]
              ])
            ≤ suc k
      begun true screen h = omega arith
      begun false none h = omega arith
      begun false (some now) h =
          stepped (step w approve_steps n previous p now) _
            (count_acted-Done w approve_steps n _ (step-Done w approve_steps n previous p now h))
            (subst
              (λ d.
                count_acted
                  (visual_loop w approve_steps left (suc n) (previous_of now (action_of d))
                    (sense w previous now p)).events
                ≤ k)
              (sym (same n now)) (rest now))

  -- the first step, then one after it, then none
  sense-still :
      (before now : ℕ) (p : Progress)
      → sense w (left_by a before) now p ≡ update_ineffective_state a false p
  unfolding sense
  sense-still before now p = ap (λ c. update_ineffective_state a c p) (still before now)

  stuck :
      (before now : ℕ)
      → is_screen_changing a ≡ true
      → is_stalled w (left_by a before) now (once a) (sense w (left_by a before) now (once a))
        ≡ true
  unfolding is_stalled
  stuck before now h =
      let one = once-count a h in
      let two = ap (λ p. p.count) (sense-still before now (once a)) ∙ twice-count a h in
      simp (still before now, one, two)

  third_step :
      (n before now : ℕ)
      → is_screen_changing a ≡ true
      → step w approve_steps n (left_by a before) (once a) now ≡ log_and_stop w n stall stalled
  unfolding step
  third_step n before now h =
      ap
        (λ b.
          if b then log_and_stop w n stall stalled else follow w approve_steps n (w.decide n now))
        (stuck before now h)

  third :
      (left n before : ℕ)
      → is_screen_changing a ≡ true
      → count_acted (visual_loop w approve_steps left n (left_by a before) (once a)).events ≤ 0
  unfolding visual_loop count_acted
  third zero n before h = omega arith
  third (suc left) n before h = begun (w.late n) (w.screen n)
    where
      begun :
          (over : Bool) (screen : Option ℕ)
          → acts (
              if over then record { events = []; exit = step_cap } else elim screen [
                | none ↦ record { events = []; exit = error }
                | some now ↦
                    let s = step w approve_steps n (left_by a before) (once a) now in
                    elim s.next [
                      | breaks e ↦ record { events = s.events; exit = e }
                      | goes_on ↦ joined s.events (
                          visual_loop w approve_steps left
                            (suc n)
                            (previous_of now (action_of (w.decide n now)))
                            (sense w (left_by a before) now (once a)))
                    ]
              ])
            ≤ 0
      begun true screen = omega arith
      begun false none = omega arith
      begun false (some now) =
          subst
            (λ s.
              acts (elim s.next [
                | breaks e ↦ record { events = s.events; exit = e }
                | goes_on ↦ joined s.events (
                    visual_loop w approve_steps left (suc n)
                      (previous_of now (action_of (w.decide n now)))
                      (sense w (left_by a before) now (once a)))
              ])
              ≤ 0)
            (sym (third_step n before now h)) (omega arith)

  -- Where the screen never changes, a model that repeats one action that should change it has it carried
  -- out at most twice, in whatever way the loop ends.
  pub run_visual_task-stalls :
      is_screen_changing a ≡ true → count_acted (run_visual_task w approve_steps).events ≤ 2
  unfolding run_visual_task
  run_visual_task-stalls h = one_more 49 1 none no_progress 1 (λ now.
      one_more 48 2 (left_by a now) (sense w none now no_progress) 0 (λ later.
        subst (λ p. count_acted (visual_loop w approve_steps 48 3 (left_by a later) p).events ≤ 0)
          (sym (sense-still now later no_progress)) (third 48 3 later h)))
