-- ===== src/Sandbox/Cleanup.antt =====
-- What holds of every run: the container is removed, success means success, and trouble with Docker
-- takes the engine out of operation.
use yantra_os.Prelude.{
  ℕ, zero, suc, ◌+◌, ◌≤◌, ◌<◌, ◌≡◌, refl, ap, Bool, true, false, inl, inr, Option, none, some, List,
  [], ◌∷◌, ◌++◌, leb, arith, String, Bool-cases, if◌then◌else◌, str_eq, str_eq_refl, ◌↔◌, ◌≢◌,
}
use mathlib.Core.Bool.{false≢true}
use yantra_os.Sandbox.Script.{success, docker_error, degraded, SandboxResult}
use yantra_os.Sandbox.Engine.{
  Poll, raises, ended, running, Call, create, start, kill, remove, Docker, Engine, Waited, raised,
  exited, timed_out, wait_exit, pop_key, add_key, is_zero, after_wait, read_logs, attempt, finish,
  not_created, blocking_execute, is_operational, result_or,
}

-- With a clock that moves at least one tick for each look, the wait ends by itself.
pub wait_exit_total :
    (fuel deadline : ℕ) (poll : ℕ → Poll) (clock : ℕ → ℕ) (n : ℕ)
    → ((m : ℕ) → m ≤ clock m)
    → 0 < fuel
    → deadline < fuel + n
    → (w : Waited) × (wait_exit fuel deadline poll clock n ≡ some w)
unfolding wait_exit
wait_exit_total zero deadline poll clock n ticks p h = absurd (omega arith)
wait_exit_total (suc fuel) deadline poll clock n ticks p h =
    go
      (λ late.
        let before : n < deadline = ground (arith, ticks n) in
        wait_exit_total fuel deadline poll clock (suc n) ticks (omega arith) (omega arith))
      (poll n)
  where
    go :
        (leb deadline (clock n) ≡ false
          → (w : Waited) × (wait_exit fuel deadline poll clock (suc n) ≡ some w))
        → (q : Poll)
        → (w : Waited) × ((elim q [
          | raises ↦ some raised
          | ended code ↦ some (exited code)
          | running ↦
              if leb deadline (clock n)
              then some timed_out
              else wait_exit fuel deadline poll clock (suc n)
        ])
            ≡ some w)
    go next raises = (raised, refl)
    go next (ended code) = (exited code, refl)
    go next running = elim (Bool-cases (leb deadline (clock n))) [
      | inl late ↦ (timed_out, rw late refl)
      | inr early ↦ let (w, e) = next early in (w, rw early e)
    ]

pop_key_twice : (k : String) (ks : List String) → pop_key k (pop_key k ks) ≡ pop_key k ks
unfolding pop_key
pop_key_twice k [] = refl
pop_key_twice k (j ∷ js) = elim (Bool-cases (str_eq j k)) [
  | inl here ↦ ground (arith, pop_key_twice k js)
  | inr other ↦ ground (arith, pop_key_twice k js)
]

pop_key-add_key : (k : String) (ks : List String) → pop_key k (add_key k ks) ≡ pop_key k ks
unfolding pop_key add_key
pop_key-add_key k ks = rw (str_eq_refl k) (pop_key_twice k ks)

finish-removes :
    (b : Bool) (key : String) (e : Engine) (r : Option SandboxResult) (calls : List Call)
    → ((finish b key e r calls).engine.active ≡ pop_key key e.active)
      × ((finish b key e r calls).calls ≡ (create ∷ start ∷ calls) ++ kill ∷ remove ∷ [])
unfolding finish
finish-removes true key e r calls = (pop_key-add_key key e.active, refl)
finish-removes false key e r calls = (pop_key-add_key key e.active, refl)

finish-success :
    (b : Bool) (key : String) (e : Engine) (r : Option SandboxResult) (calls : List Call)
    → ((finish b key e r calls).result.outcome ≡ success)
      ↔ ((b ≡ true) × ((result_or r).outcome ≡ success))
unfolding finish
finish-success true key e r calls = ((λ h. (refl, h)), λ h. h.1)
finish-success false key e none calls = ((λ h. cc), λ h. cc)
finish-success false key e (some x) calls = ((λ h. cc), λ h. cc)

-- what a successful attempt has met
abbrev pub IsClean : Option Waited → Option (List (List ℕ)) → Option (List (List ℕ)) → Type 0
IsClean w out errs = (w ≡ some (exited (some 0))) × (out ≢ none) × (errs ≢ none)

is_zero→eq : (code : Option ℕ) → is_zero code ≡ true → code ≡ some 0
is_zero→eq none h = cc
is_zero→eq (some n) h = ground arith

read_logs-success :
    (code : Option ℕ) (out errs : Option (List (List ℕ)))
    → ((result_or (read_logs (exited code) out errs).0).outcome ≡ success)
      ↔ IsClean (some (exited code)) out errs
unfolding read_logs
read_logs-success code none errs = ((λ h. cc), λ h. absurd (h.1 refl))
read_logs-success code (some out) none = ((λ h. cc), λ h. absurd (h.2 refl))
read_logs-success code (some out) (some errs) = elim (Bool-cases (is_zero code)) [
  | inl zero_code ↦ rw zero_code (
    (λ h. (
      ap (λ c. some (exited c)) (is_zero→eq code zero_code),
      (λ e. ground arith),
      λ e. ground arith,
    )),
    λ h. refl,
  )
  | inr other ↦ rw other ((λ h. cc), λ h. absurd (ground arith))
]

read_logs-late :
    (out errs : Option (List (List ℕ)))
    → (result_or (read_logs timed_out out errs).0).outcome ≢ success
unfolding read_logs
read_logs-late none errs h = cc
read_logs-late (some out) none h = cc
read_logs-late (some out) (some errs) h = cc

after_wait-success :
    (d : Docker) (w : Option Waited)
    → ((result_or (after_wait d w).0).outcome ≡ success) ↔ IsClean w d.stdout d.stderr
unfolding after_wait
after_wait-success d none = ((λ h. cc), λ h. absurd (ground arith))
after_wait-success d (some raised) = ((λ h. cc), λ h. absurd (ground arith))
after_wait-success d (some timed_out) =
    ((λ h. absurd (read_logs-late d.stdout d.stderr h)), λ h. cc)
after_wait-success d (some (exited code)) = read_logs-success code d.stdout d.stderr

after_wait-outcome :
    (d : Docker) (w : Option Waited)
    → (result_or (after_wait d w).0).outcome ≡ docker_error
    → (after_wait d w).0 ≡ none
unfolding after_wait
after_wait-outcome d none h = refl
after_wait-outcome d (some raised) h = refl
after_wait-outcome d (some timed_out) h = ground arith
after_wait-outcome d (some (exited code)) h = ground arith

attempt-docker_error :
    (deadline : ℕ) (d : Docker)
    → (result_or (attempt deadline d).0).outcome ≡ docker_error
    → (attempt deadline d).0 ≡ none
unfolding attempt
attempt-docker_error deadline d h = elim (Bool-cases d.starts) [
  | inl ran ↦
      rw ran
        (after_wait-outcome d (wait_exit (suc deadline) deadline d.poll d.clock 0) (rw ran at h))
  | inr stopped ↦ rw stopped refl
]

finish-stops :
    (b : Bool) (key : String) (e : Engine) (r : Option SandboxResult) (calls : List Call)
    → ((result_or r).outcome ≡ docker_error → r ≡ none)
    → (finish b key e r calls).result.outcome ≡ docker_error
    → (finish b key e r calls).engine.status ≡ degraded
unfolding finish
finish-stops true key e r calls only h = rw (only h) refl
finish-stops false key e r calls only h = refl

unclean : (result_or none).outcome ≢ success
unclean h = cc

module _ (deadline : ℕ) (key : String) (d : Docker) (e : Engine) where
  -- Once a container is created, the last call of the run is its removal, after a kill; and the run
  -- leaves no entry of its own among the active containers.
  pub blocking_execute-removes :
      let r = blocking_execute deadline key d e in
      (r.engine.active ≡ pop_key key e.active)
      × (d.creates ≡ true
          → (before : List Call) × (r.calls ≡ (create ∷ start ∷ before) ++ kill ∷ remove ∷ []))
  unfolding blocking_execute
  blocking_execute-removes =
      let r = (attempt deadline d).0 in
      let calls = (attempt deadline d).1 in
      elim (Bool-cases d.creates) [
        | inl made ↦
            rw made (let (a, c) = finish-removes d.removes key e r calls in (a, λ _. (calls, c)))
        | inr none_made ↦ rw none_made (refl, λ h. absurd (ground arith))
      ]

  -- A run succeeds exactly when the container was created, started, ended by itself with code 0, both
  -- logs were read and the container was removed.
  pub blocking_execute-success : ((blocking_execute deadline key d e).result.outcome ≡ success) ↔ (
      (d.creates ≡ true)
      × (d.starts ≡ true)
      × IsClean (wait_exit (suc deadline) deadline d.poll d.clock 0) d.stdout d.stderr
      × (d.removes ≡ true))
  unfolding blocking_execute
  blocking_execute-success = elim (Bool-cases d.creates) [
    | inr none_made ↦ rw none_made ((λ h. cc), λ h. absurd (false≢true h.0))
    | inl made ↦ elim (Bool-cases d.starts) [
      | inr stopped ↦
          rw (made, stopped)
            (
              (λ h. absurd (unclean ((finish-success d.removes key e none []).0 h).1)),
              λ h. absurd (false≢true h.1),
            )
      | inl ran ↦
          let w = wait_exit (suc deadline) deadline d.poll d.clock 0 in
          let f = finish-success d.removes key e (after_wait d w).0 (after_wait d w).1 in
          let g = after_wait-success d w in
          rw (made, ran) ((λ h. (refl, refl, g.0 (f.0 h).1, (f.0 h).0)), λ h. f.1 (h.3, g.1 h.2))
    ]
  ]

  -- Where a run reports an error of Docker, the engine is out of operation afterwards.
  pub docker_error-stops :
      (blocking_execute deadline key d e).result.outcome ≡ docker_error
      → is_operational (blocking_execute deadline key d e).engine ≡ false
  unfolding blocking_execute is_operational
  docker_error-stops h = elim (Bool-cases d.creates) [
    | inr none_made ↦ rw none_made (unfold not_created in refl)
    | inl made ↦
        let after =
          finish-stops d.removes key e (attempt deadline d).0 (attempt deadline d).1
            (attempt-docker_error deadline d) (rw made at h) in
        rw (made, after) refl
  ]
