-- ===== src/Confirmation/Approval.antt =====
-- What an approval has recorded, and that its outcome is recorded under the same run number.
use yantra_os.Prelude.{
  ℕ, ◌+◌, ◌-◌, ◌≤◌, max, ◌≡◌, ◌≢◌, refl, ap, Bool, true, false, ◌⊎◌, inl, inr, List, [], ◌∷◌, arith,
  Bool-cases,
}
use yantra_os.Prelude.Result.{Result, ok, err}
use yantra_os.Confirmation.Counter.{
  CounterFile, Uncaught, read_counter, write_counter, read_counter-new_file, write_counter-done,
  max_counter_bytes, new_file,
}
use yantra_os.Confirmation.Decision.{
  proposed, confirmed, Event, logged, counted, Desk, is_yes, if_logged, log, confirm, ask, run_of,
  decide, propose, propose_read, confirm_action, outcome_phase, log_outcome, log_execution_outcome,
}

if_logged-true : (b : Bool) (e : Event) → b ≡ true → if_logged b e ≡ e ∷ []
if_logged-true b e h = rw h refl

module _ (d : Desk) (f : CounterFile) where
  -- What an approval has recorded where the counter was n: for an action that is approved beforehand the
  -- two audit entries; else also, between them, the counter after the one that was read once the user had
  -- answered yes.
  abbrev pub Approval : Bool → ℕ → List Event → CounterFile → Type 0
  Approval true n es g =
      (es ≡ logged proposed (max 1 n) ∷ logged confirmed (max 1 n) ∷ []) × (g ≡ f)
  Approval false n es g =
      (d.is_tty ≡ true)
      × (is_yes d.answer ≡ true)
      × ((m : ℕ) × (read_counter d.euid (d.meanwhile f) ≡ ok m)
          × (es ≡ logged proposed (n + 1) ∷ counted (m + 1) ∷ logged confirmed (n + 1) ∷ [])
          × (g ≡ new_file d.euid (d.size_of (m + 1)) d.writes (m + 1)))

  confirm-approved :
      (run n : ℕ) (f : CounterFile)
      → (confirm d run (ok n) f).result ≡ ok true
      → ((confirm d run (ok n) f).events ≡ counted (n + 1) ∷ logged confirmed run ∷ [])
        × ((confirm d run (ok n) f).file ≡ new_file d.euid (d.size_of (n + 1)) d.writes (n + 1))
  unfolding confirm log
  confirm-approved run n f h =
      elim (Bool-cases (write_counter d.euid d.size_of d.writes d.replaces (n + 1) f).0) [
        | inr lost ↦ let k = rw lost at h in cc
        | inl kept ↦
            let k = rw kept at h in
            let persisted : d.log_action confirmed ≡ true = cc in
            rw kept (
              ap (λ es. counted (n + 1) ∷ es)
                  (if_logged-true (d.log_action confirmed) (logged confirmed run) persisted),
              write_counter-done d.euid d.size_of d.writes d.replaces (n + 1) f kept,
            )
      ]

  ask-approved :
      (run : ℕ) (r : Result Uncaught ℕ)
      → read_counter d.euid (d.meanwhile f) ≡ r
      → (ask d run f).result ≡ ok true
      → (d.is_tty ≡ true)
        × (is_yes d.answer ≡ true)
        × ((m : ℕ) × (r ≡ ok m)
            × ((ask d run f).events ≡ counted (m + 1) ∷ logged confirmed run ∷ [])
            × ((ask d run f).file ≡ new_file d.euid (d.size_of (m + 1)) d.writes (m + 1)))
  unfolding ask confirm
  ask-approved run r e h = elim (Bool-cases d.is_tty) [
    | inr no_tty ↦ let k = rw no_tty at h in cc
    | inl tty ↦ elim (Bool-cases (is_yes d.answer)) [
      | inr denied ↦ let k = rw (tty, denied) at h in cc
      | inl agreed ↦ simp (tty, agreed, e) (refl, refl, read r (simp (tty, agreed, e) at h))
    ]
  ]
    where
      read :
          (r : Result Uncaught ℕ)
          → (confirm d run r (d.meanwhile f)).result ≡ ok true
          → (m : ℕ) × (r ≡ ok m)
            × ((confirm d run r (d.meanwhile f)).events
                ≡ counted (m + 1) ∷ logged confirmed run ∷ [])
            × ((confirm d run r (d.meanwhile f)).file
                ≡ new_file d.euid (d.size_of (m + 1)) d.writes (m + 1))
      read (err x) k = cc
      read (ok m) k = let (es, g) = confirm-approved run m (d.meanwhile f) k in (m, refl, es, g)

  decide-approved :
      (b : Bool) (n : ℕ)
      → (decide d b (run_of d b n) f).result ≡ ok true
      → Approval b n
          (logged proposed (run_of d b n) ∷ (decide d b (run_of d b n) f).events)
          (decide d b (run_of d b n) f).file
  unfolding decide log
  decide-approved true n h = (
    ap (λ es. logged proposed (max 1 n) ∷ es)
        (if_logged-true (d.log_action confirmed) (logged confirmed (max 1 n)) cc),
    refl,
  )
  decide-approved false n h =
      let (tty, agreed, (m, e, es, g)) = ask-approved (n + 1) _ refl h in
      (tty, agreed, (m, e, ap (λ r. logged proposed (n + 1) ∷ r) es, g))

  propose_read-approved :
      (b : Bool) (r : Result Uncaught ℕ)
      → read_counter d.euid f ≡ r
      → (propose_read d b r f).result ≡ ok true
      → (n : ℕ) × (r ≡ ok n)
        × Approval b n (propose_read d b r f).events (propose_read d b r f).file
  unfolding propose_read propose
  propose_read-approved b (err x) e h = cc
  propose_read-approved b (ok n) e h = elim (Bool-cases (d.log_action proposed)) [
    | inr refused ↦ let k = rw refused at h in cc
    | inl persisted ↦ let k = simp persisted at h in simp persisted (n, refl, decide-approved b n k)
  ]

  -- An action is approved only after its proposal and its approval have been persisted, in this order
  -- and under one run number, that of the counter as it was read first. With a prior approval the counter
  -- is left as it is. Without one, a user has answered yes at a terminal, and between the two entries a
  -- new counter file, as far as its text was written, has taken the place of the old one: it counts one
  -- more than the counter as it was read after the answer.
  pub confirm_action-Approval :
      (b : Bool)
      → (confirm_action d b f).result ≡ ok true
      → (n : ℕ) × (read_counter d.euid f ≡ ok n)
        × Approval b n (confirm_action d b f).events (confirm_action d b f).file
  unfolding confirm_action
  confirm_action-Approval b h = propose_read-approved b (read_counter d.euid f) refl h

  -- The outcome of an approved action is recorded under the run number of its approval, where the
  -- text of a counter fits its file and is written as a whole, and the counter is the same after the
  -- user's answer.
  pub log_execution_outcome-run :
      (b worked : Bool)
      → ((n : ℕ) → d.size_of n ≤ max_counter_bytes)
      → ((n : ℕ) → d.size_of n ≤ d.writes)
      → read_counter d.euid (d.meanwhile f) ≡ read_counter d.euid f
      → (confirm_action d b f).result ≡ ok true
      → (run : ℕ) × (rest : List Event) × ((confirm_action d b f).events
          ≡ logged proposed run ∷ rest)
        × ((log_execution_outcome d worked (confirm_action d b f).file).events
            ≡ if_logged
                (d.log_action (outcome_phase d worked))
                (logged (outcome_phase d worked) run))
  unfolding log_execution_outcome log_outcome log
  log_execution_outcome-run b worked fits whole still h = go b (confirm_action-Approval b h)
    where
      go :
          (b : Bool)
          → ((n : ℕ) × (read_counter d.euid f ≡ ok n)
              × Approval b n (confirm_action d b f).events (confirm_action d b f).file)
          → (run : ℕ) × (rest : List Event) × ((confirm_action d b f).events
              ≡ logged proposed run ∷ rest)
            × ((log_execution_outcome d worked (confirm_action d b f).file).events
                ≡ if_logged
                    (d.log_action (outcome_phase d worked))
                    (logged (outcome_phase d worked) run))
      go true (n, e, (es, g)) =
          let same : n + 1 - 1 ≡ n = omega arith in
          (max 1 n, logged confirmed (max 1 n) ∷ [], es, rw (g, e, same) refl)
      go false (n, e, (tty, agreed, (m, e', es', g'))) =
          let m_is_n : m ≡ n = cc in
          let es = rw m_is_n at es' in
          let g = rw m_is_n at g' in
          let back =
            read_counter-new_file d.euid (d.size_of (n + 1)) d.writes (n + 1) (fits (n + 1))
              (whole (n + 1)) in
          let same : max 1 (n + 1 + 1 - 1) ≡ n + 1 = omega arith in
          (n + 1, counted (n + 1) ∷ logged confirmed (n + 1) ∷ [], es, rw (g, back, same) refl)

  ask-declined :
      (run : ℕ)
      → d.is_tty ≡ false ⊎ is_yes d.answer ≡ false
      → ((ask d run f).result ≢ ok true)
        × ((ask d run f).file ≡ f ⊎ (ask d run f).file ≡ d.meanwhile f)
  unfolding ask
  ask-declined run denied = elim (Bool-cases d.is_tty) [
    | inr no_tty ↦ simp no_tty ((λ k. cc), inl refl)
    | inl tty ↦
        let said_no : is_yes d.answer ≡ false = ground arith in
        simp (tty, said_no) ((λ k. cc), inr refl)
  ]

  propose_read-declined :
      (r : Result Uncaught ℕ)
      → d.is_tty ≡ false ⊎ is_yes d.answer ≡ false
      → ((propose_read d false r f).result ≢ ok true)
        × ((propose_read d false r f).file ≡ f ⊎ (propose_read d false r f).file ≡ d.meanwhile f)
  unfolding propose_read propose decide
  propose_read-declined (err x) denied = ((λ k. cc), inl refl)
  propose_read-declined (ok n) denied = elim (Bool-cases (d.log_action proposed)) [
    | inr refused ↦ simp refused ((λ k. cc), inl refl)
    | inl persisted ↦ simp persisted (ask-declined (n + 1) denied)
  ]

  -- Without a prior approval, an action that no user answers yes to at a terminal is not approved, and
  -- the counter's file is not written.
  pub confirm_action-declined :
      d.is_tty ≡ false ⊎ is_yes d.answer ≡ false
      → ((confirm_action d false f).result ≢ ok true)
        × ((confirm_action d false f).file ≡ f ⊎ (confirm_action d false f).file ≡ d.meanwhile f)
  unfolding confirm_action
  confirm_action-declined denied = propose_read-declined (read_counter d.euid f) denied
