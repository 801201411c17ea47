-- ===== src/Router/Routing.antt =====
-- Every inference ends, with at most two calls; a router that stays on this machine calls no cloud.
use yantra_os.Prelude.{
  ℕ, zero, suc, ◌+◌, ◌≤◌, ◌≡◌, refl, sym, ap, subst, ◌∙◌, true, false, ◌⊎◌, inl, inr, Bool-cases,
  Option, none, some, List, [], ◌∷◌, ◌++◌, String, arith,
}
use yantra_os.Prelude.Lists.{length, length-append}
use yantra_os.Prelude.Result.{ok, err}
use yantra_os.Router.Completion.{
  Model, on_host, is_cloud, fallback_of, Answer, response, timed_out, failed, timeout_error,
  auth_error, Router, Completed, Backend, get_model_for_phase, is_auth, call, answer_of,
  complete_by, fall_back, try_fallback, settle, complete,
}

module _ (b : Backend) where
  -- a first answer is settled where the second try is
  settle_total :
      (m : Model) (a : Answer) (again : Router → Option Completed) (r : Router)
      → ((c : Completed) × (again record r { local_only = true } ≡ some c)) ⊎ (is_cloud m ≡ false)
      → (c : Completed) × (settle b m a again r ≡ some c)
  unfolding settle
  settle_total m (response x) again r next = (complete_by b m x r, refl)
  settle_total m timed_out again r next = (record { result = err timeout_error; router = r }, refl)
  settle_total m (failed message) again r next = elim (Bool-cases (is_auth b message)) [
    | inr other ↦ simp other (try_fallback b message (fallback_of m) r, refl)
    | inl auth ↦ elim next [
      | inr here ↦
          simp (auth, here)
            (record { result = err auth_error; router = record r { local_only = true } }, refl)
      | inl (c, e) ↦ elim (Bool-cases (is_cloud m)) [
        | inl far ↦ simp (auth, far) (c, e)
        | inr here ↦
            simp (auth, here)
              (record { result = err auth_error; router = record r { local_only = true } }, refl)
      ]
    ]
  ]

  complete_local :
      (fuel : ℕ) (phase : String) (r : Router)
      → (c : Completed) × (complete b (suc fuel) phase record r { local_only = true } ≡ some c)
  unfolding complete get_model_for_phase
  complete_local fuel phase r =
      settle_total on_host (answer_of b on_host record r { local_only = true })
        (complete b fuel phase) (call b on_host record r { local_only = true }) (inr refl)

  -- Two rounds are enough for every inference: it returns or raises.
  pub complete_total :
      (fuel : ℕ) (phase : String) (r : Router)
      → (c : Completed) × (complete b (suc (suc fuel)) phase r ≡ some c)
  unfolding complete
  complete_total fuel phase r =
      let m = get_model_for_phase b r.local_only phase in
      settle_total m (answer_of b m r) (complete b (suc fuel) phase) (call b m r)
        (inl (complete_local fuel phase (call b m r)))

  -- what a run adds to the calls, and that a local router stays local
  abbrev pub StaysLocal : Router → Completed → Type 0
  StaysLocal r c = (c.router.calls ≡ r.calls ++ on_host ∷ []) × (c.router.local_only ≡ true)

  settle-StaysLocal :
      (a : Answer) (again : Router → Option Completed) (r : Router) (c : Completed)
      → r.local_only ≡ true
      → settle b on_host a again r ≡ some c
      → (c.router.calls ≡ r.calls) × (c.router.local_only ≡ true)
  unfolding settle try_fallback
  settle-StaysLocal (response x) again r c here e = (cc, cc)
  settle-StaysLocal timed_out again r c here e = (cc, cc)
  settle-StaysLocal (failed message) again r c here e = elim (Bool-cases (is_auth b message)) [
    | inr other ↦ let k = simp other at e in (cc, cc)
    | inl auth ↦ let k = simp auth at e in (cc, cc)
  ]

  -- A router in its local mode calls the model of this machine, once, and no other, and stays in that
  -- mode.
  pub complete-StaysLocal :
      (fuel : ℕ) (phase : String) (r : Router) (c : Completed)
      → r.local_only ≡ true
      → complete b fuel phase r ≡ some c
      → StaysLocal r c
  unfolding complete get_model_for_phase
  complete-StaysLocal zero phase r c here e = cc
  complete-StaysLocal (suc fuel) phase r c here e =
      let local : get_model_for_phase b r.local_only phase ≡ on_host =
        ap (λ l. get_model_for_phase b l phase) here in
      settle-StaysLocal (answer_of b on_host r) (complete b fuel phase) (call b on_host r) c here (
        sym (ap (λ m. settle b m (answer_of b m r) (complete b fuel phase) (call b m r)) local) ∙ e)

  -- The last call is the one that served a response, within so many calls.
  abbrev pub IsServed : ℕ → Router → Completed → Type 0
  IsServed bound r c =
      (before : List Model) × (m : Model) × (c.router.calls ≡ before ++ m ∷ [])
      × (length c.router.calls ≤ length r.calls + bound)
      × ((x : ℕ)
          → c.result ≡ ok x
          → (b.answer (length before) m ≡ response x)
            × (c.router.last_model ≡ some m)
            × (c.router.last_is_cloud ≡ is_cloud m))

  one_more : (r : Router) (m : Model) → length (r.calls ++ m ∷ []) ≤ length r.calls + 1
  one_more r m = omega (arith, length-append r.calls (m ∷ []))

  two_more :
      (r : Router) (m n : Model) → length ((r.calls ++ m ∷ []) ++ n ∷ []) ≤ length r.calls + 2
  two_more r m n =
      omega (arith, length-append r.calls (m ∷ []), length-append (r.calls ++ m ∷ []) (n ∷ []))

  IsServed-weaken : (r : Router) (c : Completed) → IsServed 1 r c → IsServed 2 r c
  IsServed-weaken r c (before, m, e, most, served) = (before, m, e, omega arith, served)

  fall_back-IsServed :
      (message : String) (m f : Model) (r : Router) (a : Answer)
      → answer_of b f (call b m r) ≡ a
      → IsServed 2 r (fall_back b message f a (call b f (call b m r)))
  unfolding fall_back
  fall_back-IsServed message m f r (response x) e =
      (r.calls ++ m ∷ [], f, refl, two_more r m f, λ y k. (e ∙ ap (λ z. response z) cc, refl, refl))
  fall_back-IsServed message m f r timed_out e =
      (r.calls ++ m ∷ [], f, refl, two_more r m f, λ y k. absurd (ground arith))
  fall_back-IsServed message m f r (failed other) e =
      (r.calls ++ m ∷ [], f, refl, two_more r m f, λ y k. absurd (ground arith))

  try_fallback-IsServed :
      (message : String) (m : Model) (o : Option Model) (r : Router)
      → IsServed 2 r (try_fallback b message o (call b m r))
  unfolding try_fallback
  try_fallback-IsServed message m none r =
      IsServed-weaken r (try_fallback b message none (call b m r))
        (r.calls, m, refl, one_more r m, λ y k. absurd (ground arith))
  try_fallback-IsServed message m (some f) r =
      fall_back-IsServed message m f r (answer_of b f (call b m r)) refl

  settle-IsServed :
      (m : Model) (a : Answer) (again : Router → Option Completed) (r : Router) (c : Completed)
      → answer_of b m r ≡ a
      → (again record (call b m r) { local_only = true } ≡ some c → IsServed 2 r c)
      → settle b m a again (call b m r) ≡ some c
      → IsServed 2 r c
  unfolding settle
  settle-IsServed m (response x) again r c e next k =
      let this : complete_by b m x (call b m r) ≡ c = cc in
      subst (IsServed 2 r) this (
        IsServed-weaken r (complete_by b m x (call b m r))
          (r.calls, m, refl, one_more r m, λ y w. (e ∙ ap (λ z. response z) cc, refl, refl)))
  settle-IsServed m timed_out again r c e next k =
      let stop : Completed = record { result = err timeout_error; router = call b m r } in
      let this : stop ≡ c = cc in
      subst (IsServed 2 r) this
        (IsServed-weaken r stop (r.calls, m, refl, one_more r m, λ y w. absurd (ground arith)))
  settle-IsServed m (failed message) again r c e next k = elim (Bool-cases (is_auth b message)) [
    | inr other ↦
        let same : some (try_fallback b message (fallback_of m) (call b m r)) ≡ some c =
          simp other at k in
        let this : try_fallback b message (fallback_of m) (call b m r) ≡ c = cc in
        subst (IsServed 2 r) this (try_fallback-IsServed message m (fallback_of m) r)
    | inl auth ↦ elim (Bool-cases (is_cloud m)) [
      | inl far ↦ next (simp (auth, far) at k)
      | inr here ↦
          let stop : Completed = record {
            result = err auth_error;
            router = record (call b m r) { local_only = true };
          } in
          let same : some stop ≡ some c = simp (auth, here) at k in
          let this : stop ≡ c = cc in
          subst (IsServed 2 r) this
            (IsServed-weaken r stop (r.calls, m, refl, one_more r m, λ y w. absurd (ground arith)))
    ]
  ]

  -- An inference calls at most two models. A response that is returned is the answer of the last call,
  -- whose model and place the router then reports.
  pub complete-IsServed :
      (fuel : ℕ) (phase : String) (r : Router) (c : Completed)
      → complete b fuel phase r ≡ some c
      → IsServed 2 r c
  unfolding complete
  complete-IsServed zero phase r c e = cc
  complete-IsServed (suc fuel) phase r c e =
      let m = get_model_for_phase b r.local_only phase in
      let r' : Router = record (call b m r) { local_only = true } in
      settle-IsServed m (answer_of b m r) (complete b fuel phase) r c refl
        (λ k.
          let (before, n, calls, most, served) = complete-IsServed fuel phase r' c k in
          let (added, here) = complete-StaysLocal fuel phase r' c refl k in
          let whole : length c.router.calls ≡ length ((r.calls ++ m ∷ []) ++ on_host ∷ []) =
            ap length added in
          let bound = two_more r m on_host in (before, n, calls, omega arith, served))
        e
