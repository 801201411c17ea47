-- ===== src/Planner/Policy.antt =====
-- That the host decides each step of a plan, whatever the model advises.
use yantra_os.Prelude.{
  ℕ, suc, ◌≤◌, ◌≡◌, subst, String, Bool, true, false, ◌&&◌, ◌||◌, not, Option, none, some, List, [],
  ◌∷◌, ltb, ◌==◌, if◌then◌else◌, arith,
}
use yantra_os.Prelude.Lists.{length}
use yantra_os.Prelude.Result.{Result, ok, err, >>=-eq-ok, if_err-eq-ok, ok_injective}
use yantra_os.Json.{Json, obj, str, arr, Fields, get, keys_are}
use yantra_os.Planner.Advice.{
  Host, HostStep, PlanError, bad_schema, bad_count, invalid_json, not_steps, host_step, complexity,
  check_advice, validated_step, validated_steps, template_steps, head_complexity, tail, or_null,
}
use yantra_os.Planner.Plan.{
  Texts, parse_response, steps_of, items_of, max_plan_steps, in_open_browser, normalized, normalize,
  is_fast_task, is_visual_task, task_of, set_field, instruction_of,
}

-- A step that the host has made of an action.
abbrev pub IsHosted : Host → HostStep → Type 0
IsHosted h s = (action : Json) × (c : String) × (host_step h action c ≡ ok s)

-- A plan of the host's own steps, as many as given.
pub data Hosted (h : Host) : ℕ → List HostStep → Type 0 where
  no_steps : Hosted h 0 []
  one_step :
      {n : ℕ} {s : HostStep} {steps : List HostStep}
      → IsHosted h s
      → Hosted h n steps
      → Hosted h (suc n) (s ∷ steps)

validated_step-IsHosted :
    (h : Host) (step : Json) (s : HostStep) → validated_step h step ≡ ok s → IsHosted h s
unfolding validated_step
validated_step-IsHosted h (obj fs) s e =
    let (a, e₁) = if_err-eq-ok _ bad_schema _ e in
    let (c, k, e₂) = >>=-eq-ok (complexity h (get "complexity" fs)) _ e₁ in
    let (u, advice, e₃) = >>=-eq-ok (check_advice h (get "route" fs) (get "model_tier" fs)) _ e₂ in
    (or_null (get "action" fs), c, e₃)
validated_step-IsHosted h _ s e = cc

pub validated_steps-Hosted :
    (h : Host) (raw : List Json) (steps : List HostStep)
    → validated_steps h raw ≡ ok steps
    → Hosted h (length raw) steps
unfolding validated_steps
validated_steps-Hosted h [] steps e = subst (Hosted h 0) (ok_injective e) no_steps
validated_steps-Hosted h (step ∷ raw) steps e =
    let (s, first, e₁) = >>=-eq-ok (validated_step h step) _ e in
    let (rest, others, e₂) = >>=-eq-ok (validated_steps h raw) _ e₁ in
    subst (Hosted h (suc (length raw))) (ok_injective e₂)
      (one_step (validated_step-IsHosted h step s first) (validated_steps-Hosted h raw rest others))

pub template_steps-Hosted :
    (h : Host) (actions raw : List Json) (steps : List HostStep)
    → template_steps h actions raw ≡ ok steps
    → Hosted h (length actions) steps
unfolding template_steps
template_steps-Hosted h [] raw steps e = subst (Hosted h 0) (ok_injective e) no_steps
template_steps-Hosted h (action ∷ actions) raw steps e =
    let (s, first, e₁) = >>=-eq-ok (host_step h action (head_complexity h raw)) _ e in
    let (rest, others, e₂) = >>=-eq-ok (template_steps h actions (tail raw)) _ e₁ in
    subst (Hosted h (suc (length actions))) (ok_injective e₂) (
      one_step (action, head_complexity h raw, first)
        (template_steps-Hosted h actions (tail raw) rest others))

-- a plan of the host's steps, from one to five of them
abbrev pub IsPlan : Host → List HostStep → Type 0
IsPlan h steps = (n : ℕ) × Hosted h n steps × (1 ≤ n) × (n ≤ max_plan_steps)

module _ (h : Host) (t : Texts) where
  normalized-IsHosted :
      (is_open : Bool) (s first : HostStep)
      → IsHosted h s
      → normalized h t is_open s ≡ ok first
      → IsHosted h first
  unfolding normalized
  normalized-IsHosted is_open s first hosted e =
      by_case (is_fast_task h t s (task_of h t s.action))
        (is_open && is_visual_task h t s (task_of h t s.action)) (task_of h t s.action) e
    where
      visual_action : Fields → Json
      visual_action fs =
          obj (set_field h t "instruction" (str (t.in_browser (instruction_of h t fs))) fs)

      kept : ◌≡◌ {A = Result PlanError HostStep} (ok s) (ok first) → IsHosted h first
      kept k = subst (IsHosted h) (ok_injective k) hosted

      by_case :
          (fast visual : Bool) (action : Option Fields)
          → (if fast then ok s else if visual then in_open_browser h t s action else ok s)
            ≡ ok first
          → IsHosted h first
      by_case true visual action k = kept k
      by_case false false action k = kept k
      by_case false true none k = kept k
      by_case false true (some fs) k = (visual_action fs, s.complexity, k)

  pub normalize-Hosted :
      (is_open : Bool) (n : ℕ) (steps out : List HostStep)
      → Hosted h n steps
      → normalize h t is_open steps ≡ ok out
      → Hosted h n out
  unfolding normalize
  normalize-Hosted is_open _ _ out no_steps e = subst (Hosted h 0) (ok_injective e) no_steps
  normalize-Hosted is_open _ _ out (one_step {n = n} {s = s} {steps = steps} hosted more) e =
      let (first, f, e₁) = >>=-eq-ok (normalized h t is_open s) _ e in
      let (rest, r, e₂) =
        >>=-eq-ok (normalize h t (is_open || is_fast_task h t s (task_of h t s.action)) steps) _
          e₁ in
      subst (Hosted h (suc n)) (ok_injective e₂) (
        one_step (normalized-IsHosted is_open s first hosted f) (
          normalize-Hosted (is_open || is_fast_task h t s (task_of h t s.action)) n steps rest more
            r))

  steps_of-bounded :
      (v : Option Json) (raw : List Json)
      → steps_of v ≡ ok raw
      → (1 ≤ length raw) × (length raw ≤ max_plan_steps)
  steps_of-bounded (some (arr xs)) raw e =
      let (a, e₁) =
        if_err-eq-ok (length (items_of xs) == 0 || ltb max_plan_steps (length (items_of xs)))
          bad_count _ e in
      subst (λ r. (1 ≤ length r) × (length r ≤ max_plan_steps)) (ok_injective e₁)
        (ground arith, ground arith)
  steps_of-bounded none raw e = cc
  steps_of-bounded (some _) raw e = cc

  pub parse_response-bounded :
      (value : String) (raw : List Json)
      → parse_response t value ≡ ok raw
      → (1 ≤ length raw) × (length raw ≤ max_plan_steps)
  unfolding parse_response
  parse_response-bounded value raw e = read (t.loads value) e
    where
      read :
          (v : Option Json)
          → (elim v [
            | none ↦ err invalid_json
            | some (obj fs) ↦
                if not (keys_are ("steps" ∷ []) fs)
                then err not_steps
                else steps_of (get "steps" fs)
            | some other ↦ err not_steps
          ])
            ≡ ok raw
          → (1 ≤ length raw) × (length raw ≤ max_plan_steps)
      read (some (obj fs)) k =
          let (a, k₁) = if_err-eq-ok (not (keys_are ("steps" ∷ []) fs)) not_steps _ k in
          steps_of-bounded (get "steps" fs) raw k₁
      read none k = cc
      read (some _) k = cc
