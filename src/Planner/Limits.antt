-- ===== src/Planner/Limits.antt =====
-- How many steps a plan has, and what the model's advice does to it.
use yantra_os.Prelude.{
  ℕ, suc, ◌≤◌, ◌<◌, ◌≡◌, refl, ap, subst, ◌∙◌, String, Bool, true, false, ◌&&◌, ◌||◌, ltb, not,
  Option, none, some, List, [], ◌∷◌, ◌==◌, str_eq, if◌then◌else◌, arith,
}
use yantra_os.Prelude.Lists.{length}
use yantra_os.Prelude.Result.{Result, ok, err, raise_if-eq-ok, ◌>>=◌, >>=-eq-ok, ok_injective}
use yantra_os.Json.{Json}
use yantra_os.Bridge.Task.{has_nul, select_task_route}
use yantra_os.Planner.Advice.{
  Host, HostStep, PlanError, empty_query, unsafe_query, personal_folder, absolute_output, host_step,
  validated_steps,
}
use yantra_os.Planner.Template.{
  Words, template_actions, plain_template, task, file_action, is_fast, or_launch,
}
use yantra_os.Planner.Plan.{
  Texts, parse_response, max_plan_steps, remaining, continuations, telegram_template_steps,
  is_telegram_navigation_step, plain_steps, host_steps, or_plain, chosen_steps, plan_response,
  telegram_username, Query, plan_query, plan_answer, max_query_bytes,
}
use yantra_os.Planner.Policy.{
  Hosted, one_step, IsPlan, validated_steps-Hosted, template_steps-Hosted, normalize-Hosted,
  parse_response-bounded,
}

-- from one to five steps
abbrev Fits : ℕ → Type 0
Fits n = (1 ≤ n) × (n ≤ max_plan_steps)

some_injective : {A : Type 0} {x y : A} → some x ≡ some y → x ≡ y
some_injective e = cc

strictly : (m n : ℕ) → m ≤ n → (m == n) ≡ false → m < n
strictly m n le e = ground arith

module _ (h : Host) (t : Texts) where
  length-continuations :
      (username : String) (steps : List Json)
      → length (continuations h t username steps) ≡ length steps
  unfolding continuations
  length-continuations username [] = refl
  length-continuations username (step ∷ steps) = ap suc (length-continuations username steps)

  length-remaining : (steps : List Json) → length (remaining h t steps) ≤ length steps
  unfolding remaining
  length-remaining [] = omega arith
  length-remaining (step ∷ steps) =
      by_case (is_telegram_navigation_step h t step) (length-remaining steps)
    where
      by_case :
          (gone : Bool)
          → length (remaining h t steps) ≤ length steps
          → length (if gone then remaining h t steps else step ∷ remaining h t steps)
            ≤ suc (length steps)
      by_case true le = omega (arith, le)
      by_case false le = omega (arith, le)

  -- The chat's own step takes the place of one that opens it.
  telegram-IsPlan :
      (username : String) (raw : List Json) (r : Result PlanError (List HostStep))
      (steps : List HostStep)
      → Fits (length raw)
      → telegram_template_steps h t username raw ≡ some r
      → r ≡ ok steps
      → IsPlan h steps
  unfolding telegram_template_steps
  telegram-IsPlan username raw r steps fits e k =
      by_case (length (remaining h t raw) == length raw) refl e
    where
      launched : Result PlanError (List HostStep)
      launched = host_step h (task (t.open_chat username)) "low" >>= λ launch.
          validated_steps h (continuations h t username (remaining h t raw)) >>= λ steps.
          ok (launch ∷ steps)

      planned : length (remaining h t raw) < length raw → launched ≡ ok steps → IsPlan h steps
      planned fewer q =
          let (launch, first, q₁) =
            >>=-eq-ok (host_step h (task (t.open_chat username)) "low") _ q in
          let (rest, others, q₂) =
            >>=-eq-ok (validated_steps h (continuations h t username (remaining h t raw))) _ q₁ in
          let same = length-continuations username (remaining h t raw) in
          (
            suc (length (continuations h t username (remaining h t raw))),
            subst (Hosted h _) (ok_injective q₂) (
                one_step (task (t.open_chat username), "low", first)
                  (validated_steps-Hosted h _ rest others)),
            omega arith,
            omega (arith, same, fewer, fits.1),
          )

      by_case :
          (all_left : Bool)
          → (length (remaining h t raw) == length raw) ≡ all_left
          → (if all_left then none else some launched) ≡ some r
          → IsPlan h steps
      by_case true q l = cc
      by_case false q l =
          planned (strictly (length (remaining h t raw)) (length raw) (length-remaining raw) q)
            (some_injective l ∙ k)

  plain-IsPlan :
      (template raw : List Json) (steps : List HostStep)
      → length template ≤ 2
      → Fits (length raw)
      → plain_steps h t template raw ≡ ok steps
      → IsPlan h steps
  unfolding plain_steps
  plain-IsPlan [] raw steps short fits e =
      (length raw, validated_steps-Hosted h raw steps e, fits.0, fits.1)
  plain-IsPlan (a ∷ actions) raw steps short fits e = (
    length (a ∷ actions),
    template_steps-Hosted h (a ∷ actions) raw steps e,
    omega arith,
    omega (arith, short),
  )

  host_steps-IsPlan :
      (template : List Json) (username : Option String) (raw : List Json) (steps : List HostStep)
      → length template ≤ 2
      → Fits (length raw)
      → host_steps h t template username raw ≡ ok steps
      → IsPlan h steps
  unfolding host_steps
  host_steps-IsPlan template none raw steps short fits e =
      plain-IsPlan template raw steps short fits e
  host_steps-IsPlan template (some username) raw steps short fits e =
      by_chat (telegram_template_steps h t username raw) refl e
    where
      by_chat :
          (chat : Option (Result PlanError (List HostStep)))
          → telegram_template_steps h t username raw ≡ chat
          → or_plain h t template raw chat ≡ ok steps
          → IsPlan h steps
      by_chat (some r) q k = telegram-IsPlan username raw r steps fits q k
      by_chat none q k = plain-IsPlan template raw steps short fits k

  chosen_steps-IsPlan :
      (template : List Json) (username : Option String) (response : String) (steps : List HostStep)
      → length template ≤ 2
      → chosen_steps h t template username (parse_response t response) ≡ ok steps
      → IsPlan h steps
  unfolding chosen_steps
  chosen_steps-IsPlan template username response steps short e =
      by_response template short (parse_response t response) refl e
    where
      by_response :
          (template : List Json)
          → length template ≤ 2
          → (r : Result PlanError (List Json)) → parse_response t response ≡ r
          → chosen_steps h t template username r ≡ ok steps
          → IsPlan h steps
      by_response template small (ok raw) q k =
          host_steps-IsPlan template username raw steps small
            (parse_response-bounded h t response raw q) k
      by_response [] small (err x) q k = cc
      by_response (a ∷ actions) small (err x) q k = (
        length (a ∷ actions),
        template_steps-Hosted h (a ∷ actions) [] steps k,
        omega arith,
        omega (arith, small),
      )

module _ (h : Host) (w : Words) where
  plain-short : (query : String) → length (plain_template h w query) ≤ 2
  unfolding plain_template
  plain-short query =
      by_case (file_action h w query)
        (is_fast h w (select_task_route h.desktop (task (h.desktop.strip query))))
    where
      by_case :
          (found : Option Json) (fast : Bool)
          → length (or_launch h w found (task (h.desktop.strip query)) fast) ≤ 2
      by_case (some action) fast = omega arith
      by_case none true = omega arith
      by_case none false = omega arith

  template-short : (query : String) → length (template_actions h w query) ≤ 2
  unfolding template_actions
  template-short query = by_match (w.search_match query)
    where
      by_match :
          (found : Option (String × String))
          → length (elim found as (λ x. List Json) [
            | none ↦ plain_template h w query
            | some (app, search) ↦
                let launch = task (w.open_app app) in
                if is_fast h w (select_task_route h.desktop launch) && not (str_eq search "")
                then launch ∷ task (w.search_instruction app search) ∷ []
                else plain_template h w query
          ])
            ≤ 2
      by_match none = plain-short query
      by_match (some (app, search)) = by_case (
          is_fast h w (select_task_route h.desktop (task (w.open_app app)))
          && not (str_eq search ""))
        where
          by_case :
              (fast : Bool)
              → length (
                  if fast
                  then task (w.open_app app) ∷ task (w.search_instruction app search) ∷ []
                  else plain_template h w query)
                ≤ 2
          by_case true = omega arith
          by_case false = plain-short query

plan_response-IsPlan :
    (h : Host) (t : Texts) (w : Words) (query response : String) (steps : List HostStep)
    → plan_response h t w query response ≡ ok steps
    → IsPlan h steps
unfolding plan_response
plan_response-IsPlan h t w query response steps e =
    let (chosen, c, n) =
      >>=-eq-ok
        (chosen_steps h t (template_actions h w query) (telegram_username h t query)
          (parse_response t response))
        _ e in
    let (count, hosted, low, high) =
      chosen_steps-IsPlan h t (template_actions h w query) (telegram_username h t query) response
        chosen (template-short h w query) c in
    (count, normalize-Hosted h t false count chosen steps hosted n, low, high)

-- A plan that is made of a query, whatever the model answers, has from one to five steps, and each of
-- them is one that the host has made of an action by its own policy; and the query is within its limits.
pub plan_query-IsPlan :
    (h : Host) (t : Texts) (w : Words) (q : Query) (query : String) (steps : List HostStep)
    → plan_query h t w q query ≡ ok steps
    → IsPlan h steps × (q.byte_length query ≤ max_query_bytes)
unfolding plan_query
plan_query-IsPlan h t w q query steps e =
    let (a, e₁) = raise_if-eq-ok (str_eq (h.desktop.strip query) "") empty_query _ e in
    let (b, e₂) =
      raise_if-eq-ok (ltb max_query_bytes (q.byte_length query) || has_nul query) unsafe_query _
        e₁ in
    let (c, e₃) = raise_if-eq-ok (q.names_folder query) personal_folder _ e₂ in
    let (d, e₄) = raise_if-eq-ok (q.names_output query) absolute_output _ e₃ in
    (answered (q.complete query) e₄, ground arith)
  where
    answered :
        (answer : Option (Option String))
        → plan_answer h t w query answer ≡ ok steps
        → IsPlan h steps
    answered none k = cc
    answered (some none) k = cc
    answered (some (some response)) k = plan_response-IsPlan h t w query response steps k
