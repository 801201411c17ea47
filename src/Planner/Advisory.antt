-- ===== src/Planner/Advisory.antt =====
-- That a model's advice on routes and tiers does not reach the plan.
use yantra_os.Prelude.{◌≡◌, sym, ap, ◌∙◌, String, List, [], ◌∷◌}
use mathlib.Core.Path.{ap₂}
use yantra_os.Prelude.Result.{ok, >>=-eq-ok, if_err-eq-ok, ok_injective}
use yantra_os.Json.{Json, obj, Fields, get}
use yantra_os.Planner.Advice.{
  Host, HostStep, bad_schema, host_step, complexity, check_advice, validated_step, validated_steps,
  or_null,
}

-- Proposals that agree on their actions and their complexities.
pub data Agree : List Json → List Json → Type 0 where
  both_end : Agree [] []
  both_step :
      {fs gs : Fields} {xs ys : List Json}
      → get "action" fs ≡ get "action" gs
      → get "complexity" fs ≡ get "complexity" gs
      → Agree xs ys
      → Agree (obj fs ∷ xs) (obj gs ∷ ys)

-- what an accepted step is made of
validated_step-parts :
    (h : Host) (fs : Fields) (s : HostStep)
    → validated_step h (obj fs) ≡ ok s
    → (c : String) × (complexity h (get "complexity" fs) ≡ ok c)
      × (host_step h (or_null (get "action" fs)) c ≡ ok s)
unfolding validated_step
validated_step-parts h fs s e =
    let (a, e₁) = if_err-eq-ok _ bad_schema _ e in
    let (c, k, e₂) = >>=-eq-ok (complexity h (get "complexity" fs)) _ e₁ in
    let (u, advice, e₃) = >>=-eq-ok (check_advice h (get "route" fs) (get "model_tier" fs)) _ e₂ in
    (c, k, e₃)

-- The route and the tier that a model advises change nothing: two accepted proposals that agree on
-- their actions and complexities give one plan.
pub validated_steps-advisory :
    (h : Host) (xs ys : List Json) (a b : List HostStep)
    → Agree xs ys
    → validated_steps h xs ≡ ok a
    → validated_steps h ys ≡ ok b
    → a ≡ b
unfolding validated_steps
validated_steps-advisory h _ _ a b both_end e f = sym (ok_injective e) ∙ ok_injective f
validated_steps-advisory h _ _ a b
      (both_step {fs = fs} {gs = gs} {xs = xs} {ys = ys} action level more) e f =
    let (s, first, e₁) = >>=-eq-ok (validated_step h (obj fs)) _ e in
    let (rest, others, e₂) = >>=-eq-ok (validated_steps h xs) _ e₁ in
    let (s', first', f₁) = >>=-eq-ok (validated_step h (obj gs)) _ f in
    let (rest', others', f₂) = >>=-eq-ok (validated_steps h ys) _ f₁ in
    let (c, k, made) = validated_step-parts h fs s first in
    let (c', k', made') = validated_step-parts h gs s' first' in
    let c-same : c ≡ c' = ok_injective (sym k ∙ ap (complexity h) level ∙ k') in
    let s-same : s ≡ s' =
      ok_injective (sym made ∙ ap₂ (λ x y. host_step h (or_null x) y) action c-same ∙ made') in
    let rest-same : rest ≡ rest' =
      validated_steps-advisory h xs ys rest rest' more others others' in
    sym (ok_injective e₂) ∙ ap₂ (λ x r. x ∷ r) s-same rest-same ∙ ok_injective f₂
