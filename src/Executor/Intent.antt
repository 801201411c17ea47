-- ===== src/Executor/Intent.antt =====
-- The intents and their targets: `_validate_target`, `_validate_intent_target`, `_build_command`, and
-- the checks of `_process_intent`.
use yantra_os.Prelude.{
  not-false, ℕ, ◌≡◌, refl, sym, ap, ◌∙◌, Bool, true, false, ◌&&◌, ◌||◌, not, Option, none, some,
  List, [], ◌∷◌, String, str_eq, str_eq→eq, leb, ltb, ◌==◌, if◌then◌else◌,
}
use yantra_os.Prelude.Lists.{length, all, any, codes}
use yantra_os.Prelude.Result.{
  Result, ok, err, if_err-eq-ok, if_ok-eq-ok, ok_injective, >>=-eq-ok, ◌>>=◌,
}
use yantra_os.Json.{Json, str, obj, Fields, get, keys, subset_text, contains_text}

abbrev pub systemd_intents : List String
systemd_intents = "RESTART_DAEMON" ∷ []

abbrev pub target_forbidden_intents : List String
target_forbidden_intents = []

abbrev pub allowed_systemd_units : List String
allowed_systemd_units = "yantra.service" ∷ []

abbrev pub valid_intents : List String
valid_intents = "RESTART_DAEMON" ∷ []

-- why an intent is refused, before anything is done
pub data Refusal : Type 0 where
  not_object no_intent shell_characters external_action unknown_intent unexpected_fields : Refusal
  bad_target not_allowed : Refusal

-- `[a-zA-Z0-9_.-]`
abbrev pub is_safe_char : ℕ → Bool
is_safe_char c =
    (leb b'a' c && leb c b'z')
    || (leb b'A' c && leb c b'Z')
    || (leb b'0' c && leb c b'9')
    || c == b'_'
    || c == b'.'
    || c == b'-'

unfoldable pub validate_target : String → Result Refusal String
unfolding all
validate_target target =
    if str_eq target ""
    then err bad_target
    else if ltb 128 (length (codes target)) || not (all is_safe_char (codes target))
    then err bad_target
    else ok target

abbrev pub unit_of : String → Result Refusal String
unit_of target =
    if not (contains_text target allowed_systemd_units) then err not_allowed else ok target

-- `_validate_intent_target` of a value
unfoldable pub validate_intent_target : String → Json → Result Refusal String
unfolding validate_target contains_text
validate_intent_target intent (str target) =
    if contains_text intent target_forbidden_intents
    then if str_eq target "" then ok "" else err bad_target
    else if contains_text intent systemd_intents
    then validate_target target >>= unit_of
    else err unknown_intent
validate_intent_target intent _ = err bad_target

unfoldable pub build_command : String → String → Result Refusal (List String)
unfolding validate_intent_target
build_command intent target = validate_intent_target intent (str target) >>= λ unit.
    ok ("/usr/bin/systemctl" ∷ "restart" ∷ unit ∷ [])

abbrev pub shell_characters_list : List ℕ
shell_characters_list = codes "&|;$`>< "

abbrev pub is_shell : ℕ → Bool
is_shell c = any (λ s. c == s) shell_characters_list

-- `payload.get("target", "")`
abbrev pub target_or_empty : Option Json → Json
target_or_empty none = str ""
target_or_empty (some v) = v

-- An intent that is a string, with the fields of its payload.
unfoldable pub check_intent : String → Fields → Result Refusal String
unfolding any validate_intent_target subset_text keys get
check_intent intent fs =
    if str_eq intent ""
    then err no_intent
    else if any is_shell (codes intent)
    then err shell_characters
    else if str_eq intent "EXTERNAL_ACTION"
    then err external_action
    else if not (contains_text intent valid_intents)
    then err unknown_intent
    else if not (subset_text (keys fs) ("intent" ∷ "target" ∷ []))
    then err unexpected_fields
    else validate_intent_target intent (target_or_empty (get "target" fs))

abbrev pub with_target : String → Result Refusal String → Result Refusal (String × String)
with_target intent (err e) = err e
with_target intent (ok target) = ok (intent, target)

abbrev pub check_named : Option Json → Fields → Result Refusal (String × String)
check_named (some (str intent)) fs = with_target intent (check_intent intent fs)
check_named _ fs = err no_intent

-- the first part of `_process_intent`: the intent and its target
unfoldable pub parse_intent : Json → Result Refusal (String × String)
unfolding check_intent
parse_intent (obj fs) = check_named (get "intent" fs) fs
parse_intent _ = err not_object

or_false : (b : Bool) → b || false ≡ true → b ≡ true
or_false true h = refl
or_false false h = h

contains_only : (k only : String) → contains_text k (only ∷ []) ≡ true → k ≡ only
unfolding contains_text
contains_only k only h = sym (str_eq→eq only k (or_false (str_eq only k) h))

-- the one unit that a target may name
validate_intent_target-unit :
    (intent : String) (v : Json) (unit : String)
    → validate_intent_target intent v ≡ ok unit
    → unit ≡ "yantra.service"
unfolding validate_intent_target
validate_intent_target-unit intent (str target) unit h =
    let (forbidden, h₁) = if_ok-eq-ok (contains_text intent systemd_intents) unknown_intent _ h in
    let (t, safe, allowed) = >>=-eq-ok (validate_target target) unit_of h₁ in
    let (permitted, it) =
      if_err-eq-ok (not (contains_text t allowed_systemd_units)) not_allowed (ok t) allowed in
    sym (ok_injective it)
    ∙ contains_only t "yantra.service" (not-false (contains_text t allowed_systemd_units) permitted)
validate_intent_target-unit intent _ unit h = cc

-- what the checks of a named intent leave
check_intent-only :
    (intent : String) (fs : Fields) (unit : String)
    → check_intent intent fs ≡ ok unit
    → (intent ≡ "RESTART_DAEMON") × (unit ≡ "yantra.service")
unfolding check_intent
check_intent-only intent fs unit h =
    let (a, h₁) = if_err-eq-ok (str_eq intent "") no_intent _ h in
    let (b, h₂) = if_err-eq-ok (any is_shell (codes intent)) shell_characters _ h₁ in
    let (c, h₃) = if_err-eq-ok (str_eq intent "EXTERNAL_ACTION") external_action _ h₂ in
    let (d, h₄) = if_err-eq-ok (not (contains_text intent valid_intents)) unknown_intent _ h₃ in
    let (e, h₅) =
      if_err-eq-ok (not (subset_text (keys fs) ("intent" ∷ "target" ∷ []))) unexpected_fields _
        h₄ in
    (
      contains_only intent "RESTART_DAEMON" (not-false (contains_text intent valid_intents) d),
      validate_intent_target-unit intent (target_or_empty (get "target" fs)) unit h₅,
    )

check_named-only :
    (v : Option Json) (fs : Fields) (intent target : String)
    → check_named v fs ≡ ok (intent, target)
    → (intent ≡ "RESTART_DAEMON") × (target ≡ "yantra.service")
check_named-only (some (str i)) fs intent target h = accepted (check_intent i fs) refl h
  where
    accepted :
        (r : Result Refusal String)
        → check_intent i fs ≡ r
        → with_target i r ≡ ok (intent, target)
        → (intent ≡ "RESTART_DAEMON") × (target ≡ "yantra.service")
    accepted (err e) q k = cc
    accepted (ok unit) q k =
        let (named, restarts) = check_intent-only i fs unit q in
        let pair = ok_injective k in
        (sym (ap (λ p. p.0) pair) ∙ named, sym (ap (λ p. p.1) pair) ∙ restarts)
check_named-only _ fs intent target h = cc

-- a payload that is accepted restarts the daemon's unit, whatever it says
pub parse_intent-only :
    (payload : Json) (intent target : String)
    → parse_intent payload ≡ ok (intent, target)
    → (intent ≡ "RESTART_DAEMON") × (target ≡ "yantra.service")
unfolding parse_intent
parse_intent-only (obj fs) intent target h = check_named-only (get "intent" fs) fs intent target h
parse_intent-only _ intent target h = cc
