-- ===== src/Planner/Tests.antt =====
-- Plans of a planner with simple libraries, and the theorems at them.
use yantra_os.Prelude.{◌≡◌, ◌≤◌, refl, String, true, false, none, some, List, [], ◌∷◌}
use yantra_os.Prelude.Result.{ok, err}
use yantra_os.Json.{Json, str, arr, nil, cons, obj, Fields, field, end, get}
use yantra_os.Router.Endpoint.{Strings, luna}
use yantra_os.Bridge.Task.{Desktop}
use yantra_os.Planner.Browser.{Library}
use yantra_os.Planner.Advice.{Host, HostStep, computer_use, validated_steps, bad_count}
use yantra_os.Planner.Template.{Words}
use yantra_os.Planner.Plan.{Texts, Query, plan_query, max_query_bytes}
use yantra_os.Planner.Policy.{IsPlan}
use yantra_os.Planner.Limits.{plan_query-IsPlan}
use yantra_os.Planner.Advisory.{Agree, both_end, both_step, validated_steps-advisory}

abbrev desktop : Desktop
desktop = record {
  strip = λ s. s;
  casefold = λ s. s;
  is_printable = λ s. true;
  byte_length = λ s. 20;
  chat_username = λ s. none;
  launched_app = λ s. none;
  telegram_desktop_id = none;
  telegram_link = λ s. s;
}

abbrev library : Library
library = record {
  is_space = λ c. false;
  urlsplit = λ s. none;
  strip = λ s. s;
  split = λ s. [];
  byte_length = λ s. 20;
}

abbrev strings : Strings
strings = record {
  is_clean = λ s. true;
  upper = λ s. s;
  lower = λ s. s;
  casefold = λ s. s;
  ends_with = λ s t. false;
  contains = λ s t. false;
  urlsplit = λ s. none;
}

abbrev host : Host
host = record { desktop = desktop; browser = library; strings = strings }

abbrev action : Json
action =
    obj
      (field "action" (str "computer_use_task") (field "instruction" (str "Reply to the mail") end))

abbrev raw_step : String → String → Fields
raw_step route tier =
    field "action" action (
      field "complexity" (str "low")
        (field "route" (str route) (field "model_tier" (str tier) end)))

abbrev mail_step : HostStep
mail_step = record {
  action = action;
  complexity = "low";
  route = computer_use;
  model_tier = some luna;
}

abbrev texts : Texts
texts = record {
  loads = λ s. some (obj (field "steps" (arr (cons (obj (raw_step "REJECTED" "sol")) nil)) end));
  to_str = λ v. "";
  username = λ s. none;
  open_chat = λ s. s;
  in_chat = λ s t. t;
  in_browser = λ s. s;
}

abbrev words : Words
words = record {
  shlex_split = λ s. none;
  rstrip_dot = λ s. s;
  join = λ ss. "";
  search_match = λ s. none;
  open_app = λ s. s;
  search_instruction = λ s t. t;
}

abbrev mail_query : Query
mail_query = record {
  byte_length = λ s. 20;
  names_folder = λ s. false;
  names_output = λ s. false;
  complete = λ s. some (some "{}");
}

mail_run : plan_query host texts words mail_query "Reply to the mail" ≡ ok (mail_step ∷ [])
unfolding plan_query
mail_run = refl

-- a response without steps
empty_run :
    plan_query host
      (record texts { loads = λ s. some (obj (field "steps" (arr nil) end)) })
      words
      mail_query
      "Reply to the mail"
    ≡ err bad_count
unfolding plan_query
empty_run = refl

plan_query-IsPlan_example :
    IsPlan host (mail_step ∷ []) × (mail_query.byte_length "Reply to the mail" ≤ max_query_bytes)
plan_query-IsPlan_example =
    plan_query-IsPlan host texts words mail_query "Reply to the mail" (mail_step ∷ []) mail_run

visual_run : validated_steps host (obj (raw_step "COMPUTER_USE" "luna") ∷ []) ≡ ok (mail_step ∷ [])
unfolding validated_steps
visual_run = refl

rejected_run : validated_steps host (obj (raw_step "REJECTED" "sol") ∷ []) ≡ ok (mail_step ∷ [])
unfolding validated_steps
rejected_run = refl

two-Agree : Agree (obj (raw_step "COMPUTER_USE" "luna") ∷ []) (obj (raw_step "REJECTED" "sol") ∷ [])
unfolding get
two-Agree =
    both_step {fs = raw_step "COMPUTER_USE" "luna"} {gs = raw_step "REJECTED" "sol"} refl refl
      both_end

validated_steps-advisory_example : ◌≡◌ {A = List HostStep} (mail_step ∷ []) (mail_step ∷ [])
validated_steps-advisory_example =
    validated_steps-advisory host (obj (raw_step "COMPUTER_USE" "luna") ∷ [])
      (obj (raw_step "REJECTED" "sol") ∷ []) (mail_step ∷ []) (mail_step ∷ []) two-Agree visual_run
      rejected_run
