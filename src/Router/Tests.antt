-- ===== src/Router/Tests.antt =====
-- Inferences with a backend of the tests, and the theorems at them.
use yantra_os.Prelude.{◌≡◌, refl, true, false, none, some, [], ◌∷◌, str_eq}
use yantra_os.Prelude.Result.{ok}
use yantra_os.Router.Endpoint.{
  Url, Strings, sol, validate_azure_endpoint, IsTrusted, validate_azure_endpoint-IsTrusted,
}
use yantra_os.Router.Completion.{
  Model, cloud, on_host, Answer, response, failed, Router, Completed, Backend, complete,
}
use yantra_os.Router.Routing.{StaysLocal, complete_total, complete-StaysLocal}

abbrev azure_url : Url
azure_url = record {
  scheme = "https";
  host = "unit.openai.azure.com";
  has_username = false;
  has_password = false;
  has_query = false;
  has_fragment = false;
}

abbrev strings : Strings
strings = record {
  is_clean = λ s. true;
  upper = λ s. s;
  lower = λ s. s;
  casefold = λ s. s;
  ends_with = λ suffix s. true;
  contains = str_eq;
  urlsplit = λ s. some azure_url;
}

-- the cloud refuses the key, the model of this machine answers
abbrev refused : Model → Answer
refused on_host = response 7
refused (cloud x) = failed "401"

abbrev backend : Backend
backend = record { strings = strings; answer = λ n. refused }

abbrev fresh : Router
fresh = record { local_only = false; last_is_cloud = false; last_model = none; calls = [] }

abbrev local : Router
local = record fresh { local_only = true }

abbrev degraded : Completed
degraded = record {
  result = ok 7;
  router = record {
    local_only = true;
    last_is_cloud = false;
    last_model = some on_host;
    calls = cloud sol ∷ on_host ∷ [];
  };
}

runs : Unit {0}
unfolding complete validate_azure_endpoint
runs = tt

degrades : complete backend 2 "SOL" fresh ≡ some degraded
unfolding runs
degrades = refl

stays :
    complete backend 1 "SOL" local
    ≡ some record {
      result = ok 7;
      router = record local { last_model = some on_host; calls = on_host ∷ [] };
    }
unfolding runs
stays = refl

complete_total_example : (c : Completed) × (complete backend 2 "SOL" fresh ≡ some c)
complete_total_example = complete_total backend 0 "SOL" fresh

complete-StaysLocal_example : StaysLocal backend local record {
  result = ok 7;
  router = record local { last_model = some on_host; calls = on_host ∷ [] };
}
complete-StaysLocal_example =
    complete-StaysLocal backend 1 "SOL" local
      record {
        result = ok 7;
        router = record local { last_model = some on_host; calls = on_host ∷ [] };
      }
      refl stays

azure_accepted : validate_azure_endpoint strings "https://unit.openai.azure.com" ≡ ok tt
unfolding runs
azure_accepted = refl

validate_azure_endpoint-IsTrusted_example :
    (u : Url) × (some azure_url ≡ some u) × IsTrusted strings u
validate_azure_endpoint-IsTrusted_example =
    validate_azure_endpoint-IsTrusted strings "https://unit.openai.azure.com" azure_accepted
