-- ===== src/Router/Completion.antt =====
-- `TieredRouter._get_model_for_phase` and `TieredRouter.complete`.
use yantra_os.Prelude.{
  ℕ, zero, suc, Bool, true, false, Option, none, some, List, [], ◌∷◌, ◌++◌, String, if◌then◌else◌,
}
use yantra_os.Prelude.Lists.{any, length}
use yantra_os.Prelude.Result.{Result, ok, err}
use yantra_os.Json.{contains_text}
use yantra_os.Router.Endpoint.{Strings, Tier, luna, terra, sol}

pub data Model : Type 0 where
  cloud : Tier → Model
  on_host : Model

abbrev pub is_cloud : Model → Bool
is_cloud (cloud x) = true
is_cloud on_host = false

-- `_CLOUD_FALLBACKS`
abbrev pub fallback_of : Model → Option Model
fallback_of (cloud sol) = some (cloud terra)
fallback_of (cloud terra) = some (cloud luna)
fallback_of _ = none

-- What a call of a model ends with: a response, the timeout, or an exception with its message.
pub data Answer : Type 0 where
  response : ℕ → Answer
  timed_out : Answer
  failed : String → Answer

pub data Failure : Type 0 where
  timeout_error auth_error : Failure
  inference_error : String → Failure

-- The fields of a `TieredRouter`, and the models that it has called, in order. The start of
-- `last_routing_tier` is "LOCAL".
pub record Router : Type 0 where
  pub local_only : Bool
  pub last_is_cloud : Bool
  pub last_model : Option Model
  pub calls : List Model

pub record Completed : Type 0 where
  pub result : Result Failure ℕ
  pub router : Router

abbrev pub auth_words : List String
auth_words = "auth" ∷ "api key" ∷ "401" ∷ "403" ∷ []

-- The library calls: the methods of `str`, and what the n-th call of a model answers.
pub record Backend : Type 0 where
  pub strings : Strings
  pub answer : ℕ → Model → Answer

module _ (b : Backend) where
  unfoldable pub model_for_tier : String → Model
  unfolding contains_text
  model_for_tier phase =
      if contains_text phase ("SENSE" ∷ "TEST" ∷ "WATCHDOG" ∷ [])
      then cloud luna
      else if contains_text phase ("NOVEL" ∷ "AMBIGUOUS" ∷ "BUILDER" ∷ "SOL" ∷ [])
      then cloud sol
      else if contains_text phase ("REASON" ∷ "ACT" ∷ "TERRA" ∷ [])
      then cloud terra
      else cloud luna

  unfoldable pub get_model_for_phase : Bool → String → Model
  unfolding model_for_tier
  get_model_for_phase true phase = on_host
  get_model_for_phase false phase = model_for_tier (b.strings.upper phase)

  unfoldable pub is_auth : String → Bool
  unfolding any
  is_auth message = any (λ word. b.strings.contains word (b.strings.lower message)) auth_words

  -- the call of a model is made
  abbrev pub call : Model → Router → Router
  call m r = record r { calls = r.calls ++ m ∷ [] }

  abbrev pub answer_of : Model → Router → Answer
  answer_of m r = b.answer (length r.calls) m

  abbrev pub complete_by : Model → ℕ → Router → Completed
  complete_by m x r = record {
    result = ok x;
    router = record r { last_is_cloud = is_cloud m; last_model = some m };
  }

  -- the answer of the fallback model; its exceptions are logged, and the first one is raised
  unfoldable pub fall_back : String → Model → Answer → Router → Completed
  fall_back message m (response x) r = complete_by m x r
  fall_back message m _ r = record { result = err (inference_error message); router = r }

  unfoldable pub try_fallback : String → Option Model → Router → Completed
  unfolding fall_back
  try_fallback message none r = record { result = err (inference_error message); router = r }
  try_fallback message (some m) r = fall_back message m (answer_of m r) (call m r)

  -- The answer of the first model. After a failure that looks like one of authentication the router
  -- stays on this machine, and `again` is the second try of a model of the cloud.
  unfoldable pub settle : Model → Answer → (Router → Option Completed) → Router → Option Completed
  unfolding try_fallback is_auth
  settle m (response x) again r = some (complete_by m x r)
  settle m timed_out again r = some record { result = err timeout_error; router = r }
  settle m (failed message) again r =
      if is_auth message
      then if is_cloud m
        then again record r { local_only = true }
        else some record { result = err auth_error; router = record r { local_only = true } }
      else some (try_fallback message (fallback_of m) r)

  -- `complete`; none is out of fuel, see `complete_total`
  unfoldable pub complete : ℕ → String → Router → Option Completed
  unfolding settle get_model_for_phase
  complete zero phase r = none
  complete (suc fuel) phase r =
      let m = get_model_for_phase r.local_only phase in
      settle m (answer_of m r) (complete fuel phase) (call m r)
