-- ===== src/Client/Answer.antt =====
-- The answer of the broker as `_write_result` of sandbox_broker.py writes it and
-- `_result_from_response` reads it.
use yantra_os.Prelude.{
  ℕ, ◌≡◌, refl, sym, ap, String, Bool, true, false, not, Option, none, some, str_eq, if◌then◌else◌,
}
use yantra_os.Prelude.Result.{Result, ok, err, ◌>>=◌}
use yantra_os.Json.{Json, null, int, neg, float, str, obj, Fields, field, end, get}

pub data ExecOutcome : Type 0 where
  success failure timeout docker_error validation_error : ExecOutcome

-- an integer: not negative, or less than 0 by one more than the number
pub data Whole : Type 0 where
  natural below : ℕ → Whole

-- A float is opaque, by a number of its own.
pub record SandboxResult : Type 0 where
  pub outcome : ExecOutcome
  pub exit_code : Whole
  pub stdout : String
  pub stderr : String
  pub duration_secs : ℕ
  pub container_id : String
  pub image : String
  pub script_hash : String
  pub error : Option String

abbrev pub sandbox_image : String
sandbox_image = "yantra-sandbox:3.20.3"

-- the values of `ExecOutcome`
abbrev pub value_of : ExecOutcome → String
value_of success = "success"
value_of failure = "failure"
value_of timeout = "timeout"
value_of docker_error = "docker_error"
value_of validation_error = "validation_error"

unfoldable pub outcome_of : String → Option ExecOutcome
outcome_of s =
    if str_eq s "success"
    then some success
    else if str_eq s "failure"
    then some failure
    else if str_eq s "timeout"
    then some timeout
    else if str_eq s "docker_error"
    then some docker_error
    else if str_eq s "validation_error"
    then some validation_error
    else none

abbrev pub whole_json : Whole → Json
whole_json (natural n) = int n
whole_json (below n) = neg n

abbrev pub error_json : Option String → Json
error_json none = null
error_json (some s) = str s

-- `asdict(result)` with the outcome's value
unfoldable pub payload_of : SandboxResult → Fields
payload_of r = field "outcome" (str (value_of r.outcome)) (
    field "exit_code" (whole_json r.exit_code) (
      field "stdout" (str r.stdout) (
        field "stderr" (str r.stderr) (
          field "duration_secs" (float r.duration_secs) (
            field "container_id" (str r.container_id) (
              field "image" (str r.image) (
                field "script_hash" (str r.script_hash)
                  (field "error" (error_json r.error) end))))))))

pub data ResponseError : Type 0 where
  not_object bad_outcome bad_exit_code bad_duration bad_string bad_error wrong_image : ResponseError

abbrev pub or_error : {A : Type 0} → ResponseError → Option A → Result ResponseError A
or_error e none = err e
or_error e (some x) = ok x

abbrev pub read_outcome : Option Json → Option ExecOutcome
read_outcome (some (str s)) = outcome_of s
read_outcome _ = none

-- `payload.get("exit_code", -1)`
abbrev pub read_exit_code : Option Json → Option Whole
read_exit_code none = some (below 0)
read_exit_code (some (int n)) = some (natural n)
read_exit_code (some (neg n)) = some (below n)
read_exit_code (some v) = none

-- `payload.get(name, "")`
abbrev pub read_text : Option Json → Option String
read_text none = some ""
read_text (some (str s)) = some s
read_text (some v) = none

abbrev pub read_error : Option Json → Option (Option String)
read_error none = some none
read_error (some null) = some none
read_error (some (str s)) = some (some s)
read_error (some v) = none

-- `payload.get("image", SANDBOX_IMAGE) != SANDBOX_IMAGE`
abbrev pub is_image : Option Json → Bool
is_image none = true
is_image (some (str s)) = str_eq s sandbox_image
is_image (some v) = false

module _ (to_float : Whole → ℕ) where
  -- `float(payload.get("duration_secs", 0.0))`
  abbrev pub read_duration : Option Json → Option ℕ
  read_duration none = some (to_float (natural 0))
  read_duration (some (int n)) = some (to_float (natural n))
  read_duration (some (neg n)) = some (to_float (below n))
  read_duration (some (float x)) = some x
  read_duration (some v) = none

  unfoldable pub read_fields : Fields → Result ResponseError SandboxResult
  unfolding get outcome_of
  read_fields fs = do
    outcome ← or_error bad_outcome (read_outcome (get "outcome" fs))
    code ← or_error bad_exit_code (read_exit_code (get "exit_code" fs))
    duration ← or_error bad_duration (read_duration (get "duration_secs" fs))
    out ← or_error bad_string (read_text (get "stdout" fs))
    errors ← or_error bad_string (read_text (get "stderr" fs))
    container ← or_error bad_string (read_text (get "container_id" fs))
    hash ← or_error bad_string (read_text (get "script_hash" fs))
    message ← or_error bad_error (read_error (get "error" fs))
    if not (is_image (get "image" fs))
        then err wrong_image
        else ok (record {
          outcome = outcome;
          exit_code = code;
          stdout = out;
          stderr = errors;
          duration_secs = duration;
          container_id = container;
          image = sandbox_image;
          script_hash = hash;
          error = message;
        })

  unfoldable pub result_from_response : Json → Result ResponseError SandboxResult
  unfolding read_fields
  result_from_response (obj fs) = read_fields fs
  result_from_response _ = err not_object

  outcome-value : (o : ExecOutcome) → outcome_of (value_of o) ≡ some o
  unfolding outcome_of
  outcome-value success = refl
  outcome-value failure = refl
  outcome-value timeout = refl
  outcome-value docker_error = refl
  outcome-value validation_error = refl

  exit_code-value : (c : Whole) → read_exit_code (some (whole_json c)) ≡ some c
  exit_code-value (natural n) = refl
  exit_code-value (below n) = refl

  error-value : (e : Option String) → read_error (some (error_json e)) ≡ some e
  error-value none = refl
  error-value (some s) = refl

  -- What the broker writes of a result with the image that it runs, the client reads as that result.
  pub result_from_response-payload_of :
      (r : SandboxResult)
      → r.image ≡ sandbox_image
      → result_from_response (obj (payload_of r)) ≡ ok r
  unfolding result_from_response payload_of
  result_from_response-payload_of r h =
      simp (outcome-value r.outcome, exit_code-value r.exit_code, error-value r.error, h)
        (ap (λ i. ok (record r { image = i })) (sym h))
