-- ===== src/Sandbox/Script.antt =====
-- `validate_script`, the results of a run, and the limits of sandbox.py.
use yantra_os.Prelude.{ℕ, String, Bool, not, Option, List, ltb, ◌==◌, if◌then◌else◌}
use yantra_os.Prelude.Lists.{any}
use yantra_os.Prelude.Result.{Result, ok, err}

abbrev pub max_script_bytes : ℕ
max_script_bytes = 65536

abbrev pub max_output_bytes : ℕ
max_output_bytes = 1048576

pub data ScriptError : Type 0 where
  not_text empty nul too_long : ScriptError

-- A value that may be a script; what is no string is `other`.
pub data Value : Type 0 where
  text : List ℕ → Value
  other : Value

-- What the checks call of `str`, over the code points of a text: `isspace` of one character, and the
-- length of `encode("utf-8")`.
pub record Text : Type 0 where
  pub is_space : ℕ → Bool
  pub utf8_length : List ℕ → ℕ

pub data Outcome : Type 0 where
  success failure timeout docker_error validation_error : Outcome

pub data Status : Type 0 where
  healthy degraded unavailable : Status

-- the fields that the callers read
pub record SandboxResult : Type 0 where
  pub outcome : Outcome
  pub exit_code : Option ℕ
  pub stdout : List ℕ
  pub stderr : List ℕ
  pub error : Option String

module _ (t : Text) where
  -- `not script.strip()`: nothing but white space
  unfoldable pub is_blank : List ℕ → Bool
  unfolding any
  is_blank cs = not (any (λ c. not (t.is_space c)) cs)

  unfoldable pub validate_script : Value → Result ScriptError (List ℕ)
  unfolding is_blank
  validate_script other = err not_text
  validate_script (text cs) =
      if is_blank cs
      then err empty
      else if any (λ c. c == 0) cs
      then err nul
      else if ltb max_script_bytes (t.utf8_length cs)
      then err too_long
      else ok cs
