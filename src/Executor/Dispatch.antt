-- ===== src/Executor/Dispatch.antt =====
-- `_run_bounded_command`, `_execute_preflight_snapshot`, `_execute_locked_intent` and `_process_intent`:
-- an intent's execution, with the audit entries and the commands it leaves behind. The times in a
-- response are left out.
use yantra_os.Prelude.{
  ℕ, zero, suc, Bool, true, false, not, ◌&&◌, Option, none, some, List, [], ◌∷◌, ◌++◌, String,
  if◌then◌else◌,
}
use yantra_os.Prelude.Lists.{take}
use yantra_os.Prelude.Result.{Result, ok, err}
use yantra_os.Json.{Json, str, obj, get, contains_text}
use yantra_os.Executor.Output.{drain}
use yantra_os.Executor.Intent.{
  Refusal, external_action, bad_target, not_allowed, parse_intent, build_command,
}

abbrev pub max_stdout_bytes : ℕ
max_stdout_bytes = 4096

abbrev pub max_stderr_bytes : ℕ
max_stderr_bytes = 2048

abbrev pub snapshot_limit : ℕ
snapshot_limit = 500

abbrev pub snapshot_bin : String
snapshot_bin = "/usr/bin/yantra-snapshot"

abbrev pub safe_live_intents : List String
safe_live_intents = "RESTART_DAEMON" ∷ []

abbrev pub destructive_intents : List String
destructive_intents = []

-- `Popen.returncode`: an exit status, or the signal that ended the child
pub data ReturnCode : Type 0 where
  exited killed : ℕ → ReturnCode

-- `returncode == 0`; a signal's code is less than 0
abbrev pub is_zero : ReturnCode → Bool
is_zero (exited zero) = true
is_zero (exited (suc n)) = false
is_zero (killed n) = false

-- What a child does: the chunks its pipes give, and how `wait` ends; or it cannot be started, or a
-- reader does not end.
pub data Child : Type 0 where
  ends : ReturnCode → List (List ℕ) → List (List ℕ) → Child
  overruns not_started stuck : Child

pub data CommandError : Type 0 where
  timeout_expired os_error reader_alive : CommandError

pub record Completed : Type 0 where
  pub returncode : ReturnCode
  pub stdout : List ℕ
  pub stderr : List ℕ

unfoldable pub run_bounded_command : Child → ℕ → ℕ → Result CommandError Completed
unfolding drain
run_bounded_command (ends code out error_out) stdout_limit stderr_limit = ok (record {
  returncode = code;
  stdout = drain stdout_limit [] out;
  stderr = drain stderr_limit [] error_out;
})
run_bounded_command overruns stdout_limit stderr_limit = err timeout_expired
run_bounded_command not_started stdout_limit stderr_limit = err os_error
run_bounded_command stuck stdout_limit stderr_limit = err reader_alive

pub data Phase : Type 0 where
  proposed executed failed : Phase

-- What can be seen: a call of the audit log with its answer, and a command that is run.
pub data Event : Type 0 where
  logged : Phase → Bool → Event
  ran : List String → Event

-- What the executor meets: what the log answers (it returns and does not raise), whether this is a live ISO, whether the snapshot's
-- wrapper and its module are there, `sys.executable`, what each command does, and
-- `.decode("utf-8", errors="replace").strip()`.
pub record Machine : Type 0 where
  pub log : Phase → Bool
  pub live_iso : Bool
  pub wrapper : Bool
  pub snapshot_module : Bool
  pub executable : String
  pub child : List String → Child
  pub decode_strip : List ℕ → String

unfoldable pub bounded_output : Machine → List ℕ → ℕ → String
unfolding take
bounded_output m value limit = m.decode_strip (take limit value)

-- the messages of a snapshot that fails
pub data SnapshotError : Type 0 where
  missing : SnapshotError
  raised : CommandError → SnapshotError
  exit_code : ReturnCode → String → String → SnapshotError

pub data Message : Type 0 where
  audit_unavailable live_destructive live_not_allowed : Message
  snapshot_failed : SnapshotError → Message
  command_error : CommandError → Message
  finished : ReturnCode → String → String → Message
  refused : Refusal → Message

pub data Status : Type 0 where
  success failure timeout error fatal blocked rejected : Status

-- a response: its status, its intent and target where it has them, and what else it says
pub record Response : Type 0 where
  pub status : Status
  pub intent : Option String
  pub target : Option String
  pub message : Message

-- The events of a call, and what it returns.
pub record Run (A : Type 0) : Type 0 where
  pub events : List Event
  pub result : A

abbrev pub snapshot_command : Machine → List String
snapshot_command m =
    if m.wrapper
    then snapshot_bin ∷ "--pre-flight" ∷ []
    else m.executable ∷ "-m" ∷ "core.cli_snapshot" ∷ "--pre-flight" ∷ []

unfoldable pub judge_snapshot :
    Machine → Result CommandError Completed → Result SnapshotError String
unfolding bounded_output
judge_snapshot m (err e) = err (raised e)
judge_snapshot m (ok c) =
    if is_zero c.returncode
    then ok (bounded_output m c.stdout snapshot_limit)
    else err (
        exit_code c.returncode (bounded_output m c.stderr snapshot_limit)
          (bounded_output m c.stdout snapshot_limit))

unfoldable pub execute_preflight_snapshot : Machine → Run (Result SnapshotError String)
unfolding judge_snapshot run_bounded_command
execute_preflight_snapshot m =
    if not m.wrapper && not m.snapshot_module
    then record { events = []; result = err missing }
    else record {
      events = ran (snapshot_command m) ∷ [];
      result =
          judge_snapshot m
            (run_bounded_command (m.child (snapshot_command m)) snapshot_limit snapshot_limit);
    }

abbrev pub phase_of : Status → Phase
phase_of success = executed
phase_of _ = failed

abbrev pub response : Status → String → String → Message → Response
response s i t message = record { status = s; intent = some i; target = some t; message = message }

-- `audited`
unfoldable pub audited : Machine → String → String → Response → Run Response
audited m intent target r =
    let kept = m.log (phase_of r.status) in
    record {
      events = logged (phase_of r.status) kept ∷ [];
      result = if kept then r else response fatal intent target audit_unavailable;
    }

-- the response to a command that has run
unfoldable pub outcome : Machine → String → String → Result CommandError Completed → Response
unfolding bounded_output
outcome m intent target (err timeout_expired) =
    response timeout intent target (command_error timeout_expired)
outcome m intent target (err e) = response error intent target (command_error e)
outcome m intent target (ok c) =
    response (if is_zero c.returncode then success else failure) intent target (
      finished c.returncode (bounded_output m c.stdout max_stdout_bytes)
        (bounded_output m c.stderr max_stderr_bytes))

-- the events of one piece, before those of the next
abbrev pub after : {A : Type 0} → List Event → Run A → Run A
after es r = record { events = es ++ r.events; result = r.result }

abbrev pub returns : Run Response → Run (Result Refusal Response)
returns r = record { events = r.events; result = ok r.result }

-- from `_build_command` on; an exception of that function is not caught here
unfoldable pub dispatch : Machine → String → String → Run (Result Refusal Response)
unfolding build_command audited outcome run_bounded_command
dispatch m intent target = elim (build_command intent target) [
  | err e ↦ record { events = []; result = err e }
  | ok cmd ↦ after (ran cmd ∷ []) (
      returns (
        audited m intent target (
          outcome m intent target
            (run_bounded_command (m.child cmd) max_stdout_bytes max_stderr_bytes))))
]

-- on a machine that is installed: no mutation without a snapshot
unfoldable pub after_snapshot :
    Machine → String → String → Run (Result SnapshotError String) → Run (Result Refusal Response)
unfolding audited dispatch
after_snapshot m intent target s = after s.events (elim s.result [
  | ok message ↦ dispatch m intent target
  | err e ↦ returns (audited m intent target (response fatal intent target (snapshot_failed e)))
])

-- what a live ISO allows
unfoldable pub check_live : Machine → String → String → Run (Result Refusal Response)
unfolding contains_text audited dispatch
check_live m intent target =
    if contains_text intent destructive_intents
    then returns (audited m intent target (response blocked intent target live_destructive))
    else if not (contains_text intent safe_live_intents)
    then returns (
        audited m intent target (record {
          status = rejected;
          intent = some intent;
          target = none;
          message = live_not_allowed;
        }))
    else dispatch m intent target

unfoldable pub execute_locked_intent : Machine → String → String → Run (Result Refusal Response)
unfolding after_snapshot execute_preflight_snapshot check_live
execute_locked_intent m intent target = after (logged proposed (m.log proposed) ∷ []) (
    if not (m.log proposed)
    then returns (record { events = []; result = response fatal intent target audit_unavailable })
    else if m.live_iso
    then check_live m intent target
    else after_snapshot m intent target (execute_preflight_snapshot m))

abbrev pub text_of : Option Json → Option String
text_of (some (str s)) = some s
text_of _ = none

-- `payload["intent"]` where it is a text
abbrev pub intent_of : Json → Option String
intent_of (obj fs) = text_of (get "intent" fs)
intent_of _ = none

-- the intent that a refusal repeats
abbrev pub refused_intent : Refusal → Json → Option String
refused_intent external_action payload = intent_of payload
refused_intent bad_target payload = intent_of payload
refused_intent not_allowed payload = intent_of payload
refused_intent _ payload = none

unfoldable pub process_parsed :
    Machine → Json → Result Refusal (String × String) → Run (Result Refusal Response)
unfolding execute_locked_intent get
process_parsed m payload (ok (intent, target)) = execute_locked_intent m intent target
process_parsed m payload (err e) = record {
  events = [];
  result = ok (record {
    status = rejected;
    intent = refused_intent e payload;
    target = none;
    message = refused e;
  });
}

unfoldable pub process_intent : Machine → Json → Run (Result Refusal Response)
unfolding parse_intent process_parsed
process_intent m payload = process_parsed m payload (parse_intent payload)
