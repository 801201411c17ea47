-- ===== src/Sandbox/Engine.antt =====
-- `SandboxEngine`: the wait for a container, `_blocking_execute` and `execute`.
use yantra_os.Prelude.{
  ℕ, zero, suc, Bool, true, false, ◌&&◌, ◌||◌, not, Option, none, some, List, [], ◌∷◌, ◌++◌, leb,
  ◌==◌, str_eq, String, if◌then◌else◌,
}
use yantra_os.Prelude.Result.{ok, err}
use yantra_os.Sandbox.Script.{
  Outcome, success, failure, timeout, docker_error, validation_error, Status, healthy, degraded,
  unavailable, SandboxResult, Value, Text, validate_script,
}
use yantra_os.Sandbox.Logs.{read_capped_logs}

-- one look at the container: `reload()` raises, or the container has ended with a code, or it runs
pub data Poll : Type 0 where
  raises : Poll
  ended : Option ℕ → Poll
  running : Poll

-- the calls of the Docker API
pub data Call : Type 0 where
  create start kill logs remove : Call

-- What Docker answers to one run. `clock n` is the time of the n-th look, in ticks after the start;
-- a log that cannot be read is none.
pub record Docker : Type 0 where
  pub creates : Bool
  pub starts : Bool
  pub poll : ℕ → Poll
  pub clock : ℕ → ℕ
  pub stdout : Option (List (List ℕ))
  pub stderr : Option (List (List ℕ))
  pub removes : Bool

-- `active` holds the keys of `_active_containers`
pub record Engine : Type 0 where
  pub status : Status
  pub has_client : Bool
  pub closed : Bool
  pub active : List String

abbrev pub is_healthy : Status → Bool
is_healthy healthy = true
is_healthy _ = false

unfoldable pub is_operational : Engine → Bool
is_operational e = is_healthy e.status && e.has_client

pub data Waited : Type 0 where
  raised : Waited
  exited : Option ℕ → Waited
  timed_out : Waited

-- the loop of the wait from its n-th look on; none is out of fuel
unfoldable pub wait_exit : ℕ → ℕ → (ℕ → Poll) → (ℕ → ℕ) → ℕ → Option Waited
wait_exit zero deadline poll clock n = none
wait_exit (suc fuel) deadline poll clock n =
    let rest = wait_exit fuel deadline poll clock (suc n) in
    elim (poll n) [
      | raises ↦ some raised
      | ended code ↦ some (exited code)
      | running ↦ if leb deadline (clock n) then some timed_out else rest
    ]

-- `_active_containers[key] = …` and `.pop(key, None)`
unfoldable pub pop_key : String → List String → List String
pop_key k [] = []
pop_key k (j ∷ js) = let rest = pop_key k js in if str_eq j k then rest else j ∷ rest

unfoldable pub add_key : String → List String → List String
unfolding pop_key
add_key k js = k ∷ pop_key k js

abbrev pub result : Outcome → Option ℕ → SandboxResult
result o code = record { outcome = o; exit_code = code; stdout = []; stderr = []; error = none }

abbrev pub failed : String → SandboxResult
failed message = record {
  outcome = docker_error;
  exit_code = none;
  stdout = [];
  stderr = [];
  error = some message;
}

abbrev pub is_zero : Option ℕ → Bool
is_zero none = false
is_zero (some n) = n == 0

-- the result of a wait, once both logs are read
unfoldable pub ended_result : Waited → List ℕ → List ℕ → SandboxResult
ended_result raised out errs = failed "wait"
ended_result timed_out out errs = record (result timeout none) {
  stdout = out;
  stderr = errs;
  error = some "execution exceeded 10s deadline";
}
ended_result (exited code) out errs =
    record (result (if is_zero code then success else failure) code) { stdout = out; stderr = errs }

-- a container that is past its deadline is killed
abbrev pub kill_late : Waited → List Call
kill_late timed_out = kill ∷ []
kill_late _ = []

-- both logs are read, one after the other; an exception gives none
unfoldable pub read_logs :
    Waited → Option (List (List ℕ)) → Option (List (List ℕ)) → Option SandboxResult × List Call
unfolding ended_result
read_logs w none errs = (none, logs ∷ [])
read_logs w (some out) none = (none, logs ∷ logs ∷ [])
read_logs w (some out) (some errs) =
    (some (ended_result w (read_capped_logs out) (read_capped_logs errs)), logs ∷ logs ∷ [])

unfoldable pub after_wait : Docker → Option Waited → Option SandboxResult × List Call
unfolding read_logs
after_wait d none = (none, [])
after_wait d (some raised) = (none, [])
after_wait d (some w) = let (r, calls) = read_logs w d.stdout d.stderr in (r, kill_late w ++ calls)

-- The `try` block after `start`: the result, and the calls made.
unfoldable pub after_start : ℕ → ℕ → Docker → Option SandboxResult × List Call
unfolding after_wait
after_start fuel deadline d = after_wait d (wait_exit fuel deadline d.poll d.clock 0)

pub record Ran : Type 0 where
  pub result : SandboxResult
  pub engine : Engine
  pub calls : List Call

-- `result.stdout if result is not None else ""`, and so for `stderr`
abbrev pub kept_output : Option SandboxResult → SandboxResult → SandboxResult
kept_output none r = r
kept_output (some s) r = record r { stdout = s.stdout; stderr = s.stderr }

abbrev pub result_or : Option SandboxResult → SandboxResult
result_or none = failed "docker"
result_or (some r) = r

-- an exception inside the `try` marks the engine degraded
abbrev pub status_after : Option SandboxResult → Status → Status
status_after none s = degraded
status_after (some r) s = s

-- the rest of the `try` block, once a container is created
unfoldable pub attempt : ℕ → Docker → Option SandboxResult × List Call
unfolding after_start
attempt deadline d = if d.starts then after_start (suc deadline) deadline d else (none, [])

-- The `finally` block and what follows it, on whether the container can be removed.
unfoldable pub finish : Bool → String → Engine → Option SandboxResult → List Call → Ran
unfolding add_key
finish true key e r calls = record {
  result = result_or r;
  engine = record e {
    status = status_after r e.status;
    active = pop_key key (add_key key e.active);
  };
  calls = (create ∷ start ∷ calls) ++ kill ∷ remove ∷ [];
}
finish false key e r calls = record {
  result = kept_output r (failed "container cleanup failed");
  engine = record e { status = degraded; active = pop_key key (add_key key e.active) };
  calls = (create ∷ start ∷ calls) ++ kill ∷ remove ∷ [];
}

-- `create` raises: there is no container to remove
unfoldable pub not_created : String → Engine → Ran
unfolding pop_key
not_created key e = record {
  result = failed "create";
  engine = record e { status = degraded; active = pop_key key e.active };
  calls = create ∷ [];
}

-- `_blocking_execute`. A wait that is out of fuel counts as one that raised; see `wait_exit_total`.
unfoldable pub blocking_execute : ℕ → String → Docker → Engine → Ran
unfolding attempt finish not_created
blocking_execute deadline key d e =
    if not d.creates
    then not_created key e
    else finish d.removes key e (attempt deadline d).0 (attempt deadline d).1

unfoldable pub has_key : String → List String → Bool
has_key k [] = false
has_key k (j ∷ js) = str_eq j k || has_key k js

-- `_force_remove_active`, of the containers that are active when it is called
unfoldable pub force_remove_active : String → List String → List Call
unfolding has_key
force_remove_active key active = if has_key key active then kill ∷ remove ∷ [] else []

-- The end of `execute`: the worker returns in time, or the deadline passes while it is stalled in
-- Docker, with the containers that are active then.
unfoldable pub run_worker : ℕ → String → Docker → Option (List String) → Engine → Ran
unfolding blocking_execute force_remove_active
run_worker deadline key d none e = blocking_execute deadline key d e
run_worker deadline key d (some active) e = record {
  result = record (failed "Docker API exceeded the fixed execution deadline") { outcome = timeout };
  engine = record e { status = degraded; active = active };
  calls = force_remove_active key active;
}

unfoldable pub execute : Text → ℕ → String → Docker → Option (List String) → Value → Engine → Ran
unfolding run_worker is_operational validate_script
execute t deadline key d stalled script e = elim (validate_script t script) [
  | err x ↦ record {
    result = record (failed "validation") { outcome = validation_error };
    engine = e;
    calls = [];
  }
  | ok s ↦
      if not (is_operational e)
      then record { result = failed "sandbox backend is not healthy"; engine = e; calls = [] }
      else run_worker deadline key d stalled e
]

-- What the start of the engine meets: its user, the SDK, the daemon and the image's id.
pub record Setup : Type 0 where
  pub euid : ℕ
  pub has_sdk : Bool
  pub answers : Bool
  pub immutable_id : Bool

unfoldable pub blocking_initialize : Setup → Engine → Status × Engine
blocking_initialize s e =
    if not (s.euid == 0)
    then (unavailable, e)
    else if not s.has_sdk
    then (unavailable, e)
    else if s.answers && s.immutable_id
    then (healthy, record e { has_client = true })
    else (degraded, record e { has_client = false })

unfoldable pub initialize : Setup → Engine → Status × Engine
unfolding blocking_initialize
initialize s e =
    if e.closed
    then (unavailable, record e { status = unavailable })
    else let (status, e') = blocking_initialize s e in (status, record e' { status = status })

unfoldable pub shutdown : Engine → Engine
shutdown e =
    if e.closed then e else record e { closed = true; status = unavailable; has_client = false }
