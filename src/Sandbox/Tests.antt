-- ===== src/Sandbox/Tests.antt =====
-- Runs of the sandbox engine with a Docker of the tests, and the theorems at them.
use yantra_os.Prelude.{
  ℕ, zero, suc, ◌≡◌, refl, true, false, ◌||◌, none, some, List, [], ◌∷◌, ◌++◌, ◌==◌, ◌↔◌, String,
}
use yantra_os.Prelude.Lists.{take}
use yantra_os.Prelude.Result.{err}
use yantra_os.Sandbox.Script.{
  success, timeout, docker_error, validation_error, healthy, text, nul, Text, validate_script,
  max_output_bytes,
}
use yantra_os.Sandbox.Logs.{read_capped_logs, read_capped_logs-eq-take}
use yantra_os.Sandbox.Engine.{
  Poll, ended, running, Call, create, start, kill, remove, Docker, Engine, wait_exit, pop_key,
  blocking_execute, execute, is_operational, initialize, shutdown,
}
use yantra_os.Sandbox.Cleanup.{IsClean, blocking_execute-removes, blocking_execute-success}
use yantra_os.Sandbox.Stale.{
  Stale, is_listed, is_removed, IsUnrepeated, cleanup_stale_containers,
  cleanup_stale_containers-operational,
}
use mathlib.Core.List.{flatten}

abbrev ascii : Text
ascii = record { is_space = λ c. c == 32; utf8_length = λ cs. 1 }

abbrev idle : Engine
idle = record { status = healthy; has_client = true; closed = false; active = [] }

abbrev ends_second : ℕ → Poll
ends_second zero = running
ends_second (suc n) = ended (some 0)

-- a container that ends by itself at the second look, and one whose removal fails
abbrev well : Docker
well = record {
  creates = true;
  starts = true;
  poll = ends_second;
  clock = λ n. n;
  stdout = some ((104 ∷ []) ∷ (105 ∷ []) ∷ []);
  stderr = some [];
  removes = true;
}

abbrev stuck : Docker
stuck = record well { removes = false }

abbrev endless : Docker
endless = record well { poll = λ n. running }

runs : Unit {0}
unfolding execute blocking_execute is_operational validate_script read_capped_logs initialize
    shutdown wait_exit
runs = tt

script_runs : (execute ascii 3 "k" well none (text (112 ∷ [])) idle).result.outcome ≡ success
unfolding runs
script_runs = refl

blank_script :
    (execute ascii 3 "k" well none (text (32 ∷ [])) idle).result.outcome ≡ validation_error
unfolding runs
blank_script = refl

nul_refused : validate_script ascii (text (112 ∷ 0 ∷ [])) ≡ err nul
unfolding runs
nul_refused = refl

endless_times_out : (blocking_execute 3 "k" endless idle).result.outcome ≡ timeout
unfolding runs
endless_times_out = refl

closed_stays_closed :
    (initialize
      record { euid = 0; has_sdk = true; answers = true; immutable_id = true }
      (shutdown idle)).1.has_client
    ≡ false
unfolding runs
closed_stays_closed = refl

blocking_execute-removes_example :
    ((blocking_execute 3 "k" well idle).engine.active ≡ pop_key "k" [])
    × (true ≡ true
        → (before : List Call) × ((blocking_execute 3 "k" well idle).calls
            ≡ (create ∷ start ∷ before) ++ kill ∷ remove ∷ []))
blocking_execute-removes_example = blocking_execute-removes 3 "k" well idle

blocking_execute-success_example :
    ((blocking_execute 3 "k" stuck idle).result.outcome ≡ success) ↔ (
      (true ≡ true)
      × (true ≡ true)
      × IsClean (wait_exit 4 3 well.poll well.clock 0) well.stdout well.stderr
      × (false ≡ true))
blocking_execute-success_example = blocking_execute-success 3 "k" stuck idle

stuck_fails : (blocking_execute 3 "k" stuck idle).result.outcome ≡ docker_error
unfolding runs
stuck_fails = refl

read_capped_logs-eq-take_example :
    read_capped_logs ((104 ∷ []) ∷ (105 ∷ []) ∷ [])
    ≡ take max_output_bytes (flatten ((104 ∷ []) ∷ (105 ∷ []) ∷ []))
read_capped_logs-eq-take_example = read_capped_logs-eq-take ((104 ∷ []) ∷ (105 ∷ []) ∷ [])

-- a container under both labels, which can be removed
abbrev old : Stale
old = record { id = "a"; removes = true }

-- It is removed once.
removed_once :
    (cleanup_stale_containers (some (old ∷ [])) (some (old ∷ [])) idle).removed ≡ "a" ∷ []
unfolding runs cleanup_stale_containers
removed_once = refl

still_operational :
    is_operational (cleanup_stale_containers (some (old ∷ [])) (some (old ∷ [])) idle).engine ≡ true
unfolding runs cleanup_stale_containers
still_operational = refl

cleanup_stale_containers-operational_example :
    (cs ls : List Stale) × (some (old ∷ []) ≡ some cs)
    × (some (old ∷ []) ≡ some ls)
    × ((id : String)
        → is_removed id (cleanup_stale_containers (some (old ∷ [])) (some (old ∷ [])) idle).removed
          ≡ (is_listed id cs || is_listed id ls))
    × IsUnrepeated (cleanup_stale_containers (some (old ∷ [])) (some (old ∷ [])) idle).removed
cleanup_stale_containers-operational_example =
    cleanup_stale_containers-operational (some (old ∷ [])) (some (old ∷ [])) idle still_operational
