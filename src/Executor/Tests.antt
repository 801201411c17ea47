-- ===== src/Executor/Tests.antt =====
-- Runs of the executor on small machines, and the theorems applied to them.
use yantra_os.Prelude.{◌≡◌, refl, ◌≤◌, ◌⊎◌, true, false, some, List, [], ◌∷◌, String, arith}
use yantra_os.Prelude.Lists.{length}
use yantra_os.Prelude.Result.{ok}
use yantra_os.Json.{Json, str, obj, field, end}
use yantra_os.Files.{Stat, socket, directory}
use yantra_os.Executor.Dispatch.{
  Machine, Child, ends, overruns, exited, proposed, executed, failed, logged, ran, process_intent,
}
use yantra_os.Executor.Privilege.{Permits, idle, restart_command, process_intent-Permits}
use yantra_os.Executor.Success.{IsEarned, process_intent-IsEarned}
use yantra_os.Executor.Peer.{
  Codec, Peer, natural, response_too_large, handle_client, IsAuthorized, handle_client-Permits,
  write_response, write_response-le, max_response_bytes,
}
use yantra_os.Executor.Socket.{Host, create_listening_socket, chown, chmod, unlink, bind}

abbrev restart_payload : Json
restart_payload =
    obj (field "intent" (str "RESTART_DAEMON") (field "target" (str "yantra.service") end))

abbrev shell_payload : Json
shell_payload = obj (field "intent" (str "RESTART_DAEMON;reboot") end)

abbrev healthy : List String → Child
healthy command = ends (exited 0) ((111 ∷ 107 ∷ []) ∷ []) []

abbrev machine : Machine
machine = record {
  log = λ p. true;
  live_iso = false;
  wrapper = true;
  snapshot_module = true;
  executable = "/usr/bin/python3";
  child = healthy;
  decode_strip = λ bs. "";
}

-- a machine whose snapshot takes too long
abbrev slow_machine : Machine
slow_machine = record machine { child = λ command. overruns }

restart_run :
    (process_intent machine restart_payload).events
    ≡ logged proposed true
      ∷ ran ("/usr/bin/yantra-snapshot" ∷ "--pre-flight" ∷ [])
      ∷ ran restart_command
      ∷ logged executed true
      ∷ []
unfolding process_intent
restart_run = refl

slow_run :
    (process_intent slow_machine restart_payload).events
    ≡ logged proposed true
      ∷ ran ("/usr/bin/yantra-snapshot" ∷ "--pre-flight" ∷ [])
      ∷ logged failed true
      ∷ []
unfolding process_intent
slow_run = refl

shell_run : (process_intent machine shell_payload).events ≡ []
unfolding process_intent
shell_run = refl

process_intent-Permits_example :
    Permits machine idle (process_intent machine restart_payload).events
process_intent-Permits_example = process_intent-Permits machine restart_payload

process_intent-IsEarned_example : IsEarned machine (process_intent machine restart_payload).result
process_intent-IsEarned_example = process_intent-IsEarned machine restart_payload

abbrev codec : Codec
codec = record { loads = λ raw. ok restart_payload; dumps = λ r. 123 ∷ 125 ∷ [] }

abbrev daemon : Peer
daemon = record {
  credentials = some (record { pid = natural 7; uid = natural 990; gid = natural 990 });
  account = some 990;
  line = some (123 ∷ 125 ∷ 10 ∷ []);
}

abbrev root_peer : Peer
root_peer = record daemon {
  credentials = some (record { pid = natural 1; uid = natural 0; gid = natural 0 });
}

stranger_run : (handle_client machine codec root_peer).events ≡ []
unfolding handle_client
stranger_run = refl

handle_client-Permits_example :
    Permits machine idle (handle_client machine codec daemon).events
    × (((handle_client machine codec daemon).events ≡ []) ⊎ IsAuthorized daemon)
handle_client-Permits_example = handle_client-Permits machine codec daemon

write_response-le_example : length (write_response codec response_too_large) ≤ max_response_bytes
write_response-le_example = write_response-le codec response_too_large (omega arith)

abbrev run_directory : Stat
run_directory = record {
  kind = directory;
  uid = 0;
  gid = 0;
  mode = 0o755;
  size = 0;
  device = 1;
  inode = 2;
}

abbrev old_socket : Stat
old_socket = record {
  kind = socket;
  uid = 0;
  gid = 5;
  mode = 0o660;
  size = 0;
  device = 1;
  inode = 3;
}

abbrev new_socket : Stat
new_socket = record old_socket { inode = 4 }

abbrev host : Host
host = record {
  euid = 0;
  group = some 5;
  opens = true;
  directory = run_directory;
  changes = true;
  stale = some old_socket;
  unlinks = true;
  binds = true;
  bound = some new_socket;
  listens = true;
}

listening_run :
    (create_listening_socket host).actions ≡ chown 5 ∷ chmod 0o750 ∷ unlink old_socket ∷ bind ∷ []
unfolding create_listening_socket
listening_run = refl
