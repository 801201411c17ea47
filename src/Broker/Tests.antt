-- ===== src/Broker/Tests.antt =====
-- Connections to a broker of the tests, and the theorems at them.
use yantra_os.Prelude.{ℕ, ◌+◌, ◌≡◌, refl, true, false, none, some, List, [], ◌∷◌, ◌==◌}
use yantra_os.Prelude.Lists.{codes}
use yantra_os.Prelude.Result.{ok}
use yantra_os.Json.{str, obj, field, end, has_key}
use yantra_os.Sandbox.Script.{success, unavailable, SandboxResult}
use yantra_os.Broker.Request.{decode_request, read_bounded_request}
use yantra_os.Broker.Handler.{Host, Client, handle_client, is_admitted, enter}
use yantra_os.Files.{Stat, socket}
use yantra_os.Broker.Lifecycle
use yantra_os.Broker.Lifecycle.{Startup, Broker, refused, close}
use yantra_os.Broker.Execution.{scripts, IsApproved, executed-IsApproved}
use yantra_os.Broker.Slots.{
  Server, arrive, depart, Reaches, start, step, IsCounted, reached-IsCounted, lost_by,
  handle_client-active,
}

abbrev host : Host
host = record {
  authorized_uid = 7;
  reader = record {
    loads = λ bs. some (obj (field "script" (str "ls") end));
    chars = record { is_space = λ c. c == 32; utf8_length = λ cs. 2 };
  };
  sha256_hex = λ s. "hash";
}

abbrev fine : SandboxResult
fine = record { outcome = success; exit_code = some 0; stdout = []; stderr = []; error = none }

abbrev client : Client
client = record {
  credentials = ok (42, 7);
  sends = ok (123 ∷ 10 ∷ []);
  log = λ p. ok true;
  execute = λ s. ok fine;
  first_write = ok tt;
  second_write = true;
  closes = true;
}

abbrev cut_off : Client
cut_off = record client { closes = false }

runs : Unit {0}
unfolding handle_client scripts decode_request read_bounded_request has_key
runs = tt

one_script : scripts (handle_client host client 0).events ≡ codes "ls" ∷ []
unfolding runs
one_script = refl

no_slot : scripts (handle_client host client 2).events ≡ []
unfolding runs
no_slot = refl

unaudited : scripts (handle_client host record client { log = λ p. ok false } 0).events ≡ []
unfolding runs
unaudited = refl

foreign_user : (handle_client host record client { credentials = ok (42, 8) } 0).events ≡ []
unfolding runs
foreign_user = refl

executed-IsApproved_example :
    IsApproved host client 0 (codes "ls") (handle_client host client 0).events
    × (◌≡◌ {A = List (List ℕ)} [] [])
executed-IsApproved_example = executed-IsApproved host client 0 (codes "ls") [] one_script

-- one connection is in, and a second one has lost its slot
abbrev two_in : Server
two_in = record { active = 2; handlers = true ∷ []; lost = 1 }

two_in-reached : Reaches host two_in
unfolding handle_client
two_in-reached =
    step
      (step (step start (arrive client record { active = 0; handlers = []; lost = 0 }))
        (arrive cut_off record { active = 1; handlers = true ∷ []; lost = 0 }))
      (depart cut_off 2 0 [] (true ∷ []) true)

reached-IsCounted_example : IsCounted two_in
reached-IsCounted_example = reached-IsCounted host two_in two_in-reached

-- a start where a dead socket stands at the path
abbrev new_socket : Stat
new_socket = record {
  kind = socket;
  uid = 0;
  gid = 900;
  mode = 0o660;
  size = 0;
  device = 0;
  inode = 0;
}

abbrev startup : Startup
startup = record {
  setup = record { euid = 0; has_sdk = true; answers = true; immutable_id = true };
  current = some [];
  legacy = some [];
  euid = 0;
  socket_gid = 900;
  probe = refused;
  unlinks = true;
  bound = some record new_socket { gid = 0; mode = 0o755 };
  chowns = true;
  chmods = true;
  meanwhile = λ made. some made;
  stats = true;
}

abbrev stopped : Broker
stopped = record {
  backend = record { status = unavailable; has_client = false; closed = false; active = [] };
  serving = false;
  owns_socket = false;
  path = some new_socket;
}

starts : (Lifecycle.start startup stopped).0 ≡ ok tt
unfolding Lifecycle.start
starts = refl

-- A socket whose mode cannot be set is left to the close, which removes it.
mode_fails :
    (Lifecycle.start record startup { chmods = false } stopped).1.path
    ≡ some record new_socket { mode = 0o755 }
unfolding Lifecycle.start
mode_fails = refl

-- A broker that is closed leaves no socket.
closes_clean : (close 0 (Lifecycle.start startup stopped).1).path ≡ none
unfolding Lifecycle.start close
closes_clean = refl

handle_client-active_example :
    (handle_client host client 1).active
    ≡ 1 + lost_by (is_admitted (enter host client 1)) client.closes
handle_client-active_example = handle_client-active host client 1
