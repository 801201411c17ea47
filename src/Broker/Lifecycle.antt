-- ===== src/Broker/Lifecycle.antt =====
-- `SandboxBroker.start` and `SandboxBroker.close`: the backend, and the socket's path.
use yantra_os.Prelude.{
  ℕ, ◌+◌, ◌*◌, ◌/◌, ◌%◌, Bool, true, false, ◌&&◌, ◌||◌, not, Option, none, some, List, ◌==◌,
  if◌then◌else◌,
}
use yantra_os.Prelude.Result.{Result, ok, err}
use yantra_os.Files.{Stat, is_socket}
use yantra_os.Sandbox.Engine.{Engine, Setup, initialize, is_healthy, is_operational, shutdown}
use yantra_os.Sandbox.Stale.{Stale, cleanup_stale_containers}

pub data StartError : Type 0 where
  not_initialized stale_containers_left unsafe_path already_active probe_failed not_removed
        not_bound not_owned mode_not_set not_stated wrong_socket :
      StartError

-- How a connection to the path ends that is tried before it is removed: it gets through, ECONNREFUSED,
-- ENOENT, or another error.
pub data Probe : Type 0 where
  connected refused absent other_error : Probe

-- What a start meets: the backend's set-up, the stale containers of the two labels, the process's
-- user, the group of the socket, the probe, and whether the old socket can be unlinked; the socket that
-- the server is bound to, none where it cannot be bound; whether its owner and its mode can be set;
-- what then stands at the path in its place, which another process may have changed; and whether `stat`
-- can read what is there.
pub record Startup : Type 0 where
  pub setup : Setup
  pub current : Option (List Stale)
  pub legacy : Option (List Stale)
  pub euid : ℕ
  pub socket_gid : ℕ
  pub probe : Probe
  pub unlinks : Bool
  pub bound : Option Stat
  pub chowns : Bool
  pub chmods : Bool
  pub meanwhile : Stat → Option Stat
  pub stats : Bool

-- The fields of a broker that a start and a close change, and the file at the socket's path.
pub record Broker : Type 0 where
  pub backend : Engine
  pub serving : Bool
  pub owns_socket : Bool
  pub path : Option Stat

-- once the socket at the path is known to be one of this user
abbrev pub unlink_probed : Startup → Probe → Stat → Result StartError (Unit {0}) × Option Stat
unlink_probed s connected existing = (err already_active, some existing)
unlink_probed s refused existing =
    if s.unlinks then (ok tt, none) else (err not_removed, some existing)
unlink_probed s absent existing = (err not_removed, none)
unlink_probed s other_error existing = (err probe_failed, some existing)

-- The path is made free: it is, or it holds a socket of this user that nobody serves. An entry that is
-- gone at the probe makes the unlink raise.
unfoldable pub free_path : Startup → Option Stat → Result StartError (Unit {0}) × Option Stat
free_path s none = (ok tt, none)
free_path s (some existing) =
    if not (is_socket existing.kind) || not (existing.uid == s.euid)
    then (err unsafe_path, some existing)
    else unlink_probed s s.probe existing

unfoldable pub is_protected : Startup → Stat → Bool
is_protected s made = made.uid == 0 && made.gid == s.socket_gid && made.mode % 4096 == 0o660

-- the entry that `stat` finds at the path
unfoldable pub check_made : Startup → Option Stat → Result StartError (Unit {0}) × Option Stat
unfolding is_protected
check_made s none = (err not_stated, none)
check_made s (some made) =
    if not s.stats
    then (err not_stated, some made)
    else (if is_protected s made then ok tt else err wrong_socket, some made)

abbrev pub chowned : Startup → Stat → Stat
chowned s made = record made { uid = 0; gid = s.socket_gid }

abbrev pub chmodded : Stat → Stat
chmodded made = record made { mode = 4096 * (made.mode / 4096) + 0o660 }

-- from the bind on: the owner, the mode and the check, and what is left at the path
unfoldable pub secure_socket : Startup → Stat → Result StartError (Unit {0}) × Option Stat
unfolding check_made
secure_socket s made =
    if not s.chowns
    then (err not_owned, some made)
    else if not s.chmods
    then (err mode_not_set, some (chowned s made))
    else check_made s (s.meanwhile (chmodded (chowned s made)))

-- the bind; the path is free
unfoldable pub serve_socket : Startup → Broker → Result StartError (Unit {0}) × Broker
unfolding secure_socket
serve_socket s b = elim s.bound [
  | none ↦ (err not_bound, record b { path = none })
  | some made ↦
      let secured = secure_socket s made in
      (secured.0, record b { serving = true; owns_socket = true; path = secured.1 })
]

abbrev pub start_serving :
    Startup
    → Result StartError (Unit {0}) × Option Stat
    → Broker
    → Result StartError (Unit {0}) × Broker
start_serving s (err e, path) b = (err e, record b { path = path })
start_serving s (ok free, path) b = serve_socket s b

-- once the backend's initialization has returned a status
unfoldable pub start_cleaned : Startup → Broker → Result StartError (Unit {0}) × Broker
unfolding free_path serve_socket is_operational
start_cleaned s b =
    if not (is_operational b.backend)
    then (err stale_containers_left, b)
    else start_serving s (free_path s b.path) b

unfoldable pub start : Startup → Broker → Result StartError (Unit {0}) × Broker
unfolding start_cleaned initialize cleanup_stale_containers
start s b =
    let begun = initialize s.setup b.backend in
    if not (is_healthy begun.0)
    then (err not_initialized, record b { backend = begun.1 })
    else start_cleaned s
        record b { backend = (cleanup_stale_containers s.current s.legacy begun.1).engine }

abbrev pub removed_path : ℕ → Option Stat → Option Stat
removed_path euid none = none
removed_path euid (some existing) =
    if is_socket existing.kind && existing.uid == euid then none else some existing

unfoldable pub close : ℕ → Broker → Broker
unfolding shutdown
close euid b = record {
  backend = shutdown b.backend;
  serving = false;
  owns_socket = false;
  path = if b.owns_socket then removed_path euid b.path else b.path;
}
