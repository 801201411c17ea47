-- ===== src/Executor/Socket.antt =====
-- `_verify_socket_metadata`, `_create_listening_socket` and `_unlink_socket`: the executor's socket in
-- the directory that is made for it.
use yantra_os.Prelude.{
  ℕ, ◌%◌, Bool, not, ◌&&◌, ◌||◌, Option, none, some, List, [], ◌∷◌, ◌==◌, if◌then◌else◌,
}
use yantra_os.Prelude.Result.{Result, ok, err, ◌>>◌, raise_if}
use yantra_os.Files.{Stat, is_socket, is_directory}

abbrev pub socket_mode : ℕ
socket_mode = 0o660

pub data SocketError : Type 0 where
  not_socket wrong_owner wrong_mode not_root no_group unsafe_directory unsafe_entry os_error :
      SocketError

-- `stat.S_IMODE`
abbrev pub s_imode : Stat → ℕ
s_imode s = s.mode % 4096

unfoldable pub verify_socket_metadata : Stat → ℕ → Result SocketError (Unit {0})
verify_socket_metadata s gid = do
  raise_if (not (is_socket s.kind)) not_socket
  raise_if (not (s.uid == 0) || not (s.gid == gid)) wrong_owner
  raise_if (not (s_imode s == socket_mode)) wrong_mode
  ok tt

-- `stat.S_ISSOCK(metadata.st_mode) and metadata.st_uid == 0`: an entry that may be removed
abbrev pub is_own : Stat → Bool
is_own s = is_socket s.kind && s.uid == 0

-- What the creation meets: the effective user, the group, whether the directory is opened (after it is
-- made or found), what `fstat` reports of it, whether its owner and mode are set, the entry that is
-- already there, whether it is unlinked; whether `bind` gets through, what `stat` reports of the
-- entry after it, none where that raises, and whether `listen` gets through.
pub record Host : Type 0 where
  pub euid : ℕ
  pub group : Option ℕ
  pub opens : Bool
  pub directory : Stat
  pub changes : Bool
  pub stale : Option Stat
  pub unlinks : Bool
  pub binds : Bool
  pub bound : Option Stat
  pub listens : Bool

-- What is done to the directory and its entry.
pub data Action : Type 0 where
  chown : ℕ → Action
  chmod : ℕ → Action
  unlink : Stat → Action
  bind : Action

abbrev pub directory_mode : ℕ
directory_mode = 0o750

-- What has been done, and how it ends.
pub record Made : Type 0 where
  pub actions : List Action
  pub result : Result SocketError (Unit {0})

abbrev pub fails : SocketError → Made
fails e = record { actions = []; result = err e }

abbrev pub doing : Action → Made → Made
doing a m = record { actions = a ∷ m.actions; result = m.result }

-- the `except` clause: an entry that was made is removed, where it is still the executor's own
unfoldable pub clean : Option Stat → List Action
clean none = []
clean (some s) = if is_own s then unlink s ∷ [] else []

-- from the bound socket on
unfoldable pub finish : Host → ℕ → Option Stat → Made
unfolding clean verify_socket_metadata
finish h gid none = record { actions = []; result = err os_error }
finish h gid (some s) = elim (verify_socket_metadata s gid) [
  | err e ↦ record { actions = clean (some s); result = err e }
  | ok done ↦
      if h.listens
      then record { actions = []; result = ok tt }
      else record { actions = clean (some s); result = err os_error }
]

unfoldable pub bind_socket : Host → ℕ → Made
unfolding finish
bind_socket h gid = if h.binds then doing bind (finish h gid h.bound) else fails os_error

-- the entry that is already there
unfoldable pub replace : Host → ℕ → Option Stat → Made
unfolding bind_socket
replace h gid none = bind_socket h gid
replace h gid (some s) =
    if not (is_own s)
    then fails unsafe_entry
    else if h.unlinks
    then doing (unlink s) (bind_socket h gid)
    else fails os_error

unfoldable pub in_directory : Host → ℕ → Made
unfolding replace
in_directory h gid =
    if not (is_directory h.directory.kind) || not (h.directory.uid == 0)
    then fails unsafe_directory
    else if h.changes
    then doing (chown gid) (doing (chmod directory_mode) (replace h gid h.stale))
    else fails os_error

unfoldable pub create_listening_socket : Host → Made
unfolding in_directory
create_listening_socket h = if not (h.euid == 0) then fails not_root else elim h.group [
  | none ↦ fails no_group
  | some gid ↦ if h.opens then in_directory h gid else fails os_error
]

-- `_unlink_socket` of the entry that is there, none where there is none or no directory
unfoldable pub unlink_socket : Option Stat → List Action
unlink_socket none = []
unlink_socket (some s) = if is_own s then unlink s ∷ [] else []
