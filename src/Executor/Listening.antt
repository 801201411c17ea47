-- ===== src/Executor/Listening.antt =====
-- What the executor's socket is once it is made, and what is removed on the way.
use yantra_os.Prelude.{
  ℕ, ◌≡◌, refl, Bool, true, false, not, ◌||◌, Option, none, some, List, [], ◌∷◌, ◌==◌,
  if◌then◌else◌, arith,
}
use yantra_os.Prelude.Result.{Result, ok, err, raise_if-eq-ok}
use yantra_os.Files.{Stat, is_socket, is_directory}
use yantra_os.Executor.Socket.{
  socket_mode, SocketError, not_socket, wrong_owner, wrong_mode, not_root, no_group,
  unsafe_directory, unsafe_entry, os_error, s_imode, verify_socket_metadata, is_own, Host, Action,
  chown, chmod, unlink, bind, directory_mode, Made, fails, doing, clean, finish, bind_socket,
  replace, in_directory, create_listening_socket,
}

-- The entry that a peer meets: a socket of root and the group, with the executor's mode.
abbrev pub IsGuarded : ℕ → Stat → Type 0
IsGuarded gid s =
    (is_socket s.kind ≡ true) × (s.uid ≡ 0) × (s.gid ≡ gid) × (s_imode s ≡ socket_mode)

verify_socket_metadata-IsGuarded :
    (s : Stat) (gid : ℕ) → verify_socket_metadata s gid ≡ ok tt → IsGuarded gid s
unfolding verify_socket_metadata
verify_socket_metadata-IsGuarded s gid e =
    let (kind, k₁) = raise_if-eq-ok (not (is_socket s.kind)) not_socket _ e in
    let (owner, k₂) = raise_if-eq-ok (not (s.uid == 0) || not (s.gid == gid)) wrong_owner _ k₁ in
    let (mode, k₃) = raise_if-eq-ok (not (s_imode s == socket_mode)) wrong_mode _ k₂ in
    (ground arith, ground arith, ground arith, ground arith)

-- Nothing is removed but a socket that root owns.
pub data OnlyOwn : List Action → Type 0 where
  stop : OnlyOwn []
  change_owner : {g : ℕ} {rest : List Action} → OnlyOwn rest → OnlyOwn (chown g ∷ rest)
  change_mode : {m : ℕ} {rest : List Action} → OnlyOwn rest → OnlyOwn (chmod m ∷ rest)
  binding : {rest : List Action} → OnlyOwn rest → OnlyOwn (bind ∷ rest)
  removing :
      {s : Stat} {rest : List Action} → is_own s ≡ true → OnlyOwn rest → OnlyOwn (unlink s ∷ rest)

clean-OnlyOwn : (s : Option Stat) → OnlyOwn (clean s)
unfolding clean
clean-OnlyOwn none = stop
clean-OnlyOwn (some s) = owned (is_own s) refl
  where
    owned : (b : Bool) → is_own s ≡ b → OnlyOwn (if b then unlink s ∷ [] else [])
    owned true h = removing h stop
    owned false h = stop

-- The creation's promise of one piece.
abbrev pub IsMade : Host → ℕ → Made → Type 0
IsMade h gid m =
    OnlyOwn m.actions × (m.result ≡ ok tt → (s : Stat) × (h.bound ≡ some s) × IsGuarded gid s)

fails-IsMade : (h : Host) (gid : ℕ) (e : SocketError) → IsMade h gid (fails e)
fails-IsMade h gid e = (stop, λ k. cc)

finish-IsMade : (h : Host) (gid : ℕ) (s : Option Stat) → h.bound ≡ s → IsMade h gid (finish h gid s)
unfolding finish
finish-IsMade h gid none b = (stop, λ k. cc)
finish-IsMade h gid (some s) b = checked (verify_socket_metadata s gid) refl h.listens
  where
    checked :
        (r : Result SocketError (Unit {0}))
        → verify_socket_metadata s gid ≡ r
        → (listens : Bool)
        → IsMade h gid (elim r [
          | err e ↦ record { actions = clean (some s); result = err e }
          | ok done ↦
              if listens
              then record { actions = []; result = ok tt }
              else record { actions = clean (some s); result = err os_error }
        ])
    checked (err e) v listens = (clean-OnlyOwn (some s), λ k. cc)
    checked (ok tt) v true = (stop, λ k. (s, b, verify_socket_metadata-IsGuarded s gid v))
    checked (ok tt) v false = (clean-OnlyOwn (some s), λ k. cc)

bind_socket-IsMade : (h : Host) (gid : ℕ) → IsMade h gid (bind_socket h gid)
unfolding bind_socket
bind_socket-IsMade h gid = tried h.binds
  where
    tried :
        (b : Bool) → IsMade h gid (if b then doing bind (finish h gid h.bound) else fails os_error)
    tried true = let (own, made) = finish-IsMade h gid h.bound refl in (binding own, made)
    tried false = fails-IsMade h gid os_error

replace-IsMade : (h : Host) (gid : ℕ) (s : Option Stat) → IsMade h gid (replace h gid s)
unfolding replace
replace-IsMade h gid none = bind_socket-IsMade h gid
replace-IsMade h gid (some s) = tried (is_own s) refl h.unlinks
  where
    tried :
        (own : Bool)
        → is_own s ≡ own
        → (unlinks : Bool)
        → IsMade h gid (
            if not own
            then fails unsafe_entry
            else if unlinks
            then doing (unlink s) (bind_socket h gid)
            else fails os_error)
    tried false o unlinks = fails-IsMade h gid unsafe_entry
    tried true o true = let (rest, made) = bind_socket-IsMade h gid in (removing o rest, made)
    tried true o false = fails-IsMade h gid os_error

in_directory-IsMade : (h : Host) (gid : ℕ) → IsMade h gid (in_directory h gid)
unfolding in_directory
in_directory-IsMade h gid =
    tried (not (is_directory h.directory.kind) || not (h.directory.uid == 0)) h.changes
  where
    tried :
        (unsafe changes : Bool)
        → IsMade h gid (
            if unsafe
            then fails unsafe_directory
            else if changes
            then doing (chown gid) (doing (chmod directory_mode) (replace h gid h.stale))
            else fails os_error)
    tried true changes = fails-IsMade h gid unsafe_directory
    tried false true =
        let (rest, made) = replace-IsMade h gid h.stale in (change_owner (change_mode rest), made)
    tried false false = fails-IsMade h gid os_error

-- Whether or not the socket is made, nothing is removed but sockets of root; and a socket that is
-- made is one of root and the group, with mode 0660, whichever entry was there before.
pub create_listening_socket-IsGuarded :
    (h : Host)
    → OnlyOwn (create_listening_socket h).actions
      × ((create_listening_socket h).result ≡ ok tt
          → (gid : ℕ) × (s : Stat) × (h.group ≡ some gid) × (h.bound ≡ some s) × IsGuarded gid s)
unfolding create_listening_socket
create_listening_socket-IsGuarded h = tried (not (h.euid == 0)) h.group refl h.opens
  where
    tried :
        (user : Bool) (group : Option ℕ)
        → h.group ≡ group
        → (opens : Bool)
        → OnlyOwn
            (if user then fails not_root else elim group [
              | none ↦ fails no_group
              | some gid ↦ if opens then in_directory h gid else fails os_error
            ]).actions
          × ((if user then fails not_root else elim group [
            | none ↦ fails no_group
            | some gid ↦ if opens then in_directory h gid else fails os_error
          ]).result
                ≡ ok tt
              → (gid : ℕ) × (s : Stat) × (h.group ≡ some gid)
                × (h.bound ≡ some s)
                × IsGuarded gid s)
    tried true group g opens = (stop, λ k. cc)
    tried false none g opens = (stop, λ k. cc)
    tried false (some gid) g false = (stop, λ k. cc)
    tried false (some gid) g true =
        let (own, made) = in_directory-IsMade h gid in
        (own, λ k. let (s, b, guarded) = made k in (gid, s, g, b, guarded))
