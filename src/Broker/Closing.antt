-- ===== src/Broker/Closing.antt =====
-- What a start of the broker, and the close that always follows it in `_run`, leave at the socket's path.
use yantra_os.Prelude.{ℕ, ◌%◌, ◌≡◌, ◌≢◌, ◌⊎◌, true, Option, none, some}
use yantra_os.Prelude.Result.{Result, ok, err}
use yantra_os.Files.{Stat, socket}
use yantra_os.Sandbox.Engine.{is_operational}
use yantra_os.Broker.Lifecycle.{StartError, Probe, refused, absent, Startup, Broker, close}

-- A free path, or a socket of this user at which the probe ended in one of the ways of P.
abbrev pub IsFree : (Probe → Type 0) → Startup → Option Stat → Type 0
IsFree P s path =
    (path ≡ none)
    ⊎ ((e : Stat) × (path ≡ some e) × (e.kind ≡ socket) × (e.uid ≡ s.euid) × P s.probe)

abbrev pub Refused : Probe → Type 0
Refused p = p ≡ refused

abbrev pub Unserved : Probe → Type 0
Unserved p = (p ≡ refused) ⊎ (p ≡ absent)

-- No socket of this user stands at the path.
abbrev pub NotOwn : ℕ → Option Stat → Type 0
NotOwn euid path = (e : Stat) → path ≡ some e → e.kind ≡ socket → e.uid ≢ euid

-- The path holds an entry of root and the group with mode 660.
abbrev pub IsGuarded : Startup → Option Stat → Type 0
IsGuarded s path =
    (e : Stat) × (path ≡ some e) × (e.uid ≡ 0) × (e.gid ≡ s.socket_gid) × (e.mode % 4096 ≡ 0o660)

-- What holds of the broker that a start leaves, if it returns.
abbrev pub Returned : Startup → Option Stat → Result StartError (Unit {0}) → Broker → Type 0
Returned s p (err e) t = Unit
Returned s p (ok done) t =
    (is_operational t.backend ≡ true) × (t.serving ≡ true) × IsGuarded s t.path × IsFree Refused s p

-- What a start leads to from a path p on: the broker that it leaves, and the path once it is closed.
abbrev pub Started : Startup → Option Stat → Result StartError (Unit {0}) × Broker → Type 0
Started s p o =
    Returned s p o.0 o.1
    × (((close s.euid o.1).path ≡ p)
        ⊎ (IsFree Unserved s p × NotOwn s.euid (close s.euid o.1).path))
