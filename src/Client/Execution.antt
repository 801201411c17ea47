-- ===== src/Client/Execution.antt =====
-- `_open_verified`, `initialize` and `execute` of the client.
use yantra_os.Prelude.{
  ℕ, ◌*◌, ◌+◌, ◌≡◌, refl, ap, String, Bool, true, false, not, ◌&&◌, ◌||◌, Option, none, some, List,
  [], ◌∷◌, ◌++◌, ltb, ◌==◌, eqb→eq, if◌then◌else◌,
}
use yantra_os.Prelude.Lists.{length, any}
use yantra_os.Prelude.Result.{Result, ok, err}
use yantra_os.Json.{Json}
use yantra_os.Files.{Stat, is_socket}
use yantra_os.Client.Answer.{
  SandboxResult, ExecOutcome, docker_error, validation_error, Whole, below, sandbox_image,
  ResponseError, result_from_response,
}

abbrev pub max_script_bytes : ℕ
max_script_bytes = 65536

abbrev pub max_request_bytes : ℕ
max_request_bytes = max_script_bytes * 6 + 64

abbrev pub max_response_bytes : ℕ
max_response_bytes = 12 * 1048576 + 65536

pub data SandboxStatus : Type 0 where
  healthy degraded unavailable : SandboxStatus

-- A script as its characters, with the tests that are made of it: `strip` leaves nothing of it, and the
-- length of its UTF-8 encoding.
pub record Library : Type 0 where
  pub is_blank : List ℕ → Bool
  pub utf8_length : List ℕ → ℕ
  pub sha256_16 : List ℕ → String
  pub encode_request : List ℕ → List ℕ
  pub loads : List ℕ → Option Json
  pub to_float : Whole → ℕ

-- What an execution meets: what `stat` reports of the socket's path, none where it raises; whether the
-- connection is made; the uid of the peer, none where it cannot be read; whether the request is
-- written, whether its end can be marked, and the line of the answer, none where the read raises.
pub record Broker : Type 0 where
  pub path : Option Stat
  pub connects : Bool
  pub peer_uid : Option ℕ
  pub writes : Bool
  pub can_write_eof : Bool
  pub answer : Option (List ℕ)

unfoldable pub is_valid_script : Library → List ℕ → Bool
unfolding any
is_valid_script l script =
    not (l.is_blank script)
    && not (any (λ c. c == 0) script)
    && not (ltb max_script_bytes (l.utf8_length script))

abbrev pub is_root_socket : Option Stat → Bool
is_root_socket none = false
is_root_socket (some s) = is_socket s.kind && s.uid == 0

abbrev pub is_root : Option ℕ → Bool
is_root none = false
is_root (some uid) = uid == 0

-- whether `_open_verified` returns a connection
unfoldable pub open_verified : Broker → Bool
open_verified b = is_root_socket b.path && b.connects && is_root b.peer_uid

-- What a call leaves behind: the request that is sent, the status, and the result.
pub record Called : Type 0 where
  pub sent : Option (List ℕ)
  pub status : SandboxStatus
  pub result : SandboxResult

-- a result that holds a hash and an error alone; the error's text is left out
abbrev pub failed_result : ExecOutcome → String → SandboxResult
failed_result o hash = record {
  outcome = o;
  exit_code = below 0;
  stdout = "";
  stderr = "";
  duration_secs = 0;
  container_id = "";
  image = sandbox_image;
  script_hash = hash;
  error = some "";
}

abbrev pub degrades : Option (List ℕ) → String → Called
degrades sent hash = record {
  sent = sent;
  status = degraded;
  result = failed_result docker_error hash;
}

abbrev pub status_of : ExecOutcome → SandboxStatus
status_of docker_error = degraded
status_of _ = healthy

abbrev pub received : List ℕ → String → Result ResponseError SandboxResult → Called
received request hash (err e) = degrades (some request) hash
received request hash (ok r) = record {
  sent = some request;
  status = status_of r.outcome;
  result = r;
}

-- `response.endswith(b"\n")`
unfoldable pub ends_line : List ℕ → Bool
ends_line [] = false
ends_line (b ∷ []) = b == 10
ends_line (b ∷ c ∷ r) = ends_line (c ∷ r)

-- `result_from_response` of a line that is read
unfoldable pub read_answer : Library → List ℕ → String → List ℕ → Called
unfolding ends_line result_from_response
read_answer l request hash line =
    if not (ends_line line) || ltb max_response_bytes (length line)
    then degrades (some request) hash
    else elim (l.loads line) [
      | none ↦ degrades (some request) hash
      | some payload ↦ received request hash (result_from_response l.to_float payload)
    ]

-- from the verified connection on
unfoldable pub ask : Library → Broker → List ℕ → String → Called
unfolding read_answer
ask l b request hash =
    if ltb max_request_bytes (length request)
    then degrades none hash
    else if not b.writes || not b.can_write_eof
    then degrades (some request) hash
    else elim b.answer [
      | none ↦ degrades (some request) hash
      | some line ↦ read_answer l request hash line
    ]

-- `execute` of a text, under the status before it
unfoldable pub execute : Library → Broker → SandboxStatus → List ℕ → Called
unfolding is_valid_script open_verified ask
execute l b before script =
    if not (is_valid_script l script)
    then record { sent = none; status = before; result = failed_result validation_error "" }
    else if not (open_verified b)
    then degrades none (l.sha256_16 script)
    else ask l b (l.encode_request script ++ 10 ∷ []) (l.sha256_16 script)

-- `initialize`
unfoldable pub initialize : Broker → SandboxStatus
unfolding open_verified
initialize b = if open_verified b then healthy else degraded

abbrev sent_by : Called → Option (List ℕ)
sent_by c = c.sent

-- A broker that a script may be sent to: a socket of root, with root at its other end.
abbrev pub IsRoots : Broker → Type 0
IsRoots b =
    (s : Stat) × (b.path ≡ some s) × (is_socket s.kind ≡ true) × (s.uid ≡ 0) × (b.peer_uid ≡ some 0)

both : (a c : Bool) → a && c ≡ true → (a ≡ true) × (c ≡ true)
both true true h = (refl, refl)
both true false h = cc
both false c h = cc

socket-IsRoots :
    (path : Option Stat)
    → is_root_socket path ≡ true
    → (s : Stat) × (path ≡ some s) × (is_socket s.kind ≡ true) × (s.uid ≡ 0)
socket-IsRoots none h = cc
socket-IsRoots (some s) h =
    let (kind, uid) = both (is_socket s.kind) (s.uid == 0) h in (s, refl, kind, eqb→eq s.uid 0 uid)

peer-root : (uid : Option ℕ) → is_root uid ≡ true → uid ≡ some 0
peer-root none h = cc
peer-root (some u) h = ap some (eqb→eq u 0 h)

open_verified-IsRoots : (b : Broker) → open_verified b ≡ true → IsRoots b
unfolding open_verified
open_verified-IsRoots b h =
    let (front, peer) = both (is_root_socket b.path && b.connects) (is_root b.peer_uid) h in
    let (path, connected) = both (is_root_socket b.path) b.connects front in
    let (s, p, kind, uid) = socket-IsRoots b.path path in
    (s, p, kind, uid, peer-root b.peer_uid peer)

-- A script is sent only where it is valid and the broker is root's.
pub execute-IsRoots :
    (l : Library) (b : Broker) (before : SandboxStatus) (script sent : List ℕ)
    → (execute l b before script).sent ≡ some sent
    → (is_valid_script l script ≡ true) × IsRoots b
unfolding execute
execute-IsRoots l b before script sent h =
    guarded (is_valid_script l script) refl (open_verified b) refl h
  where
    guarded :
        (valid : Bool)
        → is_valid_script l script ≡ valid
        → (verified : Bool) → open_verified b ≡ verified
        → sent_by (
            if not valid
            then record { sent = none; status = before; result = failed_result validation_error "" }
            else if not verified
            then degrades none (l.sha256_16 script)
            else ask l b (l.encode_request script ++ 10 ∷ []) (l.sha256_16 script))
          ≡ some sent
        → (is_valid_script l script ≡ true) × IsRoots b
    guarded true v true o k = (v, open_verified-IsRoots b o)
    guarded true v false o k = cc
    guarded false v verified o k = cc
