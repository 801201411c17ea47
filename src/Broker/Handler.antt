-- ===== src/Broker/Handler.antt =====
-- `SandboxBroker._handle_client`: what one connection does, as the events it leaves behind, and
-- `_active_requests` before and after.
use yantra_os.Prelude.{
  ℕ, ◌-◌, suc, String, Bool, true, false, not, none, some, List, [], ◌∷◌, ◌++◌, leb, ◌==◌,
  if◌then◌else◌,
}
use yantra_os.Prelude.Result.{Result, ok, err}
use yantra_os.Sandbox.Script.{Outcome, success, docker_error, validation_error, SandboxResult}
use yantra_os.Broker.Request.{
  Raised, cancelled, fault, Reader, read_bounded_request, decode_request,
}

abbrev pub max_active_requests : ℕ
max_active_requests = 2

pub data Phase : Type 0 where
  proposed executed failed : Phase

-- `audit_action`
pub record Action : Type 0 where
  pub script_sha256 : String
  pub peer_pid : ℕ
  pub peer_uid : ℕ

-- What a connection does that can be seen: an audit entry that is persisted, a script that is handed
-- to the sandbox, a result that reaches the peer.
pub data Event : Type 0 where
  audited : Phase → Action → Event
  ran : List ℕ → Event
  answered : SandboxResult → Event

-- What a broker is set up with: `_authorized_uid`, and the library calls.
pub record Host : Type 0 where
  pub authorized_uid : ℕ
  pub reader : Reader
  pub sha256_hex : List ℕ → String

-- What a connection meets: the peer's pid and uid, what it sends, what `log_action` returns for each
-- phase, what the sandbox returns, whether the two writes it can make get through, and whether the
-- close is not cancelled.
pub record Client : Type 0 where
  pub credentials : Result Raised (ℕ × ℕ)
  pub sends : Result Raised (List ℕ)
  pub log : Phase → Result Raised Bool
  pub execute : List ℕ → Result Raised SandboxResult
  pub first_write : Result Raised (Unit {0})
  pub second_write : Bool
  pub closes : Bool

-- A piece of the handler: what it returns or raises, and its events.
pub record Act (A : Type 0) : Type 0 where
  pub result : Result Raised A
  pub events : List Event

infixl 5 ◌>>=◌
unfoldable pub ◌>>=◌ : {A B : Type 0} → Act A → (A → Act B) → Act B
m >>= f = elim m.result [
  | ok a ↦ record { result = (f a).result; events = m.events ++ (f a).events }
  | err e ↦ record { result = err e; events = m.events }
]

abbrev pub pure : {A : Type 0} → A → Act A
pure a = record { result = ok a; events = [] }

abbrev pub error_result : Outcome → String → SandboxResult
error_result o message = record {
  outcome = o;
  exit_code = none;
  stdout = [];
  stderr = [];
  error = some message;
}

-- an event that is there where the call returned
abbrev pub if_ok : Result Raised (Unit {0}) → Event → List Event
if_ok (ok x) e = e ∷ []
if_ok (err x) e = []

abbrev pub if_kept : Result Raised Bool → Event → List Event
if_kept (ok true) e = e ∷ []
if_kept _ e = []

abbrev pub phase_of : Outcome → Phase
phase_of success = executed
phase_of _ = failed

module _ (h : Host) (c : Client) where
  unfoldable pub write_result : SandboxResult → Act (Unit {0})
  write_result r = record { result = c.first_write; events = if_ok c.first_write (answered r) }

  unfoldable pub log_action : Phase → Action → Act Bool
  log_action p a = record { result = c.log p; events = if_kept (c.log p) (audited p a) }

  -- `self._sandbox.execute(script)`
  unfoldable pub run_script : List ℕ → Act SandboxResult
  run_script s = record { result = c.execute s; events = ran s ∷ [] }

  abbrev pub action_of : ℕ → ℕ → List ℕ → Action
  action_of pid uid s = record { script_sha256 = h.sha256_hex s; peer_pid = pid; peer_uid = uid }

  -- the outcome's audit, and the answer
  unfoldable pub report : Action → SandboxResult → Act (Unit {0})
  unfolding ◌>>=◌ write_result log_action
  report a r = do
    kept ← log_action (phase_of r.outcome) a
    write_result (if kept then r else error_result docker_error "root sandbox outcome audit failed")

  -- from the decoded script on
  unfoldable pub perform : ℕ → ℕ → List ℕ → Act (Unit {0})
  unfolding ◌>>=◌ report run_script
  perform pid uid s = do
    kept ← log_action proposed (action_of pid uid s)
    if kept
        then run_script s >>= report (action_of pid uid s)
        else write_result (error_result docker_error "root sandbox proposal audit failed")

  unfoldable pub serve_decoded : ℕ → ℕ → Result Raised (List ℕ) → Act (Unit {0})
  unfolding perform
  serve_decoded pid uid (ok s) = perform pid uid s
  serve_decoded pid uid (err e) = write_result (error_result validation_error "request")

  -- `if not data: return`, and the decoding
  unfoldable pub serve_read : ℕ → ℕ → Result Raised (List ℕ) → Act (Unit {0})
  unfolding serve_decoded decode_request
  serve_read pid uid (err e) = record { result = err e; events = [] }
  serve_read pid uid (ok []) = pure tt
  serve_read pid uid (ok (b ∷ bs)) = serve_decoded pid uid (decode_request h.reader (b ∷ bs))

  -- the part of an admitted connection
  unfoldable pub serve : ℕ → ℕ → Act (Unit {0})
  unfolding serve_read read_bounded_request
  serve pid uid = serve_read pid uid (read_bounded_request c.sends)

  -- the answer of the `except` clauses; a cancelled task gives none
  unfoldable pub recover : Result Raised (Unit {0}) → List Event
  recover (ok x) = []
  recover (err cancelled) = []
  recover (err fault) =
      if c.second_write then answered (error_result docker_error "failed") ∷ [] else []
  recover (err _) =
      if c.second_write then answered (error_result validation_error "rejected") ∷ [] else []

  unfoldable pub all_events : Act (Unit {0}) → List Event
  unfolding recover
  all_events m = m.events ++ recover m.result

-- The first part of the handler, up to its first `await`: who connects, and whether there is a slot.
pub data Entry : Type 0 where
  unknown : Raised → Entry
  stranger busy : Entry
  admitted : ℕ → ℕ → Entry

unfoldable pub enter : Host → Client → ℕ → Entry
enter h c active = elim c.credentials [
  | err e ↦ unknown e
  | ok peer ↦
      if not (peer.1 == h.authorized_uid)
      then stranger
      else if leb max_active_requests active
      then busy
      else admitted peer.0 peer.1
]

-- `_active_requests` when the first part of the handler is over
abbrev pub after_entry : Entry → ℕ → ℕ
after_entry (admitted pid uid) active = suc active
after_entry _ active = active

abbrev pub is_admitted : Entry → Bool
is_admitted (admitted pid uid) = true
is_admitted _ = false

-- The `finally` block: a close that is cancelled raises before the slot is given back.
unfoldable pub leave : Bool → Bool → ℕ → ℕ
leave was_admitted closes active =
    if closes then if was_admitted then active - 1 else active else active

-- what the handler does after its first part
unfoldable pub events_of : Host → Client → Entry → List Event
unfolding all_events serve write_result
events_of h c (unknown e) = recover h c (err e)
events_of h c stranger = []
events_of h c busy =
    all_events h c (write_result h c (error_result docker_error "sandbox broker is busy"))
events_of h c (admitted pid uid) = all_events h c (serve h c pid uid)

pub record Handled : Type 0 where
  pub events : List Event
  pub active : ℕ

-- `_handle_client`, where no other connection runs in between
unfoldable pub handle_client : Host → Client → ℕ → Handled
unfolding enter events_of leave
handle_client h c active =
    let entry = enter h c active in
    record {
      events = events_of h c entry;
      active = leave (is_admitted entry) c.closes (after_entry entry active);
    }
