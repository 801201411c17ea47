-- ===== src/Control/Inject.antt =====
-- `inject` of ipc_server.py, on the parts of the engine that it changes.
use yantra_os.Prelude.{
  ℕ, ◌≤◌, Bool, true, false, ◌||◌, not, inl, inr, Bool-cases, List, [], ◌∷◌, ◌++◌, String, str_eq,
  leb, leb_false→lt, arith, if◌then◌else◌,
}
use yantra_os.Prelude.Lists.{length, length-append}
use yantra_os.Consent.Ledger.{granted, revoked}

abbrev pub max_pending_injections : ℕ
max_pending_injections = 10

-- The engine's task queue and its records of the user; `consents` are the changes of consent that were
-- recorded, in order.
pub record Engine : Type 0 where
  pub pending_injections : List String
  pub conversation_history : List String
  pub notifications : List String
  pub thought_stream : List String
  pub consents : List String

-- The answer to a command: accepted, accepted with a remote purge, refused since the queue is full,
-- or the exception of `record_consent`.
pub data Reply : Type 0 where
  accepted purged queue_full consent_failed : Reply

abbrev pub forget : Engine → Engine
forget e = record e {
  pending_injections = [];
  conversation_history = [];
  notifications = [];
  thought_stream = [];
}

-- a change of consent; `records` is whether `record_consent` returns
unfoldable pub inject_consent : Bool → String → Engine → Reply × Engine
inject_consent records cmd e =
    let e' = record e { consents = e.consents ++ cmd ∷ [] } in
    if not records
    then (consent_failed, e)
    else if str_eq cmd revoked
    then (purged, forget e')
    else (accepted, e')

unfoldable pub inject_task : String → Engine → Reply × Engine
inject_task cmd e =
    if leb max_pending_injections (length e.pending_injections)
    then (queue_full, e)
    else (accepted, record e { pending_injections = e.pending_injections ++ cmd ∷ [] })

unfoldable pub inject : Bool → String → Engine → Reply × Engine
unfolding inject_consent inject_task
inject records cmd e =
    if str_eq cmd granted || str_eq cmd revoked
    then inject_consent records cmd e
    else inject_task cmd e

-- the queue of user tasks is within its limit
abbrev pub IsQueued : Engine → Type 0
IsQueued e = length e.pending_injections ≤ max_pending_injections

inject_consent-IsQueued :
    (records : Bool) (cmd : String) (e : Engine)
    → IsQueued e
    → IsQueued (inject_consent records cmd e).1
unfolding inject_consent
inject_consent-IsQueued false cmd e h = h
inject_consent-IsQueued true cmd e h = elim (Bool-cases (str_eq cmd revoked)) [
  | inl gone ↦ simp gone (omega arith)
  | inr stays ↦ simp stays h
]

inject_task-IsQueued : (cmd : String) (e : Engine) → IsQueued e → IsQueued (inject_task cmd e).1
unfolding inject_task
inject_task-IsQueued cmd e h =
    elim (Bool-cases (leb max_pending_injections (length e.pending_injections))) [
      | inl full ↦ simp full h
      | inr room ↦
          let below = leb_false→lt max_pending_injections (length e.pending_injections) room in
          simp room (omega (arith, length-append e.pending_injections (cmd ∷ [])))
    ]

-- No command, of consent or a task, takes the queue of user tasks over its limit.
pub inject-IsQueued :
    (records : Bool) (cmd : String) (e : Engine) → IsQueued e → IsQueued (inject records cmd e).1
unfolding inject
inject-IsQueued records cmd e h = elim (Bool-cases (str_eq cmd granted || str_eq cmd revoked)) [
  | inl consent ↦ simp consent (inject_consent-IsQueued records cmd e h)
  | inr task ↦ simp task (inject_task-IsQueued cmd e h)
]
