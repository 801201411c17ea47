-- ===== src/Broker/Execution.antt =====
-- What a script that reaches the sandbox has passed, and what a peer that reads success may rely on.
use yantra_os.Prelude.{
  ℕ, ◌<◌, ◌≡◌, refl, sym, ap, ◌∙◌, Bool, true, false, not, List, [], ◌∷◌, ◌++◌, leb, ◌==◌,
  if◌then◌else◌, subst, arith, ◌⊎◌, inl, inr, Bool-cases,
}
use yantra_os.Prelude.Result.{Result, ok, err, Result-cases}
use yantra_os.Sandbox.Script.{docker_error, validation_error, SandboxResult}
use yantra_os.Broker.Request.{
  Raised, request_error, timed_out, cancelled, fault, read_bounded_request, decode_request,
}
use yantra_os.Broker.Handler.{
  Phase, proposed, Action, Event, audited, ran, answered, Host, Client, Act, ◌>>=◌, error_result,
  phase_of, write_result, log_action, run_script, action_of, report, perform, serve_decoded,
  serve_read, serve, recover, all_events, enter, Entry, unknown, stranger, busy, admitted,
  events_of, handle_client, max_active_requests, if_ok, if_kept,
}

-- The scripts that the sandbox was given, in order.
unfoldable pub scripts : List Event → List (List ℕ)
scripts [] = []
scripts (ran s ∷ es) = s ∷ scripts es
scripts (audited p a ∷ es) = scripts es
scripts (answered r ∷ es) = scripts es

-- What a connection has passed whose events are those of a run of a script.
pub record IsApproved (h : Host) (c : Client) (active : ℕ) (s : List ℕ) (es : List Event)
    : Type 0 where
  pub pid : ℕ
  pub peer : c.credentials ≡ ok (pid, h.authorized_uid)
  pub slot : active < max_active_requests
  pub bytes : List ℕ
  pub read : read_bounded_request c.sends ≡ ok bytes
  pub decoded : decode_request h.reader bytes ≡ ok s
  pub rest : List Event
  pub order : es ≡ audited proposed (action_of h c pid h.authorized_uid s) ∷ ran s ∷ rest
  pub once : scripts rest ≡ []

scripts-append : (xs ys : List Event) → scripts (xs ++ ys) ≡ scripts xs ++ scripts ys
unfolding scripts
scripts-append [] ys = refl
scripts-append (ran s ∷ es) ys = ap (λ r. s ∷ r) (scripts-append es ys)
scripts-append (audited p a ∷ es) ys = scripts-append es ys
scripts-append (answered r ∷ es) ys = scripts-append es ys

-- events without a script
abbrev IsQuiet : List Event → Type 0
IsQuiet es = scripts es ≡ []

IsQuiet-append : (xs ys : List Event) → IsQuiet xs → IsQuiet ys → IsQuiet (xs ++ ys)
IsQuiet-append xs ys p q = scripts-append xs ys ∙ ap (λ r. r ++ scripts ys) p ∙ q

if_ok-IsQuiet : (w : Result Raised (Unit {0})) (r : SandboxResult) → IsQuiet (if_ok w (answered r))
unfolding scripts
if_ok-IsQuiet (ok x) r = refl
if_ok-IsQuiet (err e) r = refl

if_kept-IsQuiet :
    (k : Result Raised Bool) (p : Phase) (a : Action) → IsQuiet (if_kept k (audited p a))
unfolding scripts
if_kept-IsQuiet (ok true) p a = refl
if_kept-IsQuiet (ok false) p a = refl
if_kept-IsQuiet (err e) p a = refl

bind-IsQuiet :
    {A B : Type 0} (m : Act A) (f : A → Act B)
    → IsQuiet m.events
    → ((a : A) → IsQuiet (f a).events)
    → IsQuiet (m >>= f).events
unfolding ◌>>=◌
bind-IsQuiet m f p q = elim (Result-cases m.result) [
  | inl (a, e) ↦ rw e (IsQuiet-append m.events (f a).events p (q a))
  | inr (x, e) ↦ rw e p
]

module _ (h : Host) (c : Client) where
  write_result-IsQuiet : (r : SandboxResult) → IsQuiet (write_result h c r).events
  unfolding write_result
  write_result-IsQuiet r = if_ok-IsQuiet c.first_write r

  answer-IsQuiet : (b : Bool) (r : SandboxResult) → IsQuiet (if b then answered r ∷ [] else [])
  unfolding scripts
  answer-IsQuiet true r = refl
  answer-IsQuiet false r = refl

  recover-IsQuiet : (r : Result Raised (Unit {0})) → IsQuiet (recover h c r)
  unfolding recover scripts
  recover-IsQuiet (ok x) = refl
  recover-IsQuiet (err cancelled) = refl
  recover-IsQuiet (err fault) = answer-IsQuiet c.second_write (error_result docker_error "failed")
  recover-IsQuiet (err request_error) =
      answer-IsQuiet c.second_write (error_result validation_error "rejected")
  recover-IsQuiet (err timed_out) =
      answer-IsQuiet c.second_write (error_result validation_error "rejected")

  report-IsQuiet : (a : Action) (r : SandboxResult) → IsQuiet (report h c a r).events
  unfolding report log_action
  report-IsQuiet a r =
      bind-IsQuiet (log_action h c (phase_of r.outcome) a)
        (λ kept.
          write_result h c
            (if kept then r else error_result docker_error "root sandbox outcome audit failed"))
        (if_kept-IsQuiet (c.log (phase_of r.outcome)) (phase_of r.outcome) a)
        (λ kept.
          write_result-IsQuiet
            (if kept then r else error_result docker_error "root sandbox outcome audit failed"))

  -- the run of a script, from its audit entry on
  abbrev RunsOnce : ℕ → ℕ → List ℕ → List Event → Type 0
  RunsOnce pid uid s es =
      (rest : List Event) × (es ≡ audited proposed (action_of h c pid uid s) ∷ ran s ∷ rest)
      × IsQuiet rest

  run-RunsOnce :
      (a : Action) (s : List ℕ)
      → (rest : List Event) × ((run_script h c s >>= report h c a).events ≡ ran s ∷ rest)
        × IsQuiet rest
  unfolding ◌>>=◌ run_script scripts
  run-RunsOnce a s = elim (Result-cases (c.execute s)) [
    | inl (r, e) ↦ rw e ((report h c a r).events, refl, report-IsQuiet a r)
    | inr (x, e) ↦ rw e ([], refl, refl)
  ]

  -- what follows the answer of the proposal's audit
  perform-proposed :
      (pid uid : ℕ) (s : List ℕ) (k : Result Raised Bool)
      → let a = action_of h c pid uid s in
        let m : Act Bool = record { result = k; events = if_kept k (audited proposed a) } in
        let more : Act (Unit {0}) = m >>= λ kept.
        if kept
        then run_script h c s >>= report h c a
        else write_result h c (error_result docker_error "root sandbox proposal audit failed") in
        IsQuiet more.events ⊎ RunsOnce pid uid s more.events
  unfolding ◌>>=◌ scripts
  perform-proposed pid uid s (err x) = inl refl
  perform-proposed pid uid s (ok true) =
      let (rest, order, quiet) = run-RunsOnce (action_of h c pid uid s) s in
      inr (rest, ap (λ r. audited proposed (action_of h c pid uid s) ∷ r) order, quiet)
  perform-proposed pid uid s (ok false) =
      inl (write_result-IsQuiet (error_result docker_error "root sandbox proposal audit failed"))

  perform-RunsOnce :
      (pid uid : ℕ) (s : List ℕ)
      → IsQuiet (perform h c pid uid s).events ⊎ RunsOnce pid uid s (perform h c pid uid s).events
  unfolding perform log_action
  perform-RunsOnce pid uid s = perform-proposed pid uid s (c.log proposed)

  -- an admitted connection is quiet, or has run the script that it decoded
  abbrev Served : ℕ → ℕ → Result Raised (List ℕ) → List Event → Type 0
  Served pid uid read es =
      IsQuiet es
      ⊎ ((bytes : List ℕ) × (s : List ℕ) × (read ≡ ok bytes)
          × (decode_request h.reader bytes ≡ ok s)
          × RunsOnce pid uid s es)

  serve_read-Served :
      (pid uid : ℕ) (read : Result Raised (List ℕ))
      → Served pid uid read (serve_read h c pid uid read).events
  unfolding serve_read scripts
  serve_read-Served pid uid (err e) = inl refl
  serve_read-Served pid uid (ok []) = inl refl
  serve_read-Served pid uid (ok (b ∷ bs)) = elim (Result-cases (decode_request h.reader (b ∷ bs))) [
    | inr (x, e) ↦ rw e (
        inl
          (unfold serve_decoded in write_result-IsQuiet (error_result validation_error "request")))
    | inl (s, e) ↦ rw e (
        unfold serve_decoded in
        elim (perform-RunsOnce pid uid s) [
          | inl quiet ↦ inl quiet
          | inr once ↦ inr ((b ∷ bs), s, refl, e, once)
        ])
  ]

  all_events-Served :
      (pid uid : ℕ) (read : Result Raised (List ℕ)) (m : Act (Unit {0}))
      → Served pid uid read m.events
      → Served pid uid read (all_events h c m)
  unfolding all_events scripts
  all_events-Served pid uid read m (inl quiet) =
      inl (IsQuiet-append m.events (recover h c m.result) quiet (recover-IsQuiet m.result))
  all_events-Served pid uid read m (inr (bytes, s, e, d, (rest, order, quiet))) = inr (
    bytes,
    s,
    e,
    d,
    (
      rest ++ recover h c m.result,
      ap (λ r. r ++ recover h c m.result) order,
      IsQuiet-append rest (recover h c m.result) quiet (recover-IsQuiet m.result),
    ),
  )

  IsApproved-scripts :
      (active pid : ℕ)
      → c.credentials ≡ ok (pid, h.authorized_uid)
      → active < max_active_requests
      → (es : List Event) → Served pid h.authorized_uid (read_bounded_request c.sends) es
      → (s : List ℕ) (ss : List (List ℕ)) → scripts es ≡ s ∷ ss
      → IsApproved h c active s es × (ss ≡ [])
  unfolding scripts
  IsApproved-scripts active pid peer slot es (inl quiet) s ss h' = cc
  IsApproved-scripts active pid peer slot es (inr (bytes, t, read, decoded, (rest, order, quiet))) s
        ss h' =
      let both : t ∷ scripts rest ≡ s ∷ ss = sym (ap scripts order) ∙ h' in
      let same : t ≡ s = cc in
      let none_left : ss ≡ [] = cc in
      (
        subst (λ x. IsApproved h c active x es) same
            record {
              pid = pid;
              peer = peer;
              slot = slot;
              bytes = bytes;
              read = read;
              decoded = decoded;
              rest = rest;
              order = order;
              once = quiet;
            },
        none_left,
      )

-- the checks of a peer whose credentials are known
enter-known :
    (h : Host) (active pid uid : ℕ) (peer : ℕ × ℕ)
    → (if not (peer.1 == h.authorized_uid)
        then stranger
        else if leb max_active_requests active
        then busy
        else admitted peer.0 peer.1)
      ≡ admitted pid uid
    → (peer ≡ (pid, h.authorized_uid)) × (uid ≡ h.authorized_uid) × (active < max_active_requests)
enter-known h active pid uid peer e = elim (Bool-cases (peer.1 == h.authorized_uid)) [
  | inr other ↦ let k = rw other at e in cc
  | inl same ↦ elim (Bool-cases (leb max_active_requests active)) [
    | inl full ↦ let k = rw (same, full) at e in cc
    | inr free ↦
        let k : admitted peer.0 peer.1 ≡ admitted pid uid = rw (same, free) at e in
        let its_uid : peer.1 ≡ h.authorized_uid = ground arith in
        let first : peer.0 ≡ pid = cc in
        let second : uid ≡ h.authorized_uid = cc in
        ((λ i. (first i, its_uid i)), second, ground arith)
  ]
]

pub enter-admitted :
    (h : Host) (c : Client) (active pid uid : ℕ)
    → enter h c active ≡ admitted pid uid
    → (c.credentials ≡ ok (pid, h.authorized_uid))
      × (uid ≡ h.authorized_uid)
      × (active < max_active_requests)
unfolding enter
enter-admitted h c active pid uid e = elim (Result-cases c.credentials) [
  | inr (x, q) ↦ let k = rw q at e in cc
  | inl (peer, q) ↦
      let (p, same, slot) = enter-known h active pid uid peer (rw q at e) in
      (q ∙ ap (λ x. ok x) p, same, slot)
]

-- A script reaches the sandbox only in a connection of the authorized user that found a slot, whose
-- bytes decode to that script and whose proposal has been persisted in the audit log before; it is
-- the only script of the connection.
pub executed-IsApproved :
    (h : Host) (c : Client) (active : ℕ) (s : List ℕ) (ss : List (List ℕ))
    → scripts (handle_client h c active).events ≡ s ∷ ss
    → IsApproved h c active s (handle_client h c active).events × (ss ≡ [])
unfolding handle_client events_of scripts all_events serve
executed-IsApproved h c active s ss = go (enter h c active) refl
  where
    go :
        (entry : Entry)
        → enter h c active ≡ entry
        → scripts (events_of h c entry) ≡ s ∷ ss
        → IsApproved h c active s (events_of h c entry) × (ss ≡ [])
    go (unknown x) e k = let quiet = recover-IsQuiet h c (err x) in cc
    go stranger e k = cc
    go busy e k =
        let m = write_result h c (error_result docker_error "sandbox broker is busy") in
        let quiet =
          IsQuiet-append m.events (recover h c m.result)
            (write_result-IsQuiet h c (error_result docker_error "sandbox broker is busy"))
            (recover-IsQuiet h c m.result) in
        cc
    go (admitted pid uid) e k =
        let (peer, same, slot) = enter-admitted h c active pid uid e in
        let served =
          subst
            (λ u.
              Served h c pid u (read_bounded_request c.sends) (events_of h c (admitted pid uid)))
            same
            (all_events-Served h c pid uid (read_bounded_request c.sends) (serve h c pid uid)
              (serve_read-Served h c pid uid (read_bounded_request c.sends))) in
        IsApproved-scripts h c active pid peer slot (events_of h c (admitted pid uid)) served s ss k
