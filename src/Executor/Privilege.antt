-- ===== src/Executor/Privilege.antt =====
-- What `_process_intent` may do as root, whatever its payload is: a protocol of audit entries and
-- commands that its events keep to.
use yantra_os.Prelude.{
  ℕ, zero, suc, ◌&&◌, not, ◌≡◌, refl, sym, subst₂, Bool, true, false, List, [], ◌∷◌, String,
  if◌then◌else◌,
}
use yantra_os.Prelude.Result.{Result, ok, err}
use yantra_os.Json.{Json}
use yantra_os.Executor.Intent.{Refusal, parse_intent, parse_intent-only, build_command}
use yantra_os.Executor.Dispatch.{
  Machine, Child, ends, overruns, not_started, stuck, exited, killed, proposed, executed, failed,
  Event, logged, ran, snapshot_command, audited, dispatch, after_snapshot, process_parsed, missing,
  response, fatal, audit_unavailable, check_live, execute_locked_intent, process_intent,
  execute_preflight_snapshot, run_bounded_command, outcome, returns, judge_snapshot, snapshot_limit,
}

abbrev pub restart_command : List String
restart_command = "/usr/bin/systemctl" ∷ "restart" ∷ "yantra.service" ∷ []

-- A command that ends with status 0.
abbrev pub Succeeds : Machine → List String → Type 0
Succeeds m cmd =
    (out : List (List ℕ)) × (errors : List (List ℕ)) × (m.child cmd ≡ ends (exited 0) out errors)

pub data Stage : Type 0 where
  idle granted protected : Stage

-- The events that may still come: nothing is done before a proposal is kept; on an installed machine a
-- snapshot succeeds before the one command that mutates, which is run once and whose outcome is put to
-- the log; EXECUTED is logged of a command that succeeds only.
pub data Permits (m : Machine) : Stage → List Event → Type 0 where
  refuse : Permits m idle []
  deny : m.log proposed ≡ false → Permits m idle (logged proposed false ∷ [])
  propose :
      {es : List Event}
      → m.log proposed ≡ true
      → Permits m granted es
      → Permits m idle (logged proposed true ∷ es)
  live : {es : List Event} → m.live_iso ≡ true → Permits m protected es → Permits m granted es
  snapshot :
      {es : List Event}
      → Succeeds m (snapshot_command m)
      → Permits m protected es
      → Permits m granted (ran (snapshot_command m) ∷ es)
  no_snapshot : Permits m granted (logged failed (m.log failed) ∷ [])
  bad_snapshot : Permits m granted (ran (snapshot_command m) ∷ logged failed (m.log failed) ∷ [])
  restart :
      Succeeds m restart_command
      → Permits m protected (ran restart_command ∷ logged executed (m.log executed) ∷ [])
  restart_failed : Permits m protected (ran restart_command ∷ logged failed (m.log failed) ∷ [])

-- the end of a command that is run, and of the snapshot
dispatch-Permits :
    (m : Machine) → Permits m protected (dispatch m "RESTART_DAEMON" "yantra.service").events
unfolding dispatch audited outcome run_bounded_command build_command
dispatch-Permits m = ended (m.child restart_command) refl
  where
    ended :
        (c : Child)
        → m.child restart_command ≡ c
        → Permits m protected (
            ran restart_command
            ∷ (audited m "RESTART_DAEMON" "yantra.service" (
                outcome m "RESTART_DAEMON" "yantra.service"
                  (run_bounded_command c 4096 2048))).events)
    ended (ends (exited zero) out errors) h = restart (out, errors, h)
    ended (ends (exited (suc n)) out errors) h = restart_failed
    ended (ends (killed n) out errors) h = restart_failed
    ended overruns h = restart_failed
    ended not_started h = restart_failed
    ended stuck h = restart_failed

snapshot-Permits :
    (m : Machine)
    → Permits m granted
        (after_snapshot m "RESTART_DAEMON" "yantra.service" (execute_preflight_snapshot m)).events
unfolding after_snapshot execute_preflight_snapshot audited run_bounded_command judge_snapshot
snapshot-Permits m =
    tried (not m.wrapper && not m.snapshot_module) (m.child (snapshot_command m)) refl
  where
    tried :
        (absent : Bool) (c : Child)
        → m.child (snapshot_command m) ≡ c
        → Permits m granted
            (after_snapshot m "RESTART_DAEMON" "yantra.service" (
              if absent then record { events = []; result = err missing } else record {
                events = ran (snapshot_command m) ∷ [];
                result = judge_snapshot m (run_bounded_command c snapshot_limit snapshot_limit);
              })).events
    tried true c h = no_snapshot
    tried false (ends (exited zero) out errors) h = snapshot (out, errors, h) (dispatch-Permits m)
    tried false (ends (exited (suc n)) out errors) h = bad_snapshot
    tried false (ends (killed n) out errors) h = bad_snapshot
    tried false overruns h = bad_snapshot
    tried false not_started h = bad_snapshot
    tried false stuck h = bad_snapshot

execute_locked_intent-Permits :
    (m : Machine)
    → Permits m idle (execute_locked_intent m "RESTART_DAEMON" "yantra.service").events
unfolding execute_locked_intent check_live
execute_locked_intent-Permits m = given (m.log proposed) refl m.live_iso refl
  where
    given :
        (kept : Bool)
        → m.log proposed ≡ kept
        → (is_live : Bool) → m.live_iso ≡ is_live
        → Permits m idle (
            logged proposed kept
            ∷ (if not kept
                then returns (record {
                  events = [];
                  result = response fatal "RESTART_DAEMON" "yantra.service" audit_unavailable;
                })
                else if is_live
                then check_live m "RESTART_DAEMON" "yantra.service"
                else after_snapshot m "RESTART_DAEMON" "yantra.service"
                    (execute_preflight_snapshot m)).events)
    given false k is_live l = deny k
    given true k true l = propose k (live l (dispatch-Permits m))
    given true k false l = propose k (snapshot-Permits m)

-- Whatever the payload is, what `_process_intent` does keeps to the protocol.
pub process_intent-Permits :
    (m : Machine) (payload : Json) → Permits m idle (process_intent m payload).events
unfolding process_intent
process_intent-Permits m payload = parsed (parse_intent payload) refl
  where
    parsed :
        (r : Result Refusal (String × String))
        → parse_intent payload ≡ r
        → Permits m idle (process_parsed m payload r).events
    parsed (err e) h = refuse
    parsed (ok (intent, target)) h =
        let (i, t) = parse_intent-only payload intent target h in
        subst₂ (λ i t. Permits m idle (execute_locked_intent m i t).events) (sym i) (sym t)
          (execute_locked_intent-Permits m)
