-- ===== src/Executor/Success.antt =====
-- What a response of `_process_intent` with the status SUCCESS says.
use yantra_os.Prelude.{
  zero, suc, not, ◌≡◌, refl, sym, subst, subst₂, Bool, true, false, [], String, if◌then◌else◌,
}
use yantra_os.Prelude.Result.{Result, ok, err}
use yantra_os.Json.{Json}
use yantra_os.Executor.Intent.{Refusal, parse_intent, parse_intent-only, build_command}
use yantra_os.Executor.Dispatch.{
  Machine, Child, ends, overruns, not_started, stuck, exited, killed, executed, Run, Response,
  audited, dispatch, after_snapshot, process_parsed, response, fatal, audit_unavailable, check_live,
  execute_locked_intent, process_intent, execute_preflight_snapshot, run_bounded_command, outcome,
  success, returns, phase_of, snapshot_failed, proposed, SnapshotError,
}
use yantra_os.Executor.Privilege.{Succeeds, restart_command}

-- The call returns, and if what it returns is a success then the command has succeeded and EXECUTED
-- has been kept.
abbrev pub IsEarned : Machine → Result Refusal Response → Type 0
IsEarned m r =
    (a : Response) × (r ≡ ok a)
    × (a.status ≡ success → Succeeds m restart_command × (m.log executed ≡ true))

audited-IsEarned :
    (m : Machine) (r : Response)
    → (r.status ≡ success → Succeeds m restart_command)
    → IsEarned m (returns (audited m "RESTART_DAEMON" "yantra.service" r)).result
unfolding audited
audited-IsEarned m r done = kept (m.log (phase_of r.status)) refl
  where
    kept :
        (b : Bool)
        → m.log (phase_of r.status) ≡ b
        → IsEarned m (
            ok
              (if b then r else response fatal "RESTART_DAEMON" "yantra.service" audit_unavailable))
    kept true h = (r, refl, λ s. (done s, subst (λ t. m.log (phase_of t) ≡ true) s h))
    kept false h = (_, refl, λ s. cc)

dispatch-IsEarned : (m : Machine) → IsEarned m (dispatch m "RESTART_DAEMON" "yantra.service").result
unfolding dispatch outcome run_bounded_command build_command
dispatch-IsEarned m = audited-IsEarned m _ (ended (m.child restart_command) refl)
  where
    ended :
        (c : Child)
        → m.child restart_command ≡ c
        → (outcome m "RESTART_DAEMON" "yantra.service" (run_bounded_command c 4096 2048)).status
          ≡ success
        → Succeeds m restart_command
    ended (ends (exited zero) out errors) h s = (out, errors, h)
    ended (ends (exited (suc n)) out errors) h s = cc
    ended (ends (killed n) out errors) h s = cc
    ended overruns h s = cc
    ended not_started h s = cc
    ended stuck h s = cc

snapshot-IsEarned :
    (m : Machine) (s : Run (Result SnapshotError String))
    → IsEarned m (after_snapshot m "RESTART_DAEMON" "yantra.service" s).result
unfolding after_snapshot
snapshot-IsEarned m s = judged s.result
  where
    judged :
        (r : Result SnapshotError String)
        → IsEarned m
            (after_snapshot m "RESTART_DAEMON" "yantra.service"
              (record { events = s.events; result = r })).result
    judged (ok message) = dispatch-IsEarned m
    judged (err e) =
        audited-IsEarned m (response fatal "RESTART_DAEMON" "yantra.service" (snapshot_failed e))
          (λ s. cc)

execute_locked_intent-IsEarned :
    (m : Machine) → IsEarned m (execute_locked_intent m "RESTART_DAEMON" "yantra.service").result
unfolding execute_locked_intent check_live
execute_locked_intent-IsEarned m = given (m.log proposed) m.live_iso
  where
    given :
        (kept is_live : Bool)
        → IsEarned m
            (if not kept
              then returns (record {
                events = [];
                result = response fatal "RESTART_DAEMON" "yantra.service" audit_unavailable;
              })
              else if is_live
              then check_live m "RESTART_DAEMON" "yantra.service"
              else after_snapshot m "RESTART_DAEMON" "yantra.service"
                  (execute_preflight_snapshot m)).result
    given false is_live = (_, refl, λ s. cc)
    given true true = dispatch-IsEarned m
    given true false = snapshot-IsEarned m (execute_preflight_snapshot m)

-- `_process_intent` returns a response to every payload, and a response with the status SUCCESS only
-- where the unit has been restarted with exit status 0 and the log has kept EXECUTED.
pub process_intent-IsEarned :
    (m : Machine) (payload : Json) → IsEarned m (process_intent m payload).result
unfolding process_intent process_parsed
process_intent-IsEarned m payload = parsed (parse_intent payload) refl
  where
    parsed :
        (r : Result Refusal (String × String))
        → parse_intent payload ≡ r
        → IsEarned m (process_parsed m payload r).result
    parsed (err e) h = (_, refl, λ s. cc)
    parsed (ok (intent, target)) h =
        let (i, t) = parse_intent-only payload intent target h in
        subst₂ (λ i t. IsEarned m (execute_locked_intent m i t).result) (sym i) (sym t)
          (execute_locked_intent-IsEarned m)
