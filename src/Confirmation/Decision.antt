-- ===== src/Confirmation/Decision.antt =====
-- `confirm_action` and `log_execution_outcome` of action_confirmation.py. The terminal's escape
-- sequences and the printed summary are left out.
use yantra_os.Prelude.{
  ℕ, ◌+◌, ◌-◌, max, Bool, true, false, ◌||◌, not, Option, none, some, List, [], ◌∷◌, String, str_eq,
  if◌then◌else◌,
}
use yantra_os.Prelude.Result.{Result, ok, err}
use yantra_os.Confirmation.Counter.{CounterFile, Uncaught, Replaced, read_counter, write_counter}

pub data Phase : Type 0 where
  proposed confirmed rejected executed failed : Phase

-- What is recorded: an audit entry that is persisted, with its run number, or a new counter.
pub data Event : Type 0 where
  logged : Phase → ℕ → Event
  counted : ℕ → Event

-- What a decision meets: the process's user, the length of a counter's text, what `log_action`
-- returns for each phase, the terminal, what `strip().lower()` leaves of the answer (none where the
-- input ends or is interrupted), what others leave of the counter's file while the user answers, how
-- many bytes a write takes at most, and how far the replacement of the counter's file gets.
pub record Desk : Type 0 where
  pub euid : ℕ
  pub size_of : ℕ → ℕ
  pub log_action : Phase → Bool
  pub is_tty : Bool
  pub answer : Option String
  pub meanwhile : CounterFile → CounterFile
  pub writes : ℕ
  pub replaces : Replaced

pub record Decided : Type 0 where
  pub result : Result Uncaught Bool
  pub events : List Event
  pub file : CounterFile

-- `response in {"y", "yes"}`
unfoldable pub is_yes : Option String → Bool
is_yes none = false
is_yes (some s) = str_eq s "y" || str_eq s "yes"

abbrev pub if_logged : Bool → Event → List Event
if_logged true e = e ∷ []
if_logged false e = []

module _ (d : Desk) where
  unfoldable pub log : Phase → ℕ → List Event
  log p run = if_logged (d.log_action p) (logged p run)

  -- once the user has approved: the counter is read again, written, and the approval recorded
  unfoldable pub confirm : ℕ → Result Uncaught ℕ → CounterFile → Decided
  unfolding log write_counter
  confirm run (err e) f = record { result = err e; events = []; file = f }
  confirm run (ok n) f =
      let (kept, f') = write_counter d.euid d.size_of d.writes d.replaces (n + 1) f in
      if kept
      then record {
        result = ok (d.log_action confirmed);
        events = counted (n + 1) ∷ log confirmed run;
        file = f';
      }
      else record { result = ok false; events = []; file = f' }

  -- the question to the user, and the file as it is after the answer
  unfoldable pub ask : ℕ → CounterFile → Decided
  unfolding confirm log is_yes
  ask run f =
      if not d.is_tty
      then record { result = ok false; events = log rejected run; file = f }
      else if is_yes d.answer
      then confirm run (read_counter d.euid (d.meanwhile f)) (d.meanwhile f)
      else record { result = ok false; events = log rejected run; file = d.meanwhile f }

  -- `run_number = max(1, run_number - 1)` for an action that is approved beforehand
  abbrev pub run_of : Bool → ℕ → ℕ
  run_of true n = max 1 n
  run_of false n = n + 1

  -- after the proposal's audit entry
  unfoldable pub decide : Bool → ℕ → CounterFile → Decided
  unfolding ask log
  decide true run f = record {
    result = ok (d.log_action confirmed);
    events = log confirmed run;
    file = f;
  }
  decide false run f = ask run f

  unfoldable pub propose : Bool → ℕ → CounterFile → Decided
  unfolding decide
  propose preapproved run f =
      let rest = decide preapproved run f in
      if d.log_action proposed
      then record rest { events = logged proposed run ∷ rest.events }
      else record { result = ok false; events = []; file = f }

  -- with the counter that `get_run_number` has read
  unfoldable pub propose_read : Bool → Result Uncaught ℕ → CounterFile → Decided
  unfolding propose
  propose_read preapproved (err e) f = record { result = err e; events = []; file = f }
  propose_read preapproved (ok n) f = propose preapproved (run_of preapproved n) f

  unfoldable pub confirm_action : Bool → CounterFile → Decided
  unfolding propose_read read_counter
  confirm_action preapproved f = propose_read preapproved (read_counter d.euid f) f

  abbrev pub outcome_phase : Bool → Phase
  outcome_phase true = executed
  outcome_phase false = failed

  unfoldable pub log_outcome : Bool → Result Uncaught ℕ → CounterFile → Decided
  unfolding log
  log_outcome worked (err e) f = record { result = err e; events = []; file = f }
  log_outcome worked (ok n) f = record {
    result = ok (d.log_action (outcome_phase worked));
    events = log (outcome_phase worked) (max 1 (n + 1 - 1));
    file = f;
  }

  unfoldable pub log_execution_outcome : Bool → CounterFile → Decided
  unfolding log_outcome read_counter
  log_execution_outcome worked f = log_outcome worked (read_counter d.euid f) f
