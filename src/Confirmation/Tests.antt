-- ===== src/Confirmation/Tests.antt =====
-- Decisions at a desk of the tests, and the theorems at them.
use yantra_os.Prelude.{ℕ, ◌≡◌, refl, true, false, some, [], ◌∷◌}
use yantra_os.Prelude.Result.{ok, err}
use yantra_os.Json.{arr, nil}
use yantra_os.Confirmation.Counter.{
  CounterFile, attribute_error, done, not_synced, read_counter, new_file,
}
use yantra_os.Confirmation.Decision.{
  proposed, confirmed, logged, counted, Desk, confirm_action, log_execution_outcome, ask,
}
use yantra_os.Confirmation.Approval.{Approval, confirm_action-Approval}

-- a user at a terminal who answers yes, and a counter that stands at 4
abbrev desk : Desk
desk = record {
  euid = 1000;
  size_of = λ n. 20;
  log_action = λ p. true;
  is_tty = true;
  answer = some "yes";
  meanwhile = λ f. f;
  writes = 4096;
  replaces = done;
}

abbrev counter : CounterFile
counter = new_file 1000 20 20 4

abbrev no_terminal : Desk
no_terminal = record desk { is_tty = false }

runs : Unit {0}
unfolding confirm_action log_execution_outcome ask
runs = tt

approves : (confirm_action desk false counter).result ≡ ok true
unfolding runs
approves = refl

approval_events :
    (confirm_action desk false counter).events
    ≡ logged proposed 5 ∷ counted 5 ∷ logged confirmed 5 ∷ []
unfolding runs
approval_events = refl

-- A new counter that is not synced is there, though the action is refused.
unsynced : (confirm_action record desk { replaces = not_synced } false counter).result ≡ ok false
unfolding runs
unsynced = refl

-- A write that takes only half of the text is not noticed, and the counter counts as zero after it.
short_write : (confirm_action record desk { writes = 10 } false counter).result ≡ ok true
unfolding runs
short_write = refl

short_count :
    read_counter 1000 (confirm_action record desk { writes = 10 } false counter).file ≡ ok 0
unfolding runs read_counter
short_count = refl

-- A counter that another process moves while the user answers: the run number is the old one.
moved_events :
    (confirm_action record desk { meanwhile = λ f. new_file 1000 20 20 7 } false counter).events
    ≡ logged proposed 5 ∷ counted 8 ∷ logged confirmed 5 ∷ []
unfolding runs
moved_events = refl

-- A counter file that holds a JSON list raises, where other invalid content counts as zero.
list_raises : read_counter 1000 record counter { content = some (arr nil) } ≡ err attribute_error
unfolding runs
list_raises = refl

confirm_action-Approval_example :
    (n : ℕ) × (read_counter 1000 counter ≡ ok n)
    × Approval desk counter false n
        (confirm_action desk false counter).events
        (confirm_action desk false counter).file
confirm_action-Approval_example = confirm_action-Approval desk counter false approves
