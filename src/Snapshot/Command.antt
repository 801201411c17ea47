-- ===== src/Snapshot/Command.antt =====
-- `cmd_pre_flight` and `cmd_prune`. A time is in whole seconds, the present one rounded up.
use yantra_os.Prelude.{
  ℕ, zero, suc, ◌+◌, ◌*◌, String, Bool, true, false, Option, none, some, List, [], ◌∷◌, str_eq, ltb,
  if◌then◌else◌,
}

abbrev pub snapshot_mount : String
snapshot_mount = "/.snapshots"

abbrev pub root_subvol : String
root_subvol = "/"

abbrev pub retention_days : ℕ
retention_days = 7

-- What a `btrfs` command does: it ends with its status being 0 or not and the lines that it prints, or
-- it cannot be run to its end.
pub data Completed : Type 0 where
  passed failed : List String → Completed

-- What the commands meet: whether this is a live ISO; the type of a path's file system, none where it
-- cannot be established; whether the snapshots' path is a directory and a mount; what a command does,
-- none where it raises; the path of a new snapshot; the present time; and the name and the time of the
-- snapshot that a line lists, none where the line lists no snapshot of this program.
pub record System : Type 0 where
  pub live_iso : Bool
  pub filesystem_type : String → Option String
  pub is_mounted : Bool
  pub btrfs : List String → Option Completed
  pub new_path : String
  pub now : ℕ
  pub snapshot_of : String → Option (String × ℕ)
  pub target_of : String → String

-- What a command leaves behind: the `btrfs` commands that are run, and its exit code, none where it
-- raises.
pub record Done : Type 0 where
  pub commands : List (List String)
  pub exit : Option ℕ

abbrev pub exits : ℕ → Done
exits n = record { commands = []; exit = some n }

abbrev pub is_btrfs : Option String → Option Bool
is_btrfs none = none
is_btrfs (some kind) = some (str_eq kind "btrfs")

abbrev pub exit_of : Option Completed → Option ℕ
exit_of none = none
exit_of (some (passed out)) = some 0
exit_of (some (failed out)) = some 1

abbrev pub snapshot_command : System → List String
snapshot_command s = "subvolume" ∷ "snapshot" ∷ "-r" ∷ root_subvol ∷ s.new_path ∷ []

unfoldable pub take_snapshot : System → Done
take_snapshot s = record {
  commands = snapshot_command s ∷ [];
  exit = exit_of (s.btrfs (snapshot_command s));
}

unfoldable pub on_mount : System → Bool → Option Bool → Done
unfolding take_snapshot
on_mount s false kind = exits 1
on_mount s true none = exits 1
on_mount s true (some false) = exits 1
on_mount s true (some true) = take_snapshot s

unfoldable pub on_root : System → Option Bool → Done
unfolding on_mount
on_root s none = exits 1
on_root s (some false) = exits 2
on_root s (some true) = on_mount s s.is_mounted (is_btrfs (s.filesystem_type snapshot_mount))

unfoldable pub pre_flight : System → Done
unfolding on_root
pre_flight s = if s.live_iso then exits 0 else on_root s (is_btrfs (s.filesystem_type root_subvol))

abbrev pub delete_command : System → String → List String
delete_command s name = "subvolume" ∷ "delete" ∷ s.target_of name ∷ []

abbrev pub list_command : List String
list_command = "subvolume" ∷ "list" ∷ "-r" ∷ "-s" ∷ "/" ∷ []

-- whether a snapshot is older than the retention
abbrev pub is_old : System → ℕ → Bool
is_old s t = ltb (t + retention_days * 86400) s.now

-- the snapshots to delete, with how many could not be deleted; none where a deletion raises
pub record Pruned : Type 0 where
  pub commands : List (List String)
  pub errors : Option ℕ

abbrev pub add_error : Option Completed → Pruned → Option ℕ
add_error none rest = none
add_error (some (passed out)) rest = rest.errors
add_error (some (failed out)) rest = elim rest.errors [ none ↦ none | some n ↦ some (suc n) ]

-- the commands after one that raises are not run
abbrev pub go_on : Option Completed → List (List String) → List (List String)
go_on none commands = []
go_on (some c) commands = commands

abbrev pub prune_one : System → Option (String × ℕ) → Pruned → Pruned
prune_one s none rest = rest
prune_one s (some (name, t)) rest =
    if is_old s t
    then record {
      commands = delete_command s name ∷ go_on (s.btrfs (delete_command s name)) rest.commands;
      errors = add_error (s.btrfs (delete_command s name)) rest;
    }
    else rest

unfoldable pub prune_lines : System → List String → Pruned
prune_lines s [] = record { commands = []; errors = some 0 }
prune_lines s (line ∷ lines) = prune_one s (s.snapshot_of line) (prune_lines s lines)

abbrev pub code_of : Option ℕ → Option ℕ
code_of none = none
code_of (some zero) = some 0
code_of (some (suc n)) = some 1

unfoldable pub prune_listed : System → Option Completed → Done
unfolding prune_lines
prune_listed s none = record { commands = list_command ∷ []; exit = none }
prune_listed s (some (failed out)) = record { commands = list_command ∷ []; exit = some 1 }
prune_listed s (some (passed lines)) = record {
  commands = list_command ∷ (prune_lines s lines).commands;
  exit = code_of (prune_lines s lines).errors;
}

unfoldable pub prune_root : System → Option Bool → Done
unfolding prune_listed
prune_root s none = exits 1
prune_root s (some false) = exits 2
prune_root s (some true) = prune_listed s (s.btrfs list_command)

unfoldable pub prune : System → Done
unfolding prune_root
prune s = if s.live_iso then exits 0 else prune_root s (is_btrfs (s.filesystem_type root_subvol))
