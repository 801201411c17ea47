-- ===== src/Snapshot/Tests.antt =====
-- Runs of the snapshot commands, and the theorems at them.
use yantra_os.Prelude.{◌≡◌, ◌⊎◌, refl, true, false, none, some, [], ◌∷◌, str_eq, if◌then◌else◌}
use yantra_os.Snapshot.Command.{System, passed, pre_flight, prune, list_command}
use yantra_os.Snapshot.Protection.{IsProtected, pre_flight-IsProtected}

abbrev installed : System
installed = record {
  live_iso = false;
  filesystem_type = λ path. some "btrfs";
  is_mounted = true;
  btrfs = λ command. some (passed ("old" ∷ "new" ∷ "other" ∷ []));
  new_path = "/.snapshots/yantra-preflight-20260301-120000";
  now = 1000000;
  snapshot_of = λ line.
      if str_eq line "old"
      then some ("yantra-preflight-19700101-000000", 0)
      else if str_eq line "new"
      then some ("yantra-preflight-19700112-000000", 950400)
      else none;
  target_of = λ name. name;
}

passed_run : (pre_flight installed).exit ≡ some 0
unfolding pre_flight
passed_run = refl

pre_flight-IsProtected_example :
    ((installed.live_iso ≡ true) × ((pre_flight installed).commands ≡ []))
    ⊎ IsProtected installed (pre_flight installed).commands
pre_flight-IsProtected_example = pre_flight-IsProtected installed passed_run

other_run : (pre_flight (record installed { filesystem_type = λ path. some "ext4" })).exit ≡ some 2
unfolding pre_flight
other_run = refl

-- only the old one goes
prune_run :
    (prune installed).commands
    ≡ list_command ∷ ("subvolume" ∷ "delete" ∷ "yantra-preflight-19700101-000000" ∷ []) ∷ []
unfolding prune
prune_run = refl
