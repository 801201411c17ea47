-- ===== src/Snapshot/Protection.antt =====
-- What the exit code 0 of a pre-flight says, and what a pruning may delete.
use yantra_os.Prelude.{
  ℕ, ◌≡◌, refl, ap, ◌⊎◌, inl, inr, String, Bool, true, false, Option, none, some, List, [], ◌∷◌,
  str_eq→eq, if◌then◌else◌,
}
use yantra_os.Snapshot.Command.{
  System, Completed, passed, failed, Done, exits, is_btrfs, exit_of, snapshot_command,
  take_snapshot, on_mount, on_root, pre_flight, root_subvol, snapshot_mount, is_old, delete_command,
  list_command, Pruned, prune_one, prune_lines, prune_listed, prune_root, prune, go_on, add_error,
}

-- A snapshot that has been made: both file systems are BTRFS, the second is mounted, and the one command
-- that is run has passed.
abbrev pub IsProtected : System → List (List String) → Type 0
IsProtected s commands =
    (s.filesystem_type root_subvol ≡ some "btrfs")
    × (s.is_mounted ≡ true)
    × (s.filesystem_type snapshot_mount ≡ some "btrfs")
    × (commands ≡ snapshot_command s ∷ [])
    × (out : List String) × (s.btrfs (snapshot_command s) ≡ some (passed out))

is_true : {b : Bool} → some b ≡ some true → b ≡ true
is_true h = cc

kind-btrfs : (kind : Option String) → is_btrfs kind ≡ some true → kind ≡ some "btrfs"
kind-btrfs none h = cc
kind-btrfs (some k) h = ap some (str_eq→eq k "btrfs" (is_true h))

exit-passed :
    (c : Option Completed) → exit_of c ≡ some 0 → (out : List String) × (c ≡ some (passed out))
exit-passed (some (passed out)) h = (out, refl)
exit-passed (some (failed out)) h = cc
exit-passed none h = cc

abbrev run : Done → List (List String)
run d = d.commands

-- A pre-flight ends with 0 only on a live ISO, where nothing is run, or where the snapshot has been made.
pub pre_flight-IsProtected :
    (s : System)
    → (pre_flight s).exit ≡ some 0
    → ((s.live_iso ≡ true) × ((pre_flight s).commands ≡ [])) ⊎ IsProtected s (pre_flight s).commands
unfolding pre_flight on_root on_mount take_snapshot
pre_flight-IsProtected s h = found s.live_iso refl (is_btrfs (s.filesystem_type root_subvol)) refl h
  where
    mounted :
        (m : Bool)
        → s.is_mounted ≡ m
        → (kind : Option Bool) → is_btrfs (s.filesystem_type snapshot_mount) ≡ kind
        → is_btrfs (s.filesystem_type root_subvol) ≡ some true
        → (on_mount s m kind).exit ≡ some 0
        → IsProtected s (on_mount s m kind).commands
    mounted false e kind k r q = cc
    mounted true e none k r q = cc
    mounted true e (some false) k r q = cc
    mounted true e (some true) k r q =
        let (out, passes) = exit-passed (s.btrfs (snapshot_command s)) q in
        (
          kind-btrfs (s.filesystem_type root_subvol) r,
          e,
          kind-btrfs (s.filesystem_type snapshot_mount) k,
          refl,
          out,
          passes,
        )

    found :
        (live : Bool)
        → s.live_iso ≡ live
        → (root : Option Bool) → is_btrfs (s.filesystem_type root_subvol) ≡ root
        → (if live then exits 0 else on_root s root).exit ≡ some 0
        → ((live ≡ true) × (run (if live then exits 0 else on_root s root) ≡ []))
          ⊎ IsProtected s (run (if live then exits 0 else on_root s root))
    found true l root r q = inl (refl, refl)
    found false l none r q = cc
    found false l (some false) r q = cc
    found false l (some true) r q =
        inr (mounted s.is_mounted refl (is_btrfs (s.filesystem_type snapshot_mount)) refl r q)

abbrev commands_of : Pruned → List (List String)
commands_of p = p.commands

-- Deletions of listed snapshots that are older than the retention.
pub data OnlyOld (s : System) : List (List String) → Type 0 where
  done : OnlyOld s []
  old :
      {line name : String} {t : ℕ} {rest : List (List String)}
      → s.snapshot_of line ≡ some (name, t)
      → is_old s t ≡ true
      → OnlyOld s rest
      → OnlyOld s (delete_command s name ∷ rest)

prune_lines-OnlyOld : (s : System) (lines : List String) → OnlyOld s (prune_lines s lines).commands
unfolding prune_lines
prune_lines-OnlyOld s [] = done
prune_lines-OnlyOld s (line ∷ lines) =
    listed (s.snapshot_of line) refl (prune_lines-OnlyOld s lines)
  where
    kept :
        (c : Option Completed) (rest : List (List String))
        → OnlyOld s rest
        → OnlyOld s (go_on c rest)
    kept none rest o = done
    kept (some c) rest o = o

    listed :
        (found : Option (String × ℕ))
        → s.snapshot_of line ≡ found
        → OnlyOld s (prune_lines s lines).commands
        → OnlyOld s (prune_one s found (prune_lines s lines)).commands
    listed none h rest = rest
    listed (some (name, t)) h rest = aged (is_old s t) refl
      where
        aged :
            (is_aged : Bool)
            → is_old s t ≡ is_aged
            → OnlyOld s (
                commands_of (
                  if is_aged
                  then record {
                    commands =
                        delete_command s name
                        ∷ go_on (s.btrfs (delete_command s name)) (prune_lines s lines).commands;
                    errors = add_error (s.btrfs (delete_command s name)) (prune_lines s lines);
                  }
                  else prune_lines s lines))
        aged true a =
            old h a (kept (s.btrfs (delete_command s name)) (prune_lines s lines).commands rest)
        aged false a = rest

-- A pruning runs nothing, or the listing and then only deletions of listed snapshots that are older
-- than the retention.
pub prune-OnlyOld :
    (s : System)
    → ((prune s).commands ≡ [])
      ⊎ ((rest : List (List String)) × ((prune s).commands ≡ list_command ∷ rest) × OnlyOld s rest)
unfolding prune prune_root prune_listed
prune-OnlyOld s = found s.live_iso (is_btrfs (s.filesystem_type root_subvol))
  where
    Ok : Done → Type 0
    Ok d =
        (d.commands ≡ [])
        ⊎ ((rest : List (List String)) × (d.commands ≡ list_command ∷ rest) × OnlyOld s rest)

    listed : (c : Option Completed) → Ok (prune_listed s c)
    listed none = inr ([], refl, done)
    listed (some (failed out)) = inr ([], refl, done)
    listed (some (passed lines)) =
        inr ((prune_lines s lines).commands, refl, prune_lines-OnlyOld s lines)

    found : (live : Bool) (root : Option Bool) → Ok (if live then exits 0 else prune_root s root)
    found true root = inl refl
    found false none = inl refl
    found false (some false) = inl refl
    found false (some true) = listed (s.btrfs list_command)
