-- ===== src/Revocation/Cache.antt =====
-- The files of the revocation list: reading them, the list in force, and the installation of a
-- newer one.
use yantra_os.Prelude.{
  ℕ, suc, Bool, true, false, ◌&&◌, ◌||◌, not, Option, none, some, List, [], ◌∷◌, ltb, ◌==◌, bit_and,
  if◌then◌else◌, String,
}
use yantra_os.Prelude.Lists.{length}
use yantra_os.Prelude.Result.{Result, ok, err, ◌>>=◌, ◌>>◌, raise_if}
use yantra_os.Files.{Stat, regular, is_regular, is_directory, member}
use yantra_os.Transfer.{Answers, write_all, read_loop}
use yantra_os.Revocation.Listing.{
  Error, untrusted, too_large, missing, rollback, removed, collision, status_unavailable,
  revoked_skill, write_failed, not_root, no_updater, RevocationList, revokes, require_fresh,
  current_time, newer, is_subset, same_list,
}
use yantra_os.Revocation.Document.{Codec, max_document, verify_document}

pub record File : Type 0 where
  pub stat : Stat
  pub content : List ℕ

-- What the module sees of its host. `updater` is the account `yantra_revocation`, where there is
-- one; a directory is none where it is missing.
pub record Host : Type 0 where
  pub clock : ℕ
  pub euid : ℕ
  pub source_owner : ℕ
  pub updater : Option ℕ
  pub bootstrap : Option File
  pub cached : Option File
  pub candidate : Option File
  pub cache_dir : Option Stat
  pub run_dir : Option Stat

-- `mode & 0o022`: the group or all others may write
unfoldable pub writable_by_others : Stat → Bool
writable_by_others s = not (bit_and s.mode 0o022 == 0)

-- the end of the read loop; no bytes at all stand for a loop that is out of fuel
unfoldable pub checked_size : Option (List ℕ) → Result Error (List ℕ)
checked_size none = err too_large
checked_size (some bytes) = if ltb max_document (length bytes) then err too_large else ok bytes

unfoldable pub read_regular_file : List ℕ → Option File → Result Error (List ℕ)
unfolding checked_size writable_by_others member
read_regular_file owners none = err missing
read_regular_file owners (some f) =
    if not (is_regular f.stat.kind)
      || (not (member f.stat.uid owners)
          || (writable_by_others f.stat || ltb max_document f.stat.size))
    then err untrusted
    else checked_size (read_loop (suc (length f.content)) max_document f.content [])

-- `_publish_document` into an owned directory: the bytes go to a temporary file, which replaces
-- the target in one step, or is unlinked where a write fails.
unfoldable pub publish_document : Host → Option Stat → Answers → List ℕ → Result Error File
unfolding writable_by_others
publish_document h none answers raw = err missing
publish_document h (some dir) answers raw =
    if not (is_directory dir.kind) || (not (dir.uid == h.euid) || writable_by_others dir)
    then err untrusted
    else let w = write_all answers raw in
      if w.complete
      then ok (record {
        stat = record {
          kind = regular;
          uid = h.euid;
          gid = dir.gid;
          mode = 0o644;
          size = length raw;
          device = dir.device;
          inode = 0;
        };
        content = w.bytes;
      })
      else err write_failed

module _ (c : Codec) where
  -- `_bootstrap()`, at its defaults
  unfoldable pub bootstrap_list : Host → Result Error RevocationList
  bootstrap_list h = do
    raw ← read_regular_file (h.source_owner ∷ []) h.bootstrap
    verify_document c none h.clock none false raw

  -- the list of the cache file, read with given owners
  unfoldable pub cached_list : Host → List ℕ → File → Result Error RevocationList
  cached_list h owners f = do
    raw ← read_regular_file owners (some f)
    verify_document c none h.clock none false raw

  -- the newer of the built-in list and the cached one, if there is one; not yet checked for dates
  unfoldable pub effective :
      Host → List ℕ → RevocationList → Option File → Result Error RevocationList
  unfolding cached_list
  effective h owners boot none = ok boot
  effective h owners boot (some f) = cached_list h owners f >>= newer boot

  unfoldable pub active_revocations : Host → Option ℕ → Result Error RevocationList
  unfolding effective bootstrap_list
  active_revocations h now = do
    boot ← bootstrap_list h
    l ← effective h (0 ∷ []) boot h.cached
    require_fresh (current_time h.clock now) l
    ok l

  -- the `except (OSError, ValueError)` of `ensure_skill_allowed`, which takes every error above
  unfoldable pub allow : String → String → Result Error RevocationList → Result Error (Unit {0})
  allow skill_id version (err e) = err status_unavailable
  allow skill_id version (ok l) = if revokes l skill_id version then err revoked_skill else ok tt

  unfoldable pub ensure_skill_allowed : Host → String → String → Result Error (Unit {0})
  unfolding allow active_revocations
  ensure_skill_allowed h skill_id version = allow skill_id version (active_revocations h none)

  -- `candidate == cached or (cached is None and candidate == bootstrap)`
  unfoldable pub unchanged : RevocationList → RevocationList → Option RevocationList → Bool
  unchanged boot candidate none = same_list candidate boot
  unchanged boot candidate (some l) = same_list candidate l

  -- `cached` is none where the file is missing
  unfoldable pub read_cached : Host → Option File → Result Error (Option RevocationList)
  unfolding cached_list
  read_cached h none = ok none
  read_cached h (some f) = cached_list h (h.euid ∷ []) f >>= λ l. ok (some l)

  unfoldable pub current_of : RevocationList → Option RevocationList → Result Error RevocationList
  current_of boot none = ok boot
  current_of boot (some l) = newer boot l

  -- the checks of a candidate against the list in force
  unfoldable pub check_candidate : RevocationList → RevocationList → Result Error (Unit {0})
  check_candidate candidate current = do
    raise_if (ltb candidate.sequence current.sequence) rollback
    raise_if (not (is_subset current.revoked candidate.revoked)) removed
    raise_if (candidate.sequence == current.sequence && not (same_list candidate current)) collision
    ok tt

  -- the end of `install_document`, on whether the candidate is the list that is there already
  unfoldable pub store : Host → Answers → List ℕ → ℕ → Bool → Result Error (Host × Bool × ℕ)
  unfolding publish_document
  store h answers raw sequence true = ok (h, false, sequence)
  store h answers raw sequence false = do
    f ← publish_document h h.cache_dir answers raw
    ok (record h { cached = some f }, true, sequence)

  -- The new host, whether it changed, and the sequence.
  unfoldable pub install_document :
      Host → Option ℕ → Answers → List ℕ → Result Error (Host × Bool × ℕ)
  unfolding bootstrap_list read_cached current_of check_candidate unchanged store
  install_document h now answers raw = do
    candidate ← verify_document c none h.clock now true raw
    boot ← bootstrap_list h
    cached ← read_cached h h.cached
    current ← current_of boot cached
    check_candidate candidate current
    store h answers raw candidate.sequence (unchanged boot candidate cached)

  -- `fetch_candidate`, of a document that has been downloaded
  unfoldable pub fetch_candidate : Host → Answers → List ℕ → Result Error (Host × ℕ)
  unfolding publish_document
  fetch_candidate h answers raw = do
    l ← verify_document c none h.clock none true raw
    f ← publish_document h h.run_dir answers raw
    ok (record h { candidate = some f }, l.sequence)

  unfoldable pub updater_uid : Host → Result Error ℕ
  updater_uid h = elim (h.updater) [ none ↦ err no_updater | some u ↦ ok u ]

  unfoldable pub install_candidate : Host → Answers → Result Error (Host × Bool × ℕ)
  unfolding install_document updater_uid
  install_candidate h answers = do
    raise_if (not (h.euid == 0)) not_root
    u ← updater_uid h
    raw ← read_regular_file (u ∷ []) h.candidate
    install_document h none answers raw
