-- ===== src/Revocation/Listing.antt =====
-- RevocationList and its comparison: `_newer` and `_require_fresh`.
use yantra_os.Prelude.{
  ℕ, ◌+◌, String, Bool, true, false, ◌&&◌, ◌||◌, Option, none, some, List, [], ◌∷◌, ltb, leb, ◌==◌,
  str_eq, if◌then◌else◌,
}
use yantra_os.Prelude.Result.{Result, ok, err}

-- the ValueError and PermissionError cases, by their messages; `missing` is FileNotFoundError
pub data Error : Type 0 where
  bad_json bad_base64 bad_size bad_envelope unknown_key bad_signature : Error
  bad_fields bad_values bad_entry bad_identity not_yet expired : Error
  collision removed rollback untrusted too_large missing : Error
  status_unavailable revoked_skill write_failed not_root no_updater : Error

-- a revoked skill: the id, and a version or none for every version
abbrev pub Entry : Type 0
Entry = String × Option String

pub record RevocationList : Type 0 where
  pub sequence : ℕ
  pub issued_at : ℕ
  pub expires_at : ℕ
  pub revoked : List Entry

unfoldable pub same_version : Option String → Option String → Bool
same_version none none = true
same_version none (some w) = false
same_version (some v) none = false
same_version (some v) (some w) = str_eq v w

unfoldable pub same_entry : Entry → Entry → Bool
unfolding same_version
same_entry (i, v) (j, w) = str_eq i j && same_version v w

-- `entry in revoked`
unfoldable pub contains : Entry → List Entry → Bool
contains e [] = false
contains e (f ∷ fs) = same_entry e f || contains e fs

-- `a.issubset(b)`
unfoldable pub is_subset : List Entry → List Entry → Bool
is_subset [] fs = true
is_subset (e ∷ es) fs = contains e fs && is_subset es fs

-- equality of frozensets
unfoldable pub same_set : List Entry → List Entry → Bool
unfolding is_subset
same_set es fs = is_subset es fs && is_subset fs es

-- the equality of the frozen dataclass
unfoldable pub same_list : RevocationList → RevocationList → Bool
unfolding same_set
same_list a b =
    a.sequence == b.sequence
    && (a.issued_at == b.issued_at
        && (a.expires_at == b.expires_at && same_set a.revoked b.revoked))

unfoldable pub revokes : RevocationList → String → String → Bool
revokes l skill_id version =
    contains (skill_id, none) l.revoked || contains (skill_id, some version) l.revoked

abbrev pub clock_skew : ℕ
clock_skew = 300

-- `now` is the caller's time, or none for the clock
abbrev pub current_time : ℕ → Option ℕ → ℕ
current_time clock none = clock
current_time clock (some now) = now

unfoldable pub require_fresh : ℕ → RevocationList → Result Error (Unit {0})
require_fresh time l =
    if ltb (time + clock_skew) l.issued_at
    then err not_yet
    else if leb l.expires_at time
    then err expired
    else ok tt

-- `older.revoked.issubset(newer.revoked)`, or the error
unfoldable pub keep_revoked : RevocationList → RevocationList → Result Error RevocationList
keep_revoked older newer = if is_subset older.revoked newer.revoked then ok newer else err removed

unfoldable pub newer : RevocationList → RevocationList → Result Error RevocationList
unfolding keep_revoked
newer first second =
    if first.sequence == second.sequence
    then (if same_list first second then ok first else err collision)
    else if ltb first.sequence second.sequence
    then keep_revoked first second
    else keep_revoked second first
