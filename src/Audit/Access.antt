-- ===== src/Audit/Access.antt =====
-- Who may own the audit file and its directory: `_validate_directory`, `_open_secure_parent`,
-- `_validate_audit_file` and `_open_audit_file` of audit_log.py.
use yantra_os.Prelude.{
  ℕ, ◌%◌, ◌≡◌, sym, subst, ap, ◌∙◌, ◌⊎◌, inl, inr, Bool, Bool-cases, true, false, ◌&&◌, ◌||◌, not,
  Option, none, some, List, [], ◌∷◌, ◌==◌, if◌then◌else◌, arith,
}
use yantra_os.Prelude.Result.{Result, ok, err, ◌>>◌, raise_if, raise_if-eq-ok, >>=-eq-ok}
use yantra_os.Files.{Stat, is_regular, is_directory}

pub data AccessError : Type 0 where
  not_found wrong_kind wrong_owner wrong_mode changed os_error : AccessError

-- `stat.S_IMODE`
abbrev pub s_imode : Stat → ℕ
s_imode s = s.mode % 4096

unfoldable pub validate_directory : ℕ → Bool → Stat → Result AccessError (Unit {0})
validate_directory euid true s =
    if not (is_directory s.kind)
    then err wrong_kind
    else if not (s.uid == euid) || not (s_imode s == 0o700)
    then err wrong_mode
    else ok tt
validate_directory euid false s =
    if not (is_directory s.kind)
    then err wrong_kind
    else if not (euid == 0) && not (s.uid == euid || s.uid == 0)
    then err wrong_owner
    else if not (s_imode s == 0o700 || s_imode s == 0o750)
    then err wrong_mode
    else ok tt

-- How the directory of one part of the path is opened: it is there; it is made, or another process
-- makes it first; or an error. With what `fstat` then reports.
pub data Opened : Type 0 where
  present made : Stat → Opened
  failed : Opened

abbrev pub check_last : ℕ → Opened → Result AccessError (Unit {0})
check_last euid (present s) = validate_directory euid false s
check_last euid (made s) = validate_directory euid true s
check_last euid failed = err os_error

abbrev pub check_step : Opened → Result AccessError (Unit {0}) → Result AccessError (Unit {0})
check_step failed rest = err os_error
check_step (present s) rest = rest
check_step (made s) rest = rest

-- `_open_secure_parent`, part by part from the root, whose own `stat` is checked where there are no
-- parts; the last directory is checked.
unfoldable pub open_secure_parent : ℕ → Stat → List Opened → Result AccessError (Unit {0})
unfolding validate_directory
open_secure_parent euid root [] = validate_directory euid false root
open_secure_parent euid root (o ∷ []) = check_last euid o
open_secure_parent euid root (o ∷ p ∷ parts) =
    check_step o (open_secure_parent euid root (p ∷ parts))

unfoldable pub validate_audit_file : ℕ → Stat → Result AccessError (Unit {0})
validate_audit_file euid s = do
  raise_if (not (is_regular s.kind)) wrong_kind
  raise_if (not (s_imode s == 0o600)) wrong_mode
  raise_if (not (euid == 0) && not (s.uid == euid)) wrong_owner
  ok tt

-- The file at the path: none where it is created, else what `stat` reports of it before it is opened;
-- and what `fstat` reports after it is opened, none where that raises.
pub record Target : Type 0 where
  pub before : Option Stat
  pub after : Option Stat

unfoldable pub same_file : Stat → Stat → Bool
same_file a b = a.device == b.device && a.inode == b.inode

abbrev pub check_before : ℕ → Option Stat → Result AccessError (Unit {0})
check_before euid none = ok tt
check_before euid (some s) = validate_audit_file euid s

abbrev pub check_same : Option Stat → Stat → Result AccessError (Unit {0})
check_same none after = ok tt
check_same (some before) after = raise_if (not (same_file before after)) changed

unfoldable pub check_after : ℕ → Option Stat → Option Stat → Result AccessError Stat
unfolding validate_audit_file same_file
check_after euid before none = err os_error
check_after euid before (some after) = do
  validate_audit_file euid after
  check_same before after
  ok after

-- `_open_audit_file`: the file that is opened, as `fstat` reports it
unfoldable pub open_audit_file : ℕ → Stat → List Opened → Target → Result AccessError Stat
unfolding open_secure_parent check_after
open_audit_file euid root parts target = do
  open_secure_parent euid root parts
  check_before euid target.before
  check_after euid target.before target.after

-- A file that may be appended to: regular, open to its owner alone, and the service's own unless the
-- service is root.
abbrev pub IsPrivate : ℕ → Stat → Type 0
IsPrivate euid s = (is_regular s.kind ≡ true) × (s_imode s ≡ 0o600) × ((euid ≡ 0) ⊎ (s.uid ≡ euid))

validate_audit_file-IsPrivate :
    (euid : ℕ) (s : Stat) → validate_audit_file euid s ≡ ok tt → IsPrivate euid s
unfolding validate_audit_file
validate_audit_file-IsPrivate euid s e =
    let (kind, k₁) = raise_if-eq-ok (not (is_regular s.kind)) wrong_kind _ e in
    let (mode, k₂) = raise_if-eq-ok (not (s_imode s == 0o600)) wrong_mode _ k₁ in
    let (owner, k₃) = raise_if-eq-ok (not (euid == 0) && not (s.uid == euid)) wrong_owner _ k₂ in
    (
      ground arith,
      ground arith,
      elim (Bool-cases (euid == 0)) [
        | inl root ↦ inl (ground arith)
        | inr user ↦ inr (ground arith)
      ],
    )

-- A log file that is opened is private, its directory has passed its checks, and it is the file that
-- was checked before where there was one.
pub open_audit_file-IsPrivate :
    (euid : ℕ) (root : Stat) (parts : List Opened) (target : Target) (s : Stat)
    → open_audit_file euid root parts target ≡ ok s
    → IsPrivate euid s
      × (open_secure_parent euid root parts ≡ ok tt)
      × ((before : Stat)
          → target.before ≡ some before
          → IsPrivate euid before × (same_file before s ≡ true))
unfolding open_audit_file
open_audit_file-IsPrivate euid root parts target s e =
    let (u, parent, k₁) = >>=-eq-ok (open_secure_parent euid root parts) _ e in
    let (v, earlier, k₂) = >>=-eq-ok (check_before euid target.before) _ k₁ in
    let (here, same) = after target.after k₂ in
    (
      here,
      parent,
      λ before b. (
        validate_audit_file-IsPrivate euid before (ap (check_before euid) (sym b) ∙ earlier),
        unchanged before (ap (λ o. check_same o s) (sym b) ∙ same),
      ),
    )
  where
    after :
        (o : Option Stat)
        → check_after euid target.before o ≡ ok s
        → IsPrivate euid s × (check_same target.before s ≡ ok tt)
    after none k = cc
    after (some x) k =
        let (u, valid, k₁) = >>=-eq-ok (validate_audit_file euid x) _ k in
        let (v, same, k₂) = >>=-eq-ok (check_same target.before x) _ k₁ in
        let it : x ≡ s = cc in
        (
          subst (IsPrivate euid) it (validate_audit_file-IsPrivate euid x valid),
          subst (λ y. check_same target.before y ≡ ok tt) it same,
        )

    unchanged :
        (before : Stat)
        → raise_if (not (same_file before s)) changed ≡ ok tt
        → same_file before s ≡ true
    unchanged before k = elim (Bool-cases (same_file before s)) [
      | inl it ↦ it
      | inr differs ↦ let m = simp differs at k in cc
    ]
