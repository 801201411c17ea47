-- ===== src/Confirmation/Counter.antt =====
-- `_read_counter`, `_write_counter` and `get_run_number` of action_confirmation.py.
use yantra_os.Prelude.{
  ℕ, min, ◌%◌, ◌≤◌, ◌≡◌, refl, Bool, Bool-cases, inl, inr, true, false, ◌&&◌, ◌||◌, not, Option,
  none, some, arith, ltb, ◌==◌, if◌then◌else◌,
}
use yantra_os.Prelude.Result.{Result, ok, err}
use yantra_os.Json.{Json, int, obj, field, end, get}
use yantra_os.Files.{Stat, regular, is_regular}

abbrev pub max_counter_bytes : ℕ
max_counter_bytes = 4096

-- What the counter's path leads to. `directory` is whether its directory opens, is owned and can be
-- secured; `entry` is the entry itself, without following a link; `opened` is what an open of it
-- then reports; `content` is none where its bytes are no JSON text.
pub record CounterFile : Type 0 where
  pub directory : Bool
  pub entry : Option Stat
  pub opened : Option Stat
  pub content : Option Json

-- `data.get` on a value that is no object raises AttributeError, which nothing catches
pub data Uncaught : Type 0 where
  attribute_error : Uncaught

-- `stat.S_IMODE(mode) != 0o600`
unfoldable pub wrong_mode : Stat → Bool
wrong_mode s = not (s.mode % 4096 == 0o600)

abbrev pub is_owned : ℕ → Stat → Bool
is_owned euid s = is_regular s.kind && s.uid == euid

-- `data.get("confirmed_runs", 0)`, and the check of its type
unfoldable pub count_of : Option Json → ℕ
count_of (some (int n)) = n
count_of _ = 0

unfoldable pub parse_counter : Option Json → Result Uncaught ℕ
unfolding count_of get
parse_counter none = ok 0
parse_counter (some (obj fs)) = ok (count_of (get "confirmed_runs" fs))
parse_counter (some _) = err attribute_error

-- the file that was opened, checked again
unfoldable pub read_opened : ℕ → Option Stat → Option Json → Result Uncaught ℕ
unfolding wrong_mode parse_counter
read_opened euid none content = ok 0
read_opened euid (some s) content =
    if not (is_owned euid s) || wrong_mode s || ltb max_counter_bytes s.size
    then ok 0
    else parse_counter content

-- the entry, before it is opened
unfoldable pub read_entry : ℕ → Option Stat → CounterFile → Result Uncaught ℕ
unfolding read_opened
read_entry euid none f = ok 0
read_entry euid (some s) f =
    if not (is_owned euid s)
    then ok 0
    else if wrong_mode s || ltb max_counter_bytes s.size
    then ok 0
    else read_opened euid f.opened f.content

unfoldable pub read_counter : ℕ → CounterFile → Result Uncaught ℕ
unfolding read_entry
read_counter euid f = if f.directory then read_entry euid f.entry f else ok 0

-- A new file is written aside and takes the place of the old one; `size` is its length.
abbrev pub new_stat : ℕ → ℕ → Stat
new_stat euid size = record {
  kind = regular;
  uid = euid;
  gid = 0;
  mode = 0o600;
  size = size;
  device = 0;
  inode = 0;
}

abbrev pub counter_text : ℕ → Json
counter_text n = obj (field "confirmed_runs" (int n) end)

-- The file after the one `os.write` of a text of `size` bytes, which takes `written` bytes at most; how
-- many it took is not looked at. A shorter beginning of the text is no JSON text.
abbrev pub new_file : ℕ → ℕ → ℕ → ℕ → CounterFile
new_file euid size written n = record {
  directory = true;
  entry = some (new_stat euid (min written size));
  opened = some (new_stat euid (min written size));
  content = if ltb written size then none else some (counter_text n);
}

-- `_safe_existing_counter`: no entry, or an owned regular file
abbrev pub is_safe : ℕ → Option Stat → Bool
is_safe euid none = true
is_safe euid (some s) = is_owned euid s

-- How far the calls get that write the new file: not to the rename, to the rename but not to the
-- last `fsync`, or to the end.
pub data Replaced : Type 0 where
  not_renamed not_synced done : Replaced

unfoldable pub replace_file : Replaced → CounterFile → CounterFile → Bool × CounterFile
replace_file not_renamed f new = (false, f)
replace_file not_synced f new = (false, new)
replace_file done f new = (true, new)

-- `_write_counter`
unfoldable pub write_counter : ℕ → (ℕ → ℕ) → ℕ → Replaced → ℕ → CounterFile → Bool × CounterFile
unfolding replace_file
write_counter euid size_of written r n f =
    if f.directory && is_safe euid f.entry
    then replace_file r f (new_file euid (size_of n) written n)
    else (false, f)

-- A counter whose text was written as a whole is read back.
pub read_counter-new_file :
    (euid size written n : ℕ)
    → size ≤ max_counter_bytes
    → size ≤ written
    → read_counter euid (new_file euid size written n) ≡ ok n
unfolding read_counter
read_counter-new_file euid size written n h whole =
    let all_of_it : ltb written size ≡ false = ground arith in
    let length : min written size ≡ size = omega arith in simp (all_of_it, length) (ground arith)

-- A write that succeeds leaves a new file, as far as its text was written.
pub write_counter-done :
    (euid : ℕ) (size_of : ℕ → ℕ) (written : ℕ) (r : Replaced) (n : ℕ) (f : CounterFile)
    → (write_counter euid size_of written r n f).0 ≡ true
    → (write_counter euid size_of written r n f).1 ≡ new_file euid (size_of n) written n
unfolding write_counter
write_counter-done euid size_of written r n f h =
    elim (Bool-cases (f.directory && is_safe euid f.entry)) [
      | inr unsafe ↦ let k = rw unsafe at h in cc
      | inl safe ↦ rw safe (replaced-done r (rw safe at h))
    ]
  where
    replaced-done :
        (r : Replaced)
        → (replace_file r f (new_file euid (size_of n) written n)).0 ≡ true
        → (replace_file r f (new_file euid (size_of n) written n)).1
          ≡ new_file euid (size_of n) written n
    replaced-done done k = refl
    replaced-done not_renamed k = cc
    replaced-done not_synced k = cc
