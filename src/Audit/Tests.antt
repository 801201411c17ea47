-- ===== src/Audit/Tests.antt =====
-- An audit file of the tests, and the theorems at it.
use yantra_os.Prelude.{
  ℕ, ◌≡◌, refl, ◌⊎◌, true, false, none, some, List, [], ◌∷◌, ◌++◌, String, arith,
}
use yantra_os.Prelude.Lists.{all}
use yantra_os.Prelude.Result.{ok, err}
use yantra_os.Json.{Json, str, obj, Fields, get}
use yantra_os.Json
use yantra_os.Files.{Stat, regular, directory}
use yantra_os.Audit.Text.{Texts, IsUtf8, bounded_text}
use yantra_os.Audit.Sanitize.{Key, Value, dict, text, entry, end, sanitize, is_redacted}
use yantra_os.Audit.Redaction.{Alike, dicts, redacted, ends, sanitize-Alike}
use yantra_os.Audit.Entry.{Codec, no_hash, is_hash, encode, entry_hash, append_payload}
use yantra_os.Audit.Chain.{
  IsCodec, Chained, genesis, IsOwn, append_payload-Chained, append_payload-prefix,
}
use yantra_os.Audit.Truncation.{Keeps}
use yantra_os.Audit.Access.{
  present, made, Target, IsPrivate, open_secure_parent, open_audit_file, open_audit_file-IsPrivate,
  same_file, wrong_mode,
}
use yantra_os.Audit.Logging.{Call, Logger, Disk, log_action, log_action-recorded, bounded}

-- A codec that writes every entry as one byte, with one hash.
abbrev one_byte : Codec
one_byte = record {
  dumps = λ p. 123 ∷ [];
  canonical = λ p. 123 ∷ [];
  value_bytes = λ v. [];
  loads = λ bs. some (obj (Json.field "entry_hash" (str no_hash) Json.end));
  sha256_hex = λ bs. no_hash;
}

runs : Unit {0}
unfolding append_payload log_action sanitize is_hash get open_audit_file is_redacted bounded_text
    all
runs = tt

one_byte-IsCodec : IsCodec one_byte
unfolding runs
one_byte-IsCodec = record {
  hash_form = λ bs. refl;
  one_line = λ p. (refl, tt);
  some_text = λ p. omega arith;
  reads_back = λ p bs h. (Json.field "entry_hash" (str no_hash) Json.end, refl, refl);
  same_room = λ p bs. refl;
}

abbrev texts_of_tests : Texts
texts_of_tests = record {
  encode = λ s. s;
  decode_ignore = λ bs. bs;
  truncated_note = λ n h. 42 ∷ [];
  words = λ s. s ∷ [];
  lower = λ s. s;
  sha256_hex = λ bs. 35 ∷ [];
}

abbrev size_only : Value → List ℕ
size_only v = 0 ∷ []

texts_of_tests-IsUtf8 : IsUtf8 texts_of_tests
texts_of_tests-IsUtf8 = record { encode-append = λ a b. refl; decode_shrinks = λ bs. omega arith }

abbrev token_key : Key
token_key = record { name = "token"; is_text = true }

abbrev with_token : List ℕ → Value
with_token s = dict 1 (entry token_key (text s) end)

tokens-Alike : Alike texts_of_tests size_only 0 (with_token (97 ∷ [])) (with_token (98 ∷ []))
unfolding runs
tokens-Alike =
    dicts 0 1 (entry token_key (text (97 ∷ [])) end) (entry token_key (text (98 ∷ [])) end)
      (omega arith)
      (redacted 0 token_key (text (97 ∷ [])) (text (98 ∷ [])) end end refl (refl, refl) (ends 0))

sanitize-Alike_example :
    sanitize texts_of_tests size_only 0 [] (with_token (97 ∷ []))
    ≡ sanitize texts_of_tests size_only 0 [] (with_token (98 ∷ []))
sanitize-Alike_example =
    sanitize-Alike texts_of_tests size_only (with_token (97 ∷ [])) (with_token (98 ∷ []))
      tokens-Alike

appends : (append_payload one_byte (some 9 ∷ []) true Json.end []).0 ≡ true
unfolding runs
appends = refl

append_payload-Chained_example :
    (q : Fields) × ((append_payload one_byte (some 9 ∷ []) true Json.end []).1
      ≡ [] ++ encode one_byte q)
    × Chained one_byte
        (append_payload one_byte (some 9 ∷ []) true Json.end []).1
        (entry_hash one_byte no_hash q)
    × ((k : String) → IsOwn k → Keeps k Json.end q)
append_payload-Chained_example =
    append_payload-Chained one_byte one_byte-IsCodec (some 9 ∷ []) true Json.end [] genesis appends

torn : (append_payload one_byte (some 1 ∷ none ∷ []) true Json.end []).0 ≡ false
unfolding runs
torn = refl

append_payload-prefix_example :
    ((append_payload one_byte (some 1 ∷ none ∷ []) true Json.end []).1 ≡ [])
    ⊎ ((q : Fields) × (part : List ℕ) × (rest : List ℕ) × ((append_payload one_byte
            (some 1 ∷ none ∷ [])
            true
            Json.end
            []).1
          ≡ [] ++ part)
        × (part ++ rest ≡ encode one_byte q))
append_payload-prefix_example =
    append_payload-prefix one_byte (some 1 ∷ none ∷ []) true Json.end [] torn

-- the file after that append
abbrev one_entry : Fields
one_entry =
    (append_payload-Chained one_byte one_byte-IsCodec (some 9 ∷ []) true Json.end [] genesis
      appends).0

abbrev one_logged :
    Chained one_byte
      (append_payload one_byte (some 9 ∷ []) true Json.end []).1
      (entry_hash one_byte no_hash one_entry)
one_logged =
    (append_payload-Chained one_byte one_byte-IsCodec (some 9 ∷ []) true Json.end [] genesis
      appends).2

abbrev call : Call
call = record {
  phase = "PROPOSED";
  action_type = "click";
  action = with_token (97 ∷ []);
  run_number = some 3;
  confirmation = none;
  result = none;
  error = none;
}

abbrev logger : Logger
logger = record {
  codec = one_byte;
  texts = texts_of_tests;
  value_bytes = size_only;
  to_text = λ s. "t";
  render = λ s. Json.null;
  timestamp = "now";
  action_id = λ j. "id";
}

abbrev disk : Disk
disk = record { content = some []; answers = some 9 ∷ []; syncs = true }

logs : (log_action logger call disk).0 ≡ true
unfolding runs
logs = refl

log_action-recorded_example :
    (q : Fields) × ((log_action logger call disk).1 ≡ some ([] ++ encode one_byte q))
    × Chained one_byte ([] ++ encode one_byte q) (entry_hash one_byte no_hash q)
    × (get "phase" q ≡ some (bounded logger 128 "PROPOSED"))
log_action-recorded_example =
    log_action-recorded logger call disk [] one_byte-IsCodec refl genesis logs

abbrev own_file : Stat
own_file = record {
  kind = regular;
  uid = 7;
  gid = 7;
  mode = 0o100600;
  size = 0;
  device = 1;
  inode = 2;
}

abbrev own_directory : Stat
own_directory = record {
  kind = directory;
  uid = 7;
  gid = 7;
  mode = 0o40700;
  size = 0;
  device = 1;
  inode = 1;
}

abbrev target : Target
target = record { before = some own_file; after = some own_file }

opens :
    open_audit_file 7 own_directory (present own_directory ∷ made own_directory ∷ []) target
    ≡ ok own_file
unfolding runs
opens = refl

-- A file that its group may read is not opened.
shared_refused :
    open_audit_file 7 own_directory
      (present own_directory ∷ [])
      record target { before = some record own_file { mode = 0o100640 } }
    ≡ err wrong_mode
unfolding runs
shared_refused = refl

open_audit_file-IsPrivate_example :
    IsPrivate 7 own_file
    × (open_secure_parent 7 own_directory (present own_directory ∷ made own_directory ∷ []) ≡ ok tt)
    × ((before : Stat)
        → some own_file ≡ some before
        → IsPrivate 7 before × (same_file before own_file ≡ true))
open_audit_file-IsPrivate_example =
    open_audit_file-IsPrivate 7 own_directory (present own_directory ∷ made own_directory ∷ [])
      target own_file opens
