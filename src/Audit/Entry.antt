-- ===== src/Audit/Entry.antt =====
-- `_encode_payload` and `_append_payload` of audit_log.py.
use yantra_os.Prelude.{
  ℕ, ◌-◌, Bool, true, false, ◌&&◌, ◌||◌, Option, none, some, List, [], ◌∷◌, ◌++◌, String, leb, ◌==◌,
  if◌then◌else◌,
}
use yantra_os.Prelude.Lists.{length, drop, all, codes}
use yantra_os.Json.{Json, bool, int, str, obj, Fields, field, end, get, has_key}
use yantra_os.Transfer.{Answers, write_all}
use yantra_os.Audit.Fields.{put, del}
use yantra_os.Audit.Lines.{last_line}

abbrev pub max_audit_entry_bytes : ℕ
max_audit_entry_bytes = 16384

abbrev pub tail_bytes : ℕ
tail_bytes = 65536

-- "0" * 64
abbrev pub no_hash : String
no_hash = "0000000000000000000000000000000000000000000000000000000000000000"

-- What the module calls of `json` and `hashlib`: the text of an entry in one line, the text with
-- sorted keys that is hashed, the text of one value, a hash, and `json.loads`, none where it raises.
pub record Codec : Type 0 where
  pub dumps : Fields → List ℕ
  pub canonical : Fields → List ℕ
  pub value_bytes : Json → List ℕ
  pub loads : List ℕ → Option Json
  pub sha256_hex : List ℕ → String

-- `[0-9a-f]{64}`
abbrev pub is_hex : ℕ → Bool
is_hex c = (leb b'0' c && leb c b'9') || (leb b'a' c && leb c b'f')

unfoldable pub is_hash : String → Bool
unfolding all
is_hash s = length (codes s) == 64 && all is_hex (codes s)

module _ (c : Codec) where
  -- `_metadata(value, "truncated")`
  unfoldable pub truncated : Json → Json
  truncated v = obj (
      field "bytes" (int (length (c.value_bytes v)))
        (field "sha256" (str (c.sha256_hex (c.value_bytes v))) (field "truncated" (bool true) end)))

  -- one line of the file
  abbrev pub encode : Fields → List ℕ
  encode p = c.dumps p ++ 10 ∷ []

  abbrev pub fits : Fields → Bool
  fits p = leb (length (encode p)) max_audit_entry_bytes

  abbrev pub truncate : String → Option Json → Fields → Fields
  truncate f none p = p
  truncate f (some v) p = put f (truncated v) p

  -- The loop over the fields that may be replaced by their metadata: the entry as it is left.
  unfoldable pub shorten : List String → Fields → Option Fields
  unfolding put get
  shorten [] p = none
  shorten (f ∷ fs) p =
      let p' = truncate f (get f p) p in
      let rest = shorten fs p' in if has_key f p && fits p' then some p' else rest

  -- `_encode_payload`: the entry that is encoded, or none where it stays too long
  unfoldable pub encode_payload : Fields → Option Fields
  unfolding shorten
  encode_payload p =
      if fits p then some p else shorten ("action_detail" ∷ "result" ∷ "error" ∷ []) p

  -- the hash that the last line of the file leaves for the next entry
  abbrev pub hash_field : List ℕ → Option Json → String
  hash_field line (some (str h)) = if is_hash h then h else c.sha256_hex line
  hash_field line _ = c.sha256_hex line

  abbrev pub hash_of : List ℕ → Option Json → Option String
  hash_of line (some (obj p)) = some (hash_field line (get "entry_hash" p))
  hash_of line _ = none

  abbrev pub hash_after : Option (List ℕ) → Option String
  hash_after none = some no_hash
  hash_after (some line) = hash_of line (c.loads line)

  -- what is read of the file's end; none is a malformed tail
  unfoldable pub previous_hash : List ℕ → Option String
  unfolding last_line is_hash drop
  previous_hash file = hash_after (last_line (drop (length file - tail_bytes) file))

  abbrev pub entry_hash : String → Fields → String
  entry_hash previous p = c.sha256_hex (codes previous ++ c.canonical (del "entry_hash" p))

  abbrev pub reserve : String → Fields → Fields
  reserve previous p = put "entry_hash" (str no_hash) (put "previous_hash" (str previous) p)

  -- the entry with its hash, encoded again
  unfoldable pub seal : String → Option Fields → Option Fields
  unfolding encode_payload
  seal previous none = none
  seal previous (some p) = encode_payload (put "entry_hash" (str (entry_hash previous p)) p)

  unfoldable pub chain : Fields → Option String → Option Fields
  unfolding seal
  chain p none = none
  chain p (some previous) = seal previous (encode_payload (reserve previous p))

  -- The write and the sync of an entry: whether the call returns, and the file.
  unfoldable pub write_entry : Answers → Bool → Option Fields → List ℕ → Bool × List ℕ
  unfolding write_all
  write_entry answers syncs none file = (false, file)
  write_entry answers syncs (some p) file =
      let w = write_all answers (encode p) in (w.complete && syncs, file ++ w.bytes)

  -- `_append_payload`, once the file is open and locked; `syncs` is whether `fsync` returns
  unfoldable pub append_payload : Answers → Bool → Fields → List ℕ → Bool × List ℕ
  unfolding write_entry chain previous_hash
  append_payload answers syncs p file =
      write_entry answers syncs (chain p (previous_hash file)) file
