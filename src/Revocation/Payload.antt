-- ===== src/Revocation/Payload.antt =====
-- `_parse_payload`: the strict payload of a signed envelope.
use yantra_os.Prelude.{
  ℕ, suc, ◌-◌, ◌^◌, String, Bool, true, false, ◌&&◌, ◌||◌, not, Option, none, some, List, [], ◌∷◌,
  leb, ◌==◌, str_eq, if◌then◌else◌,
}
use yantra_os.Prelude.Lists.{length, codes, all}
use yantra_os.Prelude.Result.{Result, ok, err, ◌>>=◌, ◌>>◌, raise_if}
use yantra_os.Json.{Json, Items, Fields, null, int, str, arr, obj, nil, cons, get, keys_are}
use yantra_os.Revocation.Listing.{
  Error, bad_fields, bad_values, bad_entry, bad_identity, Entry, RevocationList, contains,
}

abbrev pub max_integer : ℕ
max_integer = 2 ^ 53 - 1

abbrev pub max_revocations : ℕ
max_revocations = 4096

abbrev pub payload_schema : String
payload_schema = "yantraos/skill-revocations/v1"

unfoldable pub is_digit : ℕ → Bool
is_digit c = leb b'0' c && leb c b'9'

unfoldable pub is_lower : ℕ → Bool
is_lower c = leb b'a' c && leb c b'z'

unfoldable pub identifier_rest : ℕ → Bool
unfolding is_digit is_lower
identifier_rest c = is_lower c || (is_digit c || c == b'_')

-- _IDENTIFIER: ^[a-z][a-z0-9_]{0,63}$, as a full match
unfoldable pub is_identifier : List ℕ → Bool
unfolding is_lower identifier_rest all
is_identifier [] = false
is_identifier (c ∷ cs) = is_lower c && (all identifier_rest cs && leb (length cs) 63)

-- The digits of one part of a version up to the first other character: whether the part is a
-- number with no leading zero, and what follows it.
unfoldable pub digits_rest : List ℕ → List ℕ
unfolding is_digit
digits_rest [] = []
digits_rest (c ∷ cs) = let rest = digits_rest cs in if is_digit c then rest else c ∷ cs

unfoldable pub number_rest : List ℕ → Option (List ℕ)
unfolding digits_rest is_digit
number_rest [] = none
number_rest (c ∷ cs) =
    if c == b'0' then some cs else if is_digit c then some (digits_rest cs) else none

unfoldable pub dot_rest : Option (List ℕ) → Option (List ℕ)
dot_rest none = none
dot_rest (some []) = none
dot_rest (some (c ∷ cs)) = if c == b'.' then some cs else none

abbrev pub then_number : Option (List ℕ) → Option (List ℕ)
then_number none = none
then_number (some cs) = number_rest cs

abbrev pub at_end : Option (List ℕ) → Bool
at_end (some []) = true
at_end _ = false

-- _VERSION: three numbers with no leading zeros, joined by dots, as a full match
unfoldable pub is_version : List ℕ → Bool
unfolding number_rest dot_rest
is_version cs = at_end (then_number (dot_rest (then_number (dot_rest (number_rest cs)))))

unfoldable pub count_items : Items → ℕ
count_items nil = 0
count_items (cons x xs) = suc (count_items xs)

-- `entry.get("version")`: absent, or null, is no version
unfoldable pub version_of : Option Json → Result Error (Option String)
unfolding is_version
version_of none = ok none
version_of (some null) = ok none
version_of (some (str v)) = if is_version (codes v) then ok (some v) else err bad_identity
version_of (some _) = err bad_identity

unfoldable pub id_of : Option Json → Result Error String
unfolding is_identifier
id_of (some (str i)) = if is_identifier (codes i) then ok i else err bad_identity
id_of _ = err bad_identity

-- the object of one revoked skill
unfoldable pub parse_entry : Json → Result Error Entry
unfolding id_of version_of keys_are
parse_entry (obj fs) =
    if keys_are ("id" ∷ []) fs || keys_are ("id" ∷ "version" ∷ []) fs
    then (do i ← id_of (get "id" fs); v ← version_of (get "version" fs); ok (i, v))
    else err bad_entry
parse_entry _ = err bad_entry

-- the loop over the entries, with the set built so far
unfoldable pub parse_entries : List Entry → Items → Result Error (List Entry)
parse_entries seen nil = ok seen
parse_entries seen (cons x xs) =
    parse_entry x >>= λ e. if contains e seen then err bad_identity else parse_entries (e ∷ seen) xs

-- `type(value) is int and low <= value <= high`; a negative number is below every `low` used
unfoldable pub int_between : ℕ → ℕ → Option Json → Option ℕ
int_between low high (some (int n)) = if leb low n && leb n high then some n else none
int_between low high _ = none

abbrev pub or_raise : {A : Type 0} → Option A → Error → Result Error A
or_raise none e = err e
or_raise (some a) e = ok a

unfoldable pub items_of : Option Json → Option Items
unfolding count_items
items_of (some (arr xs)) = if leb (count_items xs) max_revocations then some xs else none
items_of _ = none

unfoldable pub schema_is : String → Option Json → Bool
schema_is s (some (str t)) = str_eq t s
schema_is s _ = false

unfoldable pub parse_fields : Fields → Result Error RevocationList
unfolding int_between items_of schema_is
parse_fields fs = do
  raise_if (not (schema_is payload_schema (get "schema" fs))) bad_values
  sequence ← or_raise (int_between 1 max_integer (get "sequence" fs)) bad_values
  issued_at ← or_raise (int_between 0 max_integer (get "issued_at" fs)) bad_values
  expires_at ← or_raise (int_between (suc issued_at) max_integer (get "expires_at" fs)) bad_values
  items ← or_raise (items_of (get "revoked" fs)) bad_values
  revoked ← parse_entries [] items
  ok (record {
    sequence = sequence;
    issued_at = issued_at;
    expires_at = expires_at;
    revoked = revoked;
  })

abbrev pub payload_fields : List String
payload_fields = "schema" ∷ "sequence" ∷ "issued_at" ∷ "expires_at" ∷ "revoked" ∷ []

-- the checks before freshness
unfoldable pub parse_payload : Json → Result Error RevocationList
unfolding parse_fields keys_are
parse_payload (obj fs) = if keys_are payload_fields fs then parse_fields fs else err bad_fields
parse_payload _ = err bad_fields
