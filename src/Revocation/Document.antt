-- ===== src/Revocation/Document.antt =====
-- `verify_document`: the signed envelope, checked before its payload is read.
use yantra_os.Prelude.{
  ℕ, ◌+◌, ◌*◌, ◌/◌, String, Bool, not, Option, none, some, List, [], ◌∷◌, ◌++◌, ltb, ◌==◌, str_eq,
  if◌then◌else◌,
}
use yantra_os.Prelude.Lists.{length, codes}
use yantra_os.Prelude.Result.{Result, ok, err, ◌>>=◌, ◌>>◌, raise_if}
use yantra_os.Json.{Json, str, obj, get, keys_are, unique}
use yantra_os.Revocation.Listing.{
  Error, bad_json, bad_base64, bad_size, bad_envelope, unknown_key, bad_signature, RevocationList,
  current_time, require_fresh,
}
use yantra_os.Revocation.Payload.{schema_is, parse_payload}

abbrev pub max_document : ℕ
max_document = 262144

abbrev pub max_payload : ℕ
max_payload = 131072

abbrev pub envelope_schema : String
envelope_schema = "yantraos/signed-skill-revocations/v1"

abbrev pub key_id : String
key_id = "ed25519-3d4259b857a65c27"

abbrev pub public_key_der : String
public_key_der = "MCowBQYDK2VwAyEA/A8ahg6XGabm2Ed8ZnINiMHaxJVejYLePBo4BMX/AwI="

-- SIGNATURE_DOMAIN ends in a zero byte
abbrev pub signature_domain : List ℕ
signature_domain = codes "yantraos:skill-revocations:v1" ++ 0 ∷ []

-- The library code that the checks call: UTF-8 and `json.loads`, which keeps the pairs of an object
-- for the hook; `base64.b64decode(validate=True)`; the loader of DER keys, none unless the key is
-- Ed25519; the check of a signature over a message.
pub record Codec : Type 1 where
  pub Key : Type 0
  pub loads : List ℕ → Option Json
  pub b64decode : String → Option (List ℕ)
  pub load_public_key : List ℕ → Option Key
  pub verify : Key → List ℕ → List ℕ → Bool

abbrev envelope_fields : List String
envelope_fields = "schema" ∷ "key_id" ∷ "payload" ∷ "signature" ∷ []

pub record Envelope : Type 0 where
  pub signer : String
  pub payload : List ℕ
  pub signature : List ℕ

module _ (c : Codec) where
  open c use {Key, loads, b64decode, load_public_key, verify}

  unfoldable pub decode_json : List ℕ → Result Error Json
  decode_json raw = elim (loads raw) [
    | none ↦ err bad_json
    | some j ↦ if unique j then ok j else err bad_json
  ]

  unfoldable pub bounded_base64 : ℕ → Option (List ℕ) → Result Error (List ℕ)
  bounded_base64 maximum none = err bad_base64
  bounded_base64 maximum (some bytes) =
      if ltb maximum (length bytes) then err bad_base64 else ok bytes

  unfoldable pub decode_base64 : ℕ → Option Json → Result Error (List ℕ)
  unfolding bounded_base64
  decode_base64 maximum (some (str s)) =
      if ltb ((maximum + 2) / 3 * 4) (length (codes s))
      then err bad_base64
      else bounded_base64 maximum (b64decode s)
  decode_base64 maximum _ = err bad_base64

  unfoldable pub text_of : Option Json → Result Error String
  text_of (some (str s)) = ok s
  text_of _ = err unknown_key

  unfoldable pub open_envelope : Json → Result Error Envelope
  unfolding decode_base64 text_of schema_is keys_are
  open_envelope (obj fs) = do
    raise_if (not (keys_are envelope_fields fs)) bad_envelope
    raise_if (not (schema_is envelope_schema (get "schema" fs))) unknown_key
    signer ← text_of (get "key_id" fs)
    payload ← decode_base64 max_payload (get "payload" fs)
    signature ← decode_base64 64 (get "signature" fs)
    raise_if (not (length signature == 64)) bad_signature
    ok (record { signer = signer; payload = payload; signature = signature })
  open_envelope _ = err bad_envelope

  unfoldable pub key_of : Option Key → Result Error Key
  key_of none = err unknown_key
  key_of (some k) = ok k

  -- `_public_key`: the one trusted key, by its id
  unfoldable pub trusted_key : String → Result Error Key
  unfolding bounded_base64 key_of decode_base64
  trusted_key signer =
      if str_eq signer key_id
      then (do der ← decode_base64 64 (some (str public_key_der)); key_of (load_public_key der))
      else err unknown_key

  -- the key that the caller gives, if it gives one
  unfoldable pub select_key : Option Key → String → Result Error Key
  unfolding trusted_key
  select_key none signer = trusted_key signer
  select_key (some k) signer = if str_eq signer key_id then ok k else err unknown_key

  -- what a document says once its signature is checked, before the check of its dates
  unfoldable pub verify_signed : Option Key → List ℕ → Result Error RevocationList
  unfolding decode_json open_envelope select_key
  verify_signed given raw = do
    raise_if (ltb max_document (length raw)) bad_size
    document ← decode_json raw
    envelope ← open_envelope document
    key ← select_key given envelope.signer
    raise_if (not (verify key envelope.signature (signature_domain ++ envelope.payload)))
        bad_signature
    body ← decode_json envelope.payload
    parse_payload body

  -- `clock` is the time of day, `now` the caller's time
  unfoldable pub verify_document :
      Option Key → ℕ → Option ℕ → Bool → List ℕ → Result Error RevocationList
  verify_document given clock now fresh raw = do
    l ← verify_signed given raw
    if fresh then (require_fresh (current_time clock now) l >> ok l) else ok l
