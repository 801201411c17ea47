-- ===== src/Consent/Ledger.antt =====
-- The ledger's methods: its verification, the state of consent, and the recording of a change.
use yantra_os.Prelude.{
  ℕ, ◌-◌, ◌*◌, String, Bool, false, ◌&&◌, ◌||◌, not, Option, none, some, List, [], ◌∷◌, ◌++◌, ltb,
  leb, str_eq, if◌then◌else◌,
}
use yantra_os.Prelude.Lists.{get_last?}
use yantra_os.Prelude.Result
use yantra_os.Prelude.Result.{Result, ok, err}
use yantra_os.Consent.Store.{
  Cell, text, blob, real, Row, Sample, Error, unknown_state, not_text, invalid_data, broken_chain,
  bad_signature, ttl_not_numeric, ttl_out_of_range, Action, pure, raise, lift, ◌>>=◌, ◌>>◌,
  transaction,
}

abbrev pub granted : String
granted = "CONSENT_GRANTED"

abbrev pub revoked : String
revoked = "CONSENT_REVOKED"

-- "0" * 64
abbrev pub initial_pcr : String
initial_pcr = "0000000000000000000000000000000000000000000000000000000000000000"

-- The library code that the ledger calls: `str.encode`, the text of a value in an f-string, the hex
-- digest of SHA-256, and the Ed25519 key of this service.
pub record Signing : Type 0 where
  pub encode : String → List ℕ
  pub show : Cell → String
  pub sha256_hex : List ℕ → String
  pub sign : List ℕ → List ℕ
  pub verify : List ℕ → List ℕ → Bool

-- `intent in _CONSENT_INTENTS`
unfoldable pub is_intent : String → Bool
is_intent s = str_eq s granted || str_eq s revoked

-- the parts of a row that the checks of its types let through
unfoldable pub typed_cells : Cell → Cell → Result Error (String × List ℕ)
typed_cells (text i) (blob s) = if is_intent i then ok (i, s) else err invalid_data
typed_cells _ _ = err invalid_data

abbrev pub text_of : Cell → Error → Result Error String
text_of (text s) e = ok s
text_of _ e = err e

-- `SELECT pcr_value … ORDER BY id DESC LIMIT 1`, or the initial value
unfoldable pub last_cell : List Row → Cell
unfolding get_last?
last_cell rows = elim (get_last? rows) [ none ↦ text initial_pcr | some r ↦ r.pcr_value ]

unfoldable pub get_last_pcr : Action Cell
unfolding last_cell
get_last_pcr = transaction (λ db. (last_cell db.ledger, db))

abbrev pub granted_row : Option Row → Bool
granted_row none = false
granted_row (some r) = elim (r.intent) [ text i ↦ str_eq i granted | _ ↦ false ]

unfoldable pub consent_granted : Action Bool
unfolding get_last?
consent_granted = transaction (λ db. (granted_row (get_last? db.ledger), db))

unfoldable pub immediate_data_purge : Action (Unit {0})
immediate_data_purge = transaction (λ db. (tt, record db { telemetry = [] }))

module _ (k : Signing) where
  open k use {encode, show, sha256_hex, sign, verify}

  -- f"{intent}:{timestamp}".encode("utf-8")
  unfoldable pub measurement : String → Cell → List ℕ
  measurement intent timestamp = encode intent ++ encode ":" ++ encode (show timestamp)

  -- SHA-256(previous || measurement)
  unfoldable pub extend : String → String → Cell → String
  unfolding measurement
  extend previous intent timestamp = sha256_hex (encode previous ++ measurement intent timestamp)

  -- one round of the loop in `_verify_ledger`; it returns the next `previous`
  unfoldable pub verify_row : String → Row → Result Error String
  unfolding typed_cells
  verify_row previous r = Result.◌>>=◌ (typed_cells r.intent r.signature) λ (intent, signature).
      Result.◌>>=◌ (text_of r.pcr_value broken_chain) λ pcr.
        if not (str_eq (extend previous intent r.timestamp) pcr)
        then err broken_chain
        else if verify signature (encode pcr)
        then ok pcr
        else err bad_signature

  unfoldable pub verify_rows : String → List Row → Result Error String
  verify_rows previous [] = ok previous
  verify_rows previous (r ∷ rs) = Result.◌>>=◌ (verify_row previous r) λ next. verify_rows next rs

  -- the rows are fetched in one block; `_verify_ledger` returns nothing
  unfoldable pub verify_ledger : Action (Unit {0})
  unfolding verify_rows
  verify_ledger = do
    rows ← transaction (λ db. (db.ledger, db))
    lift (Result.◌>>=◌ (verify_rows initial_pcr rows) λ _. ok tt)

  -- the row that a change of consent adds
  unfoldable pub new_row : String → String → ℕ → Row
  new_row last_pcr intent now = record {
    timestamp = real now;
    intent = text intent;
    pcr_value = text (extend last_pcr intent (real now));
    signature = blob (sign (encode (extend last_pcr intent (real now))));
  }

  unfoldable pub record_consent : ℕ → String → Action (Unit {0})
  unfolding get_last_pcr new_row immediate_data_purge
  record_consent now intent = if not (is_intent intent) then raise unknown_state else do
    last ← get_last_pcr
    last_pcr ← lift (text_of last not_text)
    transaction (λ db. (tt, record db { ledger = db.ledger ++ new_row last_pcr intent now ∷ [] }))
    if str_eq intent revoked then immediate_data_purge else pure tt

-- The values of `ttl_hours`: a float is the number of microseconds that it stands for; `below` is a
-- negative number or NaN.
pub data Ttl : Type 0 where
  boolean : Bool → Ttl
  integer : ℕ → Ttl
  floating : ℕ → Ttl
  below : Ttl
  other : Ttl

abbrev pub hour : ℕ
hour = 3600 * 1000000

abbrev pub max_hours : ℕ
max_hours = 24 * 365

-- the checked time to live, in microseconds
unfoldable pub checked_ttl : Ttl → Result Error ℕ
checked_ttl (boolean b) = err ttl_not_numeric
checked_ttl other = err ttl_not_numeric
checked_ttl below = err ttl_out_of_range
checked_ttl (integer h) = if leb 1 h && leb h max_hours then ok (h * hour) else err ttl_out_of_range
checked_ttl (floating us) =
    if leb hour us && leb us (max_hours * hour) then ok us else err ttl_out_of_range

-- `timestamp < expiration`, as SQLite compares
unfoldable pub is_older : ℕ → Option ℕ → Bool
is_older expiration none = false
is_older expiration (some t) = ltb t expiration

-- `DELETE FROM telemetry_store WHERE timestamp < ?`
unfoldable pub delete_older : ℕ → List Sample → List Sample
delete_older expiration [] = []
delete_older expiration (s ∷ ss) =
    let rest = delete_older expiration ss in
    if is_older expiration s.timestamp then rest else s ∷ rest

-- A time before the epoch deletes nothing, as a time of 0 does.
unfoldable pub sweep_expired_telemetry : ℕ → Ttl → Action (Unit {0})
unfolding checked_ttl delete_older
sweep_expired_telemetry now ttl_hours = do
  ttl ← lift (checked_ttl ttl_hours)
  transaction (λ db. (tt, record db { telemetry = delete_older (now - ttl) db.telemetry }))
