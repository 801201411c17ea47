-- ===== src/Consent/Tests.antt =====
-- The ledger with a toy key and hash: runs, and the theorems at them.
use yantra_os.Prelude.{
  ℕ, ◌-◌, ◌*◌, String, ◌≡◌, ◌↔◌, ◌⊎◌, refl, true, false, Option, none, some, [], ◌∷◌, map,
}
use yantra_os.Prelude.Lists.{length, codes, codes-injective, get_last?}
use yantra_os.Prelude.Result.{ok, err}
use yantra_os.Consent.Store.{text, real, blob, Row, Sample, Db, connection, transaction}
use yantra_os.Consent.Ledger.{
  Signing, granted, revoked, initial_pcr, is_intent, extend, new_row, record_consent,
  consent_granted, verify_row, verify_rows, verify_ledger, integer, hour, checked_ttl, granted_row,
  sweep_expired_telemetry, delete_older, is_older,
}
use yantra_os.Consent.Chain.{IsSound}
use yantra_os.Consent.Recording.{record_consent-IsSound, record_consent-reported}
use yantra_os.Consent.Commitment.{Collision, last_pcr_commits, measured}
use yantra_os.Consent.Telemetry.{IsFresh, sweep-keeps_IsFresh}
use mathlib.Core.List.{Mem}

-- A key that signs by copying, and a hash of a fixed text.
abbrev toy : Signing
toy = record {
  encode = codes;
  show = λ _. "t";
  sha256_hex = λ _. "digest";
  sign = λ m. m;
  verify = λ _ _. true;
}

abbrev sample : String → Option ℕ → Sample
sample id t = record { id = id; timestamp = t; payload = "{}" }

abbrev fresh_db : Db
fresh_db = record {
  ledger = [];
  telemetry = sample "a" (some 1000) ∷ sample "b" none ∷ sample "c" (some (9 * hour)) ∷ [];
  faults = [];
}

runs : Unit {0}
unfolding record_consent consent_granted transaction verify_ledger new_row is_intent delete_older
    is_older sweep_expired_telemetry get_last? extend
runs = tt

abbrev after_grant : Db
after_grant = (record_consent toy 5 granted fresh_db).1

grant_returns : (record_consent toy 5 granted fresh_db).0 ≡ ok tt
unfolding runs
grant_returns = refl

denied_by_default : (consent_granted fresh_db).0 ≡ ok false
unfolding runs
denied_by_default = refl

granted_then_revoked : (consent_granted (record_consent toy 6 revoked after_grant).1).0 ≡ ok false
unfolding runs
granted_then_revoked = refl

-- The revocation is recorded where the purge after it fails; the telemetry is then still there.
purge_fails :
    let (r, db) =
      record_consent toy 6 revoked (record fresh_db { faults = false ∷ false ∷ true ∷ [] }) in
    (r ≡ err connection) × (length db.ledger ≡ 1) × (length db.telemetry ≡ 3)
unfolding runs
purge_fails = (refl, refl, refl)

fresh-IsSound : IsSound toy fresh_db
unfolding verify_rows
fresh-IsSound = (initial_pcr, refl)

record_consent-IsSound_example : IsSound toy after_grant
record_consent-IsSound_example =
    record_consent-IsSound toy 5 granted fresh_db (λ m. refl) fresh-IsSound

record_consent-reported_example :
    (granted_row (get_last? after_grant.ledger) ≡ true)
    × (after_grant.telemetry ≡ fresh_db.telemetry)
record_consent-reported_example = record_consent-reported toy 5 granted fresh_db grant_returns

sweep-keeps_IsFresh_example :
    let (r, db') = sweep_expired_telemetry (10 * hour) (integer 2) fresh_db in
    (r ≡ ok tt)
    × (db'.ledger ≡ [])
    × ((s : Sample)
        → Mem s db'.telemetry
          ↔ (Mem s fresh_db.telemetry × IsFresh (10 * hour - 2 * hour) s.timestamp))
sweep-keeps_IsFresh_example =
    sweep-keeps_IsFresh (10 * hour) (2 * hour) (integer 2) fresh_db (unfold checked_ttl in refl)
      refl

-- A hash that tells nothing apart: its digests are well formed.
abbrev flat : Signing
flat = record toy { sha256_hex = λ _. initial_pcr }

abbrev flat_row : Row
flat_row = record {
  timestamp = real 1;
  intent = text granted;
  pcr_value = text initial_pcr;
  signature = blob [];
}

flat_verifies : verify_rows flat initial_pcr (flat_row ∷ []) ≡ ok initial_pcr
unfolding verify_rows verify_row is_intent extend
flat_verifies = refl

last_pcr_commits_example :
    (map (measured flat) (flat_row ∷ []) ≡ map (measured flat) (flat_row ∷ [])) ⊎ Collision flat
last_pcr_commits_example =
    last_pcr_commits flat initial_pcr (flat_row ∷ []) (flat_row ∷ [])
      (record {
        digest_length = λ a. refl;
        initial_length = refl;
        encode_injective = codes-injective;
      })
      refl flat_verifies flat_verifies
