-- ===== src/Revocation/Tests.antt =====
-- The revocation list on concrete documents: a bootstrap list, then an update that revokes a skill.
use yantra_os.Prelude.{
  ℕ, ◌≤◌, String, ◌≡◌, refl, true, false, Option, none, some, List, [], ◌∷◌, ◌==◌, str_eq,
  if◌then◌else◌,
}
use yantra_os.Prelude.Result.{ok, err, returned}
use yantra_os.Json.{Json, Items, unique, has_key, get, int, str, arr, obj, nil, cons, end, field}
use yantra_os.Files.{Stat, regular, directory}
use yantra_os.Transfer.{read_loop, write_all}
use yantra_os.Revocation.Listing.{
  RevocationList, Entry, revokes, rollback, require_fresh, contains, same_entry, is_subset,
  same_list, newer,
}
use yantra_os.Revocation.Payload.{parse_payload, payload_schema, parse_entries, parse_entry}
use yantra_os.Revocation.Document.{
  Codec, envelope_schema, key_id, public_key_der, verify_document, verify_signed,
}
use yantra_os.Revocation.Cache.{
  Host, active_revocations, read_regular_file, install_document, ensure_skill_allowed,
}
use yantra_os.Revocation.Bounds.{IsProper, parse_payload-IsProper}
use yantra_os.Revocation.InForce.{install-keeps_revoked, install-refuses_revoked}

abbrev zeros : ℕ → List ℕ
zeros = elim [ ℕ.zero ↦ [] | ℕ.suc (n → ih) ↦ 0 ∷ ih ]

abbrev skill : String → Json
skill name = obj (field "id" (str name) end)

abbrev list_json : ℕ → Items → Json
list_json sequence revoked = obj (
    field "schema" (str payload_schema) (
      field "sequence" (int sequence) (
        field "issued_at" (int 1000)
          (field "expires_at" (int 9000) (field "revoked" (arr revoked) end)))))

abbrev envelope_json : String → Json
envelope_json payload = obj (
    field "schema" (str envelope_schema) (
      field "key_id" (str key_id)
        (field "payload" (str payload) (field "signature" (str "sig") end))))

abbrev first_list : Json
first_list = list_json 1 (cons (skill "alpha") nil)

abbrev second_list : Json
second_list = list_json 2 (cons (skill "alpha") (cons (skill "beta") nil))

-- One byte stands for each document.
abbrev toy_loads : List ℕ → Option Json
toy_loads [] = none
toy_loads (b ∷ bs) =
    if b == 1
    then some (envelope_json "p1")
    else if b == 2
    then some (envelope_json "p2")
    else if b == 11
    then some first_list
    else if b == 12
    then some second_list
    else none

abbrev toy_b64 : String → Option (List ℕ)
toy_b64 s =
    if str_eq s "p1"
    then some (11 ∷ [])
    else if str_eq s "p2"
    then some (12 ∷ [])
    else if str_eq s "sig"
    then some (zeros 64)
    else if str_eq s public_key_der
    then some []
    else none

abbrev toy : Codec
toy = record {
  Key = Unit;
  loads = toy_loads;
  b64decode = toy_b64;
  load_public_key = λ _. some tt;
  verify = λ _ _ _. true;
}

abbrev owned : ℕ → Stat
owned mode = record {
  kind = regular;
  uid = 0;
  gid = 0;
  mode = mode;
  size = 1;
  device = 1;
  inode = 7;
}

abbrev host : Host
host = record {
  clock = 5000;
  euid = 0;
  source_owner = 0;
  updater = some 990;
  bootstrap = some (record { stat = owned 0o644; content = 1 ∷ [] });
  cached = none;
  candidate = none;
  cache_dir = some (record (owned 0o755) { kind = directory });
  run_dir = none;
}

abbrev entry : String → Entry
entry name = (name, none)

abbrev listing : ℕ → List Entry → RevocationList
listing n es = record { sequence = n; issued_at = 1000; expires_at = 9000; revoked = es }

abbrev updated : Host
updated = record host {
  cached = some (record { stat = record (owned 0o644) { inode = 0 }; content = 2 ∷ [] });
}

-- the code that the runs below go through
runs : Unit {0}
unfolding active_revocations install_document verify_document verify_signed require_fresh
    parse_payload read_regular_file read_loop write_all unique has_key get parse_entries parse_entry
    contains same_entry is_subset same_list newer ensure_skill_allowed revokes
runs = tt

before_update : active_revocations toy host none ≡ ok (listing 1 (entry "alpha" ∷ []))
unfolding runs
before_update = refl

update_installs : install_document toy host none (some 1 ∷ []) (2 ∷ []) ≡ ok (updated, true, 2)
unfolding runs
update_installs = refl

after_update :
    active_revocations toy updated none ≡ ok (listing 2 (entry "beta" ∷ entry "alpha" ∷ []))
unfolding runs
after_update = refl

-- The first list is not accepted again.
rollback_refused : install_document toy updated none (some 1 ∷ []) (1 ∷ []) ≡ err rollback
unfolding runs
rollback_refused = refl

install-keeps_revoked_example :
    (1 ≤ 2)
    × ((i v : String)
        → revokes (listing 1 (entry "alpha" ∷ [])) i v ≡ true
        → revokes (listing 2 (entry "beta" ∷ entry "alpha" ∷ [])) i v ≡ true)
install-keeps_revoked_example =
    install-keeps_revoked toy host updated none (some 1 ∷ []) (2 ∷ []) true 2
      (listing 1 (entry "alpha" ∷ [])) (listing 2 (entry "beta" ∷ entry "alpha" ∷ [])) none none
      refl before_update update_installs after_update

update_verifies :
    verify_document toy none 5000 none true (2 ∷ [])
    ≡ ok (listing 2 (entry "beta" ∷ entry "alpha" ∷ []))
unfolding runs
update_verifies = refl

beta_revoked : revokes (listing 2 (entry "beta" ∷ entry "alpha" ∷ [])) "beta" "1.0.0" ≡ true
unfolding runs
beta_revoked = refl

install-refuses_revoked_example : returned (ensure_skill_allowed toy updated "beta" "1.0.0") ≡ false
install-refuses_revoked_example =
    install-refuses_revoked toy host updated none (some 1 ∷ []) (2 ∷ []) true 2
      (listing 2 (entry "beta" ∷ entry "alpha" ∷ [])) "beta" "1.0.0" refl update_installs
      update_verifies beta_revoked

second_parses : parse_payload second_list ≡ ok (listing 2 (entry "beta" ∷ entry "alpha" ∷ []))
unfolding runs
second_parses = refl

parse_payload-IsProper_example : IsProper (listing 2 (entry "beta" ∷ entry "alpha" ∷ []))
parse_payload-IsProper_example = parse_payload-IsProper second_list _ second_parses
