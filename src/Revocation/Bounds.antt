-- ===== src/Revocation/Bounds.antt =====
-- What an accepted payload is bound to, whatever the JSON was.
use yantra_os.Prelude.{
  ℕ, suc, ◌+◌, ◌≤◌, ◌<◌, String, ◌≡◌, ap, subst, true, false, Option, none, some, List, [], ◌∷◌,
  arith, inl, inr, Bool-cases, not,
}
use yantra_os.Prelude.Lists.{length, codes}
use yantra_os.Prelude.Result.{
  ok, >>=-eq-ok, raise_if-eq-ok, if_ok-eq-ok, if_err-eq-ok, ok_injective,
}
use yantra_os.Json.{Json, Items, Fields, nil, cons, null, int, str, arr, obj, get}
use yantra_os.Revocation.Listing.{Error, Entry, RevocationList, contains, bad_values}
use yantra_os.Revocation.Payload.{
  max_integer, max_revocations, is_identifier, is_version, count_items, version_of, id_of,
  parse_entry, parse_entries, int_between, or_raise, items_of, schema_is, payload_schema,
  parse_fields, parse_payload,
}

abbrev IsVersion : Option String → Type 0
IsVersion none = Unit
IsVersion (some v) = is_version (codes v) ≡ true

-- No entry twice, every id an identifier, every version a version.
abbrev pub IsProperEntries : List Entry → Type 0
IsProperEntries [] = Unit
IsProperEntries (e ∷ es) =
    (contains e es ≡ false)
    × (is_identifier (codes e.0) ≡ true)
    × IsVersion e.1
    × IsProperEntries es

pub record IsProper (l : RevocationList) : Type 0 where
  pub sequence_low : 1 ≤ l.sequence
  pub sequence_high : l.sequence ≤ max_integer
  pub dates : l.issued_at < l.expires_at
  pub expiry : l.expires_at ≤ max_integer
  pub count : length l.revoked ≤ max_revocations
  pub entries : IsProperEntries l.revoked

id_of-proper : (j : Option Json) {i : String} → id_of j ≡ ok i → is_identifier (codes i) ≡ true
unfolding id_of
id_of-proper none h = absurd (ground arith)
id_of-proper (some (str s)) {i} h = elim (Bool-cases (is_identifier (codes s))) [
  | inl good ↦ let e : s ≡ i = ground arith in subst (λ t. is_identifier (codes t) ≡ true) e good
  | inr bad ↦ absurd (ground arith)
]
id_of-proper (some null) h = absurd (ground arith)
id_of-proper (some _) h = absurd (ground arith)

version_of-proper : (j : Option Json) {v : Option String} → version_of j ≡ ok v → IsVersion v
unfolding version_of
version_of-proper none {v} h = let e : none ≡ v = ground arith in subst IsVersion e tt
version_of-proper (some null) {v} h = let e : none ≡ v = ground arith in subst IsVersion e tt
version_of-proper (some (str s)) {v} h = elim (Bool-cases (is_version (codes s))) [
  | inl good ↦ let e : some s ≡ v = ground arith in subst IsVersion e good
  | inr bad ↦ absurd (ground arith)
]
version_of-proper (some _) h = absurd (ground arith)

parse_entry-proper :
    (j : Json) (e : Entry)
    → parse_entry j ≡ ok e
    → (is_identifier (codes e.0) ≡ true) × IsVersion e.1
unfolding parse_entry
parse_entry-proper (obj fs) e h =
    let (_, h1) = if_ok-eq-ok _ _ _ h in
    let (i, is_id, h2) = >>=-eq-ok (id_of (get "id" fs)) _ h1 in
    let (v, is_v, h3) = >>=-eq-ok (version_of (get "version" fs)) _ h2 in
    let e1 : (i, v) ≡ e = ok_injective h3 in
    subst (λ (e : Entry). (is_identifier (codes e.0) ≡ true) × IsVersion e.1) e1
      (id_of-proper (get "id" fs) is_id, version_of-proper (get "version" fs) is_v)
parse_entry-proper null e h = absurd (ground arith)
parse_entry-proper _ e h = absurd (ground arith)

parse_entries-proper :
    (seen : List Entry) (xs : Items) (r : List Entry)
    → parse_entries seen xs ≡ ok r
    → IsProperEntries seen
    → IsProperEntries r × (length r ≡ length seen + count_items xs)
unfolding parse_entries count_items
parse_entries-proper seen nil r h p =
    let e : seen ≡ r = ok_injective h in (subst IsProperEntries e p, rw (← e) (omega arith))
parse_entries-proper seen (cons x xs) r h p =
    let (e, parsed, rest) = >>=-eq-ok (parse_entry x) _ h in
    let (fresh, h1) = if_err-eq-ok (contains e seen) _ _ rest in
    let (is_id, is_v) = parse_entry-proper x e parsed in
    let (good, count) = parse_entries-proper (e ∷ seen) xs r h1 (fresh, is_id, is_v, p) in
    (good, omega (arith, count))

int_between-bounds :
    (low high : ℕ) (j : Option Json) (n : ℕ)
    → int_between low high j ≡ some n
    → (low ≤ n) × (n ≤ high)
unfolding int_between
int_between-bounds low high (some (int m)) n h = ground arith
int_between-bounds low high none n h = absurd (ground arith)
int_between-bounds low high (some null) n h = absurd (ground arith)
int_between-bounds low high (some _) n h = absurd (ground arith)

items_of-count :
    (j : Option Json) (xs : Items) → items_of j ≡ some xs → count_items xs ≤ max_revocations
unfolding items_of
items_of-count (some (arr ys)) xs h = ground arith
items_of-count none xs h = absurd (ground arith)
items_of-count (some null) xs h = absurd (ground arith)
items_of-count (some _) xs h = absurd (ground arith)

or_raise-eq-ok : {A : Type 0} (o : Option A) (e : Error) {a : A} → or_raise o e ≡ ok a → o ≡ some a
or_raise-eq-ok none e h = absurd (ground arith)
or_raise-eq-ok (some b) e h = ap some (ok_injective h)

parse_fields-IsProper : (fs : Fields) (l : RevocationList) → parse_fields fs ≡ ok l → IsProper l
unfolding parse_fields
parse_fields-IsProper fs l h =
    let (_, h0) =
      raise_if-eq-ok (not (schema_is payload_schema (get "schema" fs))) bad_values _ h in
    let (s, is_s, h1) =
      >>=-eq-ok (or_raise (int_between 1 max_integer (get "sequence" fs)) bad_values) _ h0 in
    let (i, is_i, h2) =
      >>=-eq-ok (or_raise (int_between 0 max_integer (get "issued_at" fs)) bad_values) _ h1 in
    let (x, is_x, h3) =
      >>=-eq-ok (or_raise (int_between (suc i) max_integer (get "expires_at" fs)) bad_values) _
        h2 in
    let (xs, is_xs, h4) = >>=-eq-ok (or_raise (items_of (get "revoked" fs)) bad_values) _ h3 in
    let (r, is_r, h5) = >>=-eq-ok (parse_entries [] xs) _ h4 in
    let b1 =
      int_between-bounds 1 max_integer (get "sequence" fs) s (or_raise-eq-ok _ bad_values is_s) in
    let b3 =
      int_between-bounds (suc i) max_integer (get "expires_at" fs) x
        (or_raise-eq-ok _ bad_values is_x) in
    let few = items_of-count (get "revoked" fs) xs (or_raise-eq-ok _ bad_values is_xs) in
    let (good, count) = parse_entries-proper [] xs r is_r tt in
    subst IsProper (ok_injective h5) (record {
      sequence_low = b1.0;
      sequence_high = b1.1;
      dates = b3.0;
      expiry = b3.1;
      count = omega (arith, count, few);
      entries = good;
    })

-- Every payload that is accepted has a sequence from 1 to 2^53 - 1, dates in order, and at most 4096
-- entries, no two of them the same, each a well-formed id with a well-formed version or none.
pub parse_payload-IsProper : (j : Json) (l : RevocationList) → parse_payload j ≡ ok l → IsProper l
unfolding parse_payload
parse_payload-IsProper (obj fs) l h = parse_fields-IsProper fs l (if_ok-eq-ok _ _ _ h).1
parse_payload-IsProper null l h = absurd (ground arith)
parse_payload-IsProper _ l h = absurd (ground arith)
