-- ===== src/Audit/Truncation.antt =====
-- What `_encode_payload` keeps of an entry, and that an entry whose hash is filled in needs no more
-- truncation.
use yantra_os.Prelude.{
  ◌≤◌, ◌≡◌, refl, sym, ap, ◌∙◌, true, false, ◌&&◌, inl, inr, Bool-cases, Option, none, some, List,
  [], ◌∷◌, String, str_eq, leb→le, le→leb, &&-right,
}
use yantra_os.Prelude.Lists.{length}
use yantra_os.Json.{Json, Fields, get, has_key}
use yantra_os.Audit.Fields.{get-put_other}
use yantra_os.Audit.Entry.{
  Codec, max_audit_entry_bytes, truncated, encode, fits, truncate, shorten, encode_payload,
}

-- The two entries agree at a key.
abbrev pub Keeps : String → Fields → Fields → Type 0
Keeps k p q = get k q ≡ get k p

-- a key that is not one of those that may be truncated
abbrev pub IsKept : String → Type 0
IsKept k =
    (str_eq "action_detail" k ≡ false) × (str_eq "result" k ≡ false) × (str_eq "error" k ≡ false)

module _ (c : Codec) where
  truncate-Keeps :
      (f k : String) (o : Option Json) (p : Fields)
      → str_eq f k ≡ false
      → Keeps k p (truncate c f o p)
  truncate-Keeps f k none p h = refl
  truncate-Keeps f k (some v) p h = get-put_other f k (truncated c v) p h

  abbrev Others : String → List String → Type 0
  Others k [] = Unit
  Others k (f ∷ fs) = (str_eq f k ≡ false) × Others k fs

  shorten-eq-some :
      (k : String) (fs : List String) (p q : Fields)
      → Others k fs
      → shorten c fs p ≡ some q
      → Keeps k p q × (fits c q ≡ true)
  unfolding shorten
  shorten-eq-some k [] p q others e = cc
  shorten-eq-some k (f ∷ fs) p q others e =
      let p' = truncate c f (get f p) p in
      let kept = truncate-Keeps f k (get f p) p others.0 in
      elim (Bool-cases (has_key f p && fits c p')) [
        | inl enough ↦
            let same : some p' ≡ some q = simp enough at e in
            let it : p' ≡ q = cc in
            (
              ap (get k) (sym it) ∙ kept,
              ap (fits c) (sym it) ∙ &&-right (has_key f p) (fits c p') enough,
            )
        | inr more ↦
            let (later, small) = shorten-eq-some k fs p' q others.1 (simp more at e) in
            (later ∙ kept, small)
      ]

  -- An entry that is encoded fits, and keeps what is under every key that may not be truncated.
  pub encode_payload-eq-some :
      (k : String) (p q : Fields)
      → IsKept k
      → encode_payload c p ≡ some q
      → Keeps k p q × (length (encode c q) ≤ max_audit_entry_bytes)
  unfolding encode_payload
  encode_payload-eq-some k p q kept e = elim (Bool-cases (fits c p)) [
    | inl small ↦
        let same : some p ≡ some q = simp small at e in
        let it : p ≡ q = cc in
        (
          ap (get k) (sym it),
          leb→le (length (encode c q)) max_audit_entry_bytes (ap (fits c) (sym it) ∙ small),
        )
    | inr large ↦
        let (later, small) =
          shorten-eq-some k ("action_detail" ∷ "result" ∷ "error" ∷ []) p q
            (kept.0, (kept.1, (kept.2, tt))) (simp large at e) in
        (later, leb→le (length (encode c q)) max_audit_entry_bytes small)
  ]

  pub encode_payload_fits :
      (p : Fields) → length (encode c p) ≤ max_audit_entry_bytes → encode_payload c p ≡ some p
  unfolding encode_payload
  encode_payload_fits p h =
      let small : fits c p ≡ true = le→leb (length (encode c p)) max_audit_entry_bytes h in
      simp small refl
