-- ===== src/Audit/Chain.antt =====
-- The audit file as a chain of entries, and that every append adds one link to it.
use yantra_os.Prelude.{
  ℕ, ◌-◌, ◌≤◌, ◌<◌, ◌≡◌, refl, sym, ap, ◌∙◌, Bool, true, false, inl, inr, ◌⊎◌, Option, Option-cases,
  none, some, List, [], ◌∷◌, ◌++◌, String, str_eq, arith, &&-left, if◌then◌else◌,
}
use yantra_os.Prelude.Lists.{length, drop, All, codes, length-append}
use mathlib.Core.List.{append_assoc}
use yantra_os.Json.{str, obj, Fields, get}
use yantra_os.Transfer.{Answers, write_all, write_all-complete, write_all-prefix}
use yantra_os.Audit.Fields.{put, del, get-put_self, get-put_other, del-put, put-get}
use yantra_os.Audit.Lines.{
  is_break, last_line, EndsLine, last_line-append, drop-append, drop-EndsLine,
}
use yantra_os.Audit.Entry.{
  Codec, max_audit_entry_bytes, tail_bytes, no_hash, is_hash, encode, encode_payload, hash_after,
  hash_of, hash_field, previous_hash, entry_hash, reserve, seal, chain, write_entry, append_payload,
}
use yantra_os.Audit.Truncation.{Keeps, IsKept, encode_payload-eq-some, encode_payload_fits}

-- What is relied on of `json` and `hashlib`: a hash is 64 hex digits; an entry's text is one line
-- that is not empty, since control characters are escaped; the text of an entry with a hash reads back
-- as an object with that hash; two hashes take as much room in an entry.
pub record IsCodec (c : Codec) : Type 0 where
  pub hash_form : (bs : List ℕ) → is_hash (c.sha256_hex bs) ≡ true
  pub one_line : (p : Fields) → All (λ b. is_break b ≡ false) (c.dumps p)
  pub some_text : (p : Fields) → 0 < length (c.dumps p)
  pub reads_back :
      (p : Fields) (bs : List ℕ)
      → get "entry_hash" p ≡ some (str (c.sha256_hex bs))
      → (q : Fields) × (c.loads (c.dumps p) ≡ some (obj q))
        × (get "entry_hash" q ≡ some (str (c.sha256_hex bs)))
  pub same_room :
      (p : Fields) (bs : List ℕ)
      → length (c.dumps (put "entry_hash" (str (c.sha256_hex bs)) p))
        ≡ length (c.dumps (put "entry_hash" (str no_hash) p))

-- The specification: a file is a chain with the hash of its last entry. A link names the hash before
-- it, and its own hash is that of the former with the rest of the entry.
pub data Chained (c : Codec) : List ℕ → String → Type 0 where
  genesis : Chained c [] no_hash
  link :
      {file : List ℕ} {previous : String}
      → Chained c file previous
      → (p : Fields) (file' : List ℕ) (hash : String) → get "previous_hash" p ≡ some (str previous)
      → get "entry_hash" p ≡ some (str hash)
      → hash ≡ entry_hash c previous p
      → length (encode c p) ≤ max_audit_entry_bytes
      → file' ≡ file ++ encode c p
      → Chained c file' hash

-- a key of the payload itself that is not truncated
abbrev pub IsOwn : String → Type 0
IsOwn k = IsKept k × (str_eq "entry_hash" k ≡ false) × (str_eq "previous_hash" k ≡ false)

module _ (c : Codec) where
  Chained-EndsLine : {file : List ℕ} {h : String} → Chained c file h → EndsLine file
  Chained-EndsLine genesis = inl refl
  Chained-EndsLine (link {file = before} r p file' hash a b d small e) =
      inr (before ++ c.dumps p, e ∙ sym (append_assoc before (c.dumps p) (10 ∷ [])))

  -- the end of the file that is read holds its last line whole
  last_line-link :
      (laws : IsCodec c) (before : List ℕ) (p : Fields)
      → EndsLine before
      → length (encode c p) ≤ max_audit_entry_bytes
      → last_line (drop (length (before ++ encode c p) - tail_bytes) (before ++ encode c p))
        ≡ some (c.dumps p)
  last_line-link laws before p ends small =
      let n = length (before ++ encode c p) - tail_bytes in
      let within : n ≤ length before = omega (arith, length-append before (encode c p)) in
      ap last_line (drop-append n before (encode c p) within)
      ∙ last_line-append (drop n before) (c.dumps p) (drop-EndsLine n before ends) (laws.one_line p)
          (laws.some_text p)

  -- What is read back of a chain is the hash of its last entry.
  pub previous_hash-Chained :
      {file : List ℕ} {h : String} → IsCodec c → Chained c file h → previous_hash c file ≡ some h
  unfolding previous_hash last_line
  previous_hash-Chained laws genesis = refl
  previous_hash-Chained laws
        (link {file = before} {previous = previous} r p file' hash a b d small e) =
      let bs = codes previous ++ c.canonical (del "entry_hash" p) in
      let (q, read, its_hash) = laws.reads_back p bs (b ∙ ap (λ x. some (str x)) d) in
      let line = last_line-link laws before p (Chained-EndsLine r) small in
      ap (λ f. hash_after c (last_line (drop (length f - tail_bytes) f))) e
      ∙ ap (hash_after c) line
      ∙ ap (hash_of c (c.dumps p)) read
      ∙ ap (λ o. some (hash_field c (c.dumps p) o)) its_hash
      ∙ ap (λ g. some (if g then c.sha256_hex bs else c.sha256_hex (c.dumps p))) (laws.hash_form bs)
      ∙ ap (λ h. some h) (sym d)

  seal-eq-some :
      (laws : IsCodec c) (p q : Fields) (previous : String)
      → get "entry_hash" p ≡ some (str no_hash)
      → length (encode c p) ≤ max_audit_entry_bytes
      → seal c previous (some p) ≡ some q
      → q ≡ put "entry_hash" (str (entry_hash c previous p)) p
  unfolding seal
  seal-eq-some laws p q previous empty small e =
      let bs = codes previous ++ c.canonical (del "entry_hash" p) in
      let filled = put "entry_hash" (str (entry_hash c previous p)) p in
      let unfilled = ap (λ r. length (c.dumps r)) (put-get "entry_hash" (str no_hash) p empty) in
      let room = laws.same_room p bs in
      let there = encode_payload_fits c filled (
        omega
          (arith, length-append (c.dumps p) (10 ∷ []), length-append (c.dumps filled) (10 ∷ []))) in
      let same : some q ≡ some filled = sym e ∙ there in cc

  -- an entry that is sealed is a link after that hash
  chain-eq-some :
      (laws : IsCodec c) (p q : Fields) (previous : String)
      → chain c p (some previous) ≡ some q
      → (get "previous_hash" q ≡ some (str previous))
        × (get "entry_hash" q ≡ some (str (entry_hash c previous q)))
        × (length (encode c q) ≤ max_audit_entry_bytes)
  unfolding chain seal
  chain-eq-some laws p q previous e =
      elim (Option-cases (encode_payload c (reserve c previous p))) [
        | inl too_long ↦ let k = simp (too_long, seal) at e in cc
        | inr (p₁, first) ↦
            let k : seal c previous (some p₁) ≡ some q = simp first at e in
            let (kept, small) =
              encode_payload-eq-some c "previous_hash" (reserve c previous p) p₁ (refl, refl, refl)
                first in
            let (kept', small') =
              encode_payload-eq-some c "entry_hash" (reserve c previous p) p₁ (refl, refl, refl)
                first in
            let base = put "previous_hash" (str previous) p in
            let empty = kept' ∙ get-put_self "entry_hash" (str no_hash) base in
            let h = str (entry_hash c previous p₁) in
            let filled = seal-eq-some laws p₁ q previous empty small k in
            let undone = ap (del "entry_hash") filled ∙ del-put "entry_hash" h p₁ in
            (
              ap (get "previous_hash") filled
                  ∙ get-put_other "entry_hash" "previous_hash" h p₁ refl
                  ∙ kept
                  ∙ get-put_other "entry_hash" "previous_hash" (str no_hash) base refl
                  ∙ get-put_self "previous_hash" (str previous) p,
              ap (get "entry_hash") filled
                  ∙ get-put_self "entry_hash" h p₁
                  ∙ ap (λ r. some (str (c.sha256_hex (codes previous ++ c.canonical r))))
                      (sym undone),
              (encode_payload-eq-some c "entry_hash" (put "entry_hash" h p₁) q (refl, refl, refl)
                  k).1,
            )
      ]

  -- An entry that is sealed keeps what is under every other key.
  chain-Keeps :
      (laws : IsCodec c) (p q : Fields) (previous k : String)
      → IsOwn k
      → chain c p (some previous) ≡ some q
      → Keeps k p q
  unfolding chain seal
  chain-Keeps laws p q previous k (kept, not_entry, not_previous) e =
      elim (Option-cases (encode_payload c (reserve c previous p))) [
        | inl too_long ↦ let m = simp (too_long, seal) at e in cc
        | inr (p₁, first) ↦
            let m : seal c previous (some p₁) ≡ some q = simp first at e in
            let h = str (entry_hash c previous p₁) in
            (encode_payload-eq-some c k (put "entry_hash" h p₁) q kept m).0
            ∙ get-put_other "entry_hash" k h p₁ not_entry
            ∙ (encode_payload-eq-some c k (reserve c previous p) p₁ kept first).0
            ∙ get-put_other "entry_hash" k (str no_hash) (put "previous_hash" (str previous) p)
                not_entry
            ∙ get-put_other "previous_hash" k (str previous) p not_previous
      ]

  -- An append that returns has added one entry to the file, whole, and the file is a chain again: the
  -- entry names the hash of the one before it, carries the hash of both, fits its limit, and keeps
  -- every field that may not be truncated.
  pub append_payload-Chained :
      {h : String} (laws : IsCodec c) (answers : Answers) (syncs : Bool) (p : Fields)
      (file : List ℕ)
      → Chained c file h
      → (append_payload c answers syncs p file).0 ≡ true
      → (q : Fields) × ((append_payload c answers syncs p file).1 ≡ file ++ encode c q)
        × Chained c (append_payload c answers syncs p file).1 (entry_hash c h q)
        × ((k : String) → IsOwn k → Keeps k p q)
  unfolding append_payload
  append_payload-Chained {h} laws answers syncs p file r e =
      let read = previous_hash-Chained laws r in
      written (chain c p (previous_hash c file)) (ap (chain c p) read) e
    where
      written :
          (o : Option Fields)
          → o ≡ chain c p (some h)
          → (write_entry c answers syncs o file).0 ≡ true
          → (q : Fields) × ((write_entry c answers syncs o file).1 ≡ file ++ encode c q)
            × Chained c (write_entry c answers syncs o file).1 (entry_hash c h q)
            × ((k : String) → IsOwn k → Keeps k p q)
      written none s k = cc
      written (some q) s k =
          let (before, own, small) = chain-eq-some laws p q h (sym s) in
          let whole =
            ap (λ b. file ++ b)
              (write_all-complete answers (encode c q)
                (&&-left (write_all answers (encode c q)).complete syncs k)) in
          (
            q,
            whole,
            link r q (file ++ (write_all answers (encode c q)).bytes) (entry_hash c h q) before own
                refl small whole,
            λ j own_key. chain-Keeps laws p q h j own_key (sym s),
          )

  -- An append that fails has added at most a first part of one entry.
  pub append_payload-prefix :
      (answers : Answers) (syncs : Bool) (p : Fields) (file : List ℕ)
      → (append_payload c answers syncs p file).0 ≡ false
      → ((append_payload c answers syncs p file).1 ≡ file)
        ⊎ ((q : Fields) × (part : List ℕ) × (rest : List ℕ) × ((append_payload c answers syncs p
                file).1
              ≡ file ++ part)
            × (part ++ rest ≡ encode c q))
  unfolding append_payload
  append_payload-prefix answers syncs p file e = left (chain c p (previous_hash c file))
    where
      left :
          (o : Option Fields)
          → ((write_entry c answers syncs o file).1 ≡ file)
            ⊎ ((q : Fields) × (part : List ℕ) × (rest : List ℕ) × ((write_entry c answers syncs o
                    file).1
                  ≡ file ++ part)
                × (part ++ rest ≡ encode c q))
      left none = inl refl
      left (some q) =
          let (rest, joined) = write_all-prefix answers (encode c q) in
          inr (q, (write_all answers (encode c q)).bytes, rest, refl, joined)
