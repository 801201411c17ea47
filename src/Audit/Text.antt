-- ===== src/Audit/Text.antt =====
-- `_bounded_text`, `_metadata` and `_is_secret_field` of audit_log.py.
use yantra_os.Prelude.{
  ℕ, ◌-◌, ◌≤◌, ◌≡◌, ap, Bool, inl, inr, Bool-cases, List, [], ◌∷◌, ◌++◌, String, leb, leb→le, arith,
  if◌then◌else◌,
}
use yantra_os.Prelude.Lists.{length, take, any, length-append, length-take}
use yantra_os.Json.{contains_text}

-- What the module calls of `str`, `bytes`, `re` and `hashlib`: a text's UTF-8 bytes, the text that
-- bytes decode to where errors are ignored, `+`, the note on a truncated text, the words that the
-- regular expressions find in a field's name, `lower`, and a hash.
pub record Texts : Type 0 where
  pub encode : List ℕ → List ℕ
  pub decode_ignore : List ℕ → List ℕ
  pub truncated_note : ℕ → List ℕ → List ℕ
  pub words : String → List String
  pub lower : String → String
  pub sha256_hex : List ℕ → List ℕ

abbrev pub max_audit_string_bytes : ℕ
max_audit_string_bytes = 2048

abbrev pub secret_words : List String
secret_words =
    "key" ∷ "token" ∷ "password" ∷ "passwd" ∷ "authorization" ∷ "secret" ∷ "credential" ∷ "apikey"
    ∷ []

abbrev pub sensitive_action_fields : List String
sensitive_action_fields =
    "content" ∷ "detail" ∷ "destination" ∷ "instruction" ∷ "output_path" ∷ "path"
    ∷ "proposed_action" ∷ "reason" ∷ "target" ∷ "text" ∷ "url" ∷ []

module _ (t : Texts) where
  abbrev pub note_of : List ℕ → List ℕ
  note_of raw = t.truncated_note (length raw) (t.sha256_hex raw)

  -- `_bounded_text` of a text
  unfoldable pub bounded_text : ℕ → List ℕ → List ℕ
  unfolding take
  bounded_text limit text =
      let raw = t.encode text in
      let note = note_of raw in
      if leb (length raw) limit
      then text
      else t.decode_ignore (take (limit - length (t.encode note)) raw) ++ note

  unfoldable pub is_secret_field : String → Bool
  unfolding any contains_text
  is_secret_field name = any (λ w. contains_text w secret_words) (t.words name)

  -- What is relied on of UTF-8: a joined text has the joined bytes, and decoding with errors ignored
  -- adds no bytes.
  pub record IsUtf8 : Type 0 where
    pub encode-append : (a b : List ℕ) → t.encode (a ++ b) ≡ t.encode a ++ t.encode b
    pub decode_shrinks : (bs : List ℕ) → length (t.encode (t.decode_ignore bs)) ≤ length bs

  -- A bounded text takes no more bytes than its limit, wherever the note on its truncation fits.
  pub bounded_text-le :
      IsUtf8
      → (limit : ℕ) (text : List ℕ) → length (t.encode (note_of (t.encode text))) ≤ limit
      → length (t.encode (bounded_text limit text)) ≤ limit
  unfolding bounded_text
  bounded_text-le laws limit text room = elim (Bool-cases (leb (length (t.encode text)) limit)) [
    | inl short ↦ simp short (leb→le (length (t.encode text)) limit short)
    | inr long ↦
        let raw = t.encode text in
        let note = note_of raw in
        let kept = take (limit - length (t.encode note)) raw in
        let whole = ap length (laws.encode-append (t.decode_ignore kept) note) in
        let parts = length-append (t.encode (t.decode_ignore kept)) (t.encode note) in
        let less = laws.decode_shrinks kept in
        let cut = length-take (limit - length (t.encode note)) raw in simp long (omega arith)
  ]
