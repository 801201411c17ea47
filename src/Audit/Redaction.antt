-- ===== src/Audit/Redaction.antt =====
-- What an audit entry reveals of the fields that are redacted: the size and the hash of their text.
use yantra_os.Prelude.{
  ℕ, zero, suc, ◌-◌, ◌≤◌, ◌<◌, ◌≡◌, refl, sym, ap, ◌∙◌, Bool, true, false, List, [], ◌∷◌, leb,
  le→leb, lt→leb_false, if◌then◌else◌,
}
use yantra_os.Prelude.Lists.{length, codes}
use yantra_os.Audit.Text.{Texts, bounded_text}
use yantra_os.Audit.Sanitize.{
  Key, Value, Items, Entries, Shown, Row, Lines, plain, text, bytes, dict, seq, object, nil, cons,
  end, entry, recursive_dict, recursive_list, digest, max_audit_depth, max_audit_items, count_items,
  count_entries, assign, metadata, is_redacted, unless_deep, unless_seen, sanitize,
  sanitize_entries, sanitize_items,
}

module _ (t : Texts) (value_bytes : Value → List ℕ) where
  -- The texts of two values have one size and one hash.
  abbrev pub SameDigest : Value → Value → Type 0
  SameDigest v w =
      (length (value_bytes v) ≡ length (value_bytes w))
      × (t.sha256_hex (value_bytes v) ≡ t.sha256_hex (value_bytes w))

  -- Two values that differ only where the log shows no more than a digest: in fields that are
  -- redacted, and below the greatest depth.
  mutual
    pub data Alike : ℕ → Value → Value → Type 0 where
      same : (depth : ℕ) (v : Value) → Alike depth v v
      deep : (depth : ℕ) (v w : Value) → max_audit_depth ≤ depth → SameDigest v w → Alike depth v w
      dicts :
          (depth i : ℕ) (es fs : Entries)
          → depth < max_audit_depth
          → AlikeEntries depth es fs
          → Alike depth (dict i es) (dict i fs)
      seqs :
          (depth i : ℕ) (vs ws : Items)
          → depth < max_audit_depth
          → AlikeItems depth vs ws
          → Alike depth (seq i vs) (seq i ws)

    pub data AlikeEntries : ℕ → Entries → Entries → Type 0 where
      ends : (depth : ℕ) → AlikeEntries depth end end
      redacted :
          (depth : ℕ) (k : Key) (v w : Value) (es fs : Entries)
          → is_redacted t value_bytes k ≡ true
          → SameDigest v w
          → AlikeEntries depth es fs
          → AlikeEntries depth (entry k v es) (entry k w fs)
      shown :
          (depth : ℕ) (k : Key) (v w : Value) (es fs : Entries)
          → is_redacted t value_bytes k ≡ false
          → Alike (suc depth) v w
          → AlikeEntries depth es fs
          → AlikeEntries depth (entry k v es) (entry k w fs)

    pub data AlikeItems : ℕ → Items → Items → Type 0 where
      nils : (depth : ℕ) → AlikeItems depth nil nil
      conses :
          (depth : ℕ) (v w : Value) (vs ws : Items)
          → Alike (suc depth) v w
          → AlikeItems depth vs ws
          → AlikeItems depth (cons v vs) (cons w ws)

  metadata_same :
      (is_deep : Bool) (v w : Value)
      → SameDigest v w
      → metadata t value_bytes is_deep v ≡ metadata t value_bytes is_deep w
  unfolding metadata
  metadata_same is_deep v w (sizes, hashes) = λ i. digest is_deep (sizes i) (hashes i)

  if_true_same :
      (b : Bool) {x y : Shown} (p q : Shown)
      → b ≡ true
      → x ≡ y
      → (if b then x else p) ≡ (if b then y else q)
  if_true_same true p q h e = e
  if_true_same false p q h e = cc

  if_false_same :
      (b : Bool) {x y : Shown} (p q : Shown)
      → b ≡ false
      → x ≡ y
      → (if b then p else x) ≡ (if b then q else y)
  if_false_same true p q h e = cc
  if_false_same false p q h e = e

  sanitize_deep :
      (depth : ℕ) (seen : List ℕ) (v : Value)
      → max_audit_depth ≤ depth
      → sanitize t value_bytes depth seen v ≡ metadata t value_bytes true v
  unfolding sanitize
  sanitize_deep depth seen (plain n) h = simp (le→leb max_audit_depth depth h) refl
  sanitize_deep depth seen (text s) h = simp (le→leb max_audit_depth depth h) refl
  sanitize_deep depth seen (bytes bs) h = simp (le→leb max_audit_depth depth h) refl
  sanitize_deep depth seen (object s) h = simp (le→leb max_audit_depth depth h) refl
  sanitize_deep depth seen (dict i es) h = simp (le→leb max_audit_depth depth h) refl
  sanitize_deep depth seen (seq i vs) h = simp (le→leb max_audit_depth depth h) refl

  count_entries-AlikeEntries :
      {depth : ℕ} {es fs : Entries} → AlikeEntries depth es fs → count_entries es ≡ count_entries fs
  unfolding count_entries
  count_entries-AlikeEntries (ends depth) = refl
  count_entries-AlikeEntries (redacted depth k v w es fs r d a) =
      ap suc (count_entries-AlikeEntries a)
  count_entries-AlikeEntries (shown depth k v w es fs r h a) = ap suc (count_entries-AlikeEntries a)

  count_items-AlikeItems :
      {depth : ℕ} {vs ws : Items} → AlikeItems depth vs ws → count_items vs ≡ count_items ws
  unfolding count_items
  count_items-AlikeItems (nils depth) = refl
  count_items-AlikeItems (conses depth v w vs ws h a) = ap suc (count_items-AlikeItems a)

  unless_deep-shallow :
      (depth : ℕ) (v w : Value) (x y : Shown)
      → depth < max_audit_depth
      → x ≡ y
      → unless_deep t value_bytes depth v x ≡ unless_deep t value_bytes depth w y
  unless_deep-shallow depth v w x y h e =
      let shallow : leb max_audit_depth depth ≡ false = lt→leb_false depth max_audit_depth h in
      simp shallow e

  mutual
    unfolding sanitize

    sanitize-values-Alike :
        {depth : ℕ} {v w : Value}
        → Alike depth v w
        → (seen : List ℕ)
        → sanitize t value_bytes depth seen v ≡ sanitize t value_bytes depth seen w
    sanitize-values-Alike (same depth v) seen = refl
    sanitize-values-Alike (deep depth v w h d) seen =
        sanitize_deep depth seen v h ∙ metadata_same true v w d ∙ sym (sanitize_deep depth seen w h)
    sanitize-values-Alike (dicts depth i es fs h a) seen =
        let lines = entries_alike a (i ∷ seen) max_audit_items end in
        let left = ap (λ n. n - max_audit_items) (count_entries-AlikeEntries a) in
        unless_deep-shallow depth (dict i es) (dict i fs) _ _ h (
          ap (unless_seen t value_bytes i seen recursive_dict) (λ j. Shown.dict (lines j) (left j)))
    sanitize-values-Alike (seqs depth i vs ws h a) seen =
        let row = items_alike a (i ∷ seen) max_audit_items in
        let left = ap (λ n. n - max_audit_items) (count_items-AlikeItems a) in
        unless_deep-shallow depth (seq i vs) (seq i ws) _ _ h
          (ap (unless_seen t value_bytes i seen recursive_list) (λ j. Shown.seq (row j) (left j)))

    entries_alike :
        {depth : ℕ} {es fs : Entries}
        → AlikeEntries depth es fs
        → (seen : List ℕ) (n : ℕ) (out : Lines)
        → sanitize_entries t value_bytes depth seen n es out
          ≡ sanitize_entries t value_bytes depth seen n fs out
    entries_alike (ends depth) seen n out = refl
    entries_alike (redacted depth k v w es fs r d a) seen zero out = refl
    entries_alike (redacted depth k v w es fs r d a) seen (suc n) out =
        let key = bounded_text t 256 (codes k.name) in
        let digests =
          if_true_same (is_redacted t value_bytes k) (sanitize t value_bytes (suc depth) seen v)
            (sanitize t value_bytes (suc depth) seen w) r (metadata_same false v w d) in
        ap (λ x. sanitize_entries t value_bytes depth seen n es (assign key x out)) digests
        ∙ entries_alike a seen n _
    entries_alike (shown depth k v w es fs r h a) seen zero out = refl
    entries_alike (shown depth k v w es fs r h a) seen (suc n) out =
        let key = bounded_text t 256 (codes k.name) in
        let inside =
          if_false_same (is_redacted t value_bytes k) (metadata t value_bytes false v)
            (metadata t value_bytes false w) r (sanitize-values-Alike h seen) in
        ap (λ x. sanitize_entries t value_bytes depth seen n es (assign key x out)) inside
        ∙ entries_alike a seen n _

    items_alike :
        {depth : ℕ} {vs ws : Items}
        → AlikeItems depth vs ws
        → (seen : List ℕ) (n : ℕ)
        → sanitize_items t value_bytes depth seen n vs
          ≡ sanitize_items t value_bytes depth seen n ws
    items_alike (nils depth) seen n = refl
    items_alike (conses depth v w vs ws h a) seen zero = refl
    items_alike (conses depth v w vs ws h a) seen (suc n) =
        let first = sanitize-values-Alike h seen in
        let rest = items_alike a seen n in λ i. Row.cons (first i) (rest i)

  -- The log of an action shows nothing of a redacted field, or of a value below the greatest depth,
  -- but the size and the hash of its text: two actions that differ only there are logged alike.
  pub sanitize-Alike :
      (v w : Value) → Alike 0 v w → sanitize t value_bytes 0 [] v ≡ sanitize t value_bytes 0 [] w
  sanitize-Alike v w h = sanitize-values-Alike h []
