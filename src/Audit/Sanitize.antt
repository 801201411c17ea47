-- ===== src/Audit/Sanitize.antt =====
-- `_sanitize_action` of audit_log.py.
use yantra_os.Prelude.{
  ℕ, zero, suc, ◌-◌, Bool, true, false, ◌&&◌, ◌||◌, List, [], ◌∷◌, String, leb, ◌==◌, if◌then◌else◌,
}
use yantra_os.Prelude.Lists.{length, codes}
use yantra_os.Json.{contains_text}
use yantra_os.Files.{member}
use yantra_os.Audit.Text.{
  Texts, max_audit_string_bytes, bounded_text, is_secret_field, sensitive_action_fields,
}

-- A key of a dict, by its text, and whether it is a string at all.
pub record Key : Type 0 where
  pub name : String
  pub is_text : Bool

-- A Python value: None, a truth value or a number by a number of its own; a text; bytes; a dict and a
-- list or tuple, each with its `id`; any other object by its `str`. A value that contains itself is
-- unfolded as far as its own `id`.
mutual
  pub data Value : Type 0 where
    plain : ℕ → Value
    text : List ℕ → Value
    bytes : List ℕ → Value
    dict : ℕ → Entries → Value
    seq : ℕ → Items → Value
    object : List ℕ → Value

  pub data Items : Type 0 where
    nil : Items
    cons : Value → Items → Items

  pub data Entries : Type 0 where
    end : Entries
    entry : Key → Value → Entries → Entries

-- What is written of a value: a plain one, a text, the size and hash of one that is not shown with the
-- reason, a dict, a list, the marks of a recursive value and of left-out items.
mutual
  pub data Shown : Type 0 where
    plain : ℕ → Shown
    text : List ℕ → Shown
    digest : Bool → ℕ → List ℕ → Shown
    recursive_dict recursive_list : Shown
    dict : Lines → ℕ → Shown
    seq : Row → ℕ → Shown

  pub data Row : Type 0 where
    nil : Row
    cons : Shown → Row → Row

  pub data Lines : Type 0 where
    end : Lines
    line : List ℕ → Shown → Lines → Lines

abbrev pub max_audit_depth : ℕ
max_audit_depth = 8

abbrev pub max_audit_items : ℕ
max_audit_items = 100

unfoldable pub count_items : Items → ℕ
count_items nil = 0
count_items (cons v vs) = suc (count_items vs)

unfoldable pub count_entries : Entries → ℕ
count_entries end = 0
count_entries (entry k v es) = suc (count_entries es)

unfoldable pub same_text : List ℕ → List ℕ → Bool
same_text [] [] = true
same_text [] (b ∷ bs) = false
same_text (a ∷ rest) [] = false
same_text (a ∷ rest) (b ∷ bs) = a == b && same_text rest bs

-- `sanitized[output_key] = …`
unfoldable pub assign : List ℕ → Shown → Lines → Lines
unfolding same_text
assign k v end = line k v end
assign k v (line j w ls) =
    let rest = assign k v ls in if same_text j k then line j v ls else line j w rest

-- `truncated` is the reason of a value that is too deep, else it is redacted
module _ (t : Texts) (value_bytes : Value → List ℕ) where
  unfoldable pub metadata : Bool → Value → Shown
  metadata is_deep v = digest is_deep (length (value_bytes v)) (t.sha256_hex (value_bytes v))

  unfoldable pub is_redacted : Key → Bool
  unfolding is_secret_field contains_text
  is_redacted k =
      k.is_text
      && (is_secret_field t k.name || contains_text (t.lower k.name) sensitive_action_fields)

  -- what is written where the depth allows it
  abbrev pub unless_deep : ℕ → Value → Shown → Shown
  unless_deep depth v shown = if leb max_audit_depth depth then metadata true v else shown

  abbrev pub unless_seen : ℕ → List ℕ → Shown → Shown → Shown
  unless_seen i seen mark shown = if member i seen then mark else shown

  unfoldable mutual
    unfolding bounded_text is_redacted metadata count_items count_entries assign member

    pub sanitize : ℕ → List ℕ → Value → Shown
    sanitize depth seen (plain n) = unless_deep depth (plain n) (plain n)
    sanitize depth seen (text s) =
        unless_deep depth (text s) (text (bounded_text t max_audit_string_bytes s))
    sanitize depth seen (bytes bs) = unless_deep depth (bytes bs) (metadata false (bytes bs))
    sanitize depth seen (object s) =
        unless_deep depth (object s) (text (bounded_text t max_audit_string_bytes s))
    sanitize depth seen (dict i es) = unless_deep depth (dict i es) (
        unless_seen i seen recursive_dict (
          dict (sanitize_entries depth (i ∷ seen) max_audit_items es end)
            (count_entries es - max_audit_items)))
    sanitize depth seen (seq i vs) = unless_deep depth (seq i vs) (
        unless_seen i seen recursive_list (
          seq (sanitize_items depth (i ∷ seen) max_audit_items vs)
            (count_items vs - max_audit_items)))

    pub sanitize_entries : ℕ → List ℕ → ℕ → Entries → Lines → Lines
    sanitize_entries depth seen zero es out = out
    sanitize_entries depth seen (suc n) end out = out
    sanitize_entries depth seen (suc n) (entry k v es) out =
        let shown = sanitize (suc depth) seen v in
        sanitize_entries depth seen n es (
          assign (bounded_text t 256 (codes k.name))
            (if is_redacted k then metadata false v else shown) out)

    pub sanitize_items : ℕ → List ℕ → ℕ → Items → Row
    sanitize_items depth seen zero vs = nil
    sanitize_items depth seen (suc n) nil = nil
    sanitize_items depth seen (suc n) (cons v vs) =
        cons (sanitize (suc depth) seen v) (sanitize_items depth seen n vs)
