-- ===== src/Audit/Logging.antt =====
-- `log_action` and `log_execution` of audit_log.py.
use yantra_os.Prelude.{
  ℕ, ◌≡◌, refl, ap, subst, str_eq, ◌∙◌, Bool, true, false, Option, none, some, List, [], ◌++◌,
  String,
}
use yantra_os.Prelude.Lists.{length, codes}
use yantra_os.Json.{Json, int, str, bool, obj, Fields, field, end, get}
use mathlib.Core.Option
use yantra_os.Transfer.{Answers}
use yantra_os.Audit.Text.{Texts, bounded_text}
use yantra_os.Audit.Sanitize.{Value, Shown, sanitize}
use yantra_os.Audit.Fields.{put, get-put_other}
use yantra_os.Audit.Entry.{Codec, encode, entry_hash, append_payload}
use yantra_os.Audit.Chain.{IsCodec, Chained, append_payload-Chained}

-- What a call of `log_action` is given: the phase, the action's type and its value, and what is
-- optional.
pub record Call : Type 0 where
  pub phase : String
  pub action_type : String
  pub action : Value
  pub run_number : Option ℕ
  pub confirmation : Option String
  pub result : Option String
  pub error : Option String

-- The libraries, the clock's text, the text of code points, and what `json` makes of a shown value.
pub record Logger : Type 0 where
  pub codec : Codec
  pub texts : Texts
  pub value_bytes : Value → List ℕ
  pub to_text : List ℕ → String
  pub render : Shown → Json
  pub timestamp : String
  pub action_id : Json → String

-- What the file system does to one append: none where the file cannot be opened or locked, else its
-- content; what the writes answer; and whether the sync returns.
pub record Disk : Type 0 where
  pub content : Option (List ℕ)
  pub answers : Answers
  pub syncs : Bool

module _ (l : Logger) where
  unfoldable pub bounded : ℕ → String → Json
  unfolding bounded_text
  bounded limit s = str (l.to_text (bounded_text l.texts limit (codes s)))

  -- `_metadata(value, "redacted")` of a text
  unfoldable pub redacted_text : String → Json
  redacted_text s =
      let raw = l.texts.encode (codes s) in
      obj (
        field "bytes" (int (length raw)) (
          field "sha256" (str (l.to_text (l.texts.sha256_hex raw)))
            (field "redacted" (bool true) end)))

  abbrev pub optional : String → Option Json → Fields → Fields
  optional k none p = p
  optional k (some v) p = put k v p

  abbrev pub detail_of : Call → Json
  detail_of a = l.render (sanitize l.texts l.value_bytes 0 [] a.action)

  abbrev pub base_payload : Call → Fields
  base_payload a = field "schema_version" (int 1) (
      field "timestamp" (str l.timestamp) (
        field "log_type" (str "external_action") (
          field "phase" (bounded 128 a.phase) (
            field "action_type" (bounded 128 a.action_type) (
              field "action_detail" (detail_of a)
                (field "action_id" (str (l.action_id (detail_of a))) end))))))

  unfoldable pub payload_of : Call → Fields
  unfolding put bounded redacted_text sanitize
  payload_of a = optional "error" (Option.map redacted_text a.error) (
      optional "result" (Option.map redacted_text a.result) (
        optional "confirmation" (Option.map (bounded 128) a.confirmation)
          (optional "run_number" (Option.map int a.run_number) (base_payload a))))

  -- an append to the file, where it opens
  abbrev pub append_to : Disk → Fields → Option (List ℕ) → Bool × Option (List ℕ)
  append_to d p none = (false, none)
  append_to d p (some file) =
      let done = append_payload l.codec d.answers d.syncs p file in (done.0, some done.1)

  -- `log_action`: what it returns, and the file
  unfoldable pub log_action : Call → Disk → Bool × Option (List ℕ)
  unfolding payload_of append_payload
  log_action a d = append_to d (payload_of a) d.content

  -- What a call of `log_execution` is given: the script, the image, the container, the exit code and
  -- the duration in milliseconds.
  abbrev pub execution_payload : String → String → String → ℕ → ℕ → Fields
  execution_payload script image container exit_code duration = field "schema_version" (int 1) (
      field "timestamp" (str l.timestamp) (
        field "script_sha256" (str (l.codec.sha256_hex (l.texts.encode (codes script)))) (
          field "image_used" (bounded 2048 image) (
            field "container_id" (bounded 2048 container)
              (field "exit_code" (int exit_code) (field "duration_ms" (int duration) end))))))

  unfoldable pub log_execution : String → String → String → ℕ → ℕ → Disk → Bool × Option (List ℕ)
  unfolding bounded append_payload
  log_execution script image container exit_code duration d =
      append_to d (execution_payload script image container exit_code duration) d.content

  -- the optional fields are under other keys
  optional-phase :
      (k j : String) (o : Option Json) (p : Fields)
      → str_eq k j ≡ false
      → get j (optional k o p) ≡ get j p
  optional-phase k j none p h = refl
  optional-phase k j (some v) p h = get-put_other k j v p h

  payload_of-phase : (a : Call) → get "phase" (payload_of a) ≡ some (bounded 128 a.phase)
  unfolding payload_of get
  payload_of-phase a =
      let with_run = optional "run_number" (Option.map int a.run_number) (base_payload a) in
      let with_confirmation =
        optional "confirmation" (Option.map (bounded 128) a.confirmation) with_run in
      let with_result = optional "result" (Option.map redacted_text a.result) with_confirmation in
      optional-phase "error" "phase" (Option.map redacted_text a.error) with_result refl
      ∙ optional-phase "result" "phase" (Option.map redacted_text a.result) with_confirmation refl
      ∙ optional-phase "confirmation" "phase" (Option.map (bounded 128) a.confirmation) with_run
          refl
      ∙ optional-phase "run_number" "phase" (Option.map int a.run_number) (base_payload a) refl

  -- Where `log_action` returns True on a file that is a chain, the file has grown by exactly one entry,
  -- which names the phase of the call, and is a chain again.
  pub log_action-recorded :
      {h : String} (a : Call) (d : Disk) (file : List ℕ)
      → IsCodec l.codec
      → d.content ≡ some file
      → Chained l.codec file h
      → (log_action a d).0 ≡ true
      → (q : Fields) × ((log_action a d).1 ≡ some (file ++ encode l.codec q))
        × Chained l.codec (file ++ encode l.codec q) (entry_hash l.codec h q)
        × (get "phase" q ≡ some (bounded 128 a.phase))
  unfolding log_action
  log_action-recorded {h} a d file laws there r e =
      let k = simp there at e in
      let (q, grown, chained, kept) =
        append_payload-Chained l.codec laws d.answers d.syncs (payload_of a) file r k in
      (
        q,
        simp there (ap (λ f. some f) grown),
        subst (λ f. Chained l.codec f (entry_hash l.codec h q)) grown chained,
        kept "phase" ((refl, refl, refl), refl, refl) ∙ payload_of-phase a,
      )
