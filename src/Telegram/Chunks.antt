-- ===== src/Telegram/Chunks.antt =====
-- `safe_send` of telegram_gateway.py, over the code points of a message.
use yantra_os.Prelude.{
  ℕ, zero, suc, Bool, true, false, Option, none, some, List, [], ◌∷◌, ltb, leb, ◌==◌, if◌then◌else◌,
}
use yantra_os.Prelude.Lists.{length, take, drop}

abbrev pub tg_max_length : ℕ
tg_max_length = 4096

abbrev pub newline : ℕ
newline = 10

-- the place in the rest, or here
abbrev pub later_or : Bool → Option ℕ → Option ℕ
later_or here (some k) = some (suc k)
later_or true none = some 0
later_or false none = none

-- `text.rfind('\n', 0, n)`; none is -1
unfoldable pub rfind_newline : ℕ → List ℕ → Option ℕ
rfind_newline zero cs = none
rfind_newline (suc n) [] = none
rfind_newline (suc n) (c ∷ cs) = later_or (c == newline) (rfind_newline n cs)

abbrev pub at_break : Option ℕ → ℕ
at_break none = tg_max_length
at_break (some k) = if ltb k 2048 then tg_max_length else k

-- `split_at`
unfoldable pub split_point : List ℕ → ℕ
unfolding rfind_newline
split_point cs = at_break (rfind_newline tg_max_length cs)

-- `lstrip('\n')`
unfoldable pub lstrip_newlines : List ℕ → List ℕ
lstrip_newlines [] = []
lstrip_newlines (c ∷ cs) = let rest = lstrip_newlines cs in if c == newline then rest else c ∷ cs

abbrev pub prepend : List ℕ → Option (List (List ℕ)) → Option (List (List ℕ))
prepend c none = none
prepend c (some cs) = some (c ∷ cs)

-- the loop over what is left of the text; none is out of fuel, see `split_total`
unfoldable pub split : ℕ → List ℕ → Option (List (List ℕ))
unfolding split_point lstrip_newlines take drop
split fuel [] = some []
split zero (c ∷ cs) = none
split (suc fuel) (c ∷ cs) =
    let text = c ∷ cs in
    let rest = split fuel (lstrip_newlines (drop (split_point text) text)) in
    if leb (length text) tg_max_length
    then some (text ∷ [])
    else prepend (take (split_point text) text) rest

-- The sends of all pieces, in order: a piece that fails does not stop the others.
unfoldable pub send_all : (List ℕ → Bool) → List (List ℕ) → Bool
send_all send [] = true
send_all send (c ∷ cs) = let rest = send_all send cs in if send c then rest else false

abbrev pub sent_or_failed : (List ℕ → Bool) → Option (List (List ℕ)) → Option Bool
sent_or_failed send none = none
sent_or_failed send (some cs) = some (send_all send cs)

-- `if not text: text = "(empty response)"`
abbrev pub text_or_empty : List ℕ → List ℕ → List ℕ
text_or_empty placeholder [] = placeholder
text_or_empty placeholder (c ∷ cs) = c ∷ cs

-- `safe_send`, with the placeholder's code points and the two replacements of a credential; the loop
-- has as much fuel as the text has characters.
unfoldable pub safe_send : List ℕ → (List ℕ → List ℕ) → (List ℕ → Bool) → List ℕ → Option Bool
unfolding split
safe_send placeholder redact send text =
    let t = redact (text_or_empty placeholder text) in sent_or_failed send (split (length t) t)
