-- ===== src/Telegram/Splitting.antt =====
-- The pieces of a message fit, and together they are the message up to line breaks.
use yantra_os.Prelude.{
  ℕ, zero, suc, ◌≤◌, ◌<◌, ◌≡◌, refl, sym, ap, ◌∙◌, Bool, true, false, inl, inr, Bool-cases, Option,
  none, some, List, [], ◌∷◌, ◌++◌, arith, leb, ◌==◌, if◌then◌else◌, subst, leb→le, leb_false→lt,
}
use yantra_os.Prelude.Lists.{length, take, drop, All, length-take, length-drop, take-append-drop}
use mathlib.Core.List.{flatten, append-nil}
use yantra_os.Telegram.Chunks.{
  tg_max_length, newline, later_or, rfind_newline, at_break, split_point, lstrip_newlines, prepend,
  split, send_all, sent_or_failed, safe_send, text_or_empty,
}

-- The characters of a text that are no line breaks.
unfoldable pub visible : List ℕ → List ℕ
visible [] = []
visible (c ∷ cs) = let rest = visible cs in if c == newline then rest else c ∷ rest

visible-append : (xs ys : List ℕ) → visible (xs ++ ys) ≡ visible xs ++ visible ys
unfolding visible
visible-append [] ys = refl
visible-append (c ∷ cs) ys = elim (Bool-cases (c == newline)) [
  | inl breaks ↦ rw breaks (visible-append cs ys)
  | inr shown ↦ rw shown (ap (λ r. c ∷ r) (visible-append cs ys))
]

visible_shown : (c : ℕ) (cs : List ℕ) → (c == newline) ≡ false → visible (c ∷ cs) ≡ c ∷ visible cs
unfolding visible
visible_shown c cs shown = rw shown refl

visible-lstrip_newlines : (cs : List ℕ) → visible (lstrip_newlines cs) ≡ visible cs
unfolding visible lstrip_newlines
visible-lstrip_newlines [] = refl
visible-lstrip_newlines (c ∷ cs) = elim (Bool-cases (c == newline)) [
  | inl breaks ↦ rw breaks (visible-lstrip_newlines cs)
  | inr shown ↦ rw shown (visible_shown c cs shown)
]

length-lstrip_newlines : (cs : List ℕ) → length (lstrip_newlines cs) ≤ length cs
unfolding lstrip_newlines
length-lstrip_newlines [] = omega arith
length-lstrip_newlines (c ∷ cs) = elim (Bool-cases (c == newline)) [
  | inl breaks ↦ rw breaks (omega (arith, length-lstrip_newlines cs))
  | inr shown ↦ rw shown (omega arith)
]

later_or-lt :
    (here : Bool) (o : Option ℕ) (n k : ℕ)
    → ((j : ℕ) → o ≡ some j → j < n)
    → later_or here o ≡ some k
    → k < suc n
later_or-lt here (some j) n k below e =
    let j_below = below j refl in let same : suc j ≡ k = cc in omega arith
later_or-lt true none n k below e = let same : 0 ≡ k = cc in omega arith
later_or-lt false none n k below e = cc

rfind_newline-lt : (n : ℕ) (cs : List ℕ) (k : ℕ) → rfind_newline n cs ≡ some k → k < n
unfolding rfind_newline
rfind_newline-lt zero cs k e = cc
rfind_newline-lt (suc n) [] k e = cc
rfind_newline-lt (suc n) (c ∷ cs) k e =
    later_or-lt (c == newline) (rfind_newline n cs) n k (λ j h. rfind_newline-lt n cs j h) e

at_break-between :
    (o : Option ℕ)
    → ((k : ℕ) → o ≡ some k → k < tg_max_length)
    → (2048 ≤ at_break o) × (at_break o ≤ tg_max_length)
at_break-between none below = (omega arith, omega arith)
at_break-between (some k) below = let k_below = below k refl in (ground arith, ground arith)

-- A split is at the limit, or at a line break in the second half of what fits.
pub split_point-between : (cs : List ℕ) → (2048 ≤ split_point cs) × (split_point cs ≤ tg_max_length)
unfolding split_point
split_point-between cs =
    at_break-between (rfind_newline tg_max_length cs) (λ k h. rfind_newline-lt tg_max_length cs k h)

left_shorter :
    (cs : List ℕ) → 0 < length cs → length (lstrip_newlines (drop (split_point cs) cs)) < length cs
left_shorter cs some_left =
    let (least, most) = split_point-between cs in
    omega
      (arith, length-lstrip_newlines (drop (split_point cs) cs), length-drop (split_point cs) cs)

-- Every text is split with as much fuel as it has characters.
pub split_total :
    (fuel : ℕ) (text : List ℕ)
    → length text ≤ fuel
    → (pieces : List (List ℕ)) × (split fuel text ≡ some pieces)
unfolding split
split_total fuel [] h = ([], refl)
split_total zero (c ∷ cs) h = absurd (omega arith)
split_total (suc fuel) (c ∷ cs) h =
    let shorter = left_shorter (c ∷ cs) (omega arith) in
    let (pieces, e) =
      split_total fuel (lstrip_newlines (drop (split_point (c ∷ cs)) (c ∷ cs))) (omega arith) in
    elim (Bool-cases (leb (length (c ∷ cs)) tg_max_length)) [
      | inl fits ↦ simp fits ((c ∷ cs) ∷ [], refl)
      | inr long ↦ simp (long, e) (take (split_point (c ∷ cs)) (c ∷ cs) ∷ pieces, refl)
    ]

-- What a message's pieces are: none is empty, each fits, and they show what the message shows.
abbrev pub Pieces : List ℕ → List (List ℕ) → Type 0
Pieces text pieces =
    All (λ p. (1 ≤ length p) × (length p ≤ tg_max_length)) pieces
    × (visible (flatten pieces) ≡ visible text)

prepend-some :
    (p : List ℕ) (o : Option (List (List ℕ))) (pieces : List (List ℕ))
    → prepend p o ≡ some pieces
    → (rest : List (List ℕ)) × (o ≡ some rest) × (p ∷ rest ≡ pieces)
prepend-some p none pieces e = cc
prepend-some p (some rest) pieces e = (rest, refl, cc)

-- a first piece that is cut off, and the pieces of what is left
prepend-Pieces :
    (text : List ℕ) (rest : List (List ℕ))
    → tg_max_length < length text
    → Pieces (lstrip_newlines (drop (split_point text) text)) rest
    → Pieces text (take (split_point text) text ∷ rest)
unfolding flatten
prepend-Pieces text rest long (fit, shown) =
    let k = split_point text in
    let (least, most) = split_point-between text in
    let size = length-take k text in
    (
      ((omega arith, omega arith), fit),
      visible-append (take k text) (flatten rest)
          ∙ ap (λ r. visible (take k text) ++ r) (shown ∙ visible-lstrip_newlines (drop k text))
          ∙ sym (visible-append (take k text) (drop k text))
          ∙ ap visible (take-append-drop k text),
    )

-- No piece of a message is empty or longer than the limit, and together the pieces have all its
-- characters in order, but for line breaks.
pub split-Pieces :
    (fuel : ℕ) (text : List ℕ) (pieces : List (List ℕ))
    → split fuel text ≡ some pieces
    → Pieces text pieces
unfolding split flatten
split-Pieces fuel [] pieces e =
    let nothing : [] ≡ pieces = cc in subst (Pieces []) nothing (tt, refl)
split-Pieces zero (c ∷ cs) pieces e = cc
split-Pieces (suc fuel) (c ∷ cs) pieces e =
    elim (Bool-cases (leb (length (c ∷ cs)) tg_max_length)) [
      | inl fits ↦
          let k : some ((c ∷ cs) ∷ []) ≡ some pieces = simp fits at e in
          let whole : (c ∷ cs) ∷ [] ≡ pieces = cc in
          subst (Pieces (c ∷ cs)) whole (
            ((omega arith, leb→le (length (c ∷ cs)) tg_max_length fits), tt),
            ap visible (append-nil (c ∷ cs)),
          )
      | inr long ↦
          let text = c ∷ cs in
          let left = lstrip_newlines (drop (split_point text) text) in
          let k : prepend (take (split_point text) text) (split fuel left) ≡ some pieces =
            simp long at e in
          let (rest, more, whole) =
            prepend-some (take (split_point text) text) (split fuel left) pieces k in
          subst (Pieces text) whole (
            prepend-Pieces text rest (leb_false→lt (length text) tg_max_length long)
              (split-Pieces fuel left rest more))
    ]

-- A message is always sent, with the fuel that `safe_send` gives: in pieces that fit and show what
-- the redacted text shows, and with success exactly when every piece is sent.
pub safe_send_total :
    (placeholder : List ℕ) (redact : List ℕ → List ℕ) (send : List ℕ → Bool) (text : List ℕ)
    → (pieces : List (List ℕ)) × Pieces (redact (text_or_empty placeholder text)) pieces
      × (safe_send placeholder redact send text ≡ some (send_all send pieces))
unfolding safe_send
safe_send_total placeholder redact send text =
    let t = redact (text_or_empty placeholder text) in
    let (pieces, e) = split_total (length t) t (omega arith) in
    (pieces, split-Pieces (length t) t pieces e, ap (sent_or_failed send) e)
