-- ===== src/Audit/Lines.antt =====
-- `[line for line in tail.splitlines() if line][-1]`, of bytes. A line ends at a line feed or at a
-- carriage return; the empty line between the two of a pair is dropped with the other empty ones.
use yantra_os.Prelude.{
  ℕ, zero, suc, ◌≤◌, ◌<◌, subst, ◌≡◌, refl, ap, sym, ◌∙◌, Bool, true, false, ◌||◌, inl, inr, ◌⊎◌,
  Option, some, List, [], ◌∷◌, ◌++◌, arith, ◌==◌,
}
use yantra_os.Prelude.Lists.{length, drop, All, get_last?, get_last?-append}
use mathlib.Core.List.{append_assoc}

abbrev pub is_break : ℕ → Bool
is_break b = b == 10 || b == 13

abbrev pub extend : Bool → ℕ → List ℕ × List (List ℕ) → List ℕ × List (List ℕ)
extend true b (first, rest) = ([], first ∷ rest)
extend false b (first, rest) = (b ∷ first, rest)

-- the first line, and the others
unfoldable pub segments : List ℕ → List ℕ × List (List ℕ)
segments [] = ([], [])
segments (b ∷ bs) = extend (is_break b) b (segments bs)

unfoldable pub nonempty : List (List ℕ) → List (List ℕ)
nonempty [] = []
nonempty ([] ∷ ls) = nonempty ls
nonempty ((b ∷ bs) ∷ ls) = (b ∷ bs) ∷ nonempty ls

-- the lines that are not empty
unfoldable pub split_lines : List ℕ → List (List ℕ)
unfolding segments nonempty
split_lines bs = nonempty ((segments bs).0 ∷ (segments bs).1)

unfoldable pub last_line : List ℕ → Option (List ℕ)
unfolding split_lines get_last?
last_line bs = get_last? (split_lines bs)

segments-append :
    (xs ys : List ℕ)
    → segments (xs ++ 10 ∷ ys)
      ≡ ((segments xs).0, (segments xs).1 ++ (segments ys).0 ∷ (segments ys).1)
unfolding segments
segments-append [] ys = refl
segments-append (x ∷ xs) ys =
    ap (extend (is_break x) x) (segments-append xs ys) ∙ spread (is_break x)
  where
    spread :
        (b : Bool)
        → extend b x ((segments xs).0, (segments xs).1 ++ (segments ys).0 ∷ (segments ys).1) ≡ (
          (extend b x (segments xs)).0,
          (extend b x (segments xs)).1 ++ (segments ys).0 ∷ (segments ys).1,
        )
    spread true = refl
    spread false = refl

segments_unbroken : (bs : List ℕ) → All (λ b. is_break b ≡ false) bs → segments bs ≡ (bs, [])
unfolding segments
segments_unbroken [] h = refl
segments_unbroken (b ∷ bs) (this, rest) = rw this (ap (extend false b) (segments_unbroken bs rest))

nonempty-append : (xs ys : List (List ℕ)) → nonempty (xs ++ ys) ≡ nonempty xs ++ nonempty ys
unfolding nonempty
nonempty-append [] ys = refl
nonempty-append ([] ∷ xs) ys = nonempty-append xs ys
nonempty-append ((b ∷ bs) ∷ xs) ys = ap (λ r. (b ∷ bs) ∷ r) (nonempty-append xs ys)

-- What stands before a line: nothing, or bytes that end with a line feed.
abbrev pub EndsLine : List ℕ → Type 0
EndsLine bs = (bs ≡ []) ⊎ ((before : List ℕ) × (bs ≡ before ++ 10 ∷ []))

nonempty_one : (bs : List ℕ) → 0 < length bs → nonempty (bs ∷ [] ∷ []) ≡ bs ∷ []
unfolding nonempty
nonempty_one [] h = absurd (omega arith)
nonempty_one (b ∷ bs) h = refl

-- A line that ends a text of whole lines is its last line.
pub last_line-append :
    (before content : List ℕ)
    → EndsLine before
    → All (λ b. is_break b ≡ false) content
    → 0 < length content
    → last_line (before ++ (content ++ 10 ∷ [])) ≡ some content
unfolding last_line segments
last_line-append before content e unbroken some_left =
    let alone : segments (content ++ 10 ∷ []) ≡ (content, [] ∷ []) =
      segments-append content []
      ∙ ap (λ s. (s.0, s.1 ++ [] ∷ [])) (segments_unbroken content unbroken) in
    elim e [
      | inl nothing ↦
          ap (λ b. last_line (b ++ (content ++ 10 ∷ []))) nothing
          ∙ ap (λ s. get_last? (nonempty (s.0 ∷ s.1))) alone
          ∙ ap get_last? (nonempty_one content some_left)
      | inr (start, ends) ↦
          let f = (segments start).0 in
          let r = (segments start).1 in
          ap (λ b. last_line (b ++ (content ++ 10 ∷ []))) ends
          ∙ ap last_line (append_assoc start (10 ∷ []) (content ++ 10 ∷ []))
          ∙ ap (λ s. get_last? (nonempty (s.0 ∷ s.1))) (segments-append start (content ++ 10 ∷ []))
          ∙ ap (λ s. get_last? (nonempty (f ∷ (r ++ s.0 ∷ s.1)))) alone
          ∙ ap get_last? (nonempty-append (f ∷ r) (content ∷ [] ∷ []))
          ∙ ap (λ l. get_last? (nonempty (f ∷ r) ++ l)) (nonempty_one content some_left)
          ∙ get_last?-append (nonempty (f ∷ r)) content
    ]

drop-nil : (n : ℕ) → drop {A = ℕ} n [] ≡ []
unfolding drop
drop-nil zero = refl
drop-nil (suc n) = refl

pub drop-append : (n : ℕ) (xs ys : List ℕ) → n ≤ length xs → drop n (xs ++ ys) ≡ drop n xs ++ ys
unfolding drop
drop-append zero xs ys h = refl
drop-append (suc n) [] ys h = absurd (omega arith)
drop-append (suc n) (x ∷ xs) ys h = drop-append n xs ys (omega arith)

drop_ended : (n : ℕ) (start : List ℕ) → EndsLine (drop n (start ++ 10 ∷ []))
unfolding drop
drop_ended zero start = inr (start, refl)
drop_ended (suc n) [] = inl (drop-nil n)
drop_ended (suc n) (x ∷ start) = drop_ended n start

-- The end of a text of whole lines, from any place on, ends with its last line too.
pub drop-EndsLine : (n : ℕ) (bs : List ℕ) → EndsLine bs → EndsLine (drop n bs)
drop-EndsLine n bs (inl nothing) = inl (ap (drop n) nothing ∙ drop-nil n)
drop-EndsLine n bs (inr (start, ends)) =
    subst (λ b. EndsLine (drop n b)) (sym ends) (drop_ended n start)
