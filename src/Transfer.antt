-- ===== src/Transfer.antt =====
-- The two loops over a file descriptor that several modules repeat: `_write_all` of
-- compliance_executor.py and skill_revocation.py (and the loop of `_append_payload` in
-- audit_log.py), and the bounded read of `_read_regular_file` and `_read_private_file`.
use yantra_os.Prelude.{
  ℕ, zero, suc, ◌+◌, ◌-◌, ◌≤◌, ◌<◌, min, ◌≡◌, refl, ap, ◌∙◌, Bool, true, false, Option, none, some,
  List, [], ◌∷◌, ◌++◌, arith, leb, if◌then◌else◌, inl, inr, Bool-cases, leb→le,
}
use yantra_os.Prelude.Lists.{
  length, take, drop, length-append, length-take, length-drop, take-append-drop,
}
use mathlib.Core.List.{append_assoc, append-nil}

-- What `os.write` answers, call by call: the count written, or none where it raises. The list ends
-- where the device answers no more, which raises too.
abbrev pub Answers : Type 0
Answers = List (Option ℕ)

-- What reached the file, and whether the loop ended without an error.
pub record Written : Type 0 where
  pub bytes : List ℕ
  pub complete : Bool

abbrev then_wrote : List ℕ → Written → Written
then_wrote piece w = record { bytes = piece ++ w.bytes; complete = w.complete }

-- `while view: written = os.write(fd, view); if written <= 0: raise; view = view[written:]`
unfoldable pub write_all : Answers → List ℕ → Written
unfolding take drop
write_all answers [] = record { bytes = []; complete = true }
write_all [] (b ∷ bs) = record { bytes = []; complete = false }
write_all (none ∷ rest) (b ∷ bs) = record { bytes = []; complete = false }
write_all (some zero ∷ rest) (b ∷ bs) = record { bytes = []; complete = false }
write_all (some (suc n) ∷ rest) (b ∷ bs) = then_wrote (b ∷ take n bs) (write_all rest (drop n bs))

-- A loop that ends without an error has written exactly the data.
pub write_all-complete :
    (answers : Answers) (bs : List ℕ)
    → (write_all answers bs).complete ≡ true
    → (write_all answers bs).bytes ≡ bs
unfolding write_all
write_all-complete answers [] h = refl
write_all-complete [] (b ∷ bs) h = cc
write_all-complete (none ∷ rest) (b ∷ bs) h = cc
write_all-complete (some zero ∷ rest) (b ∷ bs) h = cc
write_all-complete (some (suc n) ∷ rest) (b ∷ bs) h =
    ap (λ r. b ∷ r)
      (ap (λ r. take n bs ++ r) (write_all-complete rest (drop n bs) h) ∙ take-append-drop n bs)

-- Whatever the answers are, what reached the file is a first part of the data.
pub write_all-prefix :
    (answers : Answers) (bs : List ℕ)
    → (rest : List ℕ) × ((write_all answers bs).bytes ++ rest ≡ bs)
unfolding write_all
write_all-prefix answers [] = ([], refl)
write_all-prefix [] (b ∷ bs) = (b ∷ bs, refl)
write_all-prefix (none ∷ r) (b ∷ bs) = (b ∷ bs, refl)
write_all-prefix (some zero ∷ r) (b ∷ bs) = (b ∷ bs, refl)
write_all-prefix (some (suc n) ∷ r) (b ∷ bs) =
    let (rest, e) = write_all-prefix r (drop n bs) in
    (
      rest,
      ap (λ t. b ∷ t)
          (append_assoc (take n bs) (write_all r (drop n bs)).bytes rest
            ∙ ap (λ t. take n bs ++ t) e
            ∙ take-append-drop n bs),
    )

-- Every answer is a positive count.
abbrev pub IsProgress : Answers → Type 0
IsProgress [] = Unit
IsProgress (none ∷ rest) = ⊥
IsProgress (some n ∷ rest) = (0 < n) × IsProgress rest

-- Where every call makes progress, as many calls as there are bytes are enough.
pub write_all_total :
    (answers : Answers) (bs : List ℕ)
    → IsProgress answers
    → length bs ≤ length answers
    → (write_all answers bs).complete ≡ true
unfolding write_all
write_all_total answers [] p h = refl
write_all_total [] (b ∷ bs) p h = absurd (omega arith)
write_all_total (none ∷ rest) (b ∷ bs) p h = absurd p
write_all_total (some zero ∷ rest) (b ∷ bs) p h = absurd (omega arith)
write_all_total (some (suc n) ∷ rest) (b ∷ bs) p h =
    write_all_total rest (drop n bs) p.1 (omega (arith, length-drop {0} n bs))

-- `while len(data) <= limit: chunk = os.read(fd, min(8192, limit + 1 - len(data))); …`, on fuel,
-- over what is left of the file; a regular file yields what is asked for, up to its end.
unfoldable pub read_loop : ℕ → ℕ → List ℕ → List ℕ → Option (List ℕ)
unfolding take drop
read_loop zero limit left data_read = none
read_loop (suc fuel) limit [] data_read = some data_read
read_loop (suc fuel) limit (b ∷ left) data_read =
    let asked = min 8192 (limit + 1 - length data_read) in
    let rest = read_loop fuel limit (drop asked (b ∷ left)) (data_read ++ take asked (b ∷ left)) in
    if leb (length data_read) limit then rest else some data_read

take-nil : (n : ℕ) → take {A = ℕ} n [] ≡ []
unfolding take
take-nil zero = refl
take-nil (suc n) = refl

-- Taking in two steps, the second of them by what the first has really taken.
take_split :
    (a k m : ℕ) (l : List ℕ)
    → a ≤ k
    → m ≡ k - length (take a l)
    → take a l ++ take m (drop a l) ≡ take k l
unfolding take drop
take_split zero k m l h e = ap (λ n. take n l) (omega arith)
take_split (suc a) zero m l h e = absurd (omega arith)
take_split (suc a) (suc k) m [] h e = take-nil m
take_split (suc a) (suc k) m (x ∷ l) h e =
    ap (λ r. x ∷ r) (take_split a k m l (omega arith) (omega arith))

no_room : (limit n : ℕ) → leb n limit ≡ false → limit + 1 - n ≡ 0
no_room limit n h = ground arith

-- With fuel for every byte left the loop ends, and it has read the data up to one byte past the
-- limit.
pub read_loop_total :
    (fuel limit : ℕ) (left data_read : List ℕ)
    → length left < fuel
    → length data_read ≤ limit + 1
    → read_loop fuel limit left data_read
      ≡ some (data_read ++ take (limit + 1 - length data_read) left)
unfolding read_loop
read_loop_total zero limit left data_read f h = absurd (omega arith)
read_loop_total (suc fuel) limit [] data_read f h = rw (take-nil, append-nil)
read_loop_total (suc fuel) limit (b ∷ left) data_read f h =
    let room = limit + 1 - length data_read in
    let asked = min 8192 room in
    let piece = take asked (b ∷ left) in
    elim (Bool-cases (leb (length data_read) limit)) [
      | inl more ↦ rw more (
          read_loop_total fuel limit (drop asked (b ∷ left)) (data_read ++ piece)
            (omega (arith, leb→le _ _ more, length-drop {0} asked (b ∷ left)))
            (omega (
              arith,
              leb→le _ _ more,
              length-append {0} data_read piece,
              length-take {0} asked (b ∷ left),
            ))
          ∙ ap some (
              append_assoc data_read piece _
              ∙ ap (λ t. data_read ++ t)
                  (take_split asked room _ (b ∷ left) (omega arith)
                    (omega (arith, length-append {0} data_read piece)))))
      | inr full ↦ rw (full, no_room limit (length data_read) full, append-nil)
    ]
