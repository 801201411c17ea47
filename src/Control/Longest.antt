-- ===== src/Control/Longest.antt =====
-- What `consume_notifications` takes of each notification: the longest beginning that fits.
use yantra_os.Prelude.{
  ℕ, zero, suc, ◌+◌, ◌≤◌, ◌<◌, ◌≡◌, refl, Bool, true, false, not, inl, inr, ◌⊎◌, Bool-cases, Option,
  none, some, List, [], ◌∷◌, ◌++◌, arith, if◌then◌else◌, ltb→lt, ltb_false→le,
}
use yantra_os.Prelude.Lists.{length, take, take_all, length-append}
use yantra_os.Control.Notifications.{
  max_notification_count, max_notification_chars, max_response_bytes, search, search_longest, Size,
  over, cut_at, cut, consume, consume_notifications,
}

module _ (size : Size) where
  -- The response with k characters of a last text, and k is the largest number with which it is within
  -- its limit.
  abbrev pub with_first : List (List ℕ) → List ℕ → ℕ → ℕ
  with_first taken text k = size (taken ++ take k text ∷ [])

  abbrev pub IsLongest : List (List ℕ) → List ℕ → ℕ → Type 0
  IsLongest taken text k =
      (k ≤ length text)
      × (with_first taken text k ≤ max_response_bytes)
      × ((m : ℕ) → k < m → m ≤ length text → max_response_bytes < with_first taken text m)

  -- At most so many notifications are consumed, after those already taken, and what is sent and what is
  -- left of the queue: each that is taken is sent with the longest beginning of its first 4096
  -- characters that fits, in the queue's order, up to the count, the end of the queue, or one of which
  -- not even the empty text fits.
  pub data Consumed
      : ℕ → List (List ℕ) → List (List ℕ) → List (List ℕ) → List (List ℕ) → Type 0 where
    counted : {taken queue : List (List ℕ)} → Consumed 0 taken queue taken queue
    emptied : {count : ℕ} {taken : List (List ℕ)} → Consumed (suc count) taken [] taken []
    full :
        {count : ℕ} {taken queue : List (List ℕ)} {raw : List ℕ}
        → max_response_bytes < with_first taken raw 0
        → Consumed (suc count) taken (raw ∷ queue) taken (raw ∷ queue)
    took :
        {count k : ℕ} {taken queue sent left : List (List ℕ)} {raw : List ℕ}
        → IsLongest taken (take max_notification_chars raw) k
        → Consumed count (taken ++ take k (take max_notification_chars raw) ∷ []) queue sent left
        → Consumed (suc count) taken (raw ∷ queue) sent left

  -- A longer beginning of the last text makes no shorter response.
  abbrev pub IsMonotone : Type 0
  IsMonotone =
      (taken : List (List ℕ)) (text : List ℕ) (m n : ℕ)
      → m ≤ n
      → with_first taken text m ≤ with_first taken text n

  module _ (mono : IsMonotone) where
    over-IsLonger :
        (taken : List (List ℕ)) (text : List ℕ)
        → over size taken text ≡ true
        → max_response_bytes < size (taken ++ text ∷ [])
    over-IsLonger taken text h = ltb→lt max_response_bytes (size (taken ++ text ∷ [])) h

    longer-over :
        (taken : List (List ℕ)) (text : List ℕ)
        → max_response_bytes < size (taken ++ text ∷ [])
        → over size taken text ≡ true
    longer-over taken text h = ground arith

    cut-whole :
        (taken : List (List ℕ)) (text : List ℕ)
        → over size taken text ≡ false
        → (k : ℕ) × (cut size taken text ≡ take k text) × IsLongest taken text k
    unfolding cut
    cut-whole taken text room =
        let whole : take (length text) text ≡ text = take_all (length text) text (omega arith) in
        let fits = ltb_false→le max_response_bytes (size (taken ++ text ∷ [])) room in
        (
          length text,
          simp (room, whole) refl,
          (omega arith, rw whole fits, λ m p q. absurd (omega (arith, p, q))),
        )

    fits_before :
        (taken : List (List ℕ)) (text : List ℕ) (m n : ℕ)
        → m ≤ n
        → not (over size taken (take n text)) ≡ true
        → not (over size taken (take m text)) ≡ true
    fits_before taken text m n h fits = let shorter = mono taken text m n h in ground arith

    cut-searched :
        (taken : List (List ℕ)) (text : List ℕ)
        → over size taken text ≡ true
        → not (over size taken (take 0 text)) ≡ true
        → (k : ℕ) × (cut size taken text ≡ take k text) × IsLongest taken text k
    unfolding cut
    cut-searched taken text long first =
        let fits : ℕ → Bool = λ n. not (over size taken (take n text)) in
        let (k, found, low, high, good, longest) =
          search_longest fits (length text) 0 (length text)
            (λ m n h g. fits_before taken text m n h g) (omega arith) (omega arith) first in
        (
          k,
          simp (long, found) refl,
          (
            high,
            ltb_false→le max_response_bytes (with_first taken text k) (ground arith),
            λ m p q. let beyond = longest m p q in over-IsLonger taken (take m text) (ground arith),
          ),
        )

    cut-hopeless :
        (taken : List (List ℕ)) (text : List ℕ)
        → over size taken text ≡ true
        → max_response_bytes < with_first taken text 0
        → over size taken (cut size taken text) ≡ true
    unfolding cut
    cut-hopeless taken text long none_fits =
        let fits : ℕ → Bool = λ n. not (over size taken (take n text)) in
        simp long (still (search fits (length text) 0 (length text)))
      where
        still : (o : Option ℕ) → over size taken (cut_at text o) ≡ true
        still none = long
        still (some n) =
            let more = mono taken text 0 n (omega arith) in
            longer-over taken (take n text) (omega (arith, more, none_fits))

    -- the cut is too long even though nothing of the text is left, or it is the longest that fits
    cut-IsLongest :
        (taken : List (List ℕ)) (text : List ℕ)
        → ((over size taken (cut size taken text) ≡ true)
            × (max_response_bytes < with_first taken text 0))
          ⊎ ((k : ℕ) × (cut size taken text ≡ take k text) × IsLongest taken text k)
    cut-IsLongest taken text = elim (Bool-cases (over size taken text)) [
      | inr room ↦ inr (cut-whole taken text room)
      | inl long ↦ elim (Bool-cases (over size taken (take 0 text))) [
        | inr first ↦ inr (cut-searched taken text long (rw first refl))
        | inl first ↦
            let none_fits = over-IsLonger taken (take 0 text) first in
            inl (cut-hopeless taken text long none_fits, none_fits)
      ]
    ]

    consume-Consumed :
        (count : ℕ) (taken queue : List (List ℕ))
        → let (sent, left) = consume size count taken queue in Consumed count taken queue sent left
    unfolding consume
    consume-Consumed zero taken queue = counted
    consume-Consumed (suc count) taken [] = emptied
    consume-Consumed (suc count) taken (raw ∷ queue) =
        cut_to (cut size taken (take max_notification_chars raw))
          (cut-IsLongest taken (take max_notification_chars raw))
          (λ t. consume-Consumed count (taken ++ t ∷ []) queue)
      where
        cut_to :
            (t : List ℕ)
            → ((over size taken t ≡ true)
                × (max_response_bytes < with_first taken (take max_notification_chars raw) 0))
              ⊎ ((k : ℕ) × (t ≡ take k (take max_notification_chars raw))
                  × IsLongest taken (take max_notification_chars raw) k)
            → ((t : List ℕ)
                → let (sent, left) = consume size count (taken ++ t ∷ []) queue in
                  Consumed count (taken ++ t ∷ []) queue sent left)
            → let (sent, left) =
                if over size taken t
                then (taken, raw ∷ queue)
                else consume size count (taken ++ t ∷ []) queue in
              Consumed (suc count) taken (raw ∷ queue) sent left
        cut_to t (inl (long, none_fits)) rest = simp long (full none_fits)
        cut_to t (inr (k, e, (few, fits, longest))) rest =
            let same : size (taken ++ t ∷ []) ≤ max_response_bytes = rw e fits in
            let room : over size taken t ≡ false = ground arith in
            simp room
              (rw e (took (few, fits, longest) (rest (take k (take max_notification_chars raw)))))

  -- the bounds and the balance of what is consumed
  Consumed-bounded :
      {count : ℕ} {taken queue sent left : List (List ℕ)}
      → Consumed count taken queue sent left
      → size taken ≤ max_response_bytes
      → (size sent ≤ max_response_bytes)
        × (length sent ≤ length taken + count)
        × (length sent + length left ≡ length taken + length queue)
  Consumed-bounded counted h = (h, omega arith, refl)
  Consumed-bounded emptied h = (h, omega arith, refl)
  Consumed-bounded (full long) h = (h, omega arith, refl)
  Consumed-bounded {taken = taken} (took {k = k} {raw = raw} (few, fits, longest) rest) h =
      let (small, short, all_there) = Consumed-bounded rest fits in
      let longer = length-append taken (take k (take max_notification_chars raw) ∷ []) in
      (small, omega arith, omega arith)

-- Where an empty response fits, and a longer beginning of the last text makes no shorter response: the
-- notifications are sent in the queue's order, at most ten, each with the longest beginning of its first
-- 4096 characters with which the response is within its limit, up to one of which not even the empty
-- text fits; that one and all after the last that is sent stay in the queue as they were, and the
-- response is within its limit.
pub consume_notifications-Consumed :
    (size : Size) (queue : List (List ℕ))
    → IsMonotone size
    → size [] ≤ max_response_bytes
    → let (sent, left) = consume_notifications size queue in
      Consumed size max_notification_count [] queue sent left
      × (size sent ≤ max_response_bytes)
      × (length sent ≤ max_notification_count)
      × (length sent + length left ≡ length queue)
unfolding consume_notifications
consume_notifications-Consumed size queue mono h =
    let consumed = consume-Consumed size mono max_notification_count [] queue in
    let (small, few, all_there) = Consumed-bounded size consumed h in
    (consumed, small, omega arith, omega arith)
