-- ===== src/Control/Notifications.antt =====
-- `consume_notifications` of ipc_server.py: how much of each notification is taken, so that the
-- response stays within its limit.
use yantra_os.Prelude.{
  ℕ, zero, suc, ◌+◌, ◌-◌, ◌*◌, ◌/◌, ◌≤◌, ◌<◌, ◌≡◌, refl, Bool, true, false, not, inl, inr,
  Bool-cases, Option, none, some, List, [], ◌∷◌, ◌++◌, ltb, arith, if◌then◌else◌, ltb→lt,
  ltb_false→le,
}
use yantra_os.Prelude.Lists.{length, take}

abbrev pub max_notification_count : ℕ
max_notification_count = 10

abbrev pub max_notification_chars : ℕ
max_notification_chars = 4096

abbrev pub max_response_bytes : ℕ
max_response_bytes = 16 * 1024

-- The binary search for the longest prefix that fits; `fits n` is the comparison of a payload whose
-- last text is cut to n characters. None is out of fuel, see `search_total`.
unfoldable pub search : (ℕ → Bool) → ℕ → ℕ → ℕ → Option ℕ
search fits zero low high = if ltb low high then none else some low
search fits (suc fuel) low high =
    let middle = (low + high + 1) / 2 in
    let upper = search fits fuel middle high in
    let lower = search fits fuel low (middle - 1) in
    if ltb low high then if fits middle then upper else lower else some low

-- Where every prefix of one that fits does, the search returns the longest prefix that fits.
pub search_longest :
    (fits : ℕ → Bool) (fuel low high : ℕ)
    → ((m n : ℕ) → m ≤ n → fits n ≡ true → fits m ≡ true)
    → high ≤ fuel + low
    → low ≤ high
    → fits low ≡ true
    → (n : ℕ) × (search fits fuel low high ≡ some n)
      × (low ≤ n)
      × (n ≤ high)
      × (fits n ≡ true)
      × ((m : ℕ) → n < m → m ≤ high → fits m ≡ false)
unfolding search
search_longest fits zero low high mono enough order h =
    let same : low ≡ high = omega arith in
    let over : ltb low high ≡ false = ground arith in
    simp over (low, refl, omega arith, omega arith, h, λ m p q. absurd (omega arith))
search_longest fits (suc fuel) low high mono enough order h = elim (Bool-cases (ltb low high)) [
  | inr over ↦ simp over (low, refl, omega arith, order, h, λ m p q. absurd (ground arith))
  | inl more ↦
      let middle = (low + high + 1) / 2 in
      let below : low < high = ltb→lt low high more in
      let above : low < middle = omega arith in
      let within : middle ≤ high = omega arith in
      elim (Bool-cases (fits middle)) [
        | inl good ↦
            let (n, e, a, b, c, d) =
              search_longest fits fuel middle high mono (omega arith) within good in
            simp (more, good) (n, e, omega arith, b, c, d)
        | inr bad ↦
            let (n, e, a, b, c, d) =
              search_longest fits fuel low (middle - 1) mono (omega arith) (omega arith) h in
            simp (more, bad) (n, e, a, omega arith, c, λ m p q. too_long m n middle bad d p q)
      ]
]
  where
    too_long :
        (m n middle : ℕ)
        → fits middle ≡ false
        → ((k : ℕ) → n < k → k ≤ middle - 1 → fits k ≡ false)
        → n < m
        → m ≤ high
        → fits m ≡ false
    too_long m n middle bad d p q = elim (Bool-cases (ltb m middle)) [
      | inl before ↦ let lt = ltb→lt m middle before in d m p (omega arith)
      | inr from ↦ elim (Bool-cases (fits m)) [
        | inr not_there ↦ not_there
        | inl there ↦
            let reached = ltb_false→le m middle from in
            let both : fits middle ≡ true = mono middle m reached there in cc
      ]
    ]

-- `_notification_payload_size` is a parameter: the length of the response's JSON text.
abbrev pub Size : Type 0
Size = List (List ℕ) → ℕ

abbrev pub over : Size → List (List ℕ) → List ℕ → Bool
over size taken text = ltb max_response_bytes (size (taken ++ text ∷ []))

abbrev pub cut_at : List ℕ → Option ℕ → List ℕ
cut_at text none = text
cut_at text (some n) = take n text

-- A text that does not fit is cut by the search.
unfoldable pub cut : Size → List (List ℕ) → List ℕ → List ℕ
unfolding search take
cut size taken text =
    let fits : ℕ → Bool = λ n. not (over size taken (take n text)) in
    if over size taken text then cut_at text (search fits (length text) 0 (length text)) else text

-- The loop over the first notifications, with those taken so far: what is taken, and what stays in
-- the queue.
unfoldable pub consume : Size → ℕ → List (List ℕ) → List (List ℕ) → List (List ℕ) × List (List ℕ)
unfolding cut
consume size zero taken queue = (taken, queue)
consume size (suc count) taken [] = (taken, [])
consume size (suc count) taken (raw ∷ queue) =
    let text = cut size taken (take max_notification_chars raw) in
    let rest = consume size count (taken ++ text ∷ []) queue in
    if over size taken text then (taken, raw ∷ queue) else rest

unfoldable pub consume_notifications : Size → List (List ℕ) → List (List ℕ) × List (List ℕ)
unfolding consume
consume_notifications size queue = consume size max_notification_count [] queue
