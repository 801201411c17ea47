-- ===== src/Sandbox/Logs.antt =====
-- `_read_capped_logs`: the chunks of a container's log, up to the output limit.
use yantra_os.Prelude.{
  ℕ, zero, suc, ◌-◌, ◌≤◌, ◌≡◌, refl, sym, ap, ◌∙◌, List, [], ◌∷◌, ◌++◌, arith, ltb, leb, inl, inr,
  Bool-cases, if◌then◌else◌,
}
use yantra_os.Prelude.Lists.{
  length, take, length-append, take_all, take-append, take-append-short, take_none,
}
use yantra_os.Sandbox.Script.{max_output_bytes}
use mathlib.Core.List.{flatten, append-nil, append_assoc}

-- The loop over the chunks, with the pieces kept so far joined in `kept`.
unfoldable pub read_chunks : ℕ → List ℕ → List (List ℕ) → List ℕ
unfolding take
read_chunks limit kept [] = kept
read_chunks limit kept (chunk ∷ chunks) =
    let remaining = limit - length kept in
    let more = kept ++ take remaining chunk in
    let rest = read_chunks limit more chunks in
    if leb remaining 0 then kept else if ltb remaining (length chunk) then more else rest

-- the bytes that `_decode_capped` is given
unfoldable pub read_capped_logs : List (List ℕ) → List ℕ
unfolding read_chunks
read_capped_logs = read_chunks max_output_bytes []

take_nil : (n : ℕ) → take {A = ℕ} n [] ≡ []
unfolding take
take_nil zero = refl
take_nil (suc n) = refl

-- a chunk that fits is kept whole
read_whole :
    (limit : ℕ) (kept chunk : List ℕ) (chunks : List (List ℕ))
    → length chunk ≤ limit - length kept
    → read_chunks limit (kept ++ chunk) chunks
      ≡ (kept ++ chunk) ++ take (limit - length (kept ++ chunk)) (flatten chunks)
    → read_chunks limit (kept ++ take (limit - length kept) chunk) chunks
      ≡ kept ++ take (limit - length kept) (chunk ++ flatten chunks)
read_whole limit kept chunk chunks fits next =
    let n = limit - length kept in
    let all_of_it = take_all n chunk fits in
    let less : limit - length (kept ++ chunk) ≡ n - length chunk =
      omega (arith, length-append kept chunk) in
    ap (λ c. read_chunks limit (kept ++ c) chunks) all_of_it
    ∙ next
    ∙ append_assoc kept chunk (take (limit - length (kept ++ chunk)) (flatten chunks))
    ∙ ap (λ r. kept ++ r)
        (sym (
          take-append n chunk (flatten chunks) fits
          ∙ ap (λ k. chunk ++ take k (flatten chunks)) (sym less)))

-- Whatever the chunks are, what is kept is a first part of the log, cut at the limit.
read_chunks-eq-take :
    (limit : ℕ) (kept : List ℕ) (chunks : List (List ℕ))
    → length kept ≤ limit
    → read_chunks limit kept chunks ≡ kept ++ take (limit - length kept) (flatten chunks)
unfolding read_chunks flatten
read_chunks-eq-take limit kept [] h =
    let nothing : take (limit - length kept) [] ≡ [] = take_nil (limit - length kept) in
    rw nothing (sym (append-nil kept))
read_chunks-eq-take limit kept (chunk ∷ chunks) h =
    let n = limit - length kept in
    elim (Bool-cases (leb n 0)) [
      | inl full ↦ rw full (
          sym (
            ap (λ r. kept ++ r) (take_none n (chunk ++ flatten chunks) (ground arith))
            ∙ append-nil kept))
      | inr room ↦ elim (Bool-cases (ltb n (length chunk))) [
        | inl cut ↦
            rw (room, cut)
              (ap (λ r. kept ++ r)
                (sym (take-append-short n chunk (flatten chunks) (ground arith))))
        | inr whole ↦
            let fits : length chunk ≤ n = ground arith in
            rw (room, whole)
              (read_whole limit kept chunk chunks fits (
                read_chunks-eq-take limit (kept ++ chunk) chunks
                  (omega (arith, length-append kept chunk))))
      ]
    ]

-- The bounded read of a log yields the first part of the log up to the limit, however the log is cut
-- into chunks.
pub read_capped_logs-eq-take :
    (chunks : List (List ℕ)) → read_capped_logs chunks ≡ take max_output_bytes (flatten chunks)
unfolding read_capped_logs
read_capped_logs-eq-take chunks = read_chunks-eq-take max_output_bytes [] chunks (omega arith)
