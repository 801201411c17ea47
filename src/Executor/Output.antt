-- ===== src/Executor/Output.antt =====
-- `drain` of `_run_bounded_command`: a pipe is read to its end, and a bounded prefix is kept.
use yantra_os.Prelude.{
  ℕ, zero, suc, ◌-◌, ◌≤◌, ◌≡◌, refl, sym, ap, ◌∙◌, inl, inr, Bool-cases, List, [], ◌∷◌, ◌++◌, ltb,
  arith, if◌then◌else◌, ltb_false→le,
}
use yantra_os.Prelude.Lists.{length, take, length-take, take_all, take-append, take_none}
use mathlib.Core.List.{flatten, append_assoc, append-nil}

unfoldable pub drain : ℕ → List ℕ → List (List ℕ) → List ℕ
unfolding take
drain limit kept [] = kept
drain limit kept (chunk ∷ chunks) =
    let remaining = limit - length kept in
    drain limit (if ltb 0 remaining then kept ++ take remaining chunk else kept) chunks

-- one chunk, whether or not there is room for it
drain_chunk :
    (limit : ℕ) (kept chunk : List ℕ)
    → length kept ≤ limit
    → (if ltb 0 (limit - length kept) then kept ++ take (limit - length kept) chunk else kept)
      ≡ take limit (kept ++ chunk)
drain_chunk limit kept chunk h = elim (Bool-cases (ltb 0 (limit - length kept))) [
  | inl room ↦ simp room (sym (take-append limit kept chunk h))
  | inr full ↦ simp full (
      sym (
        take-append limit kept chunk h
        ∙ ap (λ r. kept ++ r)
            (take_none (limit - length kept) chunk (ltb_false→le 0 (limit - length kept) full))
        ∙ append-nil kept))
]

take-take-append : (n : ℕ) (xs ys : List ℕ) → take n (take n xs ++ ys) ≡ take n (xs ++ ys)
unfolding take
take-take-append zero xs ys = refl
take-take-append (suc n) [] ys = refl
take-take-append (suc n) (x ∷ xs) ys = ap (λ r. x ∷ r) (take-take-append n xs ys)

drain-eq-take :
    (limit : ℕ) (kept : List ℕ) (chunks : List (List ℕ))
    → length kept ≤ limit
    → drain limit kept chunks ≡ take limit (kept ++ flatten chunks)
unfolding drain flatten
drain-eq-take limit kept [] h = sym (ap (take limit) (append-nil kept) ∙ take_all limit kept h)
drain-eq-take limit kept (chunk ∷ chunks) h =
    ap (λ k. drain limit k chunks) (drain_chunk limit kept chunk h)
    ∙ drain-eq-take limit (take limit (kept ++ chunk)) chunks
        (omega (arith, length-take limit (kept ++ chunk)))
    ∙ take-take-append limit (kept ++ chunk) (flatten chunks)
    ∙ ap (take limit) (append_assoc kept chunk (flatten chunks))

-- What is kept of a pipe is the first part of what the child wrote, however it is cut into chunks.
pub drain_lem :
    (limit : ℕ) (chunks : List (List ℕ)) → drain limit [] chunks ≡ take limit (flatten chunks)
drain_lem limit chunks = drain-eq-take limit [] chunks (omega arith)
