-- ===== src/Consent/Commitment.antt =====
-- The last PCR value commits to everything that was recorded.
use yantra_os.Prelude.{
  ℕ, String, ◌≡◌, ◌≢◌, ◌⊎◌, inl, inr, refl, sym, ap, ◌∙◌, List, [], ◌∷◌, ◌++◌, map, arith,
}
use yantra_os.Prelude.Lists.{length, append_cancel, bytes_discrete}
use yantra_os.Prelude.Result.{ok, >>=-eq-ok, ok_injective}
use yantra_os.Consent.Store.{text, Row}
use yantra_os.Consent.Ledger.{Signing, measurement, extend, verify_row, verify_rows, initial_pcr}
use yantra_os.Consent.Chain.{verify_row-parts}

-- What the encoding and the digests are, whatever the hash: different texts have different
-- encodings, and a digest has 64 characters, as the initial value has.
pub record IsEncoding (k : Signing) : Type 0 where
  pub digest_length : (a : List ℕ) → length (k.encode (k.sha256_hex a)) ≡ 64
  pub initial_length : length (k.encode initial_pcr) ≡ 64
  pub encode_injective : (s t : String) → k.encode s ≡ k.encode t → s ≡ t

-- Two inputs that the hash does not tell apart.
abbrev pub Collision : Signing → Type 0
Collision k = (a : List ℕ) × (b : List ℕ) × (a ≢ b) × (k.sha256_hex a ≡ k.sha256_hex b)

module _ (k : Signing) where
  -- the bytes that a row adds to the chain
  abbrev pub measured : Row → List ℕ
  measured r = elim (r.intent) [ text i ↦ measurement k i r.timestamp | _ ↦ [] ]

  measured-text :
      (r : Row) (i : String) → r.intent ≡ text i → measured r ≡ measurement k i r.timestamp
  measured-text r i e = rw e refl

  chain_commits :
      (p q r : String) (xs ys : List Row)
      → IsEncoding k
      → length (k.encode p) ≡ 64
      → length (k.encode q) ≡ 64
      → length xs ≡ length ys
      → verify_rows k p xs ≡ ok r
      → verify_rows k q ys ≡ ok r
      → (p ≡ q) × (map measured xs ≡ map measured ys) ⊎ Collision k
  unfolding verify_rows extend
  chain_commits p q r [] [] c lp lq l h g = inl (ok_injective (h ∙ sym g), refl)
  chain_commits p q r [] (y ∷ ys) c lp lq l h g = absurd (omega arith)
  chain_commits p q r (x ∷ xs) [] c lp lq l h g = absurd (omega arith)
  chain_commits p q r (x ∷ xs) (y ∷ ys) c lp lq l h g =
      let (p1, hx, h1) = >>=-eq-ok (verify_row k p x) _ h in
      let (q1, gy, g1) = >>=-eq-ok (verify_row k q y) _ g in
      let (i, xi, _, ex) = verify_row-parts k p p1 x hx in
      let (j, yj, _, ey) = verify_row-parts k q q1 y gy in
      let lp1 = ap (λ s. length (k.encode s)) ex ∙ c.digest_length _ in
      let lq1 = ap (λ s. length (k.encode s)) ey ∙ c.digest_length _ in
      elim (chain_commits p1 q1 r xs ys c lp1 lq1 (omega arith) h1 g1) [
        | inr collision ↦ inr collision
        | inl (e1, rest) ↦
            elim (bytes_discrete (k.encode p ++ measurement k i x.timestamp)
              (k.encode q ++ measurement k j y.timestamp)) [
                | no differ ↦ inr (_, _, differ, sym ex ∙ e1 ∙ ey)
                | yes inputs ↦
                    let (ep, em) =
                      append_cancel (k.encode p) (k.encode q) _ _ (lp ∙ sym lq) inputs in
                    let heads = measured-text x i xi ∙ em ∙ sym (measured-text y j yj) in
                    inl (c.encode_injective p q ep, λ n. heads n ∷ rest n)
              ]
      ]

  -- Two ledgers of the same length that verify and end in the same PCR value have recorded the same
  -- intents at the same times, byte for byte, in the same order, or they exhibit a collision of the
  -- hash.
  pub last_pcr_commits :
      (r : String) (xs ys : List Row)
      → IsEncoding k
      → length xs ≡ length ys
      → verify_rows k initial_pcr xs ≡ ok r
      → verify_rows k initial_pcr ys ≡ ok r
      → (map measured xs ≡ map measured ys) ⊎ Collision k
  last_pcr_commits r xs ys c l h g =
      elim (chain_commits initial_pcr initial_pcr r xs ys c c.initial_length c.initial_length l h
        g) [ inl (_, same) ↦ inl same | inr collision ↦ inr collision ]
