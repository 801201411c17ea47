-- ===== src/Audit/Commitment.antt =====
-- The hash of the last entry commits to the whole file.
use yantra_os.Prelude.{
  ℕ, ◌≡◌, ◌≢◌, ◌⊎◌, inl, inr, refl, sym, ap, ◌∙◌, true, List, [], ◌∷◌, ◌++◌, String, arith, &&-left,
  eqb→eq, ◌==◌,
}
use yantra_os.Prelude.Lists.{length, all, codes, append_cancel, bytes_discrete, codes-injective}
use yantra_os.Audit.Fields.{del}
use yantra_os.Audit.Entry.{Codec, is_hash, is_hex, entry_hash}
use yantra_os.Audit.Chain.{IsCodec, Chained, genesis, link}

-- Two inputs that the hash does not tell apart.
abbrev pub Collision : Codec → Type 0
Collision c = (a : List ℕ) × (b : List ℕ) × (a ≢ b) × (c.sha256_hex a ≡ c.sha256_hex b)

is_hash-length : (h : String) → is_hash h ≡ true → length (codes h) ≡ 64
unfolding is_hash
is_hash-length h e =
    eqb→eq (length (codes h)) 64 (&&-left (length (codes h) == 64) (all is_hex (codes h)) e)

module _ (c : Codec) where
  -- the texts that are hashed, the last entry first
  abbrev pub texts : {file : List ℕ} {h : String} → Chained c file h → List (List ℕ)
  texts genesis = []
  texts (link r p file' hash a b d small e) = c.canonical (del "entry_hash" p) ∷ texts r

  Chained-length :
      {file : List ℕ} {h : String} → IsCodec c → Chained c file h → length (codes h) ≡ 64
  Chained-length laws genesis = refl
  Chained-length laws (link {previous = previous} r p file' hash a b d small e) =
      ap (λ h. length (codes h)) d
      ∙ is_hash-length (entry_hash c previous p)
          (laws.hash_form (codes previous ++ c.canonical (del "entry_hash" p)))

  -- Two audit files with as many entries that end in the same hash hold the same entries, in the same
  -- order, as far as they are hashed, or they exhibit a collision of the hash.
  pub Chained-commits :
      {file file' : List ℕ} {h h' : String}
      → IsCodec c
      → (r : Chained c file h) (s : Chained c file' h') → h ≡ h'
      → length (texts r) ≡ length (texts s)
      → (texts r ≡ texts s) ⊎ Collision c
  Chained-commits laws genesis genesis e n = inl refl
  Chained-commits laws genesis (link s p f' h a b d small w) e n = absurd (omega arith)
  Chained-commits laws (link r p f' h a b d small w) genesis e n = absurd (omega arith)
  Chained-commits laws (link {previous = m} r p f' h a b d small w)
        (link {previous = m'} s p' f'' h' a' b' d' small' w') e n =
      let x = c.canonical (del "entry_hash" p) in
      let x' = c.canonical (del "entry_hash" p') in
      elim (bytes_discrete (codes m ++ x) (codes m' ++ x')) [
        | no differ ↦ inr (codes m ++ x, codes m' ++ x', differ, sym d ∙ e ∙ d')
        | yes inputs ↦
            let sizes = Chained-length laws r ∙ sym (Chained-length laws s) in
            let (starts, ends) = append_cancel (codes m) (codes m') x x' sizes inputs in
            elim (Chained-commits laws r s (codes-injective m m' starts) (omega arith)) [
              | inr collision ↦ inr collision
              | inl rest ↦ inl (λ i. ends i ∷ rest i)
            ]
      ]
