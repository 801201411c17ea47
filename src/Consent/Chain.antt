-- ===== src/Consent/Chain.antt =====
-- The chain of PCR values: recording keeps the ledger verifiable, and the last value commits to all
-- that was recorded before it.
use yantra_os.Prelude.{
  ℕ, String, ◌≡◌, refl, sym, ap, subst, ◌∙◌, Bool, true, false, ◌⊎◌, ◌↔◌, inl, inr, not, List, [],
  ◌∷◌, ◌++◌, arith, str_eq, str_eq→eq, str_eq_refl,
}
use yantra_os.Prelude.Lists.{get_last?}
use yantra_os.Prelude.Result
use yantra_os.Prelude.Result.{
  Result, ok, err, returned, Result-cases, >>=-eq-ok, if_err-eq-ok, if_ok-eq-ok, ok_injective,
}
use yantra_os.Consent.Store.{
  Cell, text, blob, null, real, Row, Db, Error, broken_chain, transaction,
}
use yantra_os.Consent.Ledger.{
  Signing, initial_pcr, is_intent, typed_cells, text_of, extend, verify_row, verify_rows,
  verify_ledger, last_cell, new_row,
}

-- The key checks what it has signed.
abbrev pub IsHonest : Signing → Type 0
IsHonest k = (m : List ℕ) → k.verify (k.sign m) m ≡ true

returned_iff :
    (r : Result Error String)
    → (Result.◌>>=◌ r (λ _. ok (tt {0})) ≡ ok (tt {0})) ↔ ((q : String) × (r ≡ ok q))
returned_iff (ok q) = ((λ _. (q, refl)), λ _. refl)
returned_iff (err e) = ((λ h. absurd (ground arith)), λ h. absurd (ground arith))

typed_cells-parts :
    (a b : Cell) (i : String) (s : List ℕ)
    → typed_cells a b ≡ ok (i, s)
    → (a ≡ text i) × (b ≡ blob s) × (is_intent i ≡ true)
unfolding typed_cells
typed_cells-parts (text j) (blob t) i s h =
    let (known, e) = if_ok-eq-ok (is_intent j) _ _ h in
    let same = ok_injective e in
    (
      ap (λ (x : String × List ℕ). text x.0) same,
      ap (λ (x : String × List ℕ). blob x.1) same,
      subst (λ (x : String × List ℕ). is_intent x.0 ≡ true) same known,
    )
typed_cells-parts null b i s h = absurd (ground arith)
typed_cells-parts _ _ i s h = absurd (ground arith)

not-false : (b : Bool) → not b ≡ false → b ≡ true
not-false true h = refl
not-false false h = cc

pub text_of-parts : (c : Cell) (e : Error) {s : String} → text_of c e ≡ ok s → c ≡ text s
text_of-parts (text t) e h = ap text (ok_injective h)
text_of-parts null e h = absurd (ground arith)
text_of-parts _ e h = absurd (ground arith)

module _ (k : Signing) where
  -- The rows of the ledger pass `_verify_ledger`.
  abbrev pub IsSound : Db → Type 0
  IsSound db = (q : String) × (verify_rows k initial_pcr db.ledger ≡ ok q)

  -- The verification returns exactly on a sound ledger, where the database can be read.
  pub verify_ledger_iff : (db : Db) → db.faults ≡ [] → ((verify_ledger k db).0 ≡ ok tt) ↔ IsSound db
  unfolding verify_ledger transaction
  verify_ledger_iff db open_db =
      subst (λ f. ((verify_ledger k (record db { faults = f })).0 ≡ ok tt) ↔ IsSound db)
        (sym open_db) (returned_iff (verify_rows k initial_pcr db.ledger))

  pub verify_rows-append :
      (p : String) (xs ys : List Row)
      → verify_rows k p (xs ++ ys) ≡ Result.◌>>=◌ (verify_rows k p xs) (λ q. verify_rows k q ys)
  unfolding verify_rows
  verify_rows-append p [] ys = refl
  verify_rows-append p (x ∷ xs) ys = elim (Result-cases (verify_row k p x)) [
    | inl (q, e) ↦ rw e (verify_rows-append q xs ys)
    | inr (x, e) ↦ rw e refl
  ]

  -- What a row that passes holds.
  pub verify_row-parts :
      (p q : String) (r : Row)
      → verify_row k p r ≡ ok q
      → (i : String) × (r.intent ≡ text i) × (r.pcr_value ≡ text q) × (q ≡ extend k p i r.timestamp)
  unfolding verify_row
  verify_row-parts p q r h =
      let (parts, typed, h1) = >>=-eq-ok (typed_cells r.intent r.signature) _ h in
      let i = parts.0 in
      let s = parts.1 in
      let (pcr, is_text, h2) = >>=-eq-ok (text_of r.pcr_value broken_chain) _ h1 in
      let (intent, _, _) = typed_cells-parts r.intent r.signature i s typed in
      let (chained, h3) = if_err-eq-ok (not (str_eq (extend k p i r.timestamp) pcr)) _ _ h2 in
      let (_, h4) = if_ok-eq-ok (k.verify s (k.encode pcr)) _ _ h3 in
      let e = ok_injective h4 in
      (
        i,
        intent,
        text_of-parts r.pcr_value broken_chain is_text ∙ ap text e,
        sym e ∙ sym (str_eq→eq _ _ (not-false _ chained)),
      )

  pub last_cell-verified :
      (p q : String) (rows : List Row)
      → verify_rows k p rows ≡ ok q
      → ((rows ≡ []) × (q ≡ p)) ⊎ (last_cell rows ≡ text q)
  unfolding verify_rows last_cell get_last?
  last_cell-verified p q [] h = inl (refl, sym (ok_injective h))
  last_cell-verified p q (r ∷ []) h =
      let (next, ok_row, e) = >>=-eq-ok (verify_row k p r) _ h in
      let (_, _, pcr, _) = verify_row-parts p next r ok_row in inr (pcr ∙ ap text (ok_injective e))
  last_cell-verified p q (r ∷ s ∷ rest) h =
      let (next, _, e) = >>=-eq-ok (verify_row k p r) _ h in
      elim (last_cell-verified next q (s ∷ rest) e) [
        | inl (empty, _) ↦ absurd (ground arith)
        | inr found ↦ inr found
      ]

  pub new_row-verified :
      (p i : String) (now : ℕ)
      → IsHonest k
      → is_intent i ≡ true
      → verify_row k p (new_row k p i now) ≡ ok (extend k p i (real now))
  unfolding verify_row new_row
  new_row-verified p i now honest known =
      rw (known, str_eq_refl (extend k p i (real now)), honest (k.encode (extend k p i (real now))))
        refl
