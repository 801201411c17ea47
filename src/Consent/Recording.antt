-- ===== src/Consent/Recording.antt =====
-- `record_consent` on every branch: the ledger grows by a verified row or stays, and what is
-- recorded is the state that `consent_granted` reports.
use yantra_os.Prelude.{
  ℕ, String, ◌≡◌, refl, sym, ap, subst, ◌∙◌, Bool, true, inl, inr, List, [], ◌∷◌, ◌++◌, arith,
  str_eq, Bool-cases, if◌then◌else◌,
}
use yantra_os.Prelude.Lists.{get_last?, get_last?-append}
use yantra_os.Prelude.Result.{Result, ok, err, ok_injective}
use yantra_os.Consent.Store.{
  text, real, Sample, Db, Error, Action, connection, not_text, unknown_state, pure, ◌>>=◌,
  transaction, lift, bind-after, transaction-after,
}
use yantra_os.Consent.Ledger.{
  Signing, granted, revoked, initial_pcr, is_intent, text_of, extend, verify_rows, last_cell,
  granted_row, new_row, immediate_data_purge, record_consent,
}
use yantra_os.Consent.Chain.{
  IsHonest, IsSound, text_of-parts, verify_rows-append, last_cell-verified, new_row-verified,
}

text_injective : {s t : String} → text s ≡ text t → s ≡ t
text_injective h = cc

module _ (k : Signing) (now : ℕ) (i : String) where
  -- Whether the telemetry is gone, by how the call ended.
  abbrev pub Purged : List Sample → Result Error (Unit {0}) → Db → Type 0
  Purged old (ok _) db' = db'.telemetry ≡ (if str_eq i revoked then [] else old)
  Purged old (err e) db' = (e ≡ connection) × (str_eq i revoked ≡ true) × (db'.telemetry ≡ old)

  -- How a call changes the tables.
  pub data Recorded (db : Db) (r : Result Error (Unit {0})) (db' : Db) : Type 0 where
    kept :
        (e : Error)
        → r ≡ err e
        → db'.ledger ≡ db.ledger
        → db'.telemetry ≡ db.telemetry
        → Recorded db r db'
    added :
        (p : String)
        → is_intent i ≡ true
        → last_cell db.ledger ≡ text p
        → db'.ledger ≡ db.ledger ++ new_row k p i now ∷ []
        → Purged db.telemetry r db'
        → Recorded db r db'

  Recorded-from :
      {db : Db} {r : Result Error (Unit {0})} {db' : Db} (rest : List Bool)
      → Recorded (record db { faults = rest }) r db'
      → Recorded db r db'
  Recorded-from rest (kept e h a b) = kept e h a b
  Recorded-from {db} {r} {db'} rest (added p known last grown t) = added p known last grown t

  -- the last test of the call
  purge_last : Action (Unit {0})
  purge_last = if str_eq i revoked then immediate_data_purge else pure tt

  abbrev Purges : Db → Result Error (Unit {0}) → Db → Type 0
  Purges db r db' = (db'.ledger ≡ db.ledger) × Purged db.telemetry r db'

  purge_last-Purges : (db : Db) → Purges db (purge_last db).0 (purge_last db).1
  unfolding purge_last immediate_data_purge
  purge_last-Purges db = elim (Bool-cases (str_eq i revoked)) [
    | inr other ↦ rw other (refl, rw other refl)
    | inl revoking ↦ rw revoking (
        transaction-after (Purges db) (λ d. (tt, record d { telemetry = [] })) db
          (λ rest. (refl, (refl, revoking, refl))) (λ rest. (refl, rw revoking refl)))
  ]

  abbrev add : String → Db → Unit {0} × Db
  add p db = (tt, record db { ledger = db.ledger ++ new_row k p i now ∷ [] })

  add_row : String → Action (Unit {0})
  unfolding purge_last
  add_row p = transaction (add p) >>= λ _. purge_last

  add_row-Recorded :
      (p : String) (db : Db)
      → is_intent i ≡ true
      → last_cell db.ledger ≡ text p
      → Recorded db (add_row p db).0 (add_row p db).1
  unfolding add_row
  add_row-Recorded p db known last =
      bind-after (Recorded db) (transaction (add p)) (λ _. purge_last) db
        (λ e.
          transaction-after (λ r d. r ≡ err e → Recorded db (err e) d) (add p) db
            (λ rest h. kept e refl refl refl) (λ rest h. absurd (ground arith)))
        (λ _.
          transaction-after (λ r d. r ≡ ok tt → Recorded db (purge_last d).0 (purge_last d).1)
            (add p) db (λ rest h. absurd (ground arith))
            (λ rest h.
              let (l, t) = purge_last-Purges (add p (record db { faults = rest })).1 in
              added p known last l t))

  record_known : Action (Unit {0})
  unfolding add_row
  record_known = transaction (λ d. (last_cell d.ledger, d)) >>= λ last.
      lift (text_of last not_text) >>= add_row

  record_known-Recorded :
      (db : Db) → is_intent i ≡ true → Recorded db (record_known db).0 (record_known db).1
  unfolding record_known
  record_known-Recorded db known =
      bind-after (Recorded db) (transaction (λ d. (last_cell d.ledger, d)))
        (λ last. lift (text_of last not_text) >>= add_row) db
        (λ e.
          transaction-after (λ r d. r ≡ err e → Recorded db (err e) d)
            (λ d. (last_cell d.ledger, d)) db (λ rest h. kept e refl refl refl)
            (λ rest h. absurd (ground arith)))
        (λ last.
          transaction-after
            (λ r d.
              r ≡ ok last
              → let run = (lift (text_of last not_text) >>= add_row) d in Recorded db run.0 run.1)
            (λ d. (last_cell d.ledger, d)) db (λ rest h. absurd (ground arith))
            (λ rest h.
              bind-after (Recorded db) (lift (text_of last not_text)) add_row
                (record db { faults = rest }) (λ e no_text. kept e refl refl refl)
                (λ p is_text. Recorded-from rest (
                  add_row-Recorded p (record db { faults = rest }) known
                    (ok_injective h ∙ text_of-parts last not_text is_text)))))

  pub record_consent-Recorded :
      (db : Db) → Recorded db (record_consent k now i db).0 (record_consent k now i db).1
  unfolding record_consent record_known
  record_consent-Recorded db = elim (Bool-cases (is_intent i)) [
    | inr unknown ↦ rw unknown (kept unknown_state refl refl refl)
    | inl known ↦ rw known (record_known-Recorded db known)
  ]

  -- A ledger that verifies still verifies after a call, whatever was asked and however it ended.
  pub record_consent-IsSound :
      (db : Db) → IsHonest k → IsSound k db → IsSound k (record_consent k now i db).1
  unfolding last_cell
  record_consent-IsSound db honest (q, sound) = elim (record_consent-Recorded db) [
    | kept e h same _ ↦ (q, rw same sound)
    | added p known last grown _ ↦
        let verified = new_row-verified k p i now honest known in
        let here : q ≡ p = elim (last_cell-verified k initial_pcr q db.ledger sound) [
          | inl (empty, is_q) ↦ is_q ∙ text_injective (ap last_cell (sym empty) ∙ last)
          | inr found ↦ text_injective (sym found ∙ last)
        ] in
        (
          extend k p i (real now),
          rw (grown, verify_rows-append, sound, here) (unfold verify_rows in rw verified refl),
        )
  ]

  -- What a call that returns has recorded is what is reported from then on, and revoking consent has
  -- emptied the telemetry; granting it has left the telemetry alone.
  pub record_consent-reported :
      (db : Db)
      → (record_consent k now i db).0 ≡ ok tt
      → let db' = (record_consent k now i db).1 in
        (granted_row (get_last? db'.ledger) ≡ str_eq i granted)
        × (db'.telemetry ≡ (if str_eq i revoked then [] else db.telemetry))
  unfolding new_row
  record_consent-reported db h = elim (record_consent-Recorded db) [
    | kept e raised _ _ ↦ absurd (ground arith)
    | added p known last grown purged ↦ (
      rw (grown, get_last?-append) refl,
      subst (λ r. Purged db.telemetry r (record_consent k now i db).1) h purged,
    )
  ]
