-- ===== src/Revocation/InForce.antt =====
-- What an installation leaves in force: the document is what the next reader sees, nothing that was
-- revoked before is taken back, and no older list comes back.
use yantra_os.Prelude.{
  ℕ, ◌≤◌, ◌⊎◌, String, ◌≡◌, refl, subst, subst₂, ◌∙◌, Bool, true, false, Option, none, some, List,
  [], ◌∷◌, arith, inl, inr,
}
use yantra_os.Prelude.Result.{Result, ok, err, returned, >>=-eq-ok}
use yantra_os.Files.{member}
use yantra_os.Transfer.{Answers}
use yantra_os.Revocation.Listing.{Error, RevocationList, revokes, require_fresh, current_time}
use yantra_os.Revocation.Document.{Codec, verify_document}
use yantra_os.Revocation.Cache.{
  File, Host, publish_document, bootstrap_list, cached_list, effective, active_revocations, allow,
  ensure_skill_allowed, unchanged, read_cached, current_of, store, install_document,
}
use yantra_os.Revocation.Order.{
  Precedes, Precedes-refl, Precedes-trans, revokes-Precedes, newer-Newer, Newer-Precedes,
  same_list-Precedes, same_list_symm,
}
use yantra_os.Revocation.Install.{
  IsPublished, publish_document-IsPublished, read_regular_file-content, verify_document-undated,
  verify_document-length, install_document-Accepted, check_candidate-Precedes, newer-candidate,
}

module _ (c : Codec) where
  effective-current :
      (h : Host) (boot current : RevocationList) (f : Option File) (cached : Option RevocationList)
      → h.euid ≡ 0
      → read_cached c h f ≡ ok cached
      → current_of c boot cached ≡ ok current
      → effective c h (0 ∷ []) boot f ≡ ok current
  unfolding read_cached current_of effective
  effective-current h boot current none cached root r k =
      let e : cached ≡ none = ground arith in rw e at k
  effective-current h boot current (some f) cached root r k =
      let (l, read, e) = >>=-eq-ok (cached_list c h (h.euid ∷ []) f) _ r in
      let read0 = subst (λ u. cached_list c h (u ∷ []) f ≡ ok l) root read in
      let is_l : cached ≡ some l = ground arith in rw read0 (rw is_l at k)

  store-cases :
      (h : Host) (answers : Answers) (raw : List ℕ) (seq : ℕ) (u : Bool) {h' : Host} {b : Bool}
      {n : ℕ}
      → store c h answers raw seq u ≡ ok (h', b, n)
      → (seq ≡ n)
        × ((u ≡ true) × (h ≡ h')
            ⊎ ((f : File) × (publish_document h h.cache_dir answers raw ≡ ok f)
                × (record h { cached = some f } ≡ h')))
  unfolding store
  store-cases h answers raw seq true e = ground arith
  store-cases h answers raw seq false e =
      let (f, p, k) = >>=-eq-ok (publish_document h h.cache_dir answers raw) _ e in
      (ground arith, inr (f, p, ground arith))

  -- The list in force after an installation, and how it stands to the document and to the list
  -- before.
  pub record InForce (h h' : Host) (now : Option ℕ) (raw : List ℕ) (n : ℕ) : Type 0 where
    pub candidate : RevocationList
    pub boot : RevocationList
    pub before : RevocationList
    pub after : RevocationList
    pub verified : verify_document c none h.clock now true raw ≡ ok candidate
    pub sequence : candidate.sequence ≡ n
    pub booted : bootstrap_list c h' ≡ ok boot
    pub was : (bootstrap_list c h ≡ ok boot) × (effective c h (0 ∷ []) boot h.cached ≡ ok before)
    pub now_is : effective c h' (0 ∷ []) boot h'.cached ≡ ok after
    pub keeps : Precedes before after
    pub contains_candidate : Precedes candidate after

  same_current :
      (candidate boot current : RevocationList) (cached : Option RevocationList)
      → current_of c boot cached ≡ ok current
      → unchanged c boot candidate cached ≡ true
      → Precedes candidate current
  unfolding current_of unchanged
  same_current candidate boot current none k u =
      let e : boot ≡ current = ground arith in
      subst (Precedes candidate) e
        (same_list-Precedes boot candidate (same_list_symm candidate boot u))
  same_current candidate boot current (some l) k u =
      Precedes-trans (same_list-Precedes l candidate (same_list_symm candidate l u))
        (Newer-Precedes (newer-Newer boot l current k)).1

  -- What root has published, root reads back.
  cached_list-published :
      (h h' : Host) (now : Option ℕ) (raw : List ℕ) (f : File) {l : RevocationList}
      → h.euid ≡ 0
      → h'.clock ≡ h.clock
      → IsPublished h.euid raw f
      → verify_document c none h.clock now true raw ≡ ok l
      → cached_list c h' (0 ∷ []) f ≡ ok l
  unfolding cached_list
  cached_list-published h h' now raw f {l} root same_clock p v =
      let small = verify_document-length c h.clock now true raw v in
      let undated = verify_document-undated c h.clock now raw v in
      let read =
        read_regular_file-content (0 ∷ []) f p.kind (rw (p.uid, root) (unfold member in refl))
          p.closed (omega (arith, p.size)) (rw p.content small) in
      rw (read, p.content, same_clock) undated

  install_document-InForce :
      (h h' : Host) (now : Option ℕ) (answers : Answers) (raw : List ℕ) {b : Bool} {n : ℕ}
      → h.euid ≡ 0
      → install_document c h now answers raw ≡ ok (h', b, n)
      → InForce h h' now raw n
  install_document-InForce h h' now answers raw root e =
      let a = install_document-Accepted c h now answers raw e in
      let was =
        effective-current h a.boot a.current h.cached a.cached root a.was_cached a.in_force in
      let (number, which) =
        store-cases h answers raw a.candidate.sequence (unchanged c a.boot a.candidate a.cached)
          a.stored in
      elim which [
        | inl (kept, same_host) ↦ record {
          candidate = a.candidate;
          boot = a.boot;
          before = a.current;
          after = a.current;
          verified = a.verified;
          sequence = number;
          booted = rw (← same_host) a.booted;
          was = (a.booted, was);
          now_is = rw (← same_host) was;
          keeps = Precedes-refl a.current;
          contains_candidate = same_current a.candidate a.boot a.current a.cached a.in_force kept;
        }
        | inr (f, written, new_host) ↦
            let (after, picked, p) =
              newer-candidate c a.boot a.candidate a.current a.cached a.in_force a.checked in
            let pub_f = publish_document-IsPublished h h.cache_dir answers raw written in
            record {
              candidate = a.candidate;
              boot = a.boot;
              before = a.current;
              after = after;
              verified = a.verified;
              sequence = number;
              booted = rw (← new_host) (unfold bootstrap_list in a.booted);
              was = (a.booted, was);
              now_is = rw (← new_host) (
                  unfold effective in
                  rw
                    (cached_list-published h (record h { cached = some f }) now raw f root refl
                      pub_f a.verified)
                    picked);
              keeps = Precedes-trans (check_candidate-Precedes c a.candidate a.current a.checked) p;
              contains_candidate = p;
            }
      ]

  active-effective :
      (h : Host) (now : Option ℕ) {l : RevocationList}
      → active_revocations c h now ≡ ok l
      → (boot : RevocationList) × (bootstrap_list c h ≡ ok boot)
        × (effective c h (0 ∷ []) boot h.cached ≡ ok l)
  unfolding active_revocations
  active-effective h now {l} e =
      let (boot, b, e1) = >>=-eq-ok (bootstrap_list c h) _ e in
      let (l', f, e2) = >>=-eq-ok (effective c h (0 ∷ []) boot h.cached) _ e1 in
      let (_, _, e3) = >>=-eq-ok (require_fresh (current_time h.clock now) l') _ e2 in
      (boot, b, f ∙ e3)

  -- ok is injective, for two runs of the same code
  ok_unique : {r : Result Error RevocationList} {a b : RevocationList} → r ≡ ok a → r ≡ ok b → a ≡ b
  ok_unique p q = cc

  active_unique :
      (h : Host) (now : Option ℕ) (boot a : RevocationList) {l : RevocationList}
      → bootstrap_list c h ≡ ok boot
      → effective c h (0 ∷ []) boot h.cached ≡ ok a
      → active_revocations c h now ≡ ok l
      → a ≡ l
  active_unique h now boot a {l} b e act =
      let (boot', b', e') = active-effective h now act in
      let boots : boot' ≡ boot = ok_unique b' b in
      ok_unique e (subst (λ r. effective c h (0 ∷ []) r h.cached ≡ ok l) boots e')

  -- When root has installed a document, then whatever skill was revoked by the list in force before
  -- is revoked by the list in force afterwards, and the sequence has not fallen.
  pub install-keeps_revoked :
      (h h' : Host) (now : Option ℕ) (answers : Answers) (raw : List ℕ) (b : Bool) (n : ℕ)
      (l l' : RevocationList) (t t' : Option ℕ)
      → h.euid ≡ 0
      → active_revocations c h t ≡ ok l
      → install_document c h now answers raw ≡ ok (h', b, n)
      → active_revocations c h' t' ≡ ok l'
      → (l.sequence ≤ l'.sequence) × ((i v : String) → revokes l i v ≡ true → revokes l' i v ≡ true)
  install-keeps_revoked h h' now answers raw b n l l' t t' root was e is =
      let f = install_document-InForce h h' now answers raw root e in
      let before : f.before ≡ l = active_unique h t f.boot f.before f.was.0 f.was.1 was in
      let after : f.after ≡ l' = active_unique h' t' f.boot f.after f.booted f.now_is is in
      let p = subst₂ Precedes before after f.keeps in
      (p.sequence, λ i v r. revokes-Precedes l l' i v p r)

  refused :
      (i v : String) (r : Result Error RevocationList)
      → ((l : RevocationList) → r ≡ ok l → revokes l i v ≡ true)
      → returned (allow c i v r) ≡ false
  unfolding allow
  refused i v (err e) all_revoke = refl
  refused i v (ok l) all_revoke = rw (all_revoke l refl)

  -- When root has installed a document, no skill that the document revokes is allowed any more,
  -- whatever the date of the check.
  pub install-refuses_revoked :
      (h h' : Host) (now : Option ℕ) (answers : Answers) (raw : List ℕ) (b : Bool) (n : ℕ)
      (candidate : RevocationList) (i v : String)
      → h.euid ≡ 0
      → install_document c h now answers raw ≡ ok (h', b, n)
      → verify_document c none h.clock now true raw ≡ ok candidate
      → revokes candidate i v ≡ true
      → returned (ensure_skill_allowed c h' i v) ≡ false
  unfolding ensure_skill_allowed
  install-refuses_revoked h h' now answers raw b n candidate i v root e ver r =
      let f = install_document-InForce h h' now answers raw root e in
      let p = subst (λ a. Precedes a f.after) (ok_unique f.verified ver) f.contains_candidate in
      refused i v (active_revocations c h' none) (λ l act.
        revokes-Precedes candidate l i v
          (subst (Precedes candidate) (active_unique h' none f.boot f.after f.booted f.now_is act)
            p)
          r)
