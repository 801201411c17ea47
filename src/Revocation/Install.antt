-- ===== src/Revocation/Install.antt =====
-- Installation against the list in force: no rollback and no un-revocation, and what was installed
-- is what the next reader sees.
use yantra_os.Prelude.{
  ℕ, suc, ◌+◌, ◌≤◌, ◌<◌, ◌⊎◌, ◌≡◌, sym, subst, Bool, true, false, Option, none, some, List, [],
  arith, ltb, ◌==◌, inl, inr, Bool-cases,
}
use yantra_os.Prelude.Lists.{length, take_all}
use yantra_os.Prelude.Result.{ok, >>=-eq-ok, raise_if-eq-ok}
use yantra_os.Files.{Stat, regular, member}
use yantra_os.Transfer.{Answers, write_all, write_all-complete, read_loop_total}
use yantra_os.Revocation.Listing.{RevocationList, require_fresh, current_time, same_list, newer}
use yantra_os.Revocation.Document.{Codec, max_document, verify_signed, verify_document}
use yantra_os.Revocation.Cache.{
  File, Host, writable_by_others, read_regular_file, checked_size, publish_document, bootstrap_list,
  unchanged, read_cached, current_of, check_candidate, store, install_document,
}
use yantra_os.Revocation.Order.{
  Precedes, Precedes-refl, Precedes-trans, same, second, newer-Newer, newer_of_Newer,
  Newer-Precedes, Newer-first, same_list-Precedes, same_list_symm,
}

-- Reading a file of a trusted owner yields its content, up to the size limit and no further.
pub read_regular_file-content :
    (owners : List ℕ) (f : File)
    → f.stat.kind ≡ regular
    → member f.stat.uid owners ≡ true
    → writable_by_others f.stat ≡ false
    → f.stat.size ≤ max_document
    → length f.content ≤ max_document
    → read_regular_file owners (some f) ≡ ok f.content
unfolding read_regular_file checked_size
read_regular_file-content owners f k m w s l =
    let full =
      read_loop_total (suc (length f.content)) max_document f.content [] (omega arith)
        (omega arith) in
    let whole = take_all (max_document + 1) f.content (omega arith) in
    rw (full, whole) (ground arith)

-- What a publication leaves: the document, in a regular file of the process's own user that no
-- one else may write.
pub record IsPublished (owner : ℕ) (raw : List ℕ) (f : File) : Type 0 where
  pub content : f.content ≡ raw
  pub kind : f.stat.kind ≡ regular
  pub uid : f.stat.uid ≡ owner
  pub closed : writable_by_others f.stat ≡ false
  pub size : f.stat.size ≡ length raw

-- A publication that does not raise leaves the whole document.
pub publish_document-IsPublished :
    (h : Host) (dir : Option Stat) (answers : Answers) (raw : List ℕ) {f : File}
    → publish_document h dir answers raw ≡ ok f
    → IsPublished h.euid raw f
unfolding publish_document
publish_document-IsPublished h none answers raw e = absurd (ground arith)
publish_document-IsPublished h (some dir) answers raw e =
    elim (Bool-cases (write_all answers raw).complete) [
      | inl all_written ↦ ground (arith, write_all-complete answers raw all_written)
      | inr short ↦ absurd (ground arith)
    ]

module _ (c : Codec) where
  -- A document whose dates are accepted is accepted by a reader who ignores the dates.
  pub verify_document-undated :
      (clock : ℕ) (now : Option ℕ) (raw : List ℕ) {l : RevocationList}
      → verify_document c none clock now true raw ≡ ok l
      → verify_document c none clock none false raw ≡ ok l
  unfolding verify_document
  verify_document-undated clock now raw {l} h =
      let (l', signed, fresh) = >>=-eq-ok (verify_signed c none raw) _ h in
      let (_, _, agrees) = >>=-eq-ok (require_fresh (current_time clock now) l') _ fresh in
      rw signed agrees

  -- A verified document is within the size limit.
  pub verify_document-length :
      (clock : ℕ) (now : Option ℕ) (dated : Bool) (raw : List ℕ) {l : RevocationList}
      → verify_document c none clock now dated raw ≡ ok l
      → length raw ≤ max_document
  unfolding verify_document verify_signed
  verify_document-length clock now dated raw h =
      let (l', signed, _) = >>=-eq-ok (verify_signed c none raw) _ h in
      let (small, _) = raise_if-eq-ok (ltb max_document (length raw)) _ _ signed in ground arith

  -- What every installation that returns has established.
  pub record Accepted (h : Host) (now : Option ℕ) (answers : Answers) (raw : List ℕ) (h' : Host)
      (changed : Bool) (seq : ℕ) : Type 0 where
    pub candidate : RevocationList
    pub boot : RevocationList
    pub cached : Option RevocationList
    pub current : RevocationList
    pub verified : verify_document c none h.clock now true raw ≡ ok candidate
    pub booted : bootstrap_list c h ≡ ok boot
    pub was_cached : read_cached c h h.cached ≡ ok cached
    pub in_force : current_of c boot cached ≡ ok current
    pub checked : check_candidate c candidate current ≡ ok tt
    pub stored :
        store c h answers raw candidate.sequence (unchanged c boot candidate cached)
        ≡ ok (h', changed, seq)

  pub install_document-Accepted :
      (h : Host) (now : Option ℕ) (answers : Answers) (raw : List ℕ) {h' : Host} {b : Bool} {n : ℕ}
      → install_document c h now answers raw ≡ ok (h', b, n)
      → Accepted h now answers raw h' b n
  unfolding install_document
  install_document-Accepted h now answers raw e =
      let (candidate, v, e1) = >>=-eq-ok (verify_document c none h.clock now true raw) _ e in
      let (boot, bt, e2) = >>=-eq-ok (bootstrap_list c h) _ e1 in
      let (cached, rc, e3) = >>=-eq-ok (read_cached c h h.cached) _ e2 in
      let (current, cf, e4) = >>=-eq-ok (current_of c boot cached) _ e3 in
      let (_, ck, e5) = >>=-eq-ok (check_candidate c candidate current) _ e4 in
      record {
        candidate = candidate;
        boot = boot;
        cached = cached;
        current = current;
        verified = v;
        booted = bt;
        was_cached = rc;
        in_force = cf;
        checked = ck;
        stored = e5;
      }

  pub check_candidate-Precedes :
      (candidate current : RevocationList)
      → check_candidate c candidate current ≡ ok tt
      → Precedes current candidate
  unfolding check_candidate
  check_candidate-Precedes candidate current h = record {
    sequence = ground arith;
    revoked = ground arith;
  }

  check_candidate-same :
      (candidate current : RevocationList)
      → check_candidate c candidate current ≡ ok tt
      → candidate.sequence ≡ current.sequence
      → same_list candidate current ≡ true
  unfolding check_candidate
  check_candidate-same candidate current h e = ground arith

  current_of-follows :
      (boot current : RevocationList) (cached : Option RevocationList)
      → current_of c boot cached ≡ ok current
      → Precedes boot current × ((current ≡ boot) ⊎ (boot.sequence < current.sequence))
  unfolding current_of
  current_of-follows boot current none e =
      let same_as : boot ≡ current = ground arith in
      (subst (Precedes boot) same_as (Precedes-refl boot), inl (sym same_as))
  current_of-follows boot current (some l) e =
      let n = newer-Newer boot l current e in ((Newer-Precedes n).0, Newer-first n)

  -- A candidate that passed the checks follows the built-in list, and `newer` accepts it.
  pub newer-candidate :
      (boot candidate current : RevocationList) (cached : Option RevocationList)
      → current_of c boot cached ≡ ok current
      → check_candidate c candidate current ≡ ok tt
      → (l : RevocationList) × (newer boot candidate ≡ ok l) × Precedes candidate l
  newer-candidate boot candidate current cached f k =
      let (after, which) = current_of-follows boot current cached f in
      let p = check_candidate-Precedes candidate current k in
      let q = Precedes-trans after p in
      elim which [
        | inl is_boot ↦ elim (Bool-cases (boot.sequence == candidate.sequence)) [
          | inl eq ↦
              let e : boot.sequence ≡ candidate.sequence = ground arith in
              let now_same = check_candidate-same candidate current k (rw is_boot (sym e)) in
              let alike : same_list candidate boot ≡ true = rw is_boot at now_same in
              (
                boot,
                newer_of_Newer boot candidate (same e (same_list_symm candidate boot alike)),
                same_list-Precedes boot candidate (same_list_symm candidate boot alike),
              )
          | inr ne ↦ (
            candidate,
            newer_of_Newer boot candidate (second (ground arith) q.revoked),
            Precedes-refl candidate,
          )
        ]
        | inr lt ↦ (
          candidate,
          newer_of_Newer boot candidate (second (omega (arith, p.sequence)) q.revoked),
          Precedes-refl candidate,
        )
      ]
