-- ===== src/Revocation/Order.antt =====
-- Membership and inclusion of revoked entries, and what `newer` decides.
use yantra_os.Prelude.{
  ◌≤◌, ◌⊎◌, String, ◌≡◌, refl, ap, subst, true, Option, none, some, List, [], ◌∷◌, arith, ltb,
  ltb→lt, if◌then◌else◌, ◌<◌, str_eq, eq_iff, inl, inr, Bool-cases, &&-left, &&-right, str_eq_refl,
  ◌==◌,
}
use yantra_os.Prelude.Result.{ok, err}
use yantra_os.Revocation.Listing.{
  Entry, RevocationList, same_version, same_entry, contains, is_subset, same_set, same_list,
  revokes, keep_revoked, newer, collision,
}

same_version→eq : (v w : Option String) → same_version v w ≡ true → v ≡ w
unfolding same_version
same_version→eq none none h = refl
same_version→eq none (some w) h = cc
same_version→eq (some v) none h = cc
same_version→eq (some v) (some w) h = ap some ((eq_iff v w).0 h)

same_version_refl : (v : Option String) → same_version v v ≡ true
unfolding same_version
same_version_refl none = refl
same_version_refl (some v) = str_eq_refl v

pub same_entry→eq : (e f : Entry) → same_entry e f ≡ true → e ≡ f
unfolding same_entry
same_entry→eq (i, v) (j, w) h =
    let p = (eq_iff i j).0 (&&-left (str_eq i j) _ h) in
    let q = same_version→eq v w (&&-right (str_eq i j) _ h) in λ k. (p k, q k)

pub same_entry_refl : (e : Entry) → same_entry e e ≡ true
unfolding same_entry
same_entry_refl (i, v) = rw (str_eq_refl i, same_version_refl v)

contains-head : (e : Entry) (fs : List Entry) → contains e (e ∷ fs) ≡ true
unfolding contains
contains-head e fs = rw same_entry_refl

contains-tail : (e f : Entry) (fs : List Entry) → contains e fs ≡ true → contains e (f ∷ fs) ≡ true
unfolding contains
contains-tail e f fs h = ground arith

-- Inclusion carries membership over.
pub contains_of_is_subset :
    (e : Entry) (es fs : List Entry)
    → is_subset es fs ≡ true
    → contains e es ≡ true
    → contains e fs ≡ true
unfolding is_subset contains
contains_of_is_subset e [] fs h m = cc
contains_of_is_subset e (f ∷ es) fs h m = elim (Bool-cases (same_entry e f)) [
  | inl same ↦ rw (same_entry→eq e f same) (&&-left (contains f fs) _ h)
  | inr other ↦ contains_of_is_subset e es fs (&&-right (contains f fs) _ h) (rw other at m)
]

pub is_subset-cons :
    (es fs : List Entry) (f : Entry) → is_subset es fs ≡ true → is_subset es (f ∷ fs) ≡ true
unfolding is_subset
is_subset-cons [] fs f h = refl
is_subset-cons (e ∷ es) fs f h = ground (
  arith,
  contains-tail e f fs (&&-left (contains e fs) _ h),
  is_subset-cons es fs f (&&-right (contains e fs) _ h),
)

pub is_subset_refl : (es : List Entry) → is_subset es es ≡ true
unfolding is_subset
is_subset_refl [] = refl
is_subset_refl (e ∷ es) =
    ground (arith, contains-head e es, is_subset-cons es es e (is_subset_refl es))

pub is_subset_trans :
    (es fs gs : List Entry)
    → is_subset es fs ≡ true
    → is_subset fs gs ≡ true
    → is_subset es gs ≡ true
unfolding is_subset
is_subset_trans [] fs gs h k = refl
is_subset_trans (e ∷ es) fs gs h k = ground (
  arith,
  contains_of_is_subset e fs gs k (&&-left (contains e fs) _ h),
  is_subset_trans es fs gs (&&-right (contains e fs) _ h) k,
)

-- `a` is no newer than `b`, and takes no revocation back.
pub record Precedes (a b : RevocationList) : Type 0 where
  pub sequence : a.sequence ≤ b.sequence
  pub revoked : is_subset a.revoked b.revoked ≡ true

pub Precedes-refl : (a : RevocationList) → Precedes a a
Precedes-refl a = record { sequence = omega arith; revoked = is_subset_refl a.revoked }

pub Precedes-trans : {a b c : RevocationList} → Precedes a b → Precedes b c → Precedes a c
Precedes-trans {a} {b} {c} p q = record {
  sequence = omega (arith, p.sequence, q.sequence);
  revoked = is_subset_trans a.revoked b.revoked c.revoked p.revoked q.revoked;
}

-- A skill that the earlier list revokes is revoked by the later one.
pub revokes-Precedes :
    (a b : RevocationList) (i v : String)
    → Precedes a b
    → revokes a i v ≡ true
    → revokes b i v ≡ true
unfolding revokes
revokes-Precedes a b i v p h = ground (
  arith,
  contains_of_is_subset (i, none) a.revoked b.revoked p.revoked,
  contains_of_is_subset (i, some v) a.revoked b.revoked p.revoked,
)

pub same_list-Precedes : (a b : RevocationList) → same_list a b ≡ true → Precedes b a
unfolding same_list same_set
same_list-Precedes a b h = record { sequence = ground arith; revoked = ground arith }

pub same_list_symm : (a b : RevocationList) → same_list a b ≡ true → same_list b a ≡ true
unfolding same_list same_set
same_list_symm a b h = ground arith

-- the cases of `newer`, as a relation between its inputs and its result
pub data Newer (a b : RevocationList) : RevocationList → Type 0 where
  same : a.sequence ≡ b.sequence → same_list a b ≡ true → Newer a b a
  second : a.sequence < b.sequence → is_subset a.revoked b.revoked ≡ true → Newer a b b
  first : b.sequence < a.sequence → is_subset b.revoked a.revoked ≡ true → Newer a b a

keep_revoked-eq-ok :
    (a b c : RevocationList)
    → keep_revoked a b ≡ ok c
    → (b ≡ c) × (is_subset a.revoked b.revoked ≡ true)
unfolding keep_revoked
keep_revoked-eq-ok a b c h = ground arith

Newer-same :
    (a b c : RevocationList)
    → a.sequence ≡ b.sequence
    → (if same_list a b then ok a else err collision) ≡ ok c
    → Newer a b c
Newer-same a b c eq h = elim (Bool-cases (same_list a b)) [
  | inl alike ↦ subst (Newer a b) (ground arith) (same eq alike)
  | inr unlike ↦ absurd (ground arith)
]

-- Which of two lists `newer` picks, where it does not raise.
pub newer-Newer : (a b c : RevocationList) → newer a b ≡ ok c → Newer a b c
unfolding newer
newer-Newer a b c h = elim (Bool-cases (a.sequence == b.sequence)) [
  | inl eq ↦ Newer-same a b c (ground arith) (rw eq at h)
  | inr ne ↦ elim (Bool-cases (ltb a.sequence b.sequence)) [
    | inl lt ↦
        let (e, sub) = keep_revoked-eq-ok a b c (rw (ne, lt) at h) in
        subst (Newer a b) e (second (ltb→lt _ _ lt) sub)
    | inr ge ↦
        let (e, sub) = keep_revoked-eq-ok b a c (rw (ne, ge) at h) in
        subst (Newer a b) e (first (ground arith) sub)
  ]
]

-- A relation that holds is what `newer` computes.
pub newer_of_Newer : (a b : RevocationList) {c : RevocationList} → Newer a b c → newer a b ≡ ok c
unfolding newer keep_revoked
newer_of_Newer a b (same e alike) = ground arith
newer_of_Newer a b (second lt sub) = ground arith
newer_of_Newer a b (first gt sub) = ground arith

-- The newer list takes nothing back that either list revokes, and is no older than either.
pub Newer-Precedes : {a b c : RevocationList} → Newer a b c → Precedes a c × Precedes b c
Newer-Precedes {a} {b} (same e alike) = (Precedes-refl a, same_list-Precedes a b alike)
Newer-Precedes {a} {b} (second lt sub) =
    (record { sequence = omega arith; revoked = sub }, Precedes-refl b)
Newer-Precedes {a} {b} (first gt sub) =
    (Precedes-refl a, record { sequence = omega arith; revoked = sub })

-- What `newer` returns is the first list, or has a larger sequence than it.
pub Newer-first : {a b c : RevocationList} → Newer a b c → (c ≡ a) ⊎ (a.sequence < c.sequence)
Newer-first (same e alike) = inl refl
Newer-first (second lt sub) = inr lt
Newer-first (first gt sub) = inl refl
