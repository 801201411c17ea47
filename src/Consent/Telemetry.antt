-- ===== src/Consent/Telemetry.antt =====
-- The sweep of expired telemetry deletes what is older than its time to live, and nothing else.
use yantra_os.Prelude.{
  ℕ, ◌-◌, ◌*◌, ◌≤◌, ◌≡◌, refl, sym, ap, ◌∙◌, false, Option, none, some, List, [], ◌∷◌, arith, ◌↔◌,
  ◌≢◌, inl, inr, Bool-cases,
}
use yantra_os.Prelude.Result.{ok, returned, Result-cases}
use yantra_os.Consent.Store.{Sample, Db, transaction}
use yantra_os.Consent.Ledger.{
  Ttl, boolean, integer, floating, below, other, hour, max_hours, checked_ttl, is_older,
  delete_older, sweep_expired_telemetry,
}
use mathlib.Core.Bool.{false≢true}
use mathlib.Core.List.{Mem, Mem-prop, mem-cons, not-mem-nil}
use mathlib.Core.Logic.Or
use native.Mathlib.Bridge.{le_prop}

-- An accepted time to live is between an hour and a year.
pub checked_ttl-bounds :
    (t : Ttl) (us : ℕ) → checked_ttl t ≡ ok us → (hour ≤ us) × (us ≤ max_hours * hour)
unfolding checked_ttl
checked_ttl-bounds (boolean b) us h = absurd (ground arith)
checked_ttl-bounds other us h = absurd (ground arith)
checked_ttl-bounds below us h = absurd (ground arith)
checked_ttl-bounds (integer h) us e = ground arith
checked_ttl-bounds (floating x) us e = ground arith

-- The sample is undated, or not older than the expiration.
abbrev pub IsFresh : ℕ → Option ℕ → Type 0
IsFresh expiration none = Unit
IsFresh expiration (some t) = expiration ≤ t

not_older-IsFresh : (e : ℕ) (t : Option ℕ) → is_older e t ≡ false → IsFresh e t
unfolding is_older
not_older-IsFresh e none h = tt
not_older-IsFresh e (some t) h = ground arith

IsFresh-not_older : (e : ℕ) (t : Option ℕ) → IsFresh e t → is_older e t ≡ false
unfolding is_older
IsFresh-not_older e none h = refl
IsFresh-not_older e (some t) h = ground arith

IsFresh-prop : (e : ℕ) (t : Option ℕ) → IsProp (IsFresh e t)
IsFresh-prop e none = hlevel
IsFresh-prop e (some t) = le_prop

module _ (e : ℕ) (s : Sample) where
  mem_of_mem-delete_older : (ss : List Sample) → Mem s (delete_older e ss) → Mem s ss
  unfolding delete_older
  mem_of_mem-delete_older [] m = m
  mem_of_mem-delete_older (x ∷ ss) m = elim (Bool-cases (is_older e x.timestamp)) [
    | inl old ↦ mem-cons.1 (Or.inr (mem_of_mem-delete_older ss (rw old at m)))
    | inr new ↦
        Or.elim Mem-prop (mem-cons.0 (rw new at m)) (λ here. mem-cons.1 (Or.inl here))
          (λ later. mem-cons.1 (Or.inr (mem_of_mem-delete_older ss later)))
  ]

  mem-delete_older-IsFresh : (ss : List Sample) → Mem s (delete_older e ss) → IsFresh e s.timestamp
  unfolding delete_older
  mem-delete_older-IsFresh [] m = absurd (not-mem-nil m)
  mem-delete_older-IsFresh (x ∷ ss) m = elim (Bool-cases (is_older e x.timestamp)) [
    | inl old ↦ mem-delete_older-IsFresh ss (rw old at m)
    | inr new ↦
        Or.elim (IsFresh-prop e s.timestamp) (mem-cons.0 (rw new at m))
          (λ here. rw here (not_older-IsFresh e x.timestamp new)) (mem-delete_older-IsFresh ss)
  ]

  mem-delete_older :
      (ss : List Sample) → IsFresh e s.timestamp → Mem s ss → Mem s (delete_older e ss)
  unfolding delete_older
  mem-delete_older [] fresh m = m
  mem-delete_older (x ∷ ss) fresh m = elim (Bool-cases (is_older e x.timestamp)) [
    | inl old ↦ rw old (
        Or.elim Mem-prop (mem-cons.0 m)
          (λ here. absurd (
            false≢true (
              sym (IsFresh-not_older e s.timestamp fresh)
              ∙ ap (λ (y : Sample). is_older e y.timestamp) here
              ∙ old)))
          (mem-delete_older ss fresh))
    | inr new ↦ rw new (
        Or.elim Mem-prop (mem-cons.0 m) (λ here. mem-cons.1 (Or.inl here))
          (λ later. mem-cons.1 (Or.inr (mem-delete_older ss fresh later))))
  ]

sweep_lem :
    (now us : ℕ) (ttl : Ttl) (db : Db)
    → checked_ttl ttl ≡ ok us
    → db.faults ≡ []
    → sweep_expired_telemetry now ttl db
      ≡ (ok tt, record db { telemetry = delete_older (now - us) db.telemetry })
unfolding sweep_expired_telemetry transaction
sweep_lem now us ttl db accepted open_db = rw accepted (ground arith)

-- With an accepted time to live and a database that can be read, a sweep returns, leaves the ledger
-- as it is, and keeps exactly the samples that are undated or no older than the time to live.
pub sweep-keeps_IsFresh :
    (now us : ℕ) (ttl : Ttl) (db : Db)
    → checked_ttl ttl ≡ ok us
    → db.faults ≡ []
    → let (r, db') = sweep_expired_telemetry now ttl db in
      (r ≡ ok tt)
      × (db'.ledger ≡ db.ledger)
      × ((s : Sample) → Mem s db'.telemetry ↔ (Mem s db.telemetry × IsFresh (now - us) s.timestamp))
sweep-keeps_IsFresh now us ttl db accepted open_db = rw (sweep_lem now us ttl db accepted open_db) (
  refl,
  refl,
  λ s. (
    (λ m. (
      mem_of_mem-delete_older (now - us) s db.telemetry m,
      mem-delete_older-IsFresh (now - us) s db.telemetry m,
    )),
    λ (m, fresh). mem-delete_older (now - us) s db.telemetry fresh m,
  ),
)

-- A time to live that is not a number, or below an hour or above a year, raises and deletes nothing.
pub sweep-refuses :
    (now : ℕ) (ttl : Ttl) (db : Db)
    → ((us : ℕ) → checked_ttl ttl ≢ ok us)
    → (returned (sweep_expired_telemetry now ttl db).0 ≡ false)
      × ((sweep_expired_telemetry now ttl db).1 ≡ db)
unfolding sweep_expired_telemetry
sweep-refuses now ttl db refused = elim (Result-cases (checked_ttl ttl)) [
  | inl (us, e) ↦ absurd (refused us e)
  | inr (x, e) ↦ rw e (refl, refl)
]
