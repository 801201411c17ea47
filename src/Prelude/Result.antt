-- ===== src/Prelude/Result.antt =====
-- The result of Python code that returns a value or raises.
use mathlib.Core.Path.{◌≡◌, refl}
use mathlib.Core.Logic.{◌⊎◌, inl, inr}
use mathlib.Core.Bool.{Bool, true, false}
use yantra_os.Prelude.Tests.{if◌then◌else◌}

pub data Result (E A : Type 0) : Type 0 where
  ok : A → Result E A
  err : E → Result E A

-- Whether the code returned.
abbrev pub returned : {E A : Type 0} → Result E A → Bool
returned (ok a) = true
returned (err e) = false

module _ {E B : Type 0} where
  infixl 4 ◌>>=◌ ◌>>◌
  abbrev pub ◌>>=◌ : {A : Type 0} → Result E A → (A → Result E B) → Result E B
  err raised >>= next = err raised
  ok value >>= next = next value

  abbrev pub ◌>>◌ : Result E (Unit {0}) → Result E B → Result E B
  first >> next = first >>= λ done. next

  pub >>=-eq-ok :
      {A : Type 0} (m : Result E A) (next : A → Result E B) {y : B}
      → (m >>= next) ≡ ok y
      → (x : A) × (m ≡ ok x) × (next x ≡ ok y)
  >>=-eq-ok (err raised) next h = cc
  >>=-eq-ok (ok value) next h = (value, refl, h)

-- `if c: raise e`
abbrev pub raise_if : {E : Type 0} → Bool → E → Result E (Unit {0})
raise_if true e = err e
raise_if false e = ok tt

pub raise_if-eq-ok :
    {E B : Type 0} (c : Bool) (e : E) (k : Result E B) {b : B}
    → (raise_if c e >> k) ≡ ok b
    → (c ≡ false) × (k ≡ ok b)
raise_if-eq-ok true e k h = cc
raise_if-eq-ok false e k h = (refl, h)

module _ {E A : Type 0} where
  -- Inversion of a guard by `if`, for the two ways round.
  pub if_err-eq-ok :
      (b : Bool) (e : E) (m : Result E A) {x : A}
      → (if b then err e else m) ≡ ok x
      → (b ≡ false) × (m ≡ ok x)
  if_err-eq-ok true e m h = cc
  if_err-eq-ok false e m h = (refl, h)

  pub if_ok-eq-ok :
      (b : Bool) (e : E) (m : Result E A) {x : A}
      → (if b then m else err e) ≡ ok x
      → (b ≡ true) × (m ≡ ok x)
  if_ok-eq-ok true e m h = (refl, h)
  if_ok-eq-ok false e m h = cc

  pub ok_injective : {a b : A} → ◌≡◌ {A = Result E A} (ok a) (ok b) → a ≡ b
  ok_injective h = cc

pub Result-cases :
    {E A : Type 0} (r : Result E A) → ((a : A) × (r ≡ ok a)) ⊎ ((e : E) × (r ≡ err e))
Result-cases (ok a) = inl (a, refl)
Result-cases (err e) = inr (e, refl)
