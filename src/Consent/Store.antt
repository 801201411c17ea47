-- ===== src/Consent/Store.antt =====
-- The SQLite tables of `ComplianceExecutor`, and a block `with closing(self._connect())` over them.
use yantra_os.Prelude.{
  ℕ, String, Bool, true, false, Option, List, [], ◌∷◌, ◌≡◌, ◌⊎◌, inl, inr, refl,
}
use yantra_os.Prelude.Result.{Result, ok, err}

-- What SQLite hands back for a column, whatever was written there.
pub data Cell : Type 0 where
  null : Cell
  text : String → Cell
  blob : List ℕ → Cell
  real : ℕ → Cell

-- a row of consent_ledger, without its id: the rows stand in the order of their ids
pub record Row : Type 0 where
  pub timestamp : Cell
  pub intent : Cell
  pub pcr_value : Cell
  pub signature : Cell

-- A row of telemetry_store. A time is in microseconds; none stands for what SQLite finds below no
-- number: NULL, a text, a blob.
pub record Sample : Type 0 where
  pub id : String
  pub timestamp : Option ℕ
  pub payload : String

-- `faults` says of each further block whether its connection fails; where it ends, none does.
pub record Db : Type 0 where
  pub ledger : List Row
  pub telemetry : List Sample
  pub faults : List Bool

pub data Error : Type 0 where
  connection : Error
  unknown_state not_text : Error
  invalid_data broken_chain bad_signature : Error
  ttl_not_numeric ttl_out_of_range : Error

-- A method: it returns or raises, and what was committed stays.
abbrev pub Action : Type 0 → Type 0
Action A = Db → Result Error A × Db

module _ {A : Type 0} where
  abbrev pub pure : A → Action A
  pure a db = (ok a, db)

  abbrev pub raise : Error → Action A
  raise e db = (err e, db)

  abbrev pub lift : Result Error A → Action A
  lift r db = (r, db)

module _ {A B : Type 0} where
  infixl 5 ◌>>=◌
  abbrev pub ◌>>=◌ : Action A → (A → Action B) → Action B
  ◌>>=◌ m f db = let (r, db') = m db in elim r [ ok a ↦ f a db' | err e ↦ (err e, db') ]

module _ {B : Type 0} where
  infixl 5 ◌>>◌
  abbrev pub ◌>>◌ : Action (Unit {0}) → Action B → Action B
  ◌>>◌ m k = m >>= λ _. k

-- One block: it fails as a whole, or it runs and commits.
unfoldable pub transaction : {A : Type 0} → (Db → A × Db) → Action A
transaction f db = elim (db.faults) [
  | [] ↦ let (a, db') = f db in (ok a, db')
  | true ∷ rest ↦ (err connection, record db { faults = rest })
  | false ∷ rest ↦ let (a, db') = f (record db { faults = rest }) in (ok a, db')
]

-- How a block ends, over what is left of `faults`: it fails and changes no table, or it runs.
abbrev pub Ends : {A : Type 0} → (Db → A × Db) → Db → Result Error A × Db → Type 0
Ends f db r =
    ((rest : List Bool) × (r ≡ (err connection, record db { faults = rest })))
    ⊎ ((rest : List Bool) × (r ≡ (let (a, db') = f (record db { faults = rest }) in (ok a, db'))))

pub transaction-Ends : {A : Type 0} (f : Db → A × Db) (db : Db) → Ends f db (transaction f db)
unfolding transaction
transaction-Ends f db = go db.faults
  where
    go :
        (fs : List Bool)
        → Ends f (record db { faults = fs }) (transaction f (record db { faults = fs }))
    go [] = inr ([], refl)
    go (true ∷ rest) = inl (rest, refl)
    go (false ∷ rest) = inr (rest, refl)

-- The rule of a sequence, for what holds of its result and of the database at its end.
pub bind-after :
    {A B : Type 0} (P : Result Error B → Db → Type 0) (m : Action A) (f : A → Action B) (db : Db)
    → ((e : Error) → (m db).0 ≡ err e → P (err e) (m db).1)
    → ((a : A) → (m db).0 ≡ ok a → P (f a (m db).1).0 (f a (m db).1).1)
    → P ((m >>= f) db).0 ((m >>= f) db).1
bind-after {A} {B} P m f db bad good = go (m db).0 (m db).1 bad good
  where
    run : Result Error A → Db → Result Error B × Db
    run r d = ◌>>=◌ (λ _. (r, d)) f db

    go :
        (r : Result Error A) (d : Db)
        → ((e : Error) → r ≡ err e → P (err e) d)
        → ((a : A) → r ≡ ok a → P (f a d).0 (f a d).1)
        → P (run r d).0 (run r d).1
    go (ok a) d b g = g a refl
    go (err e) d b g = b e refl

-- The database after a block, by how it ended.
pub transaction-after :
    {A : Type 0} (P : Result Error A → Db → Type 0) (f : Db → A × Db) (db : Db)
    → ((rest : List Bool) → P (err connection) (record db { faults = rest }))
    → ((rest : List Bool)
        → P (ok (f (record db { faults = rest })).0) (f (record db { faults = rest })).1)
    → P (transaction f db).0 (transaction f db).1
transaction-after P f db bad good = elim (transaction-Ends f db) [
  | inl (rest, e) ↦ rw e (bad rest)
  | inr (rest, e) ↦ rw e (good rest)
]
