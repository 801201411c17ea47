-- ===== src/Sandbox/Stale.antt =====
-- `cleanup_stale_containers` of sandbox.py.
use yantra_os.Prelude.{
  ◌≡◌, refl, ap, Bool, true, false, ◌||◌, not, inl, inr, Bool-cases, Option, none, some, List, [],
  ◌∷◌, String, str_eq, str_eq→eq, str_eq_refl, arith, if◌then◌else◌,
}
use yantra_os.Sandbox.Script.{degraded}
use yantra_os.Sandbox.Engine.{Engine, is_operational}

-- A container that Docker lists, and whether it can be removed.
pub record Stale : Type 0 where
  pub id : String
  pub removes : Bool

-- `containers_by_id[id] = container`
unfoldable pub put : Stale → List Stale → List Stale
put c [] = c ∷ []
put c (d ∷ ds) = let rest = put c ds in if str_eq d.id c.id then c ∷ ds else d ∷ rest

unfoldable pub put_all : List Stale → List Stale → List Stale
unfolding put
put_all [] known = known
put_all (c ∷ cs) known = put_all cs (put c known)

-- the containers of the two labels; none where a listing raises
unfoldable pub stale_containers : Option (List Stale) → Option (List Stale) → Option (List Stale)
unfolding put_all
stale_containers none legacy = none
stale_containers (some current) none = none
stale_containers (some current) (some legacy) = some (put_all legacy (put_all current []))

-- What the cleanup leaves: the containers that it has removed, whose number it returns, and the engine.
pub record Cleaned : Type 0 where
  pub removed : List String
  pub engine : Engine

-- The loop over the containers; one failure degrades the engine.
unfoldable pub remove_all : List Stale → Engine → Cleaned
remove_all [] e = record { removed = []; engine = e }
remove_all (c ∷ cs) e =
    let gone = remove_all cs e in
    let kept = remove_all cs record e { status = degraded } in
    if c.removes then record gone { removed = c.id ∷ gone.removed } else kept

unfoldable pub remove_listed : Option (List Stale) → Engine → Cleaned
unfolding remove_all
remove_listed none e = record { removed = []; engine = record e { status = degraded } }
remove_listed (some cs) e = remove_all cs e

unfoldable pub cleanup_stale_containers :
    Option (List Stale) → Option (List Stale) → Engine → Cleaned
unfolding remove_listed stale_containers is_operational
cleanup_stale_containers current legacy e =
    if not (is_operational e)
    then record { removed = []; engine = e }
    else remove_listed (stale_containers current legacy) e

-- whether a container is among those listed, and among those removed
unfoldable pub is_listed : String → List Stale → Bool
is_listed id [] = false
is_listed id (c ∷ cs) = str_eq c.id id || is_listed id cs

unfoldable pub is_removed : String → List String → Bool
is_removed id [] = false
is_removed id (i ∷ is) = str_eq i id || is_removed id is

is_listed-put :
    (id : String) (c : Stale) (ds : List Stale)
    → is_listed id (put c ds) ≡ (str_eq c.id id || is_listed id ds)
unfolding is_listed put
is_listed-put id c [] = refl
is_listed-put id c (d ∷ ds) = elim (Bool-cases (str_eq d.id c.id)) [
  | inl same ↦
      let i : d.id ≡ c.id = str_eq→eq d.id c.id same in
      let a : str_eq d.id id ≡ str_eq c.id id = ap (λ j. str_eq j id) i in simp same (ground arith)
  | inr differs ↦ let rest = is_listed-put id c ds in simp differs (ground arith)
]

is_listed-put_all :
    (id : String) (cs ds : List Stale)
    → is_listed id (put_all cs ds) ≡ (is_listed id cs || is_listed id ds)
unfolding is_listed put_all
is_listed-put_all id [] ds = refl
is_listed-put_all id (c ∷ cs) ds =
    let rest = is_listed-put_all id cs (put c ds) in
    let first = is_listed-put id c ds in ground arith

-- No container is listed twice, and none is removed twice.
abbrev Unrepeated : List Stale → Type 0
Unrepeated [] = Unit
Unrepeated (c ∷ cs) = (is_listed c.id cs ≡ false) × Unrepeated cs

abbrev pub IsUnrepeated : List String → Type 0
IsUnrepeated [] = Unit
IsUnrepeated (i ∷ is) = (is_removed i is ≡ false) × IsUnrepeated is

put-Unrepeated : (c : Stale) (ds : List Stale) → Unrepeated ds → Unrepeated (put c ds)
unfolding put is_listed
put-Unrepeated c [] h = (refl, tt)
put-Unrepeated c (d ∷ ds) (new, rest) = elim (Bool-cases (str_eq d.id c.id)) [
  | inl same ↦ let i : d.id ≡ c.id = str_eq→eq d.id c.id same in simp same (rw i at new, rest)
  | inr differs ↦ simp differs (apart differs (str_eq c.id d.id) refl, put-Unrepeated c ds rest)
]
  where
    apart :
        str_eq d.id c.id ≡ false
        → (b : Bool) → str_eq c.id d.id ≡ b
        → is_listed d.id (put c ds) ≡ false
    apart differs false e = let first = is_listed-put d.id c ds in ground arith
    apart differs true e =
        let i : c.id ≡ d.id = str_eq→eq c.id d.id e in
        let twice : str_eq d.id d.id ≡ false = rw i at differs in let once = str_eq_refl d.id in cc

put_all-Unrepeated : (cs ds : List Stale) → Unrepeated ds → Unrepeated (put_all cs ds)
unfolding put_all
put_all-Unrepeated [] ds h = h
put_all-Unrepeated (c ∷ cs) ds h = put_all-Unrepeated cs (put c ds) (put-Unrepeated c ds h)

degraded_stays :
    (cs : List Stale) (e : Engine)
    → is_operational e ≡ false
    → is_operational (remove_all cs e).engine ≡ false
unfolding remove_all is_operational
degraded_stays [] e h = h
degraded_stays (c ∷ cs) e h = elim (Bool-cases c.removes) [
  | inl gone ↦ simp gone (degraded_stays cs e h)
  | inr stuck ↦ simp stuck (degraded_stays cs record e { status = degraded } refl)
]

remove_all-operational :
    (id : String) (cs : List Stale) (e : Engine)
    → is_operational (remove_all cs e).engine ≡ true
    → is_removed id (remove_all cs e).removed ≡ is_listed id cs
unfolding remove_all is_operational is_removed is_listed
remove_all-operational id [] e h = refl
remove_all-operational id (c ∷ cs) e h = elim (Bool-cases c.removes) [
  | inl gone ↦ let rest = remove_all-operational id cs e (simp gone at h) in simp gone rw rest refl
  | inr stuck ↦
      let still = degraded_stays cs record e { status = degraded } refl in
      let k = simp stuck at h in cc
]

remove_all-IsUnrepeated :
    (cs : List Stale) (e : Engine)
    → is_operational (remove_all cs e).engine ≡ true
    → Unrepeated cs
    → IsUnrepeated (remove_all cs e).removed
unfolding remove_all is_operational
remove_all-IsUnrepeated [] e h u = tt
remove_all-IsUnrepeated (c ∷ cs) e h (new, u) = elim (Bool-cases c.removes) [
  | inl gone ↦
      let rest : is_operational (remove_all cs e).engine ≡ true = simp gone at h in
      let same = remove_all-operational c.id cs e rest in
      simp gone (rw same new, remove_all-IsUnrepeated cs e rest u)
  | inr stuck ↦
      let still = degraded_stays cs record e { status = degraded } refl in
      let k = simp stuck at h in cc
]

-- An engine that is in operation after the cleanup has got the lists of both labels, and has removed
-- exactly the containers that are on one of them, each once.
pub cleanup_stale_containers-operational :
    (current legacy : Option (List Stale)) (e : Engine)
    → is_operational (cleanup_stale_containers current legacy e).engine ≡ true
    → (cs ls : List Stale) × (current ≡ some cs)
      × (legacy ≡ some ls)
      × ((id : String)
          → is_removed id (cleanup_stale_containers current legacy e).removed
            ≡ (is_listed id cs || is_listed id ls))
      × IsUnrepeated (cleanup_stale_containers current legacy e).removed
unfolding cleanup_stale_containers remove_listed is_operational stale_containers is_listed
cleanup_stale_containers-operational current legacy e h = elim (Bool-cases (is_operational e)) [
  | inr out ↦ let k = simp out at h in cc
  | inl operational ↦ simp operational (listed current legacy (simp operational at h))
]
  where
    listed :
        (current legacy : Option (List Stale))
        → is_operational (remove_listed (stale_containers current legacy) e).engine ≡ true
        → (cs ls : List Stale) × (current ≡ some cs)
          × (legacy ≡ some ls)
          × ((id : String)
              → is_removed id (remove_listed (stale_containers current legacy) e).removed
                ≡ (is_listed id cs || is_listed id ls))
          × IsUnrepeated (remove_listed (stale_containers current legacy) e).removed
    listed none legacy k = cc
    listed (some cs) none k = cc
    listed (some cs) (some ls) k = (
      cs,
      ls,
      refl,
      refl,
      (λ id.
          let gone = remove_all-operational id (put_all ls (put_all cs [])) e k in
          let both = is_listed-put_all id ls (put_all cs []) in
          let first = is_listed-put_all id cs [] in ground arith),
      remove_all-IsUnrepeated (put_all ls (put_all cs [])) e k
          (put_all-Unrepeated ls (put_all cs []) (put_all-Unrepeated cs [] tt)),
    )
