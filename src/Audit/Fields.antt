-- ===== src/Audit/Fields.antt =====
-- The entries of a dict as the audit log changes them: `d[key] = value`, `del d[key]`.
use yantra_os.Prelude.{
  ◌≡◌, refl, false, inl, inr, Bool-cases, some, String, str_eq, str_eq_refl, if◌then◌else◌, eq_iff,
  arith,
}
use yantra_os.Json.{Json, Fields, end, field, get}

-- A key that is there keeps its place.
unfoldable pub put : String → Json → Fields → Fields
put k v end = field k v end
put k v (field j w fs) =
    let rest = put k v fs in if str_eq j k then field j v fs else field j w rest

-- A dict has a key once, so no later one is left.
unfoldable pub del : String → Fields → Fields
del k end = end
del k (field j w fs) = let rest = del k fs in if str_eq j k then rest else field j w rest

pub get-put_self : (k : String) (v : Json) (fs : Fields) → get k (put k v fs) ≡ some v
unfolding put get
get-put_self k v end = rw (str_eq_refl k) refl
get-put_self k v (field j w fs) = elim (Bool-cases (str_eq j k)) [
  | inl here ↦ ground arith
  | inr other ↦ ground (arith, get-put_self k v fs)
]

pub get-put_other :
    (k l : String) (v : Json) (fs : Fields) → str_eq k l ≡ false → get l (put k v fs) ≡ get l fs
unfolding put get
get-put_other k l v end h = rw h refl
get-put_other k l v (field j w fs) h = elim (Bool-cases (str_eq j k)) [
  | inl here ↦ ground (arith, eq_iff j k, eq_iff k l, eq_iff j l)
  | inr other ↦ ground (arith, get-put_other k l v fs h)
]

pub del-put : (k : String) (v : Json) (fs : Fields) → del k (put k v fs) ≡ del k fs
unfolding put del
del-put k v end = rw (str_eq_refl k) refl
del-put k v (field j w fs) = elim (Bool-cases (str_eq j k)) [
  | inl here ↦ ground (arith)
  | inr other ↦ ground (arith, del-put k v fs)
]

-- To write what is there changes nothing.
pub put-get : (k : String) (v : Json) (fs : Fields) → get k fs ≡ some v → put k v fs ≡ fs
unfolding put get
put-get k v end h = cc
put-get k v (field j w fs) h = elim (Bool-cases (str_eq j k)) [
  | inl here ↦ ground (arith, eq_iff j k)
  | inr other ↦ ground (arith, put-get k v fs)
]
