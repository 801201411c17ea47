-- ===== src/Bridge/Confinement.antt =====
-- Where a managed path leads.
use yantra_os.Prelude.{
  ℕ, ◌≡◌, refl, sym, ap, subst, ◌∙◌, Bool, true, false, ◌&&◌, ◌||◌, Option, none, some, List, [],
  ◌∷◌, ◌++◌, ◌==◌, if◌then◌else◌,
}
use yantra_os.Prelude.Lists.{any}
use yantra_os.Json.{Json, str}
use yantra_os.Bridge.Action.{Paths, managed_parts, is_hidden}
use mathlib.Core.List.{append_assoc, append-nil}

abbrev is_dot : List ℕ → Bool
is_dot (c ∷ []) = c == b'.'
is_dot _ = false

abbrev is_dots : List ℕ → Bool
is_dots (c ∷ d ∷ []) = c == b'.' && d == b'.'
is_dots _ = false

abbrev is_empty : List ℕ → Bool
is_empty [] = true
is_empty _ = false

-- a path without its last part
unfoldable parent : List (List ℕ) → List (List ℕ)
parent [] = []
parent (p ∷ []) = []
parent (p ∷ q ∷ ps) = p ∷ parent (q ∷ ps)

-- The directory that a path leads to from another: an empty part and `.` stay, `..` goes up.
unfoldable pub resolve : List (List ℕ) → List (List ℕ) → List (List ℕ)
unfolding parent
resolve root [] = root
resolve root (p ∷ ps) =
    resolve
      (if is_empty p || is_dot p then root else if is_dots p then parent root else root ++ p ∷ [])
      ps

-- a part that is not hidden goes one directory down
visible :
    (root : List (List ℕ)) (p : List ℕ)
    → is_hidden p ≡ false
    → (if is_empty p || is_dot p then root else if is_dots p then parent root else root ++ p ∷ [])
      ≡ root ++ p ∷ []
visible root [] h = cc
visible root (c ∷ []) h = simp h
visible root (c ∷ d ∷ []) h = simp h
visible root (c ∷ d ∷ e ∷ r) h = refl

or_false : (a b : Bool) → a || b ≡ false → (a ≡ false) × (b ≡ false)
or_false true b h = cc
or_false false b h = (refl, h)

resolve-append : (root ps : List (List ℕ)) → any is_hidden ps ≡ false → resolve root ps ≡ root ++ ps
unfolding resolve any
resolve-append root [] h = sym (append-nil root)
resolve-append root (p ∷ ps) h =
    let (seen, rest) = or_false (is_hidden p) (any is_hidden ps) h in
    ap (λ r. resolve r ps) (visible root p seen)
    ∙ resolve-append (root ++ p ∷ []) ps rest
    ∙ append_assoc root (p ∷ []) ps

none_or_some :
    {A : Type 0} (b : Bool) (x y : A)
    → ◌≡◌ {A = Option A} (if b then none else some x) (some y)
    → (b ≡ false) × (x ≡ y)
none_or_some true x y h = cc
none_or_some false x y h = (refl, cc)

-- An accepted path leads from every directory into that directory: to the very parts that it names.
pub managed_parts-IsConfined :
    (t : Paths) (value : Json) (parts root : List (List ℕ))
    → managed_parts t value ≡ some parts
    → resolve root parts ≡ root ++ parts
unfolding managed_parts
managed_parts-IsConfined t (str s) parts root h =
    let (open_path, same) = none_or_some _ (t.split s) parts h in
    let (a, visible_parts) = or_false _ (any is_hidden (t.split s)) open_path in
    subst (λ ps. resolve root ps ≡ root ++ ps) same (resolve-append root (t.split s) visible_parts)
managed_parts-IsConfined t _ parts root h = cc
