-- ===== src/Bridge/Accepted.antt =====
-- What an action of the model is once it is accepted.
use yantra_os.Prelude.{
  not-false, ℕ, ◌≤◌, ◌<◌, ◌≡◌, refl, subst, String, Bool, true, false, ◌&&◌, ◌||◌, not, Option,
  none, some, leb, ◌==◌, ltb→lt, leb→le,
}
use yantra_os.Prelude.Result.{ok, raise_if-eq-ok, ok_injective, >>=-eq-ok, if_err-eq-ok}
use yantra_os.Json.{Json, int, str, obj, Fields, get}
use yantra_os.Bridge.Action.{
  Texts, Schema, schema_of, wrong_fields, not_integers, no_dimensions, outside, bad_button,
  bad_wait, number_of, is_integer, is_below, button_of, is_button, check_click, check_wait,
  check_fields, fields_match, check_named, validate_fields, validate_model_action, max_wait_seconds,
}

-- a click within the screenshot, with one of the two buttons
abbrev pub IsInside : Fields → ℕ → ℕ → Type 0
IsInside fs w h =
    (x : ℕ) × (y : ℕ) × (get "x" fs ≡ some (int x))
    × (get "y" fs ≡ some (int y))
    × (x < w)
    × (y < h)
    × (is_button (button_of (get "button" fs)) ≡ true)

-- a pause of one to ten seconds
abbrev pub IsShort : Fields → Type 0
IsShort fs = (n : ℕ) × (get "seconds" fs ≡ some (int n)) × (1 ≤ n) × (n ≤ max_wait_seconds)

below_number :
    (v : Option Json) (limit : ℕ)
    → is_below (number_of v) limit ≡ true
    → (x : ℕ) × (v ≡ some (int x)) × (x < limit)
below_number (some (int x)) limit h = (x, refl, ltb→lt x limit h)
below_number none limit h = cc
below_number (some _) limit h = cc

both : (a b : Bool) → not (a && b) ≡ false → (a ≡ true) × (b ≡ true)
both true true h = (refl, refl)
both true false h = cc
both false b h = cc

check_click-IsInside : (fs : Fields) (w h : ℕ) → check_click fs w h ≡ ok tt → IsInside fs w h
unfolding check_click
check_click-IsInside fs w h e =
    let (a, e₁) =
      raise_if-eq-ok (not (is_integer (get "x" fs)) || not (is_integer (get "y" fs))) not_integers _
        e in
    let (b, e₂) = raise_if-eq-ok (w == 0 || h == 0) no_dimensions _ e₁ in
    let (c, e₃) =
      raise_if-eq-ok
        (not (is_below (number_of (get "x" fs)) w && is_below (number_of (get "y" fs)) h)) outside _
        e₂ in
    let (d, e₄) = raise_if-eq-ok (not (is_button (button_of (get "button" fs)))) bad_button _ e₃ in
    let (left, right) = both _ _ c in
    let (x, gx, lx) = below_number (get "x" fs) w left in
    let (y, gy, ly) = below_number (get "y" fs) h right in
    (x, y, gx, gy, lx, ly, not-false (is_button (button_of (get "button" fs))) d)

check_wait-IsShort :
    (fs : Fields) (v : Option Json) → get "seconds" fs ≡ v → check_wait v ≡ ok tt → IsShort fs
unfolding check_wait
check_wait-IsShort fs (some (int n)) g e =
    let (a, e₁) = if_err-eq-ok (not (leb 1 n && leb n max_wait_seconds)) bad_wait _ e in
    let (low, high) = both (leb 1 n) (leb n max_wait_seconds) a in
    (n, g, leb→le 1 n low, leb→le n max_wait_seconds high)
check_wait-IsShort fs none g e = cc
check_wait-IsShort fs (some _) g e = cc

-- the part of a named action's checks that reads its fields
check_named-fields :
    (t : Texts) (w h : ℕ) (action : String) (fs : Fields) (s : Option Schema) {out : Fields}
    → check_named t w h action fs s ≡ ok out
    → (check_fields t w h action fs ≡ ok tt) × (fs ≡ out)
unfolding check_named
check_named-fields t w h action fs none e = cc
check_named-fields t w h action fs (some s) e =
    let (a, e₁) = raise_if-eq-ok (not (fields_match s fs)) wrong_fields _ e in
    let (u, checked, e₂) = >>=-eq-ok (check_fields t w h action fs) _ e₁ in
    (checked, ok_injective e₂)

-- An accepted action is the object that is given; a click is within the screenshot and has one of the
-- two buttons, and a pause is from one to ten seconds.
pub validate_model_action-IsBounded :
    (t : Texts) (w h : ℕ) (fs out : Fields)
    → validate_model_action t w h (obj fs) ≡ ok out
    → (fs ≡ out)
      × (get "action" fs ≡ some (str "click") → IsInside fs w h)
      × (get "action" fs ≡ some (str "double_click") → IsInside fs w h)
      × (get "action" fs ≡ some (str "wait") → IsShort fs)
unfolding validate_model_action validate_fields check_fields schema_of
validate_model_action-IsBounded t w h fs out e = (
  given (get "action" fs) e,
  λ g.
      check_click-IsInside fs w h
        (check_named-fields t w h "click" fs (schema_of "click") (named "click" g)).0,
  λ g.
      check_click-IsInside fs w h
        (check_named-fields t w h "double_click" fs (schema_of "double_click")
          (named "double_click" g)).0,
  λ g.
      check_wait-IsShort fs (get "seconds" fs) refl
        (check_named-fields t w h "wait" fs (schema_of "wait") (named "wait" g)).0,
)
  where
    named :
        (action : String)
        → get "action" fs ≡ some (str action)
        → check_named t w h action fs (schema_of action) ≡ ok out
    named action g = subst (λ v. validate_fields t w h v fs ≡ ok out) g e

    given : (v : Option Json) → validate_fields t w h v fs ≡ ok out → fs ≡ out
    given (some (str action)) k = (check_named-fields t w h action fs (schema_of action) k).1
    given none k = cc
    given (some _) k = cc
