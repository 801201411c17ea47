-- ===== src/Bridge/Progress.antt =====
-- `_click_identity` and `update_ineffective_state`: how the loop notices that its actions do nothing.
use yantra_os.Prelude.{
  ℕ, ◌+◌, String, Bool, true, false, ◌&&◌, Option, none, some, str_eq, ◌==◌, if◌then◌else◌,
}

-- The actions of the model that the loop tells apart: a click with its kind, its point and its button;
-- what else changes the screen; and the rest.
pub data Action : Type 0 where
  click : String → ℕ → ℕ → String → Action
  typing pressing : String → Action
  pasting : Action
  waiting : ℕ → Action
  copying : Option String → Action

abbrev pub max_ineffective_actions : ℕ
max_ineffective_actions = 2

pub record Click : Type 0 where
  pub kind : String
  pub x : ℕ
  pub y : ℕ
  pub button : String

unfoldable pub click_identity : Action → Option Click
click_identity (click kind x y button) =
    some (record { kind = kind; x = x; y = y; button = button })
click_identity _ = none

abbrev pub is_screen_changing : Action → Bool
is_screen_changing (click kind x y button) = true
is_screen_changing (typing s) = true
is_screen_changing (pressing s) = true
is_screen_changing pasting = true
is_screen_changing _ = false

unfoldable pub same_click : Click → Click → Bool
same_click a b = str_eq a.kind b.kind && a.x == b.x && a.y == b.y && str_eq a.button b.button

abbrev pub is_repeat : Click → Option Click → Bool
is_repeat c none = false
is_repeat c (some d) = same_click c d

-- the count of actions without effect, and the click that had none
pub record Progress : Type 0 where
  pub count : ℕ
  pub noop_click : Option Click

abbrev pub noop : Action → Progress → Option Click → Progress
noop a p (some c) = record {
  count = if is_repeat c p.noop_click then p.count + 1 else 1;
  noop_click = some c;
}
noop a p none = record {
  count = if is_screen_changing a then p.count + 1 else p.count;
  noop_click = none;
}

-- `changed` is `difference >= SCREEN_CHANGE_THRESHOLD`
unfoldable pub update_ineffective_state : Action → Bool → Progress → Progress
unfolding click_identity same_click
update_ineffective_state a true p = record { count = 0; noop_click = none }
update_ineffective_state a false p = noop a p (click_identity a)
