-- ===== src/Keymap/Events.antt =====
-- The names of key events in crates/xo/src/keymap.rs and the lookups in a key map.
use exokephalos.Prelude.{
  ℕ, ◌+◌, ◌/◌, ◌%◌, Bool, true, false, not, ◌&&◌, Option, none, some, List, [], ◌∷◌, ◌++◌, ltb,
  if◌then◌else◌,
}
use exokephalos.Prelude.Map.{get}
use exokephalos.Prelude.Order.{same}
use exokephalos.Prelude.Text.{Text, text, text_ord}
use exokephalos.Keymap.{KeyMap, ActionCall}

-- `KeyCode` and `KeyModifiers` of the terminal; a character is its UTF-8 text.
pub data KeyCode : Type 0 where
  char : Text → KeyCode
  enter tab back_tab left right up down esc backspace delete other_key : KeyCode
  function_key : ℕ → KeyCode

pub record KeyEvent : Type 0 where
  pub code : KeyCode
  pub control : Bool
  pub alt : Bool
  pub shift : Bool

abbrev pub implicit_backtab : KeyCode → Bool → Bool
implicit_backtab back_tab shift = true
implicit_backtab tab shift = shift
implicit_backtab code shift = false

abbrev pub is_char : KeyCode → Bool
is_char (char value) = true
is_char code = false

-- A `u8` in decimal.
abbrev pub decimal : ℕ → Text
decimal n =
    if ltb n 10
    then (b'0' + n) ∷ []
    else if ltb n 100
    then (b'0' + n / 10) ∷ (b'0' + n % 10) ∷ []
    else (b'0' + n / 100) ∷ (b'0' + n / 10 % 10) ∷ (b'0' + n % 10) ∷ []

abbrev pub base_name : KeyCode → Bool → Option Text
base_name (char value) shift = some (if same value (text " ") then text "space" else value)
base_name enter shift = some (text "enter")
base_name tab shift = some (if shift then text "backtab" else text "tab")
base_name back_tab shift = some (text "backtab")
base_name left shift = some (text "left")
base_name right shift = some (text "right")
base_name up shift = some (text "up")
base_name down shift = some (text "down")
base_name esc shift = some (text "esc")
base_name backspace shift = some (text "backspace")
base_name delete shift = some (text "delete")
base_name (function_key n) shift = some (b'f' ∷ decimal n)
base_name other_key shift = none

abbrev pub prefix_if : Bool → Text → Text → Text
prefix_if b prefix name = if b then prefix ++ name else name

unfoldable pub event_key_name : KeyEvent → Option Text
event_key_name event = elim (base_name event.code event.shift) [
  | none ↦ none
  | some base ↦ some (
      prefix_if event.control (text "ctrl+") (
        prefix_if event.alt (text "alt+") (
          prefix_if
            (event.shift
              && (not (is_char event.code) && not (implicit_backtab event.code event.shift)))
            (text "shift+") base)))
]

abbrev pub lookup : Option Text → KeyMap → Option ActionCall
lookup none bindings = none
lookup (some name) bindings = get name bindings

unfoldable pub action_for : KeyMap → KeyEvent → Option ActionCall
action_for bindings event = lookup (event_key_name event) bindings

unfoldable pub keys_for : KeyMap → Text → List Text
keys_for [] name = []
keys_for ((key, call) ∷ bindings) name =
    let rest = keys_for bindings name in if same call.name name then key ∷ rest else rest

abbrev pub first_or_dash : List Text → Text
first_or_dash [] = 226 ∷ 128 ∷ 148 ∷ []
first_or_dash (key ∷ keys) = key

unfoldable pub footer_key : KeyMap → Text → Text
unfolding keys_for
footer_key bindings name = first_or_dash (keys_for bindings name)
