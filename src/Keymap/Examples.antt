-- ===== src/Keymap/Examples.antt =====
-- Tests of keymap.rs and instances of what is proved of it.
use exokephalos.Prelude.{
  ℕ, Bool, not, ◌&&◌, ◌||◌, ◌≡◌, ◌↔◌, ◌⊎◌, refl, true, false, some, [], ◌∷◌, arith, ◌==◌,
  if◌then◌else◌,
}
use exokephalos.Prelude.Map.{get, insert, IsAscending}
use exokephalos.Prelude.Order.{compare_lists}
use exokephalos.Prelude.Result.{Result, ok, err}
use exokephalos.Prelude.Text.{Text, text, text_ord}
use exokephalos.Prelude.White.{trim, split_whitespace}
use exokephalos.Keymap.Bindings.{Bound, from_source_exact}
use exokephalos.Keymap.Events.{event_key_name, tab}
use exokephalos.Keymap.Parser.Ends.{parse_all_ends}
use exokephalos.Keymap.Parser.Print.{
  end, plain, pair, print_forms, CanPrintAll, parse_all-print_forms,
}
use exokephalos.Keymap.Parser.{
  Form, atom, string, list, Forms, nil, cons, ParseError, parsed, failed, unterminated_list,
  parse_all, form, values, atom_bytes, string_bytes, skip_space,
}
use exokephalos.Keymap.{
  ActionCall, KeyMap, from_source, bind_all, read_binding, action, parse_call, canonical_key_name,
  empty_key,
}

-- A decoder of strings without escapes: it drops the quotes.
abbrev inner : Text → Text
inner [] = []
inner (c ∷ s) = let rest = inner s in if c == b'"' then rest else c ∷ rest

abbrev unquote : Text → Result Text Text
unquote raw = ok (inner raw)

abbrev two_bindings : Text
two_bindings = text "(keys ; two\n (bind \"j\" cursor_down)\n (bind q q))"

abbrev word : Text → Form
word a = atom a

abbrev binding : Form → Text → Form
binding key name = list (cons (word (text "bind")) (cons key (cons (word name) nil)))

abbrev root : Forms
root = cons (word (text "keys")) (
    cons (binding (string (text "j")) (text "cursor_down"))
      (cons (binding (word (text "q")) (text "q")) nil))

parses : parse_all unquote two_bindings ≡ parsed (cons (list root) nil) []
unfolding parse_all form values atom_bytes string_bytes skip_space
parses = refl

unterminated : parse_all unquote (text "(keys") ≡ failed unterminated_list
unfolding parse_all form values atom_bytes skip_space
unterminated = refl

abbrev two_keys : KeyMap
two_keys =
    (text "j", record { name = text "cursor_down"; arguments = [] })
    ∷ (text "q", record { name = text "quit"; arguments = [] })
    ∷ []

loads : from_source unquote two_bindings ≡ ok two_keys
unfolding from_source parse_all form values atom_bytes string_bytes skip_space bind_all read_binding
    action parse_call split_whitespace canonical_key_name trim get insert compare_lists
loads = refl

space_is_refused : canonical_key_name (text " ") ≡ err empty_key
unfolding canonical_key_name trim
space_is_refused = refl

shift_tab :
    event_key_name (record { code = tab; control = true; alt = false; shift = true })
    ≡ some (text "ctrl+backtab")
unfolding event_key_name
shift_tab = refl

parse_all_ends_example :
    ((forms : Forms) × (parse_all unquote two_bindings ≡ parsed forms []))
    ⊎ ((e : ParseError) × (parse_all unquote two_bindings ≡ failed e))
parse_all_ends_example = parse_all_ends unquote two_bindings

abbrev is_special : ℕ → Bool
is_special c = c == b'"' || c == b'\\'

abbrev escape : Text → Text
escape [] = []
escape (c ∷ s) = let rest = escape s in if is_special c then b'\\' ∷ c ∷ rest else c ∷ rest

-- Drops the quotes around, and each backslash that takes a byte along.
abbrev unescape : Bool → Text → Text
unescape escaped [] = []
unescape escaped (c ∷ s) =
    let rest = unescape (c == b'\\' && not escaped) s in
    if not escaped && is_special c then rest else c ∷ rest

abbrev decode : Text → Result Text Text
decode raw = ok (unescape false raw)

-- A letter, a quote and a backslash.
abbrev quoted : Text
quoted = b'a' ∷ b'"' ∷ b'\\' ∷ []

abbrev nested : Forms
nested = cons (list (cons (word (text "a")) (cons (string quoted) (cons (list nil) nil)))) nil

can_print : CanPrintAll decode escape nested
can_print = (
  (
    record { full = refl; bare = refl; unquoted = λ h r e. ground (arith, e) },
    (record { escaped = plain refl refl (pair refl (pair refl end)); reads = refl }, (tt, tt)),
  ),
  tt,
)

parse_all-print_forms_example :
    parse_all decode (print_forms decode escape nested) ≡ parsed nested []
parse_all-print_forms_example = parse_all-print_forms decode escape nested can_print

from_source_exact_example :
    IsAscending two_keys
    × ((head : Form) × (forms : Forms) × (root ≡ cons head forms)
        × ((key : Text) (call : ActionCall)
            → (get key two_keys ≡ some call) ↔ Bound forms key call))
from_source_exact_example = from_source_exact unquote two_bindings [] root two_keys parses loads
