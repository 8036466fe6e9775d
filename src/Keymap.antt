-- ===== src/Keymap.antt =====
-- crates/xo/src/keymap.rs: the keys of the terminal program and the actions that they call. Reading
-- and creating the file is not modelled; the terminal's key events are data.
pub mod Parser
pub mod Bindings
pub mod Events
mod Examples
use exokephalos.Prelude.{
  ℕ, zero, suc, ◌+◌, ◌-◌, ◌/◌, ◌%◌, Bool, true, false, not, ◌&&◌, ◌||◌, Option, none, some, List,
  [], ◌∷◌, ◌++◌, is_empty, length, map, keep, ltb, ◌==◌, if◌then◌else◌,
}
use exokephalos.Prelude.Map.{BTreeMap, get, insert}
use exokephalos.Prelude.Order.{same, contains}
use exokephalos.Prelude.Result.{Result, ok, err, ensure, ok_or, ◌>>=◌, ◌>>◌}
use exokephalos.Prelude.Text.{Text, text, text_ord}
use exokephalos.Prelude.White.{trim, split_whitespace}
use exokephalos.Keymap.Parser.{
  Form, atom, string, list, Forms, nil, cons, ParseError, Parsed, parsed, failed, out_of_fuel,
  parse_all,
}

abbrev pub action_names : List Text
action_names =
    text "action_picker"
    ∷ text "create_encrypted_item"
    ∷ text "create_item"
    ∷ text "clear_search"
    ∷ text "cursor_down"
    ∷ text "cursor_up"
    ∷ text "delete_item"
    ∷ text "edit_item"
    ∷ text "edit_workspace_config"
    ∷ text "focus_column_left"
    ∷ text "focus_column_right"
    ∷ text "focus_subview_next"
    ∷ text "focus_subview_previous"
    ∷ text "goto_view"
    ∷ text "open_conflicts"
    ∷ text "open_goto"
    ∷ text "open_item_actions"
    ∷ text "open_peers"
    ∷ text "open_search"
    ∷ text "open_sync_status"
    ∷ text "open_view_picker"
    ∷ text "quit"
    ∷ text "refresh_sync"
    ∷ text "restore_item"
    ∷ text "retry_operation"
    ∷ text "reverse_sort"
    ∷ text "toggle_selection"
    ∷ text "toggle_tag"
    ∷ text "toggle_tags_column"
    ∷ text "unlock_preview"
    ∷ []

abbrev pub action_aliases : List (Text × Text)
action_aliases =
    (text "c", text "create_item")
    ∷ (text "d", text "delete_item")
    ∷ (text "e", text "edit_item")
    ∷ (text "g", text "open_view_picker")
    ∷ (text "h", text "focus_column_left")
    ∷ (text "j", text "cursor_down")
    ∷ (text "k", text "cursor_up")
    ∷ (text "l", text "focus_column_right")
    ∷ (text "p", text "open_peers")
    ∷ (text "q", text "quit")
    ∷ (text "u", text "restore_item")
    ∷ []

pub record ActionCall : Type 0 where
  pub name : Text
  pub arguments : List Text

pub data KeymapError : Type 0 where
  action_required not_one_keys_form not_a_bind_form empty_action bad_argument : KeymapError
  bad_key empty_key view_required : KeymapError
  unknown_action unexpected_arguments duplicate_binding : Text → KeymapError
  source : ParseError → KeymapError
  endless : KeymapError

-- The first alias that fits, or the name itself.
abbrev pub resolve_alias : Text → List (Text × Text) → Text
resolve_alias entered [] = entered
resolve_alias entered ((alias, name) ∷ aliases) =
    let rest = resolve_alias entered aliases in if same alias entered then name else rest

abbrev pub check_call : Text → List Text → Result KeymapError ActionCall
check_call entered arguments = do
  let name : Text = resolve_alias entered action_aliases
  ensure (contains action_names name) (unknown_action entered)
  ensure (not (same name (text "goto_view") && not (length arguments == 1))) view_required
  ensure (not (not (same name (text "goto_view")) && not (is_empty arguments)))
      (unexpected_arguments name)
  ok (record { name = name; arguments = arguments })

abbrev pub call_of_words : List Text → Result KeymapError ActionCall
call_of_words [] = err action_required
call_of_words (entered ∷ arguments) = check_call entered arguments

-- `ActionCall::parse`
unfoldable pub parse_call : Text → Result KeymapError ActionCall
parse_call value = call_of_words (split_whitespace value)

-- `join(" ")`
abbrev pub join_words : List Text → Text
join_words [] = []
join_words (w ∷ []) = w
join_words (w ∷ v ∷ ws) = w ++ 32 ∷ join_words (v ∷ ws)

unfoldable pub display : ActionCall → Text
display call = join_words (call.name ∷ call.arguments)

abbrev pub KeyMap : Type 0
KeyMap = BTreeMap Text ActionCall

abbrev pub scalar : Form → Option Text
scalar (atom value) = some value
scalar (string value) = some value
scalar (list forms) = none

abbrev pub is_atom : Form → Text → Bool
is_atom (atom value) name = same value name
is_atom (string value) name = false
is_atom (list forms) name = false

abbrev pub arguments_of : Forms → Result KeymapError (List Text)
arguments_of nil = ok []
arguments_of (cons f fs) = do
  first ← ok_or bad_argument (scalar f)
  rest ← arguments_of fs
  ok (first ∷ rest)

abbrev pub call_form : Form → Result KeymapError ActionCall
call_form (atom value) = parse_call value
call_form (string value) = parse_call value
call_form (list nil) = err empty_action
call_form (list (cons f fs)) = do
  name ← ok_or empty_action (scalar f)
  arguments ← arguments_of fs
  parse_call (join_words (name ∷ arguments))

-- `action`
unfoldable pub action : Form → Result KeymapError ActionCall
action form = call_form form

unfoldable pub canonical_key_name : Text → Result KeymapError Text
canonical_key_name value =
    let trimmed = trim value in
    if is_empty trimmed
    then err empty_key
    else ok (
        if same trimmed (text " ")
        then text "space"
        else if same trimmed (text "<tab>")
        then text "tab"
        else if same trimmed (text "<backtab>")
        then text "backtab"
        else if same trimmed (text "<enter>")
        then text "enter"
        else trimmed)

abbrev pub binding_values : Forms → Result KeymapError (Text × ActionCall)
binding_values (cons head (cons key (cons call nil))) = do
  ensure (is_atom head (text "bind")) not_a_bind_form
  name ← ok_or bad_key (scalar key)
  called ← action call
  canonical ← canonical_key_name name
  ok (canonical, called)
binding_values nil = err not_a_bind_form
binding_values (cons head nil) = err not_a_bind_form
binding_values (cons head (cons key nil)) = err not_a_bind_form
binding_values (cons head (cons key (cons call (cons more forms)))) = err not_a_bind_form

-- One `(bind key action)`.
unfoldable pub read_binding : Form → Result KeymapError (Text × ActionCall)
read_binding (list forms) = binding_values forms
read_binding (atom value) = err not_a_bind_form
read_binding (string value) = err not_a_bind_form

abbrev pub add_binding : Text × ActionCall → KeyMap → Result KeymapError KeyMap
add_binding (key, call) bindings = elim (get key bindings) [
  | none ↦ ok (insert key call bindings)
  | some old ↦ err (duplicate_binding key)
]

unfoldable pub bind_all : Forms → KeyMap → Result KeymapError KeyMap
bind_all nil bindings = ok bindings
bind_all (cons f fs) bindings = do
  b ← read_binding f
  more ← add_binding b bindings
  bind_all fs more

abbrev pub from_root : Forms → Result KeymapError KeyMap
from_root nil = err not_one_keys_form
from_root (cons head forms) = do
  ensure (is_atom head (text "keys")) not_one_keys_form
  bind_all forms []

abbrev pub from_forms : Parsed Forms → Result KeymapError KeyMap
from_forms (parsed (cons (list root) nil) rest) = from_root root
from_forms (parsed nil rest) = err not_one_keys_form
from_forms (parsed (cons (atom value) fs) rest) = err not_one_keys_form
from_forms (parsed (cons (string value) fs) rest) = err not_one_keys_form
from_forms (parsed (cons (list root) (cons f fs)) rest) = err not_one_keys_form
from_forms (failed e) = err (source e)
from_forms out_of_fuel = err endless

unfoldable pub from_source : (Text → Result Text Text) → Text → Result KeymapError KeyMap
from_source from_str content = from_forms (parse_all from_str content)
