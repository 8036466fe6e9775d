-- ===== src/Keymap/Parser.antt =====
-- `Parser` of keymap.rs. The parser stands at the bytes that are left from its offset on; a form is
-- read on fuel, and the JSON text of a string is decoded by `serde_json`, a parameter. Slices end at
-- ASCII bytes of a text, so they are UTF-8.
pub mod Ends
pub mod Print
use exokephalos.Prelude.{
  ℕ, zero, suc, ◌+◌, ◌*◌, Bool, true, false, not, ◌&&◌, ◌||◌, Option, none, some, List, [], ◌∷◌,
  ◌++◌, is_empty, length, ◌==◌, if◌then◌else◌,
}
use exokephalos.Prelude.Result.{Result, ok, err}
use exokephalos.Prelude.Text.{Text}
use exokephalos.Prelude.White.{is_ascii_whitespace}

mutual
  pub data Form : Type 0 where
    atom string : Text → Form
    list : Forms → Form

  pub data Forms : Type 0 where
    nil : Forms
    cons : Form → Forms → Forms

pub data ParseError : Type 0 where
  unterminated_list unexpected_close unexpected_end unterminated_string invalid_token : ParseError
  invalid_string : Text → ParseError

-- What was read and what is left.
pub data Parsed (A : Type 0) : Type 0 where
  parsed : A → Text → Parsed A
  failed : ParseError → Parsed A
  out_of_fuel : Parsed A

-- `space`; the flag says that a comment has begun. Its newline goes as white space.
unfoldable pub skip_space : Bool → Text → Text
skip_space comment [] = []
skip_space true (c ∷ s) = skip_space (not (c == 10)) s
skip_space false (c ∷ s) =
    let rest = skip_space (c == b';') s in
    if is_ascii_whitespace c || c == b';' then rest else c ∷ s

unfoldable pub space : Text → Text
unfolding skip_space
space s = skip_space false s

abbrev pub ends_atom : ℕ → Bool
ends_atom c = is_ascii_whitespace c || (c == b'(' || (c == b')' || c == b';'))

unfoldable pub atom_bytes : Text → Text × Text
atom_bytes [] = ([], [])
atom_bytes (c ∷ s) =
    let rest = atom_bytes s in if ends_atom c then ([], c ∷ s) else (c ∷ rest.0, rest.1)

abbrev pub atom_form : Text × Text → Parsed Form
atom_form ([], rest) = failed invalid_token
atom_form (c ∷ a, rest) = parsed (atom (c ∷ a)) rest

-- The bytes up to the closing quote and with it, and what follows.
unfoldable pub string_bytes : Bool → Text → Option (Text × Text)
string_bytes escaped [] = none
string_bytes escaped (c ∷ s) =
    let rest = string_bytes (c == b'\\' && not escaped) s in
    if c == b'"' && not escaped
    then some (c ∷ [], s)
    else elim rest [ none ↦ none | some (raw, after) ↦ some (c ∷ raw, after) ]

module _ (from_str : Text → Result Text Text) where
  abbrev pub decoded_string : Result Text Text → Text → Parsed Form
  decoded_string (ok value) rest = parsed (string value) rest
  decoded_string (err e) rest = failed (invalid_string e)

  abbrev pub string_form : Option (Text × Text) → Parsed Form
  string_form none = failed unterminated_string
  string_form (some (raw, rest)) = decoded_string (from_str (b'"' ∷ raw)) rest

  abbrev pub add_form : Form → Parsed Forms → Parsed Forms
  add_form f (parsed fs rest) = parsed (cons f fs) rest
  add_form f (failed e) = failed e
  add_form f out_of_fuel = out_of_fuel

  abbrev pub and_then : Parsed Form → (Text → Parsed Forms) → Parsed Forms
  and_then (parsed f rest) next = add_form f (next rest)
  and_then (failed e) next = failed e
  and_then out_of_fuel next = out_of_fuel

  abbrev pub list_form : Parsed Forms → Parsed Form
  list_form (parsed fs rest) = parsed (list fs) rest
  list_form (failed e) = failed e
  list_form out_of_fuel = out_of_fuel

  -- Where a form begins, after white space; `values` reads the forms of a list.
  unfoldable pub form_at : (Text → Parsed Forms) → Text → Parsed Form
  form_at values [] = failed unexpected_end
  form_at values (c ∷ s) =
      if c == b'('
      then list_form (values s)
      else if c == b'"'
      then string_form (string_bytes false s)
      else if c == b')'
      then failed unexpected_close
      else atom_form (atom_bytes (c ∷ s))

  -- One round of the loop over the forms of a list.
  unfoldable pub values_at : (Text → Parsed Form) → (Text → Parsed Forms) → Text → Parsed Forms
  values_at form values [] = failed unterminated_list
  values_at form values (c ∷ s) = if c == b')' then parsed nil s else and_then (form (c ∷ s)) values

  unfoldable mutual
    unfolding space form_at values_at

    pub form : ℕ → Text → Parsed Form
    form zero s = out_of_fuel
    form (suc fuel) s = form_at (values fuel) (space s)

    pub values : ℕ → Text → Parsed Forms
    values zero s = out_of_fuel
    values (suc fuel) s = values_at (form fuel) (values fuel) (space s)

  -- The loop of `parse_all`.
  unfoldable pub forms_from : ℕ → Text → Parsed Forms
  unfolding form
  forms_from fuel [] = parsed nil []
  forms_from zero (c ∷ s) = out_of_fuel
  forms_from (suc fuel) (c ∷ s) =
      and_then (form (2 * length (c ∷ s) + 2) (c ∷ s)) (λ rest. forms_from fuel (space rest))

  unfoldable pub parse_all : Text → Parsed Forms
  unfolding forms_from
  parse_all source = forms_from (suc (length source)) (space source)
