-- ===== src/Behavior/Notes.antt =====
-- What behavior.rs reads from a note and writes into it: fields, tags, predicates and effects.
use exokephalos.Prelude.{
  ℕ, Bool, true, false, not, ◌&&◌, ◌||◌, Option, none, some, List, [], ◌∷◌, ◌++◌, map, is_empty,
  keep, if◌then◌else◌,
}
use exokephalos.Prelude.Int.{ℤ}
use exokephalos.Prelude.Map.{get, insert}
use exokephalos.Prelude.Order.{same, contains, nat_ord}
use exokephalos.Prelude.Paths.{split_at}
use exokephalos.Prelude.Set
use exokephalos.Prelude.Set.{BTreeSet, collect}
use exokephalos.Prelude.Text.{Text, text, text_ord}
use exokephalos.Behavior.Types.{
  capability_ord, Predicate, always, field_equals, has_tag, negation, all_of, any_of, Predicates,
  nothing, also, ActionEffect, add_tag, remove_tag, set_field, set_field_now, append_body,
}
use exokephalos.Domain.{
  FrontmatterValue, null, bool, integer, float, string, sequence, mapping, Values, nil, cons, Note,
}

pub record Rendering : Type 0 where
  pub to_lowercase : Text → Text
  pub trim : Text → Text
  pub integer_to_string : ℤ → Text
  pub float_to_string : ℕ → Text
  pub to_json : FrontmatterValue → Text

abbrev pub bool_to_string : Bool → Text
bool_to_string true = text "true"
bool_to_string false = text "false"

abbrev pub is_index : Option FrontmatterValue → Bool
is_index (some (bool b)) = b
is_index value = false

unfoldable pub index_item : Note → Bool
index_item note = is_index (get (text "index") note.frontmatter)

abbrev pub strings : Values → List Text
strings nil = []
strings (cons (string s) vs) = s ∷ strings vs
strings (cons v vs) = strings vs

abbrev pub string_values : List Text → Values
string_values [] = nil
string_values (s ∷ rest) = cons (string s) (string_values rest)

module _ (r : Rendering) where
  unfoldable mutual
    pub display_value : FrontmatterValue → Text
    display_value null = []
    display_value (bool b) = bool_to_string b
    display_value (integer n) = r.integer_to_string n
    display_value (float bits) = r.float_to_string bits
    display_value (string s) = s
    display_value (sequence vs) = display_values vs
    display_value (mapping fs) = r.to_json (mapping fs)

    -- The displayed values, joined with ", ".
    pub display_values : Values → Text
    display_values nil = []
    display_values (cons v vs) = display_value v ++ display_more vs

    pub display_more : Values → Text
    display_more nil = []
    display_more (cons v vs) = text ", " ++ display_value v ++ display_more vs

  abbrev pub display_or_empty : Option FrontmatterValue → Text
  display_or_empty none = []
  display_or_empty (some v) = display_value v

  unfoldable pub field : Note → Text → Text
  field note name =
      if same name (text "id")
      then note.id
      else if same name (text "path")
      then note.path
      else display_or_empty (get name note.frontmatter)

  abbrev pub tags_of : Option FrontmatterValue → BTreeSet Text
  tags_of (some (sequence vs)) = collect (strings vs)
  tags_of (some (string s)) = collect (keep (λ t. not (is_empty t)) (map r.trim (split_at b',' s)))
  tags_of value = []

  unfoldable pub tags : Note → BTreeSet Text
  tags note = tags_of (get (text "tags") note.frontmatter)

  unfoldable pub set_tags : Note → BTreeSet Text → Note
  set_tags note values = record note {
    frontmatter = insert (text "tags") (sequence (string_values values)) note.frontmatter;
  }

  unfoldable mutual
    pub matches : Predicate → Note → Bool
    matches always note = true
    matches (field_equals name value) note = same (field note name) value
    matches (has_tag tag) note = contains (tags note) tag
    matches (negation p) note = not (matches p note)
    matches (all_of ps) note = all_match ps note
    matches (any_of ps) note = any_match ps note

    pub all_match : Predicates → Note → Bool
    all_match nothing note = true
    all_match (also p ps) note = matches p note && all_match ps note

    pub any_match : Predicates → Note → Bool
    any_match nothing note = false
    any_match (also p ps) note = matches p note || any_match ps note

  -- `ActionEffect::apply`
  unfoldable pub apply : ActionEffect → Text → Note → Note
  apply (add_tag tag) now note = set_tags note (Set.insert tag (tags note))
  apply (remove_tag tag) now note = set_tags note (Set.remove tag (tags note))
  apply (set_field name value) now note = record note {
    frontmatter = insert name value note.frontmatter;
  }
  apply (set_field_now name) now note = record note {
    frontmatter = insert name (string now) note.frontmatter;
  }
  apply (append_body more) now note = record note { body = note.body ++ more }

  unfoldable pub apply_all : List ActionEffect → Text → Note → Note
  apply_all [] now note = note
  apply_all (effect ∷ effects) now note = apply_all effects now (apply effect now note)
