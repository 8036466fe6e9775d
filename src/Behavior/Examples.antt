-- ===== src/Behavior/Examples.antt =====
-- A small workspace behaviour, and the theorems on queries and actions at it.
use exokephalos.Prelude.{ℕ, ◌≤◌, ◌≡◌, refl, ◌⊎◌, List, true, none, some, [], ◌∷◌, arith, length, In}
use exokephalos.Prelude.Map.{get, insert}
use exokephalos.Prelude.Order.{compare_lists}
use exokephalos.Prelude.Paths.{split_at}
use exokephalos.Prelude.Result.{ok}
use exokephalos.Prelude.Set
use exokephalos.Prelude.Sort.{sort_by}
use exokephalos.Prelude.Text.{Text, text, text_ord}
use exokephalos.Behavior.Grants.{apply_action-is_granted}
use exokephalos.Behavior.Matching.{IsSelected}
use exokephalos.Behavior.Selection.{query_lem, SortKey, InSequence}
use exokephalos.Workspace.{contains_text}
use exokephalos.Behavior.Types.{
  has_tag, remove_tag, mutate_note, capability_ord, ViewDescriptor, ActionDescriptor,
  WorkspaceBehavior, Query,
}
use exokephalos.Behavior.{
  Rendering, query, validate, unique_from, matches, tags, set_tags, field, apply, apply_all, action,
  apply_action, is_selected, is_granted, compare_notes, index_item, display_value,
}
use exokephalos.Domain.{Note, string, cons, nil, sequence}

abbrev plain : Rendering
plain = record {
  to_lowercase = λ s. s;
  trim = λ s. s;
  integer_to_string = λ n. [];
  float_to_string = λ bits. [];
  to_json = λ v. [];
}

abbrev todo : Note
todo = record {
  id = text "note002";
  frontmatter =
      (text "tags", string (text "todo,home")) ∷ (text "title", string (text "Roof")) ∷ [];
  body = text "Tiles.";
  path = text "roof.md";
}

abbrev other : Note
other = record todo { id = text "note003"; frontmatter = [] }

abbrev todos : ViewDescriptor
todos = record {
  id = text "todos";
  name = text "To do";
  key = none;
  show_tags = true;
  title_field = text "title";
  subtitle_field = none;
  sort_field = some (text "title");
  descending = true;
  preview = none;
  predicate = has_tag (text "todo");
  subviews = [];
}

abbrev finish : ActionDescriptor
finish = record {
  id = text "finish";
  description = [];
  predicate = has_tag (text "todo");
  effects = remove_tag (text "todo") ∷ [];
  plugin = none;
}

abbrev behavior : WorkspaceBehavior
behavior = record {
  schema = 1;
  default_view = text "todos";
  views = todos ∷ [];
  actions = finish ∷ [];
  templates = [];
  capability_grants = (text "finish", mutate_note ∷ []) ∷ [];
  query_limit = 500;
}

abbrev all_todos : Query
all_todos = record { view = text "todos"; subview = none; title = none; tags = []; limit = none }

valid : validate plain behavior ≡ ok tt
unfolding validate unique_from compare_lists Set.insert
valid = refl

query_runs : query plain behavior (other ∷ todo ∷ []) all_todos ≡ ok (todo ∷ [])
unfolding query validate unique_from compare_lists Set.insert Set.extend matches tags get sort_by
    compare_notes index_item field display_value split_at
query_runs = refl

abbrev roofs : Query
roofs = record all_todos { title = some (text "oo"); tags = text "home" ∷ [] }

-- The same tags under another title, and the title without the tag.
abbrev shed : Note
shed = record todo {
  id = text "note004";
  frontmatter =
      (text "tags", string (text "todo,home")) ∷ (text "title", string (text "Shed")) ∷ [];
}

abbrev office : Note
office = record todo {
  id = text "note005";
  frontmatter = (text "tags", string (text "todo")) ∷ (text "title", string (text "Roof")) ∷ [];
}

abbrev given : List Note
given = shed ∷ todo ∷ office ∷ other ∷ []

roofs_run : query plain behavior given roofs ≡ ok (todo ∷ [])
unfolding query validate unique_from compare_lists Set.insert Set.extend matches tags get sort_by
    compare_notes index_item field display_value split_at contains_text
roofs_run = refl

query_lem_example :
    ((note : Note)
      → In note (todo ∷ [])
      → In note given × IsSelected plain (some todos) none roofs note)
    × ((note : Note)
        → In note given
        → IsSelected plain (some todos) none roofs note
        → In note (todo ∷ [])
          ⊎ ((length (todo ∷ []) ≡ behavior.query_limit)
              ⊎ (roofs.limit ≡ some (length (todo ∷ [])))))
    × ((name : Text) × SortKey plain (some todos) none name
        × InSequence plain (some todos) name (todo ∷ []))
    × (length (todo ∷ []) ≤ 500)
    × (length (todo ∷ []) ≤ behavior.query_limit)
    × ((n : ℕ) → roofs.limit ≡ some n → length (todo ∷ []) ≤ n)
unfolding compare_lists
query_lem_example =
    query_lem plain behavior given (todo ∷ []) roofs (some todos) none refl refl roofs_run

selected : is_selected plain (some todos) none all_todos todo ≡ true
unfolding matches tags get compare_lists Set.insert Set.extend split_at
selected = refl

abbrev finished : Note
finished = record todo {
  frontmatter =
      (text "tags", sequence (cons (string (text "home")) nil))
      ∷ (text "title", string (text "Roof"))
      ∷ [];
}

finish_runs : apply_action plain behavior todo (text "finish") (text "now") ≡ ok finished
unfolding apply_action action apply_all apply set_tags matches tags get insert compare_lists
    Set.insert Set.extend Set.remove split_at
finish_runs = refl

apply_action-is_granted_example :
    is_granted plain (get (text "finish") behavior.capability_grants) mutate_note ≡ true
apply_action-is_granted_example =
    apply_action-is_granted plain behavior todo finished (text "finish") (text "now") finish_runs
      (λ e. ground (arith, e))
