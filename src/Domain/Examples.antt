-- ===== src/Domain/Examples.antt =====
-- A note, its deletion and its restoration; paths; the theorems at these inputs.
use exokephalos.Prelude.{◌≡◌, refl, true, false, [], ◌∷◌, ◌++◌, ℕ}
use exokephalos.Prelude.Order.{compare_lists}
use exokephalos.Prelude.Paths.{components, follow, names_onto, inner_components, split_at}
use exokephalos.Prelude.Result.{ok, err}
use exokephalos.Prelude.Set.{insert, extend}
use exokephalos.Prelude.Text.{text}
use exokephalos.Hlc.{Hlc}
use exokephalos.Id
use exokephalos.Domain.{
  NoteRevision, Encoding, string, float, invalid_path, non_finite_number, validate_value,
  validate_schema, validate_relative_path, is_invalid_path, validate_revision, canonical_bytes,
  revision_id, revise, delete, restore,
}
use exokephalos.Domain.Chain.{Follows, revise_lem}
use exokephalos.Domain.Relative.{accepted_path_stays_below, dotted_path_reaches_state}

-- An encoder and a hash that keep the author's counter and the body apart from others'.
abbrev pub sample_encoding : Encoding
sample_encoding = record {
  revision_bytes = λ r. ok (r.hlc.logical ∷ r.body);
  config_bytes = λ r. ok r.path;
  hash = λ bytes. b'h' ∷ bytes;
}

abbrev pub at_time : ℕ → Hlc
at_time logical = record { physical_ms = 100; logical = logical; actor_id = text "device-a" }

abbrev pub base : NoteRevision
base = record {
  schema = 1;
  note_id = text "note002";
  frontmatter = (text "title", string (text "A note")) ∷ [];
  body = text "body";
  materialized_path = text "notes/a-note.md";
  hlc = at_time 0;
  author_id = text "device-a";
  predecessors = [];
  deleted = false;
}

abbrev pub deletion : NoteRevision
deletion = record base {
  hlc = at_time 1;
  predecessors = (b'h' ∷ 0 ∷ text "body") ∷ [];
  deleted = true;
}

abbrev pub restored : NoteRevision
restored = record base {
  hlc = at_time 2;
  predecessors = (b'h' ∷ 1 ∷ text "body") ∷ [];
  deleted = false;
}

base_valid : validate_revision base ≡ ok tt
unfolding validate_revision validate_schema validate_relative_path is_invalid_path components
    validate_value Id.is_valid compare_lists
base_valid = refl

delete_runs : delete sample_encoding base (at_time 1) (text "device-a") ≡ ok deletion
unfolding delete revise revision_id canonical_bytes insert extend validate_revision validate_schema
    validate_relative_path is_invalid_path components validate_value Id.is_valid compare_lists
delete_runs = refl

restore_runs : restore sample_encoding deletion (at_time 2) (text "device-a") ≡ ok restored
unfolding restore revise revision_id canonical_bytes insert extend validate_revision validate_schema
    validate_relative_path is_invalid_path components validate_value Id.is_valid compare_lists
restore_runs = refl

escape_refused :
    validate_relative_path (text "notes/../../x.md") ≡ err (invalid_path (text "notes/../../x.md"))
unfolding validate_relative_path is_invalid_path components compare_lists
escape_refused = refl

-- The bit pattern of positive infinity.
infinity_refused : validate_value (float 0x7ff0000000000000) ≡ err non_finite_number
unfolding validate_value
infinity_refused = refl

accepted_path_stays_below_example :
    follow (text "root" ∷ []) (components (text "notes/./a.md"))
    ≡ names_onto (text "root" ∷ []) (components (text "notes/./a.md"))
unfolding validate_relative_path is_invalid_path components compare_lists
accepted_path_stays_below_example =
    accepted_path_stays_below (text "root" ∷ []) (text "notes/./a.md") refl

dotted_path_reaches_state_example :
    (validate_relative_path (text "./.xo/" ++ text "assets.json") ≡ ok tt)
    × (follow [] (components (text "./.xo/" ++ text "assets.json"))
        ≡ follow (text ".xo" ∷ []) (inner_components (split_at b'/' (text "assets.json"))))
unfolding split_at compare_lists
dotted_path_reaches_state_example = dotted_path_reaches_state [] (text "assets.json") refl

-- The deletion follows the original.
pub deletion-Follows : Follows sample_encoding base deletion
unfolding delete
deletion-Follows =
    (revise_lem sample_encoding base deletion base.frontmatter base.body base.materialized_path
      (at_time 1) (text "device-a") true delete_runs).0
