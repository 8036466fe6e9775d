-- ===== src/Server/Segments.antt =====
-- How `apply_item_patch` of server.rs puts the segments of a patched body together.
use exokephalos.Prelude.{ℕ, ◌≡◌, refl, not, some, List, [], ◌∷◌, ◌++◌, append_nil, is_empty, keep}
use exokephalos.Prelude.Result.{ok}
use exokephalos.Prelude.Text.{Text, text, text_ord}
use exokephalos.Domain.{Frontmatter}
use exokephalos.Server.Patch.{
  JsonValue, JsonValues, end_of_array, element, json_string, get_field, array, JsonPatch,
  join_segments, apply_item_patch, read_document, document_of,
}
use mathlib.Core.List.{append_assoc}

abbrev pub values_of : List Text → JsonValues
values_of [] = end_of_array
values_of (s ∷ ss) = element (json_string s) (values_of ss)

-- `join("\n")`
abbrev pub lines_from : List Text → Text
lines_from [] = []
lines_from (s ∷ ss) = 10 ∷ (s ++ lines_from ss)

abbrev pub join_lines : List Text → Text
join_lines [] = []
join_lines (s ∷ ss) = s ++ lines_from ss

abbrev pub dark : List Text → List Text
dark ss = keep (λ s. not (is_empty s)) ss

join_from :
    (c : ℕ) (body : Text) (ss : List Text)
    → join_segments (c ∷ body) (values_of ss) ≡ ok ((c ∷ body) ++ lines_from (dark ss))
unfolding join_segments
join_from c body [] = rw (append_nil body) refl
join_from c body ([] ∷ ss) = rw (append_nil body) (join_from c body ss)
join_from c body ((d ∷ s) ∷ ss) =
    rw (join_from c (body ++ 10 ∷ d ∷ s) ss, append_assoc body (10 ∷ d ∷ s) (lines_from (dark ss)))
      refl

pub join_segments_lem :
    (ss : List Text) → join_segments [] (values_of ss) ≡ ok (join_lines (dark ss))
unfolding join_segments
join_segments_lem [] = refl
join_segments_lem ([] ∷ ss) = join_segments_lem ss
join_segments_lem ((d ∷ s) ∷ ss) = join_from d s ss

module _ {Patch : Type 0} (json : JsonPatch Patch) where
  -- A patch that applies and leaves a frontmatter that can be read and an array of strings as the
  -- body sets both: the new body is the strings of the array that are not empty, with a newline
  -- between each two; an empty string, as of a blank line, leaves no trace.
  pub apply_item_patch_lem :
      (frontmatter : Frontmatter) (body : Text) (p : Patch) (document v : JsonValue)
      (new_frontmatter : Frontmatter) (segments : List Text)
      → json.patch (document_of (json.to_value frontmatter) body) p ≡ ok document
      → get_field (text "frontmatter") document ≡ some v
      → json.from_value v ≡ ok new_frontmatter
      → get_field (text "body") document ≡ some (array (values_of segments))
      → apply_item_patch json frontmatter body p
        ≡ ok (some new_frontmatter, some (join_lines (dark segments)))
  unfolding apply_item_patch read_document
  apply_item_patch_lem frontmatter body p document v new_frontmatter segments a f r b =
      rw (a, f, r, b, join_segments_lem segments) refl
