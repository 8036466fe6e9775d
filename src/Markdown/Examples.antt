-- ===== src/Markdown/Examples.antt =====
-- Tests of markdown.rs and instances of what is proved of it.
use exokephalos.Prelude.{
  ℕ, ◌+◌, ◌≡◌, refl, ◌&&◌, ◌||◌, Bool, false, some, [], ◌∷◌, ◌++◌, arith, ==_iff, map, leb,
  if◌then◌else◌,
}
use exokephalos.Prelude.Order.{compare_lists}
use exokephalos.Prelude.Paths.{components, first_is}
use exokephalos.Prelude.Result.{ok}
use exokephalos.Prelude.Text.{Text, text, text_ord}
use exokephalos.Domain.{Frontmatter, string, validate_relative_path}
use exokephalos.Id
use exokephalos.Markdown.{
  Unicode, Yaml, slugify, canonical_note_path, parse, render, trim_end, slug_loop, yaml_mapping,
  entry, no_entries, yaml_string, convert_mapping, insert_field,
}
use exokephalos.Markdown.Document.{parse-render, dashes_cut_frontmatter, ends_first, dashes}
use exokephalos.Markdown.Path.{IsUtf8, canonical_note_path-IsAccepted}

abbrev is_between : ℕ → ℕ → ℕ → Bool
is_between lo hi c = leb lo c && leb c hi

abbrev lower : ℕ → ℕ
lower c = if is_between b'A' b'Z' c then c + 32 else c

-- The tables of Unicode for ASCII.
abbrev pub ascii : Unicode
ascii = record {
  lowercase = λ s. map lower s;
  is_alphanumeric =
      λ c. is_between b'a' b'z' c || (is_between b'A' b'Z' c || is_between b'0' b'9' c);
  utf8 = λ c. c ∷ [];
}

pub ascii-IsUtf8 : IsUtf8 ascii
ascii-IsUtf8 c h = ground (arith, ==_iff c b'/')

slugify_test : slugify ascii (text "  Hello, World! ") ≡ text "hello-world"
unfolding slugify slug_loop trim_end
slugify_test = refl

abbrev titled : Frontmatter
titled = (text "title", string (text "../A b")) ∷ []

canonical_note_path-IsAccepted_example :
    (validate_relative_path (canonical_note_path ascii (text "abcdefg") titled) ≡ ok tt)
    × (first_is (text "assets") (components (canonical_note_path ascii (text "abcdefg") titled))
        ≡ false)
unfolding Id.is_valid compare_lists
canonical_note_path-IsAccepted_example =
    canonical_note_path-IsAccepted ascii (text "abcdefg") titled ascii-IsUtf8 refl refl

-- A decoder that reads one text.
abbrev yaml : Text → Yaml
yaml written = record {
  from_str = λ s.
      ok (
        yaml_mapping (entry (yaml_string (text "title")) (yaml_string (text "../A b")) no_entries));
  to_string = λ f. ok written;
}

abbrev titled_yaml : Text
titled_yaml = text "title: ../A b" ++ 10 ∷ []

parse-render_example :
    parse (yaml titled_yaml) (text "---" ++ 10 ∷ titled_yaml ++ text "---" ++ 10 ∷ text "x---y")
    ≡ ok (record { frontmatter = some titled; body = text "x---y" })
unfolding ends_first convert_mapping insert_field render
parse-render_example =
    parse-render (yaml titled_yaml) titled (text "x---y") titled_yaml
      (text "---" ++ 10 ∷ titled_yaml ++ text "---" ++ 10 ∷ text "x---y")
      (yaml_mapping (entry (yaml_string (text "title")) (yaml_string (text "../A b")) no_entries))
      refl refl refl refl refl

abbrev cut_yaml : Text
cut_yaml = text "title: a" ++ dashes ++ text "b"

dashes_cut_frontmatter_example :
    parse (yaml cut_yaml) (text "---" ++ 10 ∷ cut_yaml ++ text "---" ++ 10 ∷ text "x")
    ≡ ok (record { frontmatter = some titled; body = text "b---" ++ 10 ∷ text "x" })
unfolding ends_first convert_mapping insert_field render
dashes_cut_frontmatter_example =
    dashes_cut_frontmatter (yaml cut_yaml) titled titled (text "x") (text "title: a") (text "b")
      (text "---" ++ 10 ∷ cut_yaml ++ text "---" ++ 10 ∷ text "x")
      (yaml_mapping (entry (yaml_string (text "title")) (yaml_string (text "../A b")) no_entries))
      refl refl refl refl refl
