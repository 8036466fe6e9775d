-- ===== src/Markdown.antt =====
-- crates/xo-core/src/markdown.rs: Markdown documents with frontmatter, the slug of a title and the
-- path of a note. The package `serde_yaml` and the character tables of Unicode are parameters.
pub mod Slug
pub mod Path
pub mod Document
pub mod Examples
use Prim.Native.Nat.Ordering.{lt, eq, gt}
use exokephalos.Prelude.{
  ℕ, zero, suc, ◌-◌, ◌^◌, Bool, true, false, not, ◌&&◌, Option, none, some, List, [], ◌∷◌, ◌++◌,
  leb, ltb, ◌==◌, if◌then◌else◌, is_empty,
}
use exokephalos.Prelude.Int.{ℤ, pos}
use exokephalos.Prelude.Map.{BTreeMap, get, insert}
use exokephalos.Prelude.Result.{Result, ok, err, ◌>>=◌, map_err}
use exokephalos.Prelude.Text.{Text, text, text_ord, strip_prefix}
use exokephalos.Domain.{
  NoteId, Frontmatter, FrontmatterValue, null, bool, integer, float, string, sequence, mapping,
  Values, nil, cons, Fields, end, field,
}

pub record MarkdownDocument : Type 0 where
  pub frontmatter : Option Frontmatter
  pub body : Text

pub data MarkdownError : Type 0 where
  invalid_yaml : Text → MarkdownError
  non_string_key unsupported_value : MarkdownError

-- `serde_yaml::Value`: a number is an `i64`, a `u64` above those, or the bits of an `f64`.
mutual
  pub data YamlValue : Type 0 where
    yaml_null : YamlValue
    yaml_bool : Bool → YamlValue
    yaml_i64 : ℤ → YamlValue
    yaml_u64 yaml_f64 : ℕ → YamlValue
    yaml_string : Text → YamlValue
    yaml_sequence : YamlValues → YamlValue
    yaml_mapping : YamlMapping → YamlValue
    tagged : Text → YamlValue → YamlValue

  pub data YamlValues : Type 0 where
    no_values : YamlValues
    and_value : YamlValue → YamlValues → YamlValues

  pub data YamlMapping : Type 0 where
    no_entries : YamlMapping
    entry : YamlValue → YamlValue → YamlMapping → YamlMapping

-- `serde_yaml::from_str` and `serde_yaml::to_string` at a frontmatter.
pub record Yaml : Type 0 where
  pub from_str : Text → Result Text YamlValue
  pub to_string : Frontmatter → Result Text Text

-- `str::to_lowercase` followed by `chars`, `char::is_alphanumeric`, and the bytes of a `char`.
pub record Unicode : Type 0 where
  pub lowercase : Text → List ℕ
  pub is_alphanumeric : ℕ → Bool
  pub utf8 : ℕ → Text

abbrev pub i64_max : ℕ
i64_max = 2 ^ 63 - 1

-- `collect` into the fields of a nested mapping.
unfoldable pub insert_field : Text → FrontmatterValue → Fields → Fields
insert_field k v end = field k v end
insert_field k v (field j w fs) = elim (text_ord.order k j) [
  | lt ↦ field k v (field j w fs)
  | eq ↦ field k v fs
  | gt ↦ field j w (insert_field k v fs)
]

unfoldable mutual
  unfolding insert_field

  pub convert_value : YamlValue → Result MarkdownError FrontmatterValue
  convert_value yaml_null = ok null
  convert_value (yaml_bool b) = ok (bool b)
  convert_value (yaml_i64 n) = ok (integer n)
  convert_value (yaml_u64 n) = if leb n i64_max then ok (integer (pos n)) else err unsupported_value
  convert_value (yaml_f64 bits) = ok (float bits)
  convert_value (yaml_string s) = ok (string s)
  convert_value (yaml_sequence vs) = do values ← convert_values vs; ok (sequence values)
  convert_value (yaml_mapping m) = do fields ← convert_mapping m end; ok (mapping fields)
  convert_value (tagged tag v) = convert_value v

  pub convert_values : YamlValues → Result MarkdownError Values
  convert_values no_values = ok nil
  convert_values (and_value v vs) = do
    first ← convert_value v
    rest ← convert_values vs
    ok (cons first rest)

  -- The entries go one after the other into the fields that are collected.
  pub convert_mapping : YamlMapping → Fields → Result MarkdownError Fields
  convert_mapping no_entries fields = ok fields
  convert_mapping (entry (yaml_string key) v rest) fields = do
    converted ← convert_value v
    convert_mapping rest (insert_field key converted fields)
  convert_mapping (entry other v rest) fields = err non_string_key

abbrev pub entries_of : Fields → Frontmatter
entries_of end = []
entries_of (field k v fs) = (k, v) ∷ entries_of fs

-- `str::find` of a pattern: what stands before its first occurrence, and after it.
unfoldable pub split_once : Text → Text → Option (Text × Text)
split_once pattern [] = elim (strip_prefix pattern []) [ some rest ↦ some ([], rest) | none ↦ none ]
split_once pattern (c ∷ s) = elim (strip_prefix pattern (c ∷ s)) [
  | some rest ↦ some ([], rest)
  | none ↦ elim (split_once pattern s) [
    | some (before, rest) ↦ some (c ∷ before, rest)
    | none ↦ none
  ]
]

abbrev pub without_newline : Text → Text
without_newline [] = []
without_newline (c ∷ s) = if c == 10 then s else c ∷ s

abbrev pub convert_document : YamlValue → Result MarkdownError Frontmatter
convert_document yaml_null = ok []
convert_document (yaml_mapping m) = do fields ← convert_mapping m end; ok (entries_of fields)
convert_document other = err unsupported_value

abbrev pub plain : Text → Result MarkdownError MarkdownDocument
plain content = ok (record { frontmatter = none; body = content })

module _ (yaml : Yaml) where
  unfoldable pub parse : Text → Result MarkdownError MarkdownDocument
  parse content = elim (strip_prefix (text "---") content) [
    | none ↦ plain content
    | some rest ↦ elim (split_once (text "---") rest) [
      | none ↦ plain content
      | some (raw, after) ↦ do
        document ← map_err invalid_yaml (yaml.from_str raw)
        frontmatter ← convert_document document
        ok (record { frontmatter = some frontmatter; body = without_newline after })
    ]
  ]

  unfoldable pub render : Frontmatter → Text → Result MarkdownError Text
  render frontmatter body = do
    encoded ← map_err invalid_yaml (yaml.to_string frontmatter)
    ok (text "---" ++ 10 ∷ encoded ++ text "---" ++ 10 ∷ body)

abbrev pub string_tags : Values → List Text
string_tags nil = []
string_tags (cons (string tag) vs) = tag ∷ string_tags vs
string_tags (cons other vs) = string_tags vs

abbrev pub sequence_tags : Option FrontmatterValue → List Text
sequence_tags (some (sequence vs)) = string_tags vs
sequence_tags other = []

unfoldable pub tags : Frontmatter → List Text
tags frontmatter = sequence_tags (get (text "tags") frontmatter)

abbrev pub is_tags : Option FrontmatterValue → Bool
is_tags (some (sequence vs)) = true
is_tags (some (string s)) = true
is_tags other = false

abbrev pub is_string : Option FrontmatterValue → Bool
is_string (some (string s)) = true
is_string other = false

-- A field that does not pass its test gets a default.
abbrev pub or_default :
    (Option FrontmatterValue → Bool) → Text → FrontmatterValue → Frontmatter → Frontmatter
or_default test key v frontmatter =
    if test (get key frontmatter) then frontmatter else insert key v frontmatter

unfoldable pub required_frontmatter : Frontmatter → Text → Text → Frontmatter
required_frontmatter frontmatter id created =
    or_default is_string (text "type") (string (text "note")) (
      or_default is_string (text "title") (string (text "Untitled")) (
        or_default is_tags (text "tags") (sequence nil)
          (insert (text "created") (string created) (insert (text "id") (string id) frontmatter))))

-- A byte that does not begin a character.
abbrev pub is_continuation : ℕ → Bool
is_continuation byte = leb 128 byte && ltb byte 192

-- `chars().take(n)` on the bytes of a text.
unfoldable pub take_chars : ℕ → Text → Text
take_chars n [] = []
take_chars zero (c ∷ s) = let rest = take_chars zero s in if is_continuation c then c ∷ rest else []
take_chars (suc n) (c ∷ s) = c ∷ take_chars (if is_continuation c then suc n else n) s

-- `str::trim_end_matches` with one character.
unfoldable pub trim_end : ℕ → List ℕ → List ℕ
trim_end c [] = []
trim_end c (x ∷ xs) = let rest = trim_end c xs in if is_empty rest && x == c then [] else x ∷ rest

abbrev pub title_of : Option FrontmatterValue → Text
title_of (some (string title)) = title
title_of other = text "untitled"

module _ (unicode : Unicode) where
  -- What the loop pushes from here on, where `count` characters have been pushed.
  unfoldable pub slug_loop : List ℕ → ℕ → Bool → List ℕ
  slug_loop [] count previous_dash = []
  slug_loop (character ∷ rest) count previous_dash = elim (unicode.is_alphanumeric character) [
    | true ↦
        character
        ∷ elim (leb 50 (suc count)) [ true ↦ [] | false ↦ slug_loop rest (suc count) false ]
    | false ↦ elim (not previous_dash && not (count == 0)) [
      | true ↦
          b'-' ∷ elim (leb 50 (suc count)) [ true ↦ [] | false ↦ slug_loop rest (suc count) true ]
      | false ↦ elim (leb 50 count) [ true ↦ [] | false ↦ slug_loop rest count previous_dash ]
    ]
  ]

  unfoldable pub slugify : Text → List ℕ
  slugify value = trim_end b'-' (slug_loop (unicode.lowercase value) 0 false)

  abbrev pub encode_chars : List ℕ → Text
  encode_chars [] = []
  encode_chars (c ∷ cs) = unicode.utf8 c ++ encode_chars cs

  abbrev pub slug_text : List ℕ → Text
  slug_text slug = if is_empty slug then text "untitled" else encode_chars slug

  unfoldable pub canonical_note_path : NoteId → Frontmatter → Text
  canonical_note_path id frontmatter =
      take_chars 3 id
      ++ text "/"
      ++ id
      ++ text "-"
      ++ slug_text (slugify (title_of (get (text "title") frontmatter)))
      ++ text ".md"
