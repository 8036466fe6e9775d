-- ===== src/Markdown/Document.antt =====
-- `parse`, `render` and `required_frontmatter` of markdown.rs.
use exokephalos.Prelude.{
  ◌≡◌, refl, ap, inl, inr, Bool, true, false, Option, none, some, List, [], ◌∷◌, ◌++◌, arith,
  if◌then◌else◌, ◌==◌, Option-cases, Bool-cases, length, length-append, ◌≤◌,
}
use mathlib.Core.List.{append_assoc}
use exokephalos.Prelude.Map.{get, insert, get-insert}
use exokephalos.Prelude.Order.{same, same_iff}
use exokephalos.Prelude.Result.{ok}
use exokephalos.Prelude.Text.{Text, text, text_ord, strip_prefix}
use exokephalos.Domain.{Frontmatter, FrontmatterValue, string, sequence, nil}
use exokephalos.Markdown.{
  YamlValue, Yaml, convert_document, split_once, parse, render, required_frontmatter,
  without_newline, or_default, is_tags, is_string,
}

abbrev pub dashes : Text
dashes = text "---"

-- The first occurrence of the pattern in `s ++ pattern` is the one at the end.
unfoldable pub ends_first : Text → Text → Bool
ends_first pattern [] = true
ends_first pattern (c ∷ s) = elim (strip_prefix pattern (c ∷ s ++ pattern)) [
  | some rest ↦ false
  | none ↦ ends_first pattern s
]

strip_prefix_extend :
    (p u t : Text) → strip_prefix p u ≡ none → length p ≤ length u → strip_prefix p (u ++ t) ≡ none
strip_prefix_extend [] u t h l = cc
strip_prefix_extend (c ∷ p) [] t h l = absurd (omega arith)
strip_prefix_extend (c ∷ p) (d ∷ u) t h l = ground (arith, strip_prefix_extend p u t)

split_once_first :
    (s t : Text) → ends_first dashes s ≡ true → split_once dashes (s ++ dashes ++ t) ≡ some (s, t)
unfolding split_once ends_first
split_once_first [] t h = refl
split_once_first (c ∷ s) t h = elim (Option-cases (strip_prefix dashes (c ∷ s ++ dashes))) [
  | inr (rest, e) ↦ absurd (ground arith)
  | inl e ↦
      let none_here : strip_prefix dashes (c ∷ s ++ dashes ++ t) ≡ none =
        strip_prefix_extend dashes (c ∷ s ++ dashes) t e (omega (arith, length-append s dashes)) in
      rw (none_here, split_once, split_once_first s t (rw (e, ends_first) at h)) refl
]

module _ (yaml : Yaml) where
  -- Parsing gives back what was rendered, the body to the byte, where the decoder reads the text of
  -- the frontmatter as that frontmatter, and no three dashes stand in that text before its end.
  pub parse-render :
      (frontmatter : Frontmatter) (body encoded rendered : Text) (v : YamlValue)
      → yaml.to_string frontmatter ≡ ok encoded
      → yaml.from_str (10 ∷ encoded) ≡ ok v
      → convert_document v ≡ ok frontmatter
      → ends_first dashes encoded ≡ true
      → render yaml frontmatter body ≡ ok rendered
      → parse yaml rendered ≡ ok (record { frontmatter = some frontmatter; body = body })
  unfolding render parse ends_first
  parse-render frontmatter body encoded rendered v write read back clear e =
      let shape : rendered ≡ dashes ++ 10 ∷ encoded ++ dashes ++ 10 ∷ body = ground arith in
      rw (shape, split_once_first (10 ∷ encoded) (10 ∷ body) clear, read, back) refl

  -- A rendered document whose frontmatter text has three dashes in it is cut there: the decoder is
  -- given only what stands before them, and what follows them, with the rest of the frontmatter,
  -- is the body.
  pub dashes_cut_frontmatter :
      (frontmatter parsed : Frontmatter) (body before after rendered : Text) (v : YamlValue)
      → yaml.to_string frontmatter ≡ ok (before ++ dashes ++ after)
      → ends_first dashes before ≡ true
      → yaml.from_str (10 ∷ before) ≡ ok v
      → convert_document v ≡ ok parsed
      → render yaml frontmatter body ≡ ok rendered
      → parse yaml rendered
        ≡ ok (record {
          frontmatter = some parsed;
          body = without_newline (after ++ dashes ++ 10 ∷ body);
        })
  unfolding render parse ends_first
  dashes_cut_frontmatter frontmatter parsed body before after rendered v write clear read back e =
      let shape : rendered ≡ dashes ++ 10 ∷ (before ++ dashes ++ (after ++ dashes ++ 10 ∷ body)) =
        ground (
          arith,
          append_assoc (before ++ dashes) after dashes,
          append_assoc (before ++ dashes) (after ++ dashes) (10 ∷ body),
        ) in
      rw (shape, split_once_first (10 ∷ before) (after ++ dashes ++ 10 ∷ body) clear, read, back)
        refl

get-or_default :
    (test : Option FrontmatterValue → Bool) (key j : Text) (v : FrontmatterValue) (f : Frontmatter)
    → get j (or_default test key v f)
      ≡ (if same key j then (if test (get key f) then get j f else some v) else get j f)
get-or_default test key j v f = elim (Bool-cases (test (get key f))) [
  | inl e ↦ rw e (ground arith)
  | inr e ↦ rw e (ground (arith, get-insert key j v f))
]

abbrev kept_or :
    (Option FrontmatterValue → Bool)
    → FrontmatterValue
    → Option FrontmatterValue
    → Option FrontmatterValue
kept_or test v old = if test old then old else some v

-- The frontmatter of a note has its identifier and its creation time whatever stood there; its
-- tags are kept if they are a sequence or a text and are empty else; its title and its type are kept
-- if they are texts, and are `Untitled` and `note` else; every other field is as it was.
pub required_frontmatter_fields :
    (f : Frontmatter) (id created key : Text)
    → get key (required_frontmatter f id created) ≡ (
        if same (text "id") key
        then some (string id)
        else if same (text "created") key
        then some (string created)
        else if same (text "tags") key
        then kept_or is_tags (sequence nil) (get (text "tags") f)
        else if same (text "title") key
        then kept_or is_string (string (text "Untitled")) (get (text "title") f)
        else if same (text "type") key
        then kept_or is_string (string (text "note")) (get (text "type") f)
        else get key f)
unfolding required_frontmatter exokephalos.Prelude.Order.compare_lists
required_frontmatter_fields f id created key =
    let a = insert (text "id") (string id) f in
    let b = insert (text "created") (string created) a in
    let c = or_default is_tags (text "tags") (sequence nil) b in
    let d = or_default is_string (text "title") (string (text "Untitled")) c in
    let untitled : FrontmatterValue = string (text "Untitled") in
    let at_type = text "type" in
    let at_title = text "title" in
    let at_tags = text "tags" in
    rw
      (
        get-or_default is_string at_type key (string (text "note")) d,
        get-or_default is_string at_title key untitled c,
        get-or_default is_string at_title at_type untitled c,
        get-or_default is_tags at_tags key (sequence nil) b,
        get-or_default is_tags at_tags at_type (sequence nil) b,
        get-or_default is_tags at_tags at_title (sequence nil) b,
        get-insert (text "created") key (string created) a,
        get-insert (text "created") at_type (string created) a,
        get-insert (text "created") at_title (string created) a,
        get-insert (text "created") at_tags (string created) a,
        get-insert (text "id") key (string id) f,
        get-insert (text "id") at_type (string id) f,
        get-insert (text "id") at_title (string id) f,
        get-insert (text "id") at_tags (string id) f,
      )
      (ground (
        arith,
        same_iff (text "id") key,
        same_iff (text "created") key,
        same_iff at_tags key,
        same_iff at_title key,
        same_iff at_type key,
      ))
