-- ===== src/Markdown/Path.antt =====
-- `canonical_note_path` of markdown.rs and the rules for paths of domain.rs.
use exokephalos.Prelude.{
  ℕ, suc, ◌≡◌, ◌≢◌, ◌≤◌, ◌<◌, refl, ap, inl, inr, Bool, true, false, not, ◌&&◌, List, [], ◌∷◌, ◌++◌,
  arith, ◌==◌, ==_iff, length, length-append, all, all-In, all-append, is_empty, Bool-cases,
}
use mathlib.Core.List.{append_assoc}
use exokephalos.Prelude.Order.{same, same_iff, nat_ord}
use exokephalos.Prelude.Paths.{normal, components, split_at, first_is}
use exokephalos.Prelude.Map.{get}
use exokephalos.Prelude.Result.{ok}
use exokephalos.Prelude.Text.{Text, text, text_ord}
use exokephalos.Domain.{Frontmatter, NoteId, is_invalid_path, validate_relative_path}
use exokephalos.Id.{is_id_byte}
use exokephalos.Id
use exokephalos.Markdown.{
  Unicode, take_chars, is_continuation, slugify, slug_loop, trim_end, slug_text, encode_chars,
  title_of, canonical_note_path,
}

abbrev is_plain : ℕ → Bool
is_plain c = not (c == b'/')

-- The bytes of a character other than `/` have no `/` in them.
abbrev pub IsUtf8 : Unicode → Type 0
IsUtf8 unicode = (c : ℕ) → c ≢ b'/' → all (λ b. not (b == b'/')) (unicode.utf8 c) ≡ true

split_plain : (s : Text) → all is_plain s ≡ true → split_at b'/' s ≡ s ∷ []
unfolding split_at
split_plain [] h = refl
split_plain (c ∷ s) h = ground (arith, split_plain s)

split_two :
    (s t : Text)
    → all is_plain s ≡ true
    → all is_plain t ≡ true
    → split_at b'/' (s ++ b'/' ∷ t) ≡ s ∷ t ∷ []
unfolding split_at
split_two [] t h k = ground (arith, split_plain t)
split_two (c ∷ s) t h k = ground (arith, split_two s t)

length_differs : (u v : Text) → length u ≢ length v → same u v ≡ false
length_differs u v h = elim (Bool-cases (same u v)) [
  | inr e ↦ e
  | inl e ↦ absurd (h (ap (length {A = ℕ}) ((same_iff u v).0 e)))
]

components_two :
    (c : ℕ) (s t : Text)
    → all is_plain (c ∷ s) ≡ true
    → all is_plain t ≡ true
    → 2 ≤ length s
    → 3 ≤ length t
    → components (c ∷ s ++ b'/' ∷ t) ≡ normal (c ∷ s) ∷ normal t ∷ []
unfolding components
components_two c s t h k l m =
    let parts = split_two (c ∷ s) t h k in
    let not_dot : same (c ∷ s) (text ".") ≡ false =
      length_differs (c ∷ s) (text ".") (omega arith) in
    let not_up : same (c ∷ s) (text "..") ≡ false =
      length_differs (c ∷ s) (text "..") (omega arith) in
    let rest_not_dot : same t (text ".") ≡ false = length_differs t (text ".") (omega arith) in
    let rest_not_up : same t (text "..") ≡ false = length_differs t (text "..") (omega arith) in
    let rest_full : is_empty t ≡ false = full t (omega arith) in ground (arith, parts)
  where
    full : (u : Text) → 0 < length u → is_empty u ≡ false
    full [] h = absurd (omega arith)
    full (c ∷ u) h = refl

id_byte_plain :
    (c : ℕ)
    → is_id_byte c ≡ true
    → (is_plain c && not (is_continuation c) && not (c == b'.')) ≡ true
id_byte_plain c h = ground (arith)

plain_encoded :
    (unicode : Unicode) (cs : List ℕ)
    → IsUtf8 unicode
    → all (λ c. not (c == b'/')) cs ≡ true
    → all is_plain (encode_chars unicode cs) ≡ true
plain_encoded unicode [] u h = refl
plain_encoded unicode (c ∷ cs) u h = ground (
  arith,
  all-append is_plain (unicode.utf8 c) (encode_chars unicode cs),
  u c,
  plain_encoded unicode cs u,
  ==_iff c b'/',
)

-- The loop pushes letters, digits and dashes only.
plain_slug_loop :
    (unicode : Unicode) (cs : List ℕ) (n : ℕ) (previous : Bool)
    → unicode.is_alphanumeric b'/' ≡ false
    → all is_plain (slug_loop unicode cs n previous) ≡ true
unfolding slug_loop
plain_slug_loop unicode [] n previous h = refl
plain_slug_loop unicode (c ∷ cs) n previous h = ground (
  arith,
  ==_iff c b'/',
  plain_slug_loop unicode cs (suc n) false h,
  plain_slug_loop unicode cs (suc n) true h,
  plain_slug_loop unicode cs n previous h,
)

plain_trim_end : (c : ℕ) (s : Text) → all is_plain s ≡ true → all is_plain (trim_end c s) ≡ true
unfolding trim_end
plain_trim_end c [] h = refl
plain_trim_end c (x ∷ s) h = ground (arith, plain_trim_end c s)

plain_slug :
    (unicode : Unicode) (title : Text)
    → IsUtf8 unicode
    → unicode.is_alphanumeric b'/' ≡ false
    → all is_plain (slug_text unicode (slugify unicode title)) ≡ true
unfolding slugify
plain_slug unicode title u h = elim (Bool-cases (is_empty (slugify unicode title))) [
  | inl e ↦ rw e refl
  | inr e ↦
      let pushed = plain_slug_loop unicode (unicode.lowercase title) 0 false h in
      rw e (
        plain_encoded unicode (slugify unicode title) u
          (plain_trim_end b'-' (slug_loop unicode (unicode.lowercase title) 0 false) pushed))
]

valid_two :
    (c : ℕ) (s t : Text)
    → is_id_byte c ≡ true
    → all is_plain (c ∷ s) ≡ true
    → all is_plain t ≡ true
    → length s ≡ 2
    → 3 ≤ length t
    → (validate_relative_path (c ∷ s ++ b'/' ∷ t) ≡ ok tt)
      × (first_is (text "assets") (components (c ∷ s ++ b'/' ∷ t)) ≡ false)
unfolding validate_relative_path is_invalid_path
valid_two c s t i h k l m =
    let shape = components_two c s t h k (omega arith) m in
    let not_state : same (c ∷ s) (text ".xo") ≡ false = first_differs in
    let not_assets : same (c ∷ s) (text "assets") ≡ false =
      length_differs (c ∷ s) (text "assets") (omega arith) in
    ground (arith, shape, id_byte_plain c i)
  where
    first_differs : same (c ∷ s) (text ".xo") ≡ false
    first_differs = elim (Bool-cases (same (c ∷ s) (text ".xo"))) [
      | inr e ↦ e
      | inl e ↦ let q = (same_iff (c ∷ s) (text ".xo")).0 e in ground (arith, id_byte_plain c i)
    ]

-- The first three bytes of a valid identifier are its first three characters.
prefix_lem :
    (id : Text)
    → Id.is_valid id ≡ true
    → (c : ℕ) × (s : Text) × (take_chars 3 id ≡ c ∷ s)
      × (is_id_byte c ≡ true)
      × (all is_plain (c ∷ s) ≡ true)
      × (length s ≡ 2)
unfolding Id.is_valid take_chars
prefix_lem [] h = absurd (cc)
prefix_lem (a ∷ []) h = absurd (ground arith)
prefix_lem (a ∷ b ∷ []) h = absurd (ground arith)
prefix_lem (a ∷ b ∷ c ∷ []) h = absurd (ground arith)
prefix_lem (a ∷ b ∷ c ∷ d ∷ s) h =
    let bytes : all is_id_byte (a ∷ b ∷ c ∷ d ∷ s) ≡ true = ground arith in
    let ha : is_id_byte a ≡ true = all-In is_id_byte a (a ∷ b ∷ c ∷ d ∷ s) bytes (inl refl) in
    let hb : is_id_byte b ≡ true = all-In is_id_byte b (a ∷ b ∷ c ∷ d ∷ s) bytes (inr (inl refl)) in
    let hc : is_id_byte c ≡ true =
      all-In is_id_byte c (a ∷ b ∷ c ∷ d ∷ s) bytes (inr (inr (inl refl))) in
    let hd : is_id_byte d ≡ true =
      all-In is_id_byte d (a ∷ b ∷ c ∷ d ∷ s) bytes (inr (inr (inr (inl refl)))) in
    (
      a,
      b ∷ c ∷ [],
      ground
          (arith, id_byte_plain a ha, id_byte_plain b hb, id_byte_plain c hc, id_byte_plain d hd),
      ha,
      ground (arith, id_byte_plain a ha, id_byte_plain b hb, id_byte_plain c hc),
      refl,
    )

all_implies :
    (p q : ℕ → Bool) (s : Text)
    → ((c : ℕ) → p c ≡ true → q c ≡ true)
    → all p s ≡ true
    → all q s ≡ true
all_implies p q [] f h = refl
all_implies p q (c ∷ s) f h = ground (arith, all_implies p q s f, f c)

id_plain : (s : Text) → all is_id_byte s ≡ true → all is_plain s ≡ true
id_plain s h = all_implies is_id_byte is_plain s (λ c i. ground (arith, id_byte_plain c i)) h

-- The path that is made for a note with a valid identifier is always accepted, and is not below
-- `assets`, whatever its title holds; no character but `/` itself is taken to be spelled with `/`.
pub canonical_note_path-IsAccepted :
    (unicode : Unicode) (id : NoteId) (frontmatter : Frontmatter)
    → IsUtf8 unicode
    → unicode.is_alphanumeric b'/' ≡ false
    → Id.is_valid id ≡ true
    → (validate_relative_path (canonical_note_path unicode id frontmatter) ≡ ok tt)
      × (first_is (text "assets") (components (canonical_note_path unicode id frontmatter)) ≡ false)
unfolding canonical_note_path Id.is_valid
canonical_note_path-IsAccepted unicode id frontmatter u h valid =
    let (c, s, prefix, byte, plain, two) = prefix_lem id valid in
    let slug = slug_text unicode (slugify unicode (title_of (get (text "title") frontmatter))) in
    let name = id ++ text "-" ++ slug ++ text ".md" in
    let shape : canonical_note_path unicode id frontmatter ≡ c ∷ s ++ b'/' ∷ name =
      rw prefix (simp append_assoc) in
    let named : all is_plain name ≡ true = ground (
      arith,
      all-append is_plain id (text "-"),
      all-append is_plain (id ++ text "-") slug,
      all-append is_plain (id ++ text "-" ++ slug) (text ".md"),
      id_plain id,
      plain_slug unicode (title_of (get (text "title") frontmatter)) u h,
    ) in
    let long : 3 ≤ length name = omega (
      arith,
      length-append id (text "-"),
      length-append (id ++ text "-") slug,
      length-append (id ++ text "-" ++ slug) (text ".md"),
    ) in
    rw shape (valid_two c s name byte plain named two long)
