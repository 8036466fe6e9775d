-- ===== src/Markdown/Slug.antt =====
-- The slugs of markdown.rs.
use exokephalos.Prelude.{
  ℕ, suc, ◌+◌, ◌≤◌, ◌<◌, ◌≡◌, refl, inl, inr, Bool, true, false, not, ◌&&◌, ◌||◌, List, [], ◌∷◌,
  arith, ◌==◌, ==_iff, if◌then◌else◌, is_empty, length, Bool-cases, List-cases,
}
use exokephalos.Prelude.Text.{Text}
use exokephalos.Markdown.{Unicode, trim_end, slug_loop, slugify}

module _ (unicode : Unicode) where
  -- Letters, digits and single dashes; `dash` says that a dash stands in front.
  unfoldable is_open_slug : Bool → List ℕ → Bool
  is_open_slug dash [] = true
  is_open_slug dash (c ∷ s) =
      let rest = is_open_slug (c == b'-') s in
      if c == b'-' then not dash && rest else unicode.is_alphanumeric c && rest

  -- The same, with no dash at the end.
  unfoldable pub is_slug_after : Bool → List ℕ → Bool
  is_slug_after dash [] = not dash
  is_slug_after dash (c ∷ s) =
      let rest = is_slug_after (c == b'-') s in
      if c == b'-' then not dash && rest else unicode.is_alphanumeric c && rest

  -- Letters and digits with single dashes between them, or nothing.
  abbrev pub is_slug : List ℕ → Bool
  is_slug s = is_empty s || is_slug_after true s

  slug_loop_open :
      (cs : List ℕ) (n : ℕ) (previous : Bool)
      → unicode.is_alphanumeric b'-' ≡ false
      → is_open_slug (previous || n == 0) (slug_loop unicode cs n previous) ≡ true
  unfolding slug_loop is_open_slug
  slug_loop_open [] n previous h = refl
  slug_loop_open (c ∷ cs) n previous h = ground (
    arith,
    slug_loop_open cs (suc n) false h,
    slug_loop_open cs (suc n) true h,
    slug_loop_open cs n previous h,
  )

  slug_loop_short :
      (cs : List ℕ) (n : ℕ) (previous : Bool)
      → n < 50
      → n + length (slug_loop unicode cs n previous) ≤ 50
  unfolding slug_loop
  slug_loop_short [] n previous h = omega arith
  slug_loop_short (c ∷ cs) n previous h = ground (
    arith,
    slug_loop_short cs (suc n) false,
    slug_loop_short cs (suc n) true,
    slug_loop_short cs n previous,
  )

  trim_end_slug :
      (dash : Bool) (s : List ℕ)
      → is_open_slug dash s ≡ true
      → (is_empty (trim_end b'-' s) || is_slug_after dash (trim_end b'-' s)) ≡ true
  unfolding is_open_slug is_slug_after trim_end
  trim_end_slug dash [] h = refl
  trim_end_slug dash (c ∷ s) h = elim (List-cases (trim_end b'-' s)) [
    | inl e ↦ rw e (ground (arith, ==_iff c b'-'))
    | inr (x, xs, e) ↦ ground (arith, trim_end_slug (c == b'-') s, e)
  ]

  trim_end_short : (c : ℕ) (s : List ℕ) → length (trim_end c s) ≤ length s
  unfolding trim_end
  trim_end_short c [] = omega arith
  trim_end_short c (x ∷ s) = ground (arith, trim_end_short c s)

  -- Whatever the title, its slug has at most 50 characters and is empty, or consists of letters and
  -- digits with single dashes between them, none at either end.
  pub slugify-is_slug :
      (title : Text)
      → unicode.is_alphanumeric b'-' ≡ false
      → (is_slug (slugify unicode title) ≡ true) × (length (slugify unicode title) ≤ 50)
  unfolding slugify
  slugify-is_slug title h =
      let pushed = slug_loop unicode (unicode.lowercase title) 0 false in
      (
        trim_end_slug true pushed (slug_loop_open (unicode.lowercase title) 0 false h),
        omega (
          arith,
          trim_end_short b'-' pushed,
          slug_loop_short (unicode.lowercase title) 0 false (omega arith),
        ),
      )

  slug_loop_keeps :
      (s : List ℕ) (n : ℕ) (dash : Bool)
      → unicode.is_alphanumeric b'-' ≡ false
      → is_open_slug (dash || n == 0) s ≡ true
      → n + length s ≤ 50
      → slug_loop unicode s n dash ≡ s
  unfolding slug_loop is_open_slug
  slug_loop_keeps [] n dash h o l = refl
  slug_loop_keeps (c ∷ []) n dash h o l = ground (arith, ==_iff c b'-')
  slug_loop_keeps (c ∷ d ∷ s) n dash h o l = elim (Bool-cases (c == b'-')) [
    | inl e ↦ ground (arith, ==_iff c b'-', slug_loop_keeps (d ∷ s) (suc n) true h)
    | inr e ↦ ground (arith, ==_iff c b'-', slug_loop_keeps (d ∷ s) (suc n) false h)
  ]

  slug_open : (dash : Bool) (s : List ℕ) → is_slug_after dash s ≡ true → is_open_slug dash s ≡ true
  unfolding is_open_slug is_slug_after
  slug_open dash [] h = refl
  slug_open dash (c ∷ s) h = ground (arith, slug_open (c == b'-') s)

  trim_end_keeps : (dash : Bool) (s : List ℕ) → is_slug_after dash s ≡ true → trim_end b'-' s ≡ s
  unfolding trim_end is_slug_after
  trim_end_keeps dash [] h = refl
  trim_end_keeps dash (c ∷ []) h = ground (arith, ==_iff c b'-')
  trim_end_keeps dash (c ∷ d ∷ s) h = let rest = trim_end_keeps (c == b'-') (d ∷ s) in ground arith

  -- A title that is a slug of at most 50 characters and in lower case is its own slug.
  pub slugify_slug :
      (title : Text) (s : List ℕ)
      → unicode.is_alphanumeric b'-' ≡ false
      → unicode.lowercase title ≡ s
      → is_slug s ≡ true
      → length s ≤ 50
      → slugify unicode title ≡ s
  unfolding slugify slug_loop trim_end
  slugify_slug title [] h e o l = rw e refl
  slugify_slug title (c ∷ s) h e o l =
      rw (e, slug_loop_keeps (c ∷ s) 0 false h (slug_open true (c ∷ s) o) (omega arith))
        (trim_end_keeps true (c ∷ s) o)
