-- ===== src/Server/Fence.antt =====
-- `markdown_fence` of crates/xo-syncd/src/server.rs, which quotes what a webhook sent.
use exokephalos.Prelude.{
  ℕ, zero, suc, ◌+◌, ◌≤◌, ◌<◌, max, ◌≡◌, refl, ap, Bool, false, Option, none, some, List, [], ◌∷◌,
  ◌++◌, arith, length, last?, replicate, ◌==◌, if◌then◌else◌,
}
use exokephalos.Prelude.Paths.{push_first}
use exokephalos.Prelude.Text.{Text}

-- `content.split(|character| character != '`')`. A character of several bytes leaves a few more
-- empty parts here, which the longest part does not show.
unfoldable pub runs : Text → List Text
runs [] = [] ∷ []
runs (c ∷ s) = let rest = runs s in if c == b'`' then push_first c rest else [] ∷ rest

abbrev pub longest : List Text → ℕ
longest [] = 0
longest (part ∷ parts) = max (length part) (longest parts)

abbrev pub is_newline : Option ℕ → Bool
is_newline none = false
is_newline (some c) = c == 10

abbrev pub separator : Text → Text
separator content = if is_newline (last? content) then [] else 10 ∷ []

abbrev pub fence_of : Text → Text
fence_of content = replicate (max (longest (runs content) + 1) 3) b'`'

unfoldable pub markdown_fence : Text → Text → Text
markdown_fence language content =
    let fence = fence_of content in
    fence ++ language ++ 10 ∷ (content ++ separator content ++ fence ++ 10 ∷ [])

first_length : List Text → ℕ
first_length [] = 0
first_length (part ∷ parts) = length part

longest-push_first :
    (c : ℕ) (parts : List Text)
    → (longest parts ≤ longest (push_first c parts))
      × (first_length (push_first c parts) ≡ suc (first_length parts))
unfolding first_length
longest-push_first c [] = (omega arith, refl)
longest-push_first c (part ∷ parts) = (omega arith, refl)

longest-cons : (c : ℕ) (s : Text) → longest (runs s) ≤ longest (runs (c ∷ s))
unfolding runs
longest-cons c s = ground (arith, (longest-push_first c (runs s)).0)

first-longest : (parts : List Text) → first_length parts ≤ longest parts
unfolding first_length
first-longest [] = omega arith
first-longest (part ∷ parts) = omega arith

first-run : (n : ℕ) (b : Text) → n ≤ first_length (runs (replicate n b'`' ++ b))
unfolding runs
first-run zero b = omega arith
first-run (suc n) b =
    omega (arith, first-run n b, (longest-push_first b'`' (runs (replicate n b'`' ++ b))).1)

longest-run : (a b : Text) (n : ℕ) → n ≤ longest (runs (a ++ replicate n b'`' ++ b))
longest-run [] b n = omega (arith, first-run n b, first-longest (runs (replicate n b'`' ++ b)))
longest-run (c ∷ a) b n =
    omega (arith, longest-run a b n, longest-cons c (a ++ replicate n b'`' ++ b))

-- The fence has at least three backticks, and more than any row of backticks inside the content, so
-- that no part of the content closes it.
pub markdown_fence_lem :
    (language content : Text)
    → (k : ℕ) × (3 ≤ k)
      × (markdown_fence language content
          ≡ replicate k b'`'
            ++ language
            ++ 10 ∷ (content ++ separator content ++ replicate k b'`' ++ 10 ∷ []))
      × ((a b : Text) (n : ℕ) → content ≡ a ++ replicate n b'`' ++ b → n < k)
unfolding markdown_fence
markdown_fence_lem language content = (
  max (longest (runs content) + 1) 3,
  omega arith,
  refl,
  λ a b n e. omega (arith, longest-run a b n, ap (λ t. longest (runs t)) e),
)
