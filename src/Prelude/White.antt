-- ===== src/Prelude/White.antt =====
-- `str::trim`, `str::trim_start`, `str::trim_end` and `str::split_whitespace`: the characters of
-- Unicode's `White_Space`, in UTF-8.
use Prim.Native.Nat.{ℕ, zero, suc}
use mathlib.Core.Path.{◌≡◌, refl}
use mathlib.Core.Bool.{Bool, true, false, not, ◌&&◌, ◌||◌}
use mathlib.Core.List.{List, [], ◌∷◌, ◌++◌}
use native.Mathlib.Omega.{arith}
use exokephalos.Prelude.Lists.{is_empty, keep, all}
use exokephalos.Prelude.Paths.{push_first}
use exokephalos.Prelude.Tests.{leb, ltb, ◌==◌, if◌then◌else◌}
use exokephalos.Prelude.Text.{Text, text}

-- `u8::is_ascii_whitespace`: no vertical tab.
abbrev pub is_ascii_whitespace : ℕ → Bool
is_ascii_whitespace c = c == 32 || (c == 9 || (c == 10 || (c == 12 || c == 13)))

abbrev is_one_byte_space : ℕ → Bool
is_one_byte_space c = c == 32 || leb 9 c && leb c 13

abbrev is_two_byte_space : ℕ → Text → Bool
is_two_byte_space a [] = false
is_two_byte_space a (b ∷ s) = a == 194 && (b == 133 || b == 160)

-- U+1680, U+2000 to U+200A, U+2028, U+2029, U+202F, U+205F and U+3000.
abbrev is_three_byte_space : ℕ → Text → Bool
is_three_byte_space a [] = false
is_three_byte_space a (b ∷ []) = false
is_three_byte_space a (b ∷ c ∷ s) =
    a == 225 && (b == 154 && c == 128)
    || (a == 226
          && (b == 128 && (leb 128 c && leb c 138 || (c == 168 || (c == 169 || c == 175)))
              || b == 129 && c == 159)
        || a == 227 && (b == 128 && c == 128))

-- The bytes of the white space character at the front; 0 if none is there.
unfoldable pub space_length : ℕ → Text → ℕ
space_length c s =
    if is_one_byte_space c
    then 1
    else if is_two_byte_space c s
    then 2
    else if is_three_byte_space c s
    then 3
    else 0

-- After `skip` bytes.
unfoldable pub trim_from : ℕ → Text → Text
unfolding space_length
trim_from skip [] = []
trim_from (suc skip) (c ∷ s) = trim_from skip s
trim_from zero (c ∷ s) = elim (space_length c s) [ zero ↦ c ∷ s | suc more ↦ trim_from more s ]

unfoldable pub trim_start : Text → Text
unfolding trim_from
trim_start s = trim_from 0 s

unfoldable pub trim_end : Text → Text
unfolding trim_start
trim_end [] = []
trim_end (c ∷ s) = let rest = trim_end s in if is_empty (trim_start (c ∷ s)) then [] else c ∷ rest

unfoldable pub trim : Text → Text
unfolding trim_start trim_end
trim s = trim_end (trim_start s)

unfoldable pub words_from : ℕ → Text → List Text
unfolding space_length
words_from skip [] = [] ∷ []
words_from (suc skip) (c ∷ s) = words_from skip s
words_from zero (c ∷ s) = elim (space_length c s) [
  | zero ↦ push_first c (words_from zero s)
  | suc more ↦ [] ∷ words_from more s
]

unfoldable pub split_whitespace : Text → List Text
unfolding words_from
split_whitespace s = keep (λ w. not (is_empty w)) (words_from 0 s)

-- A byte that begins no white space.
abbrev pub is_dark : ℕ → Bool
is_dark c = ltb 32 c && ltb c 128

dark_length : (c : ℕ) (s : Text) → is_dark c ≡ true → space_length c s ≡ 0
unfolding space_length
dark_length c [] h = ground arith
dark_length c (b ∷ []) h = ground arith
dark_length c (b ∷ d ∷ s) h = ground arith

trim_start_dark : (c : ℕ) (s : Text) → is_dark c ≡ true → trim_start (c ∷ s) ≡ c ∷ s
unfolding trim_start trim_from
trim_start_dark c s h = rw (dark_length c s h, trim_from) refl

trim_end_line : (s : Text) → all is_dark s ≡ true → trim_end (s ++ 10 ∷ []) ≡ s
unfolding trim_end
trim_end_line [] h = refl
trim_end_line (c ∷ s) h = ground (arith, trim_end_line s, trim_start_dark c (s ++ 10 ∷ []))

-- A line of printing ASCII characters without spaces loses its end when it is trimmed.
pub trim_line : (s : Text) → all is_dark s ≡ true → trim (s ++ 10 ∷ []) ≡ s
unfolding trim
trim_line [] h = refl
trim_line (c ∷ s) h = ground (arith, trim_start_dark c (s ++ 10 ∷ []), trim_end_line (c ∷ s) h)

trim_test : trim (text "  a b ") ≡ text "a b"
unfolding trim
trim_test = refl

words_test : split_whitespace (text " goto_view  x ") ≡ text "goto_view" ∷ text "x" ∷ []
unfolding split_whitespace
words_test = refl
