-- ===== src/Id/Base32.antt =====
-- The base-32 numerals of id.rs, and a reader for them.
use mathlib.Core.List.{reverse-reverse}
use exokephalos.Prelude.{
  ℕ, zero, suc, ◌+◌, ◌-◌, ◌*◌, ◌/◌, ◌%◌, ◌≤◌, ◌<◌, ◌≡◌, refl, ap, Bool, true, ◌&&◌, [], ◌∷◌,
  reverse, arith, leb, ◌==◌, if◌then◌else◌, all, ==_iff,
}
use exokephalos.Prelude.Text.{Text}
use exokephalos.Id.{base32_char, push_digits, encode_base32, is_id_byte}

-- Whether a test holds of every digit from 0 on, so many of them.
unfoldable pub every_digit : (ℕ → Bool) → ℕ → Bool
every_digit test zero = true
every_digit test (suc count) = every_digit test count && test count

pub every_digit_lem :
    (test : ℕ → Bool) (digit count : ℕ)
    → every_digit test count ≡ true
    → digit < count
    → test digit ≡ true
unfolding every_digit
every_digit_lem test digit zero tested below = absurd (omega arith)
every_digit_lem test digit (suc count) tested below =
    ground (arith, every_digit_lem test digit count)

-- The value of a base-32 character.
abbrev pub digit_value : ℕ → ℕ
digit_value c = if leb b'a' c then c - b'a' else c - b'2' + 26

digit_table : every_digit (λ i. digit_value (base32_char i) == i) 32 ≡ true
unfolding every_digit
digit_table = refl

pub digit_value-base32_char : (i : ℕ) → i < 32 → digit_value (base32_char i) ≡ i
digit_value-base32_char i h = (==_iff _ i).0 (every_digit_lem _ i 32 digit_table h)

alphabet_table : every_digit (λ i. is_id_byte (base32_char i)) 32 ≡ true
unfolding every_digit
alphabet_table = refl

pub is_id_byte-base32_char : (i : ℕ) → i < 32 → is_id_byte (base32_char i) ≡ true
is_id_byte-base32_char i h = every_digit_lem (λ j. is_id_byte (base32_char j)) i 32 alphabet_table h

-- The number that digits stand for, least digit first and greatest digit first.
abbrev pub from_digits : Text → ℕ
from_digits [] = 0
from_digits (c ∷ s) = digit_value c + 32 * from_digits s

abbrev pub decode_base32 : Text → ℕ
decode_base32 s = from_digits (reverse s)

push_digits_value : (fuel v : ℕ) → v ≤ fuel → from_digits (push_digits fuel v) ≡ v
unfolding push_digits
push_digits_value zero v h = omega arith
push_digits_value (suc fuel) v h =
    ground (arith, push_digits_value fuel (v / 32), digit_value-base32_char (v % 32))

-- Decoding the base-32 numeral of a number gives the number back, so that equal numerals are of
-- equal numbers, and the loop always runs to its end.
pub decode-encode_base32 : (v : ℕ) → decode_base32 (encode_base32 v) ≡ v
unfolding encode_base32
decode-encode_base32 zero = refl
decode-encode_base32 (suc n) =
    let digits = push_digits (suc n) (suc n) in
    ground (
      arith,
      ap from_digits (reverse-reverse digits),
      push_digits_value (suc n) (suc n) (omega arith),
    )

pub push_digits_alphabet : (fuel v : ℕ) → all is_id_byte (push_digits fuel v) ≡ true
unfolding push_digits
push_digits_alphabet zero v = refl
push_digits_alphabet (suc fuel) v =
    ground (arith, push_digits_alphabet fuel (v / 32), is_id_byte-base32_char (v % 32))
