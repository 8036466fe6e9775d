-- ===== src/Id.antt =====
-- crates/xo-core/src/id.rs: note identifiers. Four characters are drawn at random after the number
-- of days since 1989-01-17 in base 32, padded with `0` on the left to seven characters.
-- The draws of `rand` and the day count of `time` are arguments.
pub mod Base32
pub mod Format
mod Examples
use exokephalos.Prelude.{
  ℕ, zero, suc, ◌+◌, ◌-◌, ◌/◌, ◌%◌, Bool, false, ◌&&◌, ◌||◌, List, [], ◌∷◌, ◌++◌, map, reverse, ltb,
  ◌==◌, if◌then◌else◌, length, get_or, all, replicate,
}
use exokephalos.Prelude.Int.{ℤ, pos, negsuc}
use exokephalos.Prelude.Order.{nat_ord, contains}
use exokephalos.Prelude.Text.{Text, text}

abbrev pub base32_chars : Text
base32_chars = text "abcdefghijklmnopqrstuvwxyz234567"

-- `BASE32_CHARS[i]`; every index of the code is below 32.
abbrev pub base32_char : ℕ → ℕ
base32_char i = get_or base32_chars i 0

-- `u64::try_from(days).unwrap_or(0)` for the difference of the two dates in whole days, which the
-- crate `time` gives.
unfoldable pub days_since_epoch : ℤ → ℕ
days_since_epoch (pos n) = n
days_since_epoch (negsuc n) = 0

-- The loop `while value > 0`, least digit first.
unfoldable pub push_digits : ℕ → ℕ → Text
push_digits zero value = []
push_digits (suc fuel) value =
    let rest = push_digits fuel (value / 32) in
    if ltb 0 value then base32_char (value % 32) ∷ rest else []

-- `value` rounds are enough, since each divides by 32.
unfoldable pub encode_base32 : ℕ → Text
unfolding push_digits
encode_base32 value = if value == 0 then text "a" else reverse (push_digits value value)

-- `format!("{id:0>7}")`
abbrev pub pad_left : Text → Text
pad_left id = replicate (7 - length id) b'0' ++ id

unfoldable pub generate_with_rng : ℤ → List ℕ → Text
unfolding encode_base32 days_since_epoch
generate_with_rng timestamp draws =
    let id = encode_base32 (days_since_epoch timestamp) ++ map base32_char draws in
    if ltb (length id) 7 then pad_left id else id

abbrev pub is_id_byte : ℕ → Bool
is_id_byte byte = byte == b'0' || contains base32_chars byte

unfoldable pub is_valid : Text → Bool
is_valid value = length value == 7 && all is_id_byte value
