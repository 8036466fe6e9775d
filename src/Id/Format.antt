-- ===== src/Id/Format.antt =====
-- Which generated identifiers have the current format.
use exokephalos.Prelude.{
  ℕ, zero, suc, ◌-◌, ◌/◌, ◌≤◌, ◌<◌, ◌≡◌, refl, ◌↔◌, true, List, [], ◌∷◌, ◌++◌, map, arith, length,
  all, length-append, length-reverse, length-map, length-replicate, all-append, all-reverse,
  all-replicate, replicate,
}
use exokephalos.Prelude.Int.{ℤ}
use exokephalos.Id.{
  base32_char, days_since_epoch, push_digits, encode_base32, generate_with_rng, is_id_byte,
  is_valid,
}
use exokephalos.Id.Base32.{push_digits_alphabet, is_id_byte-base32_char}

-- Every draw of `random_range(0..32)` is below 32.
abbrev pub AreDraws : List ℕ → Type 0
AreDraws [] = Unit
AreDraws (r ∷ rs) = (r < 32) × AreDraws rs

encode_base32_alphabet : (v : ℕ) → all is_id_byte (encode_base32 v) ≡ true
unfolding encode_base32
encode_base32_alphabet zero = refl
encode_base32_alphabet (suc n) = ground (
  arith,
  all-reverse is_id_byte (push_digits (suc n) (suc n)),
  push_digits_alphabet (suc n) (suc n),
)

draws_alphabet : (rs : List ℕ) → AreDraws rs → all is_id_byte (map base32_char rs) ≡ true
draws_alphabet [] h = refl
draws_alphabet (r ∷ rs) h = ground (arith, draws_alphabet rs, is_id_byte-base32_char r)

digits_zero : (fuel v : ℕ) → v ≤ fuel → (length (push_digits fuel v) ≡ 0) ↔ (v ≡ 0)
unfolding push_digits
digits_zero zero v h = ground arith
digits_zero (suc fuel) v h = ground arith

digits_one : (fuel v : ℕ) → v ≤ fuel → (length (push_digits fuel v) ≤ 1) ↔ (v < 32)
unfolding push_digits
digits_one zero v h = ground arith
digits_one (suc fuel) v h = ground (arith, digits_zero fuel (v / 32))

digits_two : (fuel v : ℕ) → v ≤ fuel → (length (push_digits fuel v) ≤ 2) ↔ (v < 1024)
unfolding push_digits
digits_two zero v h = ground arith
digits_two (suc fuel) v h = ground (arith, digits_one fuel (v / 32))

digits_three : (fuel v : ℕ) → v ≤ fuel → (length (push_digits fuel v) ≤ 3) ↔ (v < 32768)
unfolding push_digits
digits_three zero v h = ground arith
digits_three (suc fuel) v h = ground (arith, digits_two fuel (v / 32))

encode_short : (v : ℕ) → (length (encode_base32 v) ≤ 3) ↔ (v < 32768)
unfolding encode_base32
encode_short zero = ground arith
encode_short (suc n) =
    ground (arith, length-reverse (push_digits (suc n) (suc n)), digits_three (suc n) (suc n))

-- An identifier made with four draws has the current format, seven characters of the alphabet or
-- `0`, exactly while fewer than 32768 days have passed since the epoch.
pub is_valid-generate :
    (timestamp : ℤ) (draws : List ℕ)
    → length draws ≡ 4
    → AreDraws draws
    → (is_valid (generate_with_rng timestamp draws) ≡ true) ↔ (days_since_epoch timestamp < 32768)
unfolding is_valid generate_with_rng
is_valid-generate timestamp draws four drawn =
    let days = days_since_epoch timestamp in
    let digits = encode_base32 days in
    let id = digits ++ map base32_char draws in
    ground (
      arith,
      encode_short days,
      encode_base32_alphabet days,
      draws_alphabet draws drawn,
      length-append digits (map base32_char draws),
      length-map base32_char draws,
      all-append is_id_byte digits (map base32_char draws),
      all-append is_id_byte (replicate (7 - length id) b'0') id,
      all-replicate is_id_byte (7 - length id) b'0' refl,
      length-append (replicate (7 - length id) b'0') id,
      length-replicate {A = ℕ} (7 - length id) b'0',
    )
