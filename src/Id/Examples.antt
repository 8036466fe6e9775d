-- ===== src/Id/Examples.antt =====
-- Identifiers on concrete days; 13700 days after the epoch is in July 2026.
use exokephalos.Prelude.{◌≡◌, refl, false, List, [], ◌∷◌, ℕ}
use exokephalos.Prelude.Int.{pos}
use exokephalos.Prelude.Text.{text}
use exokephalos.Id.{generate_with_rng, is_valid}

abbrev draws : List ℕ
draws = 0 ∷ 1 ∷ 30 ∷ 31 ∷ []

generated : generate_with_rng (pos 13700) draws ≡ text "nmeab67"
unfolding generate_with_rng
generated = refl

padded : generate_with_rng (pos 5) draws ≡ text "00fab67"
unfolding generate_with_rng
padded = refl

-- From 5 October 2078 on a new identifier has eight characters.
too_long : is_valid (generate_with_rng (pos 32768) draws) ≡ false
unfolding generate_with_rng is_valid
too_long = refl
