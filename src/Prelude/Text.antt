-- ===== src/Prelude/Text.antt =====
-- `str` and `String`: the UTF-8 bytes of a text, compared bytewise as the standard library does.
use Prim.Native.Nat.{ℕ}
use Prim.Native.Char.{code}
use Prim.Native.String.{String}
use mathlib.Core.Path.{◌≡◌, refl}
use mathlib.Core.Bool.{Bool, true, false, ◌&&◌}
use mathlib.Core.Option.{Option, none, some}
use mathlib.Core.List.{List, [], ◌∷◌}
use exokephalos.Prelude.Order.{Ord, nat_ord, list_ord, same}
use exokephalos.Prelude.Tests.{◌==◌, if◌then◌else◌}

abbrev pub Text : Type 0
Text = List ℕ

-- The bytes of an ASCII literal.
abbrev pub text : String → Text
text String.[] = []
text (String.◌∷◌ c s) = code c ∷ text s

instance abbrev pub text_ord : Ord Text
text_ord = list_ord

-- `str::strip_prefix`
abbrev pub strip_prefix : Text → Text → Option Text
strip_prefix [] s = some s
strip_prefix (p ∷ ps) [] = none
strip_prefix (p ∷ ps) (c ∷ s) = if p == c then strip_prefix ps s else none

-- `str::starts_with`
abbrev pub starts_with : Text → Text → Bool
starts_with [] s = true
starts_with (p ∷ ps) [] = false
starts_with (p ∷ ps) (c ∷ s) = p == c && starts_with ps s

starts_test : starts_with (text "note/") (text "note/abc") ≡ true
starts_test = refl

order_test : same (text "a") (text "b") ≡ false
unfolding exokephalos.Prelude.Order.compare_lists
order_test = refl
