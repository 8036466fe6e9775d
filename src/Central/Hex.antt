-- ===== src/Central/Hex.antt =====
-- `encode_hex` and `decode_hex` of central.rs, and `hex` of api_keys.rs. A text is cut by bytes: at
-- a place inside a character the program stops with a panic.
use exokephalos.Prelude.{
  ℕ, ◌+◌, ◌-◌, ◌*◌, ◌/◌, ◌%◌, ◌<◌, ◌≡◌, refl, ap, Bool, true, false, not, ◌&&◌, Option, none, some,
  List, [], ◌∷◌, arith, all, leb, ◌==◌, ==_iff, if◌then◌else◌, get_or, length,
}
use exokephalos.Prelude.Result.{Result, ok, err, ensure, ◌>>=◌, ◌>>◌}
use exokephalos.Prelude.Text.{Text, text}
use exokephalos.Prelude.White.{is_dark}
use exokephalos.CentralSync.{is_identifier_byte}
use exokephalos.Id.Base32.{every_digit, every_digit_lem}

pub data HexError : Type 0 where
  odd_length invalid_hex cut_character : HexError

abbrev pub hex_digit : ℕ → ℕ
hex_digit n = get_or (text "0123456789abcdef") n 0

-- `{byte:02x}` of each byte.
unfoldable pub encode_hex : List ℕ → Text
encode_hex [] = []
encode_hex (byte ∷ bytes) = hex_digit (byte / 16) ∷ hex_digit (byte % 16) ∷ encode_hex bytes

abbrev pub between : ℕ → ℕ → ℕ → Bool
between lo hi c = leb lo c && leb c hi

-- `char::to_digit(16)`
abbrev pub to_digit : ℕ → Option ℕ
to_digit c =
    if between b'0' b'9' c
    then some (c - b'0')
    else if between b'a' b'f' c
    then some (c - b'a' + 10)
    else if between b'A' b'F' c
    then some (c - b'A' + 10)
    else none

abbrev pub two_digits : Option ℕ → Option ℕ → Result HexError ℕ
two_digits (some a) (some b) = ok (a * 16 + b)
two_digits (some a) none = err invalid_hex
two_digits none b = err invalid_hex

abbrev pub one_digit : Option ℕ → Result HexError ℕ
one_digit (some b) = ok b
one_digit none = err invalid_hex

-- `u8::from_str_radix` of two bytes; a sign may stand in front of one digit.
abbrev pub from_str_radix : ℕ → ℕ → Result HexError ℕ
from_str_radix a b =
    if a == b'+' then one_digit (to_digit b) else two_digits (to_digit a) (to_digit b)

-- A cut is good at the end and in front of a byte that begins a character.
abbrev pub is_char_boundary : Text → Bool
is_char_boundary [] = true
is_char_boundary (c ∷ s) = not (between 128 191 c)

unfoldable pub decode_pairs : Text → Result HexError (List ℕ)
decode_pairs [] = ok []
decode_pairs (a ∷ []) = ok []
decode_pairs (a ∷ b ∷ rest) = do
  ensure (is_char_boundary rest) cut_character
  byte ← from_str_radix a b
  bytes ← decode_pairs rest
  ok (byte ∷ bytes)

unfoldable pub decode_hex : Text → Result HexError (List ℕ)
unfolding decode_pairs
decode_hex value = if not (length value % 2 == 0) then err odd_length else decode_pairs value

abbrev pub AreBytes : List ℕ → Type 0
AreBytes [] = Unit
AreBytes (b ∷ bs) = (b < 256) × AreBytes bs

abbrev is_value : ℕ → Option ℕ → Bool
is_value n none = false
is_value n (some m) = m == n

abbrev digit_test : ℕ → Bool
digit_test n =
    is_value n (to_digit (hex_digit n))
    && (not (hex_digit n == b'+')
        && (is_char_boundary (hex_digit n ∷ [])
            && (is_identifier_byte (hex_digit n) && is_dark (hex_digit n))))

digit_table : every_digit digit_test 16 ≡ true
unfolding every_digit is_identifier_byte
digit_table = refl

digit_holds : (n : ℕ) → n < 16 → digit_test n ≡ true
digit_holds n h = every_digit_lem digit_test n 16 digit_table h

is_value-some : (n : ℕ) (o : Option ℕ) → is_value n o ≡ true → o ≡ some n
is_value-some n none h = cc
is_value-some n (some m) h = ap some ((==_iff m n).0 h)

all_five :
    (a b c d e : Bool)
    → (a && (b && (c && (d && e)))) ≡ true
    → (a ≡ true) × (b ≡ true) × (c ≡ true) × (d ≡ true) × (e ≡ true)
all_five true true true true true h = (refl, refl, refl, refl, refl)
all_five false b c d e h = cc
all_five true false c d e h = cc
all_five true true false d e h = cc
all_five true true true false e h = cc
all_five true true true true false h = cc

-- What holds of the digit of a value.
record Digit (n : ℕ) : Type 0 where
  valued : to_digit (hex_digit n) ≡ some n
  unsigned : (hex_digit n == b'+') ≡ false
  begins : is_char_boundary (hex_digit n ∷ []) ≡ true
  named : is_identifier_byte (hex_digit n) ≡ true
  dark : is_dark (hex_digit n) ≡ true

not-true : (x : Bool) → not x ≡ true → x ≡ false
not-true true h = cc
not-true false h = refl

digit_lem : (n : ℕ) → n < 16 → Digit n
digit_lem n h =
    let (a, b, c, d, e) =
      all_five (is_value n (to_digit (hex_digit n))) (not (hex_digit n == b'+'))
        (is_char_boundary (hex_digit n ∷ [])) (is_identifier_byte (hex_digit n))
        (is_dark (hex_digit n)) (digit_holds n h) in
    record {
      valued = is_value-some n (to_digit (hex_digit n)) a;
      unsigned = not-true (hex_digit n == b'+') b;
      begins = c;
      named = d;
      dark = e;
    }

pub encode_hex-AreIdentifierBytes :
    (bs : List ℕ)
    → AreBytes bs
    → (all is_identifier_byte (encode_hex bs) ≡ true) × (all is_dark (encode_hex bs) ≡ true)
unfolding encode_hex
encode_hex-AreIdentifierBytes [] h = (refl, refl)
encode_hex-AreIdentifierBytes (b ∷ bs) h =
    let (named, dark) = encode_hex-AreIdentifierBytes bs h.1 in
    let high = digit_lem (b / 16) (omega arith) in
    let low = digit_lem (b % 16) (omega arith) in
    (rw (high.named, low.named) named, rw (high.dark, low.dark) dark)

pub length-encode_hex : (bs : List ℕ) → length (encode_hex bs) ≡ 2 * length bs
unfolding encode_hex
length-encode_hex [] = refl
length-encode_hex (b ∷ bs) = omega (arith, length-encode_hex bs)

boundary_encoded : (bs : List ℕ) → AreBytes bs → is_char_boundary (encode_hex bs) ≡ true
unfolding encode_hex
boundary_encoded [] h = refl
boundary_encoded (b ∷ bs) h = (digit_lem (b / 16) (omega arith)).begins

decode_pair : (b : ℕ) → b < 256 → from_str_radix (hex_digit (b / 16)) (hex_digit (b % 16)) ≡ ok b
decode_pair b h =
    let high = digit_lem (b / 16) (omega arith) in
    let low = digit_lem (b % 16) (omega arith) in
    let value : b / 16 * 16 + b % 16 ≡ b = omega arith in
    rw (high.unsigned, high.valued, low.valued, value) refl

decode_pairs-encode_hex : (bs : List ℕ) → AreBytes bs → decode_pairs (encode_hex bs) ≡ ok bs
unfolding decode_pairs encode_hex
decode_pairs-encode_hex [] h = refl
decode_pairs-encode_hex (b ∷ bs) h =
    rw (boundary_encoded bs h.1, decode_pair b h.0, decode_pairs-encode_hex bs h.1) refl

-- Decoding gives back the bytes that were encoded.
pub decode_hex-encode_hex : (bs : List ℕ) → AreBytes bs → decode_hex (encode_hex bs) ≡ ok bs
unfolding decode_hex
decode_hex-encode_hex bs h =
    let even : (length (encode_hex bs) % 2 == 0) ≡ true =
      (==_iff (length (encode_hex bs) % 2) 0).1 (omega (arith, length-encode_hex bs)) in
    rw even (decode_pairs-encode_hex bs h)
