-- ===== src/Auth/Examples.antt =====
-- A toy issuer, and what is proved of auth.rs at it.
use exokephalos.Prelude.{
  ◌≡◌, refl, inl, inr, ◌⊎◌, true, false, Option, none, some, List, [], ◌∷◌, ◌++◌, if◌then◌else◌,
}
use exokephalos.Prelude.Effect.{◌>>=◌}
use exokephalos.Prelude.Order.{same}
use exokephalos.Prelude.Result.{ok}
use exokephalos.Prelude.Set.{extend}
use exokephalos.Prelude.Text.{Text, text, text_ord}
use exokephalos.ApiKeys.{ApiKeys, KeyCodec}
use exokephalos.ApiKeys
use exokephalos.Auth.{
  TokenReader, OidcVerifier, rs256, ascii_words, permissions_of, decode_with_keys, verify,
  authorize,
}
use exokephalos.Auth.Sound.{Vouches, authorize_sound}

abbrev toy_codec : KeyCodec
toy_codec = record {
  to_vec_pretty = λ keys. ok [];
  from_slice = λ bytes. ok [];
  sha256 = λ token. [];
}

-- The key is a text with which the token ends; every token has the same claims.
abbrev toy : TokenReader Text Text
toy = record {
  decode_header = λ token. ok (record { alg = rs256; kid = some (text "k") });
  find = λ kid keys. if same keys (text "new") then some keys else none;
  decode = λ token jwk alg issuer audience.
      ok (record { sub = text "ann"; scope = text "openid xo:read"; permissions = [] });
  fetch = λ uri. ok (text "new");
}

abbrev here : OidcVerifier
here = record { issuer = text "i"; audience = text "a"; jwks_uri = text "u" }

abbrev no_keys : ApiKeys
no_keys = record { keys = []; file = none }

authorize_sound_example :
    (t : Text) × (◌≡◌ {A = Option Text} (some (text "tok")) (some t))
    × ((ApiKeys.authorize toy_codec no_keys t (text "xo:read") ≡ true) × (text "new" ≡ text "old")
        ⊎ ((subject : Text) × Vouches toy here t (text "xo:read") subject (text "new"))
          × ((text "new" ≡ text "old") ⊎ (toy.fetch (text "u") ≡ ok (text "new"))))
unfolding authorize verify decode_with_keys permissions_of ascii_words extend ApiKeys.authorize
    ◌>>=◌ exokephalos.Prelude.Order.compare_lists exokephalos.Prelude.Set.insert
authorize_sound_example =
    authorize_sound toy toy_codec no_keys here (some (text "tok")) (text "xo:read") (text "old")
      (text "new") refl
