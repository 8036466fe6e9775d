-- ===== src/Auth.antt =====
-- crates/xo-syncd/src/auth.rs: who may do what with the server. Reading and checking the signature
-- of a token, and the requests to the issuer are parameters; a lock is never poisoned.
pub mod Sound
pub mod Discovery
mod Examples
use exokephalos.Prelude.{
  ℕ, Bool, true, false, not, ◌&&◌, ◌||◌, Option, none, some, List, [], ◌∷◌, ◌++◌, keep, is_empty,
  if◌then◌else◌,
}
use exokephalos.Prelude.Effect.{Effect, return, fail, lift, ◌>>=◌, ◌>>◌}
use exokephalos.Prelude.Order.{same, contains}
use exokephalos.Prelude.Paths.{push_first}
use exokephalos.Prelude.Result.{Result, ok, err, ensure, ok_or, map_err}
use exokephalos.Prelude.Set.{BTreeSet, extend, collect}
use exokephalos.Prelude.Text.{Text, text, text_ord}
use exokephalos.Prelude.White.{is_ascii_whitespace}
use exokephalos.ApiKeys.{ApiKeys, KeyCodec}
use exokephalos.ApiKeys

abbrev pub read_permission : Text
read_permission = text "xo:read"

abbrev pub write_permission : Text
write_permission = text "xo:write"

abbrev pub sync_permission : Text
sync_permission = text "xo:sync"

pub record Claims : Type 0 where
  pub sub : Text
  pub scope : Text
  pub permissions : List Text

-- The algorithms that `jsonwebtoken` knows.
pub data Algorithm : Type 0 where
  hs256 hs384 hs512 es256 es384 rs256 rs384 rs512 ps256 ps384 ps512 ed_dsa : Algorithm

pub record Header : Type 0 where
  pub alg : Algorithm
  pub kid : Option Text

-- A check of a token: against a key, for an issuer and an audience, under an algorithm.
pub record TokenReader (Jwk Jwks : Type 0) : Type 0 where
  pub decode_header : Text → Result Text Header
  pub find : Text → Jwks → Option Jwk
  pub decode : Text → Jwk → Algorithm → Text → Text → Result Text Claims
  pub fetch : Text → Result Text Jwks

pub record OidcVerifier : Type 0 where
  pub issuer : Text
  pub audience : Text
  pub jwks_uri : Text

pub data Authenticator : Type 0 where
  oidc : OidcVerifier → Authenticator
  unsafe_disabled : Authenticator

pub data AuthError : Type 0 where
  missing_token unsupported_algorithm unknown_key : AuthError
  invalid_header invalid_token fetch_failed lacks_permission : Text → AuthError

abbrev pub is_supported : Algorithm → Bool
is_supported rs256 = true
is_supported rs384 = true
is_supported rs512 = true
is_supported es256 = true
is_supported es384 = true
is_supported hs256 = false
is_supported hs384 = false
is_supported hs512 = false
is_supported ps256 = false
is_supported ps384 = false
is_supported ps512 = false
is_supported ed_dsa = false

-- `str::split_ascii_whitespace`
unfoldable pub ascii_words : Text → List Text
ascii_words [] = [] ∷ []
ascii_words (c ∷ s) =
    let rest = ascii_words s in if is_ascii_whitespace c then [] ∷ rest else push_first c rest

abbrev pub split_ascii_whitespace : Text → List Text
split_ascii_whitespace s = keep (λ w. not (is_empty w)) (ascii_words s)

-- The scope's words and the listed permissions.
unfoldable pub permissions_of : Claims → BTreeSet Text
permissions_of claims = extend (collect (split_ascii_whitespace claims.scope)) claims.permissions

module _ {Jwk Jwks : Type 0} (reader : TokenReader Jwk Jwks) where
  abbrev pub key_of : Option Text → Jwks → Option Jwk
  key_of none keys = none
  key_of (some kid) keys = reader.find kid keys

  abbrev pub check_claims : Text → Claims → Result AuthError Text
  check_claims permission claims =
      if contains (permissions_of claims) permission
      then ok claims.sub
      else err (lacks_permission permission)

  abbrev pub decoded : Text → Result Text Claims → Result AuthError Text
  decoded permission (ok claims) = check_claims permission claims
  decoded permission (err e) = err (invalid_token e)

  unfoldable pub decode_with_keys :
      OidcVerifier → Text → Header → Text → Jwks → Result AuthError Text
  decode_with_keys verifier token header permission keys = elim (key_of header.kid keys) [
    | none ↦ err unknown_key
    | some jwk ↦
        decoded permission (reader.decode token jwk header.alg verifier.issuer verifier.audience)
  ]

  -- Where the keys at hand do not do, new ones are fetched and stay.
  unfoldable pub verify : OidcVerifier → Text → Text → Effect Jwks AuthError Text
  verify verifier token permission = do
    header ← lift (map_err invalid_header (reader.decode_header token))
    lift (ensure (is_supported header.alg) unsupported_algorithm)
    first ← (λ keys. (ok (decode_with_keys verifier token header permission keys), keys))
    elim first [
      | ok subject ↦ return subject
      | err e ↦ elim (reader.fetch verifier.jwks_uri) [
        | err x ↦ fail (fetch_failed x)
        | ok refreshed ↦
            λ keys. (decode_with_keys verifier token header permission refreshed, refreshed)
      ]
    ]

  abbrev pub no_subject : Result AuthError Text → Result AuthError (Unit {0})
  no_subject (ok subject) = ok tt
  no_subject (err e) = err e

  -- `Authenticator::authorize`
  unfoldable pub authorize :
      KeyCodec → ApiKeys → Authenticator → Option Text → Text → Effect Jwks AuthError (Unit {0})
  authorize codec api_keys unsafe_disabled token permission keys = (ok tt, keys)
  authorize codec api_keys (oidc verifier) none permission keys = (err missing_token, keys)
  authorize codec api_keys (oidc verifier) (some token) permission keys =
      if ApiKeys.authorize codec api_keys token permission
      then (ok tt, keys)
      else let (r, left) = verify verifier token permission keys in (no_subject r, left)

  unfoldable pub authorize_subject : Authenticator → Option Text → Text → Effect Jwks AuthError Text
  authorize_subject unsafe_disabled token permission = return (text "unsafe-disabled")
  authorize_subject (oidc verifier) none permission = fail missing_token
  authorize_subject (oidc verifier) (some token) permission = verify verifier token permission
