-- ===== src/Auth/Sound.antt =====
-- What a passed check of auth.rs shows.
use exokephalos.Prelude.{
  ◌≡◌, refl, sym, subst, inl, inr, ◌⊎◌, true, Option, none, some, [], arith, In, Bool-cases,
  Option-cases,
}
use exokephalos.Prelude.Effect.{◌>>=◌}
use exokephalos.Prelude.Order.{contains, contains_iff}
use exokephalos.Prelude.Result.{Result-cases, ok}
use exokephalos.Prelude.Set.{extend, collect, In-extend}
use exokephalos.Prelude.Text.{Text, text_ord}
use exokephalos.ApiKeys.{ApiKeys, KeyCodec}
use exokephalos.ApiKeys
use exokephalos.Auth.{
  Claims, Header, TokenReader, OidcVerifier, oidc, is_supported, split_ascii_whitespace,
  permissions_of, decode_with_keys, verify, authorize,
}

module _ {Jwk Jwks : Type 0} (reader : TokenReader Jwk Jwks) where
  -- Some claims for the permission are signed by one of the keys, for this issuer and audience,
  -- under an asymmetric algorithm.
  pub record Vouches (verifier : OidcVerifier) (token permission subject : Text) (keys : Jwks)
      : Type 0 where
    pub header : Header
    pub kid : Text
    pub jwk : Jwk
    pub claims : Claims
    pub read : reader.decode_header token ≡ ok header
    pub supported : is_supported header.alg ≡ true
    pub named : header.kid ≡ some kid
    pub known : reader.find kid keys ≡ some jwk
    pub signed : reader.decode token jwk header.alg verifier.issuer verifier.audience ≡ ok claims
    pub subject_is : claims.sub ≡ subject
    pub permitted :
        In permission (split_ascii_whitespace claims.scope) ⊎ In permission claims.permissions

  permitted_lem :
      (claims : Claims) (permission : Text)
      → contains (permissions_of claims) permission ≡ true
      → In permission (split_ascii_whitespace claims.scope) ⊎ In permission claims.permissions
  unfolding permissions_of
  permitted_lem claims permission h =
      let scope = split_ascii_whitespace claims.scope in
      let here = (contains_iff (extend (collect scope) claims.permissions) permission).0 h in
      elim ((In-extend permission (collect scope) claims.permissions).0 here) [
        | inr m ↦ inr m
        | inl m ↦ elim ((In-extend permission [] scope).0 m) [ inl n ↦ absurd n | inr n ↦ inl n ]
      ]

  decode-Vouches :
      (verifier : OidcVerifier) (token permission subject : Text) (header : Header) (keys : Jwks)
      → reader.decode_header token ≡ ok header
      → is_supported header.alg ≡ true
      → decode_with_keys reader verifier token header permission keys ≡ ok subject
      → Vouches verifier token permission subject keys
  unfolding decode_with_keys
  decode-Vouches verifier token permission subject header keys read supported e =
      elim (Option-cases header.kid) [
        | inl n ↦ absurd (ground (arith, n, e))
        | inr (kid, n) ↦ elim (Option-cases (reader.find kid keys)) [
          | inl f ↦ absurd (ground (arith, n, f, e))
          | inr (jwk, f) ↦
              elim (Result-cases
                (reader.decode token jwk header.alg verifier.issuer verifier.audience)) [
                  | inr (x, d) ↦ absurd (ground (arith, n, f, d, e))
                  | inl (claims, d) ↦
                      elim (Bool-cases (contains (permissions_of claims) permission)) [
                        | inr c ↦ absurd (ground (arith, n, f, d, c, e))
                        | inl c ↦ record {
                          header = header;
                          kid = kid;
                          jwk = jwk;
                          claims = claims;
                          read = read;
                          supported = supported;
                          named = n;
                          known = f;
                          signed = d;
                          subject_is = ground (arith, n, f, d, c, e);
                          permitted = permitted_lem claims permission c;
                        }
                      ]
                ]
        ]
      ]

  -- A passed verification: the keys that are kept vouch for the subject, and are those at hand or
  -- those that the issuer gives now.
  pub verify_sound :
      (verifier : OidcVerifier) (token permission subject : Text) (keys left : Jwks)
      → verify reader verifier token permission keys ≡ (ok subject, left)
      → Vouches verifier token permission subject left
        × ((left ≡ keys) ⊎ (reader.fetch verifier.jwks_uri ≡ ok left))
  unfolding verify ◌>>=◌
  verify_sound verifier token permission subject keys left e =
      elim (Result-cases (reader.decode_header token)) [
        | inr (x, d) ↦ absurd (ground (arith, d, e))
        | inl (header, d) ↦ elim (Bool-cases (is_supported header.alg)) [
          | inr b ↦ absurd (ground (arith, d, b, e))
          | inl b ↦
              elim (Result-cases (decode_with_keys reader verifier token header permission keys)) [
                | inl (first, f) ↦
                    let same_keys : left ≡ keys = ground (arith, d, b, f, e) in
                    rw same_keys (
                      decode-Vouches verifier token permission subject header keys d b
                          (ground (arith, d, b, f, e)),
                      inl refl,
                    )
                | inr (x, f) ↦ elim (Result-cases (reader.fetch verifier.jwks_uri)) [
                  | inr (y, g) ↦ absurd (ground (arith, d, b, f, g, e))
                  | inl (refreshed, g) ↦
                      let same_keys : left ≡ refreshed = ground (arith, d, b, f, g, e) in
                      rw same_keys (
                        decode-Vouches verifier token permission subject header refreshed d b
                            (ground (arith, d, b, f, g, e)),
                        inr g,
                      )
                ]
              ]
        ]
      ]

  -- The keys after a verification, whether it passed or not.
  pub verify_keys :
      (verifier : OidcVerifier) (token permission : Text) (keys : Jwks)
      → ((verify reader verifier token permission keys).1 ≡ keys)
        ⊎ (reader.fetch verifier.jwks_uri ≡ ok (verify reader verifier token permission keys).1)
  unfolding verify ◌>>=◌
  verify_keys verifier token permission keys = elim (Result-cases (reader.decode_header token)) [
    | inr (x, d) ↦ inl (rw d refl)
    | inl (header, d) ↦ elim (Bool-cases (is_supported header.alg)) [
      | inr b ↦ inl (rw (d, b) refl)
      | inl b ↦
          elim (Result-cases (decode_with_keys reader verifier token header permission keys)) [
            | inl (first, f) ↦ inl (rw (d, b, f) refl)
            | inr (x, f) ↦ elim (Result-cases (reader.fetch verifier.jwks_uri)) [
              | inr (y, g) ↦ inl (ground (arith, d, b, f, g))
              | inl (refreshed, g) ↦
                  let now : (verify reader verifier token permission keys).1 ≡ refreshed =
                    ground (arith, d, b, f, g) in
                  inr (subst (λ t. reader.fetch verifier.jwks_uri ≡ ok t) (sym now) g)
            ]
          ]
    ]
  ]

  -- A request with a token that passes the check has an API key that grants the permission, in which
  -- case the keys of the issuer are left alone, or a token with such a signature: by a key that is
  -- known by its name among the keys kept afterwards, for this issuer and audience, under one of the
  -- five algorithms, whose scope or permissions have the permission. The keys kept afterwards are the
  -- keys at hand or the ones that the issuer gives now. A request with no token is refused.
  pub authorize_sound :
      (codec : KeyCodec) (s : ApiKeys) (verifier : OidcVerifier) (token : Option Text)
      (permission : Text) (keys left : Jwks)
      → authorize reader codec s (oidc verifier) token permission keys ≡ (ok tt, left)
      → (t : Text) × (token ≡ some t)
        × ((ApiKeys.authorize codec s t permission ≡ true) × (left ≡ keys)
            ⊎ ((subject : Text) × Vouches verifier t permission subject left)
              × ((left ≡ keys) ⊎ (reader.fetch verifier.jwks_uri ≡ ok left)))
  unfolding authorize
  authorize_sound codec s verifier none permission keys left e = absurd (ground (arith, e))
  authorize_sound codec s verifier (some t) permission keys left e =
      elim (Bool-cases (ApiKeys.authorize codec s t permission)) [
        | inl k ↦ (t, refl, inl (k, ground (arith, k, e)))
        | inr k ↦ elim (Result-cases (verify reader verifier t permission keys).0) [
          | inr (x, v) ↦ absurd (ground (arith, k, v, e))
          | inl (subject, v) ↦
              let (vouches, source) =
                verify_sound verifier t permission subject keys left (ground (arith, k, v, e)) in
              (t, refl, inr ((subject, vouches), source))
        ]
      ]
