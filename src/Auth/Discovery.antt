-- ===== src/Auth/Discovery.antt =====
-- `Authenticator::discover` of crates/xo-syncd/src/auth.rs: what the server learns from the issuer when
-- it starts. Both requests are parameters.
use exokephalos.Prelude.{
  ◌≡◌, inl, inr, ◌&&◌, List, [], ◌∷◌, ◌++◌, arith, is_empty, ◌==◌, if◌then◌else◌, Bool-cases,
}
use exokephalos.Prelude.Order.{same, same_iff}
use exokephalos.Prelude.Result.{Result, Result-cases, ok, ensure, map_err, ◌>>=◌, ◌>>◌}
use exokephalos.Prelude.Text.{Text, text, text_ord}
use exokephalos.Auth.{OidcVerifier, read_permission, write_permission, sync_permission}

pub record Discovery : Type 0 where
  pub issuer : Text
  pub jwks_uri : Text

pub record BrowserAuthConfig : Type 0 where
  pub issuer : Text
  pub client_id : Text
  pub resource : Text
  pub scopes : List Text
  pub native_redirect_uri : Text

pub data DiscoveryError : Type 0 where
  not_fetched : Text → DiscoveryError
  other_issuer : DiscoveryError

pub record Discovered (Jwks : Type 0) : Type 0 where
  pub verifier : OidcVerifier
  pub keys : Jwks
  pub browser : BrowserAuthConfig

-- `trim_end_matches('/')`
unfoldable pub trim_slashes : Text → Text
trim_slashes [] = []
trim_slashes (c ∷ s) =
    let rest = trim_slashes s in if is_empty rest && c == b'/' then [] else c ∷ rest

abbrev pub browser_of : Text → Text → Discovery → BrowserAuthConfig
browser_of audience client_id discovery = record {
  issuer = discovery.issuer;
  client_id = client_id;
  resource = trim_slashes audience;
  scopes = read_permission ∷ write_permission ∷ sync_permission ∷ [];
  native_redirect_uri = text "http://127.0.0.1:9465/callback";
}

abbrev pub verifier_of : Text → Discovery → OidcVerifier
verifier_of audience discovery = record {
  issuer = discovery.issuer;
  audience = trim_slashes audience;
  jwks_uri = discovery.jwks_uri;
}

module _ {Jwks : Type 0} (fetch_discovery : Text → Result Text Discovery)
    (fetch_keys : Text → Result Text Jwks) where
  unfoldable pub discover : Text → Text → Text → Result DiscoveryError (Discovered Jwks)
  discover issuer audience client_id = do
    discovery ←
        map_err not_fetched
          (fetch_discovery (trim_slashes issuer ++ text "/.well-known/openid-configuration"))
    ensure (same (trim_slashes discovery.issuer) (trim_slashes issuer)) other_issuer
    keys ← map_err not_fetched (fetch_keys discovery.jwks_uri)
    ok (record {
      verifier = verifier_of audience discovery;
      keys = keys;
      browser = browser_of audience client_id discovery;
    })

  -- Tokens are checked for the issuer that was configured, up to slashes at the end, and the browser is
  -- told the same issuer and audience.
  discover_lem :
      (issuer audience client_id : Text) (d : Discovered Jwks)
      → discover issuer audience client_id ≡ ok d
      → (trim_slashes d.verifier.issuer ≡ trim_slashes issuer)
        × (d.browser.issuer ≡ d.verifier.issuer)
        × (d.browser.resource ≡ d.verifier.audience)
        × (fetch_keys d.verifier.jwks_uri ≡ ok d.keys)
  unfolding discover
  discover_lem issuer audience client_id d e =
      elim (Result-cases
        (fetch_discovery (trim_slashes issuer ++ text "/.well-known/openid-configuration"))) [
          | inr (x, f) ↦ absurd (ground (arith, f, e))
          | inl (discovery, f) ↦
              elim (Bool-cases (same (trim_slashes discovery.issuer) (trim_slashes issuer))) [
                | inr b ↦ absurd (ground (arith, f, b, e))
                | inl b ↦ elim (Result-cases (fetch_keys discovery.jwks_uri)) [
                  | inr (x, k) ↦ absurd (ground (arith, f, b, k, e))
                  | inl (keys, k) ↦
                      let same_issuer =
                        (same_iff (trim_slashes discovery.issuer) (trim_slashes issuer)).0 b in
                      ground (arith, f, b, k, e, same_issuer)
                ]
              ]
        ]
