-- ===== src/Server/Checks.antt =====
-- Who is let in, and the keys of programs: the handlers of crates/xo-syncd/src/server.rs that need
-- no workspace.
use exokephalos.Prelude.{
  ℕ, Bool, true, false, ◌&&◌, ◌||◌, Option, none, some, List, [], ◌∷◌, all, length, leb, ◌==◌,
  if◌then◌else◌,
}
use exokephalos.Prelude.Effect.{Effect, return, lift, gets, for_each, ◌>>=◌, ◌>>◌}
use exokephalos.Prelude.Int.{ℤ}
use exokephalos.Prelude.Order.{contains}
use exokephalos.Prelude.Result.{Result, ok, err, ensure, map_err}
use exokephalos.Prelude.Set.{BTreeSet}
use exokephalos.Prelude.Text.{Text, text, text_ord}
use exokephalos.ApiKeys.{
  ApiKeys, ApiKeyError, ApiKeyMetadata, CreatedApiKey, KeyCodec, list_keys, create, remove,
}
use exokephalos.Auth.{
  TokenReader, Authenticator, oidc, unsafe_disabled, AuthError, authorize, authorize_subject,
  read_permission, write_permission, sync_permission,
}
use exokephalos.Server.Http.{
  Request, Response, Status, success, created, no_content, bad_request, not_found, not_implemented,
  unsupported_media_type, response, request_token, has_media, json_error, json_response,
  internal_error, unauthorized, read_body_limited,
}

-- The keys of the issuer at hand and the store of API keys.
pub record Access (Jwks : Type 0) : Type 0 where
  pub keys : Jwks
  pub api_keys : ApiKeys

-- `serde_json` at the bodies of these handlers.
pub record AccessJson : Type 0 where
  pub error_json : Text → Text
  pub metadata_json : List ApiKeyMetadata → Result Text Text
  pub created_json : CreatedApiKey → Result Text Text
  pub read_create_key : Text → Result Text (Text × BTreeSet Text)

-- What the server is started with, how it reads tokens and prints errors, what random bytes and
-- which time a handler gets, and whether the file of API keys can be written.
pub record Guards (Jwk Jwks : Type 0) : Type 0 where
  pub reader : TokenReader Jwk Jwks
  pub key_codec : KeyCodec
  pub auth : Authenticator
  pub json : AccessJson
  pub auth_message : AuthError → Text
  pub key_message : ApiKeyError → Text
  pub random : List ℕ
  pub now : ℤ
  pub save_fault : Option Text

abbrev pub is_hex_digit : ℕ → Bool
is_hex_digit c = leb b'0' c && leb c b'9' || leb b'a' c && leb c b'f' || leb b'A' c && leb c b'F'

-- `&path[prefix.len()..]` of a path with that prefix.
abbrev pub rest_after : Option Text → Text
rest_after none = []
rest_after (some rest) = rest

-- `auth.api_keys()`
abbrev pub has_api_keys : Authenticator → Bool
has_api_keys unsafe_disabled = false
has_api_keys (oidc verifier) = true

abbrev pub known_permissions : List Text
known_permissions = read_permission ∷ write_permission ∷ sync_permission ∷ []

abbrev pub or_none : List ApiKeyMetadata → Bool → List ApiKeyMetadata
or_none metadata true = metadata
or_none metadata false = []

module _ {A : Type 0} (error_json : Text → Text) where
  abbrev pub or_invalid : Text → Result Text A → Result Response A
  or_invalid message (ok value) = ok value
  or_invalid message (err e) = err (json_error error_json bad_request message)

  -- `parse_json`, with the reader of the wanted type.
  unfoldable pub parse_json : (Text → Result Text A) → Request → Result Response A
  parse_json read request =
      if has_media (text "application/json") request
      then elim (read_body_limited error_json request.body) [
        | ok bytes ↦ or_invalid (text "invalid JSON body") (read bytes)
        | err answer ↦ err answer
      ]
      else err (
          json_error error_json unsupported_media_type
            (text "content-type must be application/json"))

module _ {Jwk Jwks : Type 0} (guards : Guards Jwk Jwks) where
  abbrev pub refuse : Status → Text → Response
  refuse = json_error guards.json.error_json

  abbrev pub denied : AuthError → Response
  denied e = unauthorized guards.json.error_json (guards.auth_message e)

  -- A check, which may fetch new keys of the issuer.
  unfoldable pub authorize_token : Option Text → Text → Effect (Access Jwks) Response (Unit {0})
  authorize_token token permission s =
      let (r, keys) =
        authorize guards.reader guards.key_codec s.api_keys guards.auth token permission s.keys in
      (map_err denied r, record s { keys = keys })

  unfoldable pub authorize_request : Request → Text → Effect (Access Jwks) Response (Unit {0})
  authorize_request request permission = authorize_token (request_token request) permission

  unfoldable pub subject_of : Option Text → Text → Effect (Access Jwks) Response Text
  subject_of token permission s =
      let (r, keys) = authorize_subject guards.reader guards.auth token permission s.keys in
      (map_err denied r, record s { keys = keys })

  unfoldable pub api_keys_list : Request → Effect (Access Jwks) Response Response
  api_keys_list request = do
    subject ← subject_of (request_token request) read_permission
    metadata ← gets (λ s. or_none (list_keys s.api_keys subject) (has_api_keys guards.auth))
    return (json_response guards.json.error_json success (guards.json.metadata_json metadata))

  abbrev pub created_response : Result ApiKeyError CreatedApiKey → Response
  created_response (ok key) =
      json_response guards.json.error_json created (guards.json.created_json key)
  created_response (err e) = refuse bad_request (guards.key_message e)

  unfoldable pub create_key : Text → Text → BTreeSet Text → Effect (Access Jwks) Response Response
  create_key subject label permissions s =
      let (r, api_keys) =
        create guards.key_codec guards.save_fault guards.random guards.now subject label permissions
          s.api_keys in
      (ok (created_response r), record s { api_keys = api_keys })

  abbrev pub check_permission : Option Text → Text → Effect (Access Jwks) Response (Unit {0})
  check_permission token permission = subject_of token permission >> return tt

  unfoldable pub api_keys_create : Request → Effect (Access Jwks) Response Response
  api_keys_create request = do
    subject ← subject_of (request_token request) read_permission
    wanted ← lift (parse_json guards.json.error_json guards.json.read_create_key request)
    lift (
        ensure (all (λ permission. contains known_permissions permission) wanted.1)
          (refuse bad_request (text "unknown API key permission")))
    for_each wanted.1 (check_permission (request_token request))
    lift (
        ensure (has_api_keys guards.auth)
          (refuse not_implemented (text "API keys require OAuth authentication")))
    create_key subject wanted.0 wanted.1

  abbrev pub removed_response : Result ApiKeyError Bool → Response
  removed_response (ok true) = response no_content (text "application/json") []
  removed_response (ok false) = refuse not_found (text "API key not found")
  removed_response (err e) = internal_error guards.json.error_json

  unfoldable pub remove_key : Text → Text → Effect (Access Jwks) Response Response
  remove_key subject id s =
      let (r, api_keys) = remove guards.key_codec guards.save_fault subject id s.api_keys in
      (ok (removed_response r), record s { api_keys = api_keys })

  unfoldable pub api_keys_remove : Text → Request → Effect (Access Jwks) Response Response
  api_keys_remove id request = do
    lift (
        ensure (length id == 16 && all is_hex_digit id)
          (refuse bad_request (text "invalid API key ID")))
    subject ← subject_of (request_token request) read_permission
    lift (
        ensure (has_api_keys guards.auth)
          (refuse not_implemented (text "API keys require OAuth authentication")))
    remove_key subject id
