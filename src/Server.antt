-- ===== src/Server.antt =====
-- crates/xo-syncd/src/server.rs: a request's way to its handler, with the checks in front. The
-- handlers change one part of the server each: the workspace, or the keys. Accepting connections is
-- not modelled; requests are handled one after the other.
pub mod Http
pub mod Body
pub mod Fence
pub mod Patch
pub mod Segments
pub mod Pwa
pub mod Checks
pub mod Notes
pub mod Items
pub mod Origin
pub mod Route
pub mod Keys
pub mod Vouched
pub mod Creation
pub mod Guard
mod Examples
use exokephalos.Prelude.{
  ℕ, ◌+◌, Bool, true, false, not, ◌&&◌, ◌||◌, Option, none, some, List, [], ◌∷◌, ◌++◌, any,
  if◌then◌else◌,
}
use exokephalos.Prelude.Effect.{Effect, return, fail, lift, modify, ◌>>=◌, ◌>>◌}
use exokephalos.Prelude.Order.{same}
use exokephalos.Prelude.Paths.{split_at}
use exokephalos.Prelude.Result.{Result, ok, err, ensure, map_err}
use exokephalos.Prelude.Text.{Text, text, text_ord}
use exokephalos.Prelude.White.{trim}
use exokephalos.Auth.{
  Authenticator, oidc, unsafe_disabled, read_permission, write_permission, sync_permission,
}
use exokephalos.Central.{CentralWorkspace}
use exokephalos.Markdown.{Unicode}
use exokephalos.Server.Checks.{
  Access, Guards, authorize_token, authorize_request, api_keys_list, api_keys_create,
  api_keys_remove,
}
use exokephalos.Server.Http.{
  Method, Request, Response, Status, success, bad_request, not_found, method_not_allowed,
  switching_protocols, response, eq_ignore_ascii_case, request_token, json_error, json_response,
}
use exokephalos.Server.Items.{webhook, create_typed_item, create_captured_item, item_request}
use exokephalos.Server.Notes.{Moment, ItemCodecs}
use exokephalos.Server.Origin.{serve_document}
use exokephalos.Server.Pwa.{EmbeddedAsset, serve, serve_head}
use exokephalos.Server.Route.{
  Routed, health, description, auth_configuration, sync, list_keys, create_keys, create_items,
  webhook_at, remove_key_at, typed_item_at, item_at, no_api, no_health_method, asset, asset_head,
  no_method, is_get, route_of,
}
use exokephalos.Workspace.{Workspace, Codec}

-- The state behind the handlers; `sockets` counts the synchronization sessions that were started.
pub record Server (W Jwks : Type 0) : Type 0 where
  pub central : CentralWorkspace W
  pub access : Access Jwks
  pub sockets : ℕ

-- The fixed texts of the server, and the key of `tungstenite` that accepts a handshake.
pub record Site : Type 0 where
  pub document : Text
  pub embedded : List EmbeddedAsset
  pub config_json : Result Text Text
  pub disabled_json : Result Text Text
  pub accept_key : Text → Text

abbrev pub no_store : Response → Response
no_store answer = record answer {
  headers = answer.headers ++ (text "cache-control", text "no-store") ∷ [];
}

abbrev pub is_sync_protocol : Option Text → Bool
is_sync_protocol none = false
is_sync_protocol (some value) =
    any (λ part. same (trim part) (text "xo-sync")) (split_at b',' value)

abbrev pub is_text : Text → Option Text → Bool
is_text wanted none = false
is_text wanted (some value) = same value wanted

abbrev pub is_websocket : Option Text → Bool
is_websocket none = false
is_websocket (some value) = eq_ignore_ascii_case value (text "websocket")

abbrev pub upgrade_response : Site → Request → Text → Response
upgrade_response site request key = record {
  status = switching_protocols;
  headers =
      ((text "connection", text "Upgrade")
        ∷ (text "upgrade", text "websocket")
        ∷ (text "sec-websocket-accept", site.accept_key key)
        ∷ [])
      ++ (if is_sync_protocol (request.header (text "sec-websocket-protocol"))
          then (text "sec-websocket-protocol", text "xo-sync") ∷ []
          else []);
  body = [];
}

-- An answer that is given early counts as the answer.
abbrev pub settle : Result Response Response → Response
settle (ok answer) = answer
settle (err answer) = answer

abbrev pub item_permission : Method → Text
item_permission method = if is_get method then read_permission else write_permission

module _ {W Jwks : Type 0} where
  abbrev pub on_access :
      {A : Type 0} → Effect (Access Jwks) Response A → Effect (Server W Jwks) Response A
  on_access m s = let (r, t) = m s.access in (r, record s { access = t })

  abbrev pub on_central :
      {A : Type 0} → Effect (CentralWorkspace W) Response A → Effect (Server W Jwks) Response A
  on_central m s = let (r, t) = m s.central in (r, record s { central = t })

  abbrev pub start_socket : Effect (Server W Jwks) Response (Unit {0})
  start_socket = modify (λ s. record s { sockets = s.sockets + 1 })

  unfoldable pub websocket_upgrade : Site → Request → Effect (Server W Jwks) Response Response
  websocket_upgrade site request = elim (request.header_bytes (text "sec-websocket-key")) [
    | none ↦ return (
        response bad_request (text "text/plain; charset=utf-8")
          (text "WebSocket upgrade required\n"))
    | some key ↦ do
      lift (
          ensure
            (is_text (text "13") (request.header_bytes (text "sec-websocket-version"))
              && is_websocket (request.header (text "upgrade")))
            (response bad_request (text "text/plain; charset=utf-8")
              (text "Invalid WebSocket upgrade\n")))
      start_socket
      return (upgrade_response site request key)
  ]

module _ {W Jwk Jwks Patch : Type 0} (workspace : Workspace W) (codec : Codec) (unicode : Unicode)
    (codecs : ItemCodecs Patch) (moment : Moment) (guards : Guards Jwk Jwks) (site : Site) where
  abbrev pub configuration : Authenticator → Response
  configuration (oidc verifier) = json_response codecs.error_json success site.config_json
  configuration unsafe_disabled = json_response codecs.error_json success site.disabled_json

  unfoldable pub sync_request : Request → Effect (Server W Jwks) Response Response
  sync_request request = do
    on_access (authorize_token guards (request_token request) sync_permission)
    on_access (authorize_token guards (request_token request) read_permission)
    on_access (authorize_token guards (request_token request) write_permission)
    websocket_upgrade site request

  -- A handler of the workspace behind the check of a permission.
  unfoldable pub with_permission :
      Text
      → Request
      → Effect (CentralWorkspace W) Response Response
      → Effect (Server W Jwks) Response Response
  with_permission permission request handler = do
    on_access (authorize_request guards request permission)
    on_central handler

  abbrev pub refusal : Status → Text → Effect (Server W Jwks) Response Response
  refusal status message = return (json_error codecs.error_json status message)

  unfoldable pub serve_route : Routed → Request → Effect (Server W Jwks) Response Response
  serve_route health request =
      return (response success (text "text/plain; charset=utf-8") (text "ok\n"))
  serve_route description request = return (serve_document site.document request)
  serve_route auth_configuration request = return (no_store (configuration guards.auth))
  serve_route sync request = sync_request request
  serve_route list_keys request = on_access (api_keys_list guards request)
  serve_route create_keys request = on_access (api_keys_create guards request)
  serve_route create_items request =
      with_permission write_permission request
        (create_captured_item workspace codec unicode codecs moment request)
  serve_route (webhook_at source) request =
      on_central (webhook workspace codec unicode codecs moment source request)
  serve_route (remove_key_at id) request = on_access (api_keys_remove guards id request)
  serve_route (typed_item_at item_type) request =
      with_permission write_permission request
        (create_typed_item workspace codec unicode codecs moment item_type request)
  serve_route (item_at id) request =
      with_permission (item_permission request.method) request
        (item_request workspace codec unicode codecs moment id request)
  serve_route no_api request = refusal not_found (text "not found")
  serve_route no_health_method request = refusal method_not_allowed (text "method not allowed")
  serve_route asset request = return (serve site.embedded request.path)
  serve_route asset_head request = return (serve_head site.embedded request.path)
  serve_route no_method request = refusal method_not_allowed (text "method not allowed")

  unfoldable pub handle : Request → Server W Jwks → Response × Server W Jwks
  handle request s =
      let (r, t) = serve_route (route_of request.method request.path) request s in (settle r, t)
