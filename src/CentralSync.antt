-- ===== src/CentralSync.antt =====
-- crates/xo-core/src/central_sync.rs: the control frames of the synchronization protocol, their
-- limits and their validation. `serde_json` is a parameter, `Json`.
pub mod Frames
mod Examples
use exokephalos.Prelude.{
  ℕ, ◌*◌, Bool, true, false, not, ◌&&◌, ◌||◌, List, [], ◌∷◌, ltb, leb, ◌==◌, length, all, is_empty,
}
use exokephalos.Prelude.Result.{Result, ok, err, ◌>>=◌, ◌>>◌, ensure, map_err, try_for_each}
use exokephalos.Prelude.Text.{Text}

abbrev pub sync_protocol_version : ℕ
sync_protocol_version = 1

abbrev pub max_control_message_bytes : ℕ
max_control_message_bytes = 16 * 1024

abbrev pub max_sync_message_bytes : ℕ
max_sync_message_bytes = 8 * 1024 * 1024

pub data SyncProtocolError : Type 0 where
  unsupported_version : ℕ → SyncProtocolError
  invalid_client_id : SyncProtocolError
  invalid_workspace_id : SyncProtocolError
  invalid_error_code : SyncProtocolError
  invalid_error_message : SyncProtocolError
  control_too_large : ℕ → SyncProtocolError
  empty_sync_message : SyncProtocolError
  sync_message_too_large : ℕ → SyncProtocolError
  json : Text → SyncProtocolError

pub data ControlMessage : Type 0 where
  client_hello : ℕ → Text → ControlMessage
  server_hello : ℕ → Text → List Text → ControlMessage
  presence : List Text → ControlMessage
  error : Text → Text → ControlMessage

-- `ControlMessage::client_hello` and `ControlMessage::server_hello`
abbrev pub new_client_hello : Text → ControlMessage
new_client_hello client_id = client_hello sync_protocol_version client_id

abbrev pub new_server_hello : Text → List Text → ControlMessage
new_server_hello workspace_id clients = server_hello sync_protocol_version workspace_id clients

abbrev pub between : ℕ → ℕ → ℕ → Bool
between lo hi c = leb lo c && leb c hi

unfoldable pub is_identifier_byte : ℕ → Bool
is_identifier_byte value =
    between b'a' b'z' value
    || (between b'A' b'Z' value
        || (between b'0' b'9' value || (value == b'.' || (value == b'_' || value == b'-'))))

unfoldable pub validate_version : ℕ → Result SyncProtocolError (Unit {0})
validate_version version = ensure (version == sync_protocol_version) (unsupported_version version)

-- The test that the client identifier, the workspace identifier and the error code share.
unfoldable pub is_identifier : ℕ → Text → Bool
is_identifier limit value =
    not (is_empty value || (ltb limit (length value) || not (all is_identifier_byte value)))

unfoldable pub validate_client_id : Text → Result SyncProtocolError (Unit {0})
unfolding is_identifier
validate_client_id value = ensure (is_identifier 64 value) invalid_client_id

unfoldable pub validate_workspace_id : Text → Result SyncProtocolError (Unit {0})
unfolding is_identifier
validate_workspace_id value = ensure (is_identifier 128 value) invalid_workspace_id

-- `ClientId` wraps the text.
unfoldable pub parse_client_id : Text → Result SyncProtocolError Text
unfolding validate_client_id
parse_client_id value = do validate_client_id value; ok value

unfoldable pub validate_message : ControlMessage → Result SyncProtocolError (Unit {0})
validate_message (client_hello protocol_version client_id) = do
  validate_version protocol_version
  validate_client_id client_id
validate_message (server_hello protocol_version workspace_id clients) = do
  validate_version protocol_version
  validate_workspace_id workspace_id
  try_for_each validate_client_id clients
validate_message (presence clients) = try_for_each validate_client_id clients
validate_message (error code message) = do
  ensure (is_identifier 64 code) invalid_error_code
  ensure (not (is_empty message || ltb 1024 (length message))) invalid_error_message

unfoldable pub validate_sync_message : List ℕ → Result SyncProtocolError (Unit {0})
validate_sync_message bytes = do
  ensure (not (is_empty bytes)) empty_sync_message
  ensure (not (ltb max_sync_message_bytes (length bytes))) (sync_message_too_large (length bytes))

-- `serde_json::to_string` and `serde_json::from_str` at `ControlMessage`.
pub record Json : Type 0 where
  pub to_string : ControlMessage → Result Text Text
  pub from_str : Text → Result Text ControlMessage

module _ (j : Json) where
  unfoldable pub encode : ControlMessage → Result SyncProtocolError Text
  encode message = do
    validate_message message
    encoded ← map_err json (j.to_string message)
    ensure (not (ltb max_control_message_bytes (length encoded)))
        (control_too_large (length encoded))
    ok encoded

  unfoldable pub decode : Text → Result SyncProtocolError ControlMessage
  decode encoded = do
    ensure (not (ltb max_control_message_bytes (length encoded)))
        (control_too_large (length encoded))
    message ← map_err json (j.from_str encoded)
    validate_message message
    ok message
