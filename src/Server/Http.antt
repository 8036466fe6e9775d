-- ===== src/Server/Http.antt =====
-- The requests and responses of crates/xo-syncd/src/server.rs. Of `hyper`, a request is what the
-- code asks it for; the body is the list of frames that arrive.
use exokephalos.Prelude.{
  ℕ, ◌+◌, Bool, false, ◌&&◌, Option, none, some, List, [], ◌∷◌, ◌++◌, length, leb, ltb, map,
  if◌then◌else◌,
}
use exokephalos.Prelude.Map.{BTreeMap}
use exokephalos.Prelude.Order.{same}
use exokephalos.Prelude.Paths.{split_at}
use exokephalos.Prelude.Result.{Result, ok, err}
use exokephalos.Prelude.Text.{Text, text, text_ord, strip_prefix}
use exokephalos.Prelude.White.{trim}

pub data Method : Type 0 where
  get_method post_method patch_method delete_method head_method other_method : Method

-- What `body.frame()` gives: a failure, a frame of data or one of trailers.
pub data BodyFrame : Type 0 where
  broken trailers : BodyFrame
  chunk : Text → BodyFrame

-- `upper` is the greatest size that `size_hint` gives.
pub record Incoming : Type 0 where
  pub upper : Option ℕ
  pub frames : List BodyFrame

-- `header` is the first value of a header where `to_str` reads it, `header_bytes` in any case, and
-- `headers` has all of them, the last value of each, with the placeholder where it cannot be read.
pub record Request : Type 0 where
  pub method : Method
  pub path : Text
  pub header : Text → Option Text
  pub header_bytes : Text → Option Text
  pub headers : BTreeMap Text Text
  pub body : Incoming

pub data Status : Type 0 where
  success created no_content switching_protocols : Status
  bad_request unauthenticated not_found method_not_allowed conflict : Status
  payload_too_large unsupported_media_type unprocessable : Status
  internal_server_error not_implemented : Status

pub record Response : Type 0 where
  pub status : Status
  pub headers : List (Text × Text)
  pub body : Text

unfoldable pub response : Status → Text → Text → Response
response status content_type body = record {
  status = status;
  headers =
      (text "content-type", content_type) ∷ (text "x-content-type-options", text "nosniff") ∷ [];
  body = body;
}

abbrev pub max_api_body_size : ℕ
max_api_body_size = 1048576

abbrev pub to_lower : ℕ → ℕ
to_lower c = if leb b'A' c && leb c b'Z' then c + 32 else c

abbrev pub eq_ignore_ascii_case : Text → Text → Bool
eq_ignore_ascii_case a b = same (map to_lower a) (map to_lower b)

abbrev pub first_part : List Text → Option Text
first_part [] = none
first_part (part ∷ parts) = some (trim part)

-- The header `content-type` up to the first semicolon, trimmed.
abbrev pub media_type_of : Option Text → Option Text
media_type_of none = none
media_type_of (some value) = first_part (split_at b';' value)

abbrev pub is_media : Text → Option Text → Bool
is_media media none = false
is_media media (some value) = eq_ignore_ascii_case value media

abbrev pub has_media : Text → Request → Bool
has_media media request = is_media media (media_type_of (request.header (text "content-type")))

unfoldable pub is_json_patch : Request → Bool
is_json_patch request = has_media (text "application/json-patch+json") request

abbrev pub find_bearer : List Text → Option Text
find_bearer [] = none
find_bearer (protocol ∷ protocols) = elim (strip_prefix (text "xo-bearer.") (trim protocol)) [
  | some token ↦ some token
  | none ↦ find_bearer protocols
]

abbrev pub bearer_of : Option Text → Option Text
bearer_of none = none
bearer_of (some value) = strip_prefix (text "Bearer ") value

abbrev pub protocol_token_of : Option Text → Option Text
protocol_token_of none = none
protocol_token_of (some value) = find_bearer (split_at b',' value)

unfoldable pub websocket_protocol_token : Request → Option Text
websocket_protocol_token request =
    protocol_token_of (request.header (text "sec-websocket-protocol"))

unfoldable pub request_token : Request → Option Text
request_token request = elim (bearer_of (request.header (text "authorization"))) [
  | some token ↦ some token
  | none ↦ websocket_protocol_token request
]

abbrev pub is_above : Option ℕ → Bool
is_above none = false
is_above (some size) = ltb max_api_body_size size

module _ (error_json : Text → Text) where
  -- `json_response` at a value that `serde_json` always writes: an object of one string.
  unfoldable pub json_error : Status → Text → Response
  json_error status message = response status (text "application/json") (error_json message)

  abbrev pub internal_error : Response
  internal_error = json_error internal_server_error (text "internal server error")

  abbrev pub json_response : Status → Result Text Text → Response
  json_response status (ok body) = response status (text "application/json") body
  json_response status (err error) = internal_error

  unfoldable pub unauthorized : Text → Response
  unauthorized message = record {
    status = unauthenticated;
    headers =
        (text "content-type", text "application/json")
        ∷ (text "www-authenticate", text "Bearer")
        ∷ (text "x-content-type-options", text "nosniff")
        ∷ [];
    body = error_json message;
  }

  abbrev pub too_large : Response
  too_large = json_error payload_too_large (text "request body too large")

  -- The loop over the frames. The sum of the source saturates far above the bound.
  unfoldable pub read_frames : Text → List BodyFrame → Result Response Text
  read_frames bytes [] = ok bytes
  read_frames bytes (broken ∷ frames) =
      err (json_error bad_request (text "could not read request body"))
  read_frames bytes (trailers ∷ frames) = read_frames bytes frames
  read_frames bytes (chunk data_bytes ∷ frames) =
      if ltb max_api_body_size (length bytes + length data_bytes)
      then err too_large
      else read_frames (bytes ++ data_bytes) frames

  unfoldable pub read_body_limited : Incoming → Result Response Text
  read_body_limited body = if is_above body.upper then err too_large else read_frames [] body.frames
