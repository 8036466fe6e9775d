-- ===== src/Server/Pwa.antt =====
-- crates/xo-syncd/src/pwa.rs: the files of the web client inside the server. The list of the files is
-- made when the server is built, so it is a parameter.
use exokephalos.Prelude.{
  ℕ, Bool, Option, none, some, List, [], ◌∷◌, any, find, last?, ◌==◌, is_empty, if◌then◌else◌,
}
use exokephalos.Prelude.Order.{same}
use exokephalos.Prelude.Paths.{split_at}
use exokephalos.Prelude.Text.{Text, text, text_ord, strip_prefix, starts_with}
use exokephalos.Server.Http.{Status, success, not_found, Response}

pub record EmbeddedAsset : Type 0 where
  pub path : Text
  pub bytes : Text

abbrev pub or_else : {A : Type 0} → A → Option A → A
or_else a none = a
or_else a (some b) = b

-- `path.rsplit(separator).next()`
abbrev pub last_part : ℕ → Text → Text
last_part separator path = or_else [] (last? (split_at separator path))

abbrev pub type_of_extension : Text → Text
type_of_extension extension =
    if same extension (text "css")
    then text "text/css; charset=utf-8"
    else if same extension (text "html")
    then text "text/html; charset=utf-8"
    else if same extension (text "js")
    then text "text/javascript; charset=utf-8"
    else if same extension (text "json")
    then text "application/json"
    else if same extension (text "png")
    then text "image/png"
    else if same extension (text "svg")
    then text "image/svg+xml"
    else if same extension (text "wasm")
    then text "application/wasm"
    else if same extension (text "webmanifest")
    then text "application/manifest+json"
    else if same extension (text "sh")
    then text "text/plain; charset=utf-8"
    else text "application/octet-stream"

abbrev pub content_type : Text → Text
content_type path = type_of_extension (last_part b'.' path)

unfoldable pub asset_response : Status → Text → Text → Text → Response
asset_response status media body cache_control = record {
  status = status;
  headers =
      (text "content-type", media)
      ∷ (text "cache-control", cache_control)
      ∷ (text "x-content-type-options", text "nosniff")
      ∷ [];
  body = body;
}

abbrev pub cache_control_of : Text → Text
cache_control_of path =
    if starts_with (text "assets/") path
    then text "public, max-age=31536000, immutable"
    else text "no-cache"

abbrev pub asset_or_404 : Option EmbeddedAsset → Response
asset_or_404 none =
    asset_response not_found (text "text/plain; charset=utf-8") (text "Not found\n")
      (text "no-store")
asset_or_404 (some asset) =
    asset_response success (content_type asset.path) asset.bytes (cache_control_of asset.path)

module _ (embedded : List EmbeddedAsset) where
  unfoldable pub find_asset : Text → Option EmbeddedAsset
  find_asset path =
      let wanted = if is_empty path then text "index.html" else path in
      find (λ asset. same asset.path wanted) embedded

  abbrev pub has_extension : Text → Bool
  has_extension requested = any (λ c. c == b'.') (last_part b'/' requested)

  abbrev pub asset_or_index : Text → Option EmbeddedAsset → Option EmbeddedAsset
  asset_or_index requested (some asset) = some asset
  asset_or_index requested none =
      if has_extension requested then none else find_asset (text "index.html")

  unfoldable pub serve : Text → Response
  serve path =
      let requested = or_else path (strip_prefix (text "/") path) in
      asset_or_404 (asset_or_index requested (find_asset requested))

  unfoldable pub serve_head : Text → Response
  serve_head path = record (serve path) { body = [] }
