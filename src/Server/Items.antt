-- ===== src/Server/Items.antt =====
-- The handlers of crates/xo-syncd/src/server.rs for items: webhooks, typed items, captured pages,
-- and reading, patching and deleting an item. `serde_json`, `serde_yaml` and the capture of a page
-- are parameters.
use exokephalos.Prelude.{Bool, true, false, Option, none, some, [], ◌∷◌, ◌++◌, if◌then◌else◌}
use exokephalos.Prelude.Effect.{Effect, return, lift, ◌>>=◌, ◌>>◌}
use exokephalos.Prelude.Map.{insert}
use exokephalos.Prelude.Result.{Result, ok, err, ensure, map_err}
use exokephalos.Prelude.Text.{Text, text, text_ord}
use exokephalos.Central.{CentralWorkspace, CentralError, create_item, item, patch_item, delete_item}
use exokephalos.Domain.{Note, NoteId, Frontmatter, string}
use exokephalos.Markdown.{Unicode, required_frontmatter}
use exokephalos.Server.Checks.{parse_json, or_invalid}
use exokephalos.Server.Fence.{markdown_fence}
use exokephalos.Server.Http.{
  Method, get_method, post_method, patch_method, delete_method, head_method, other_method, Request,
  Response, Status, success, created, no_content, bad_request, not_found, method_not_allowed,
  conflict, unsupported_media_type, unprocessable, response, media_type_of, is_media, is_json_patch,
  json_error, json_response, internal_error, read_body_limited,
}
use exokephalos.Server.Notes.{
  Moment, ItemCodecs, is_name, is_item_id, generated_id, note_at, captured_note, webhook_fields,
}
use exokephalos.Server.Patch.{JsonValue, apply_item_patch}
use exokephalos.Workspace.{Workspace, Codec, contains_text}

module _ {W Patch : Type 0} (workspace : Workspace W) (codec : Codec) (unicode : Unicode)
    (codecs : ItemCodecs Patch) (moment : Moment) where
  abbrev pub failure : Status → Text → Response
  failure = json_error codecs.error_json

  abbrev pub internal : Response
  internal = internal_error codecs.error_json

  -- A call of the workspace, whose error the handler looks at.
  abbrev pub attempt :
      {A : Type 0}
      → Effect (CentralWorkspace W) CentralError A
      → Effect (CentralWorkspace W) Response (Result CentralError A)
  attempt m s = let (r, t) = m s in (ok r, t)

  abbrev pub or_internal : {A : Type 0} → Result Text A → Result Response A
  or_internal r = map_err (λ e. internal) r

  abbrev pub creation_response : Response → Result CentralError Bool → Response
  creation_response answer (ok true) = answer
  creation_response answer (ok false) = failure conflict (text "generated item already exists")
  creation_response answer (err e) = internal

  unfoldable pub store_note : Note → Response → Effect (CentralWorkspace W) Response Response
  store_note note answer = do
    r ← attempt (create_item workspace codec unicode moment.wall note)
    return (creation_response answer r)

  abbrev pub created_note : Note → Response
  created_note note = json_response codecs.error_json created (codecs.note_json note)

  -- The language of the fence and the payload: YAML where the body is JSON.
  abbrev pub payload_of : Text → Result Text JsonValue → Result Response (Text × Text)
  payload_of body (err e) = ok ([], codecs.from_utf8_lossy body)
  payload_of body (ok value) =
      map_err (λ e. internal)
        (elim (codecs.value_yaml value) [ ok yaml ↦ ok (text "yaml", yaml) | err e ↦ err e ])

  unfoldable pub webhook : Text → Request → Effect (CentralWorkspace W) Response Response
  webhook source request = do
    lift (ensure (is_name source) (failure bad_request (text "invalid webhook source")))
    body ← lift (read_body_limited codecs.error_json request.body)
    headers_yaml ← lift (or_internal (codecs.headers_yaml request.headers))
    payload ← lift (payload_of body (codecs.from_slice body))
    time ← lift (or_internal moment.created)
    let id : NoteId = generated_id moment
    let note : Note =
        note_at unicode id (webhook_fields source time id)
          (markdown_fence (text "yaml") headers_yaml ++ 10 ∷ markdown_fence payload.0 payload.1)
    store_note note (response created (text "application/json") (codecs.id_json id))

  unfoldable pub read_typed_body : Option Text → Text → Result Response (Frontmatter × Text)
  read_typed_body media bytes =
      if is_media (text "text/plain") media
      then (if codecs.is_utf8 bytes
          then ok ([], bytes)
          else err (failure bad_request (text "plain text body is not UTF-8")))
      else if is_media (text "application/json") media
      then or_invalid codecs.error_json (text "invalid JSON item body")
          (codecs.read_typed_item bytes)
      else err (
          failure unsupported_media_type
            (text "content-type must be text/plain or application/json"))

  unfoldable pub create_typed_item : Text → Request → Effect (CentralWorkspace W) Response Response
  create_typed_item item_type request = do
    lift (ensure (is_name item_type) (failure bad_request (text "invalid item type")))
    bytes ← lift (read_body_limited codecs.error_json request.body)
    parts ← lift (read_typed_body (media_type_of (request.header (text "content-type"))) bytes)
    time ← lift (or_internal moment.created)
    let id : NoteId = generated_id moment
    let frontmatter : Frontmatter =
        insert (text "type") (string item_type) (required_frontmatter parts.0 id time)
    let note : Note = note_at unicode id frontmatter parts.1
    store_note note (created_note note)

  unfoldable pub create_captured_item : Request → Effect (CentralWorkspace W) Response Response
  create_captured_item request = do
    url ← lift (parse_json codecs.error_json codecs.read_url request)
    page ← lift (map_err (λ e. failure unprocessable e) (codecs.capture url))
    note ← lift (or_internal (captured_note unicode page moment))
    store_note note (created_note note)

  abbrev pub missing_item : Response
  missing_item = failure not_found (text "item not found")

  abbrev pub item_response : Note → Response
  item_response note =
      json_response codecs.error_json success (codecs.item_json note.frontmatter note.body)

  abbrev pub found_response : Result CentralError (Option Note) → Response
  found_response (ok none) = missing_item
  found_response (ok (some note)) = item_response note
  found_response (err e) = internal

  abbrev pub existing_note : Result CentralError (Option Note) → Result Response Note
  existing_note (ok none) = err missing_item
  existing_note (ok (some note)) = ok note
  existing_note (err e) = err internal

  abbrev pub patched_response : Result CentralError (Option Note) → Response
  patched_response (ok none) = missing_item
  patched_response (ok (some note)) = item_response note
  patched_response (err e) =
      let message = codecs.central_message e in
      if contains_text (text "frontmatter id") message then failure conflict message else internal

  abbrev pub deleted_response : Result CentralError Bool → Response
  deleted_response (ok true) = response no_content (text "application/json") []
  deleted_response (ok false) = missing_item
  deleted_response (err e) = internal

  unfoldable pub parse_json_patch : Request → Result Response Patch
  parse_json_patch request = elim (read_body_limited codecs.error_json request.body) [
    | ok bytes ↦
        or_invalid codecs.error_json (text "invalid JSON Patch document") (codecs.read_patch bytes)
    | err answer ↦ err answer
  ]

  -- The new frontmatter and body that a patch asks for.
  unfoldable pub read_update :
      NoteId → Request → Effect (CentralWorkspace W) Response (Option Frontmatter × Option Text)
  read_update note_id request = elim (is_json_patch request) [
    | false ↦ lift (parse_json codecs.error_json codecs.read_patch_item request)
    | true ↦ do
      patch ← lift (parse_json_patch request)
      found ← attempt (item workspace codec unicode moment.wall note_id)
      existing ← lift (existing_note found)
      lift (
          map_err (λ e. failure bad_request (codecs.patch_message e))
            (apply_item_patch codecs.json_patch existing.frontmatter existing.body patch))
  ]

  unfoldable pub patch_request : NoteId → Request → Effect (CentralWorkspace W) Response Response
  patch_request note_id request = do
    update ← read_update note_id request
    r ← attempt (patch_item workspace codec unicode moment.wall note_id update.0 update.1)
    return (patched_response r)

  unfoldable pub get_request : NoteId → Effect (CentralWorkspace W) Response Response
  get_request note_id = do
    r ← attempt (item workspace codec unicode moment.wall note_id)
    return (found_response r)

  unfoldable pub delete_request : NoteId → Effect (CentralWorkspace W) Response Response
  delete_request note_id = do
    r ← attempt (delete_item workspace codec unicode moment.wall note_id)
    return (deleted_response r)

  abbrev pub method_request :
      Method → NoteId → Request → Effect (CentralWorkspace W) Response Response
  method_request get_method note_id request = get_request note_id
  method_request patch_method note_id request = patch_request note_id request
  method_request delete_method note_id request = delete_request note_id
  method_request post_method note_id request =
      return (failure method_not_allowed (text "method not allowed"))
  method_request head_method note_id request =
      return (failure method_not_allowed (text "method not allowed"))
  method_request other_method note_id request =
      return (failure method_not_allowed (text "method not allowed"))

  unfoldable pub item_request : Text → Request → Effect (CentralWorkspace W) Response Response
  item_request id request = do
    lift (ensure (is_item_id id) (failure bad_request (text "invalid item id")))
    method_request request.method id request
