-- ===== src/Server/Notes.antt =====
-- The notes that the handlers of crates/xo-syncd/src/server.rs make, and `captured_note` of
-- crates/xo-core/src/url_capture.rs; with what the handlers take from elsewhere.
use exokephalos.Prelude.{
  ℕ, Bool, not, ◌&&◌, ◌||◌, Option, none, some, List, [], ◌++◌, all, any, length, leb, ◌==◌,
  is_empty, if◌then◌else◌,
}
use exokephalos.Prelude.Int.{ℤ}
use exokephalos.Prelude.Map.{BTreeMap, insert}
use exokephalos.Prelude.Result.{Result, ok, err}
use exokephalos.Prelude.Text.{Text, text, text_ord}
use exokephalos.Prelude.White.{trim}
use exokephalos.Central.{CentralError}
use exokephalos.Domain.{Note, NoteId, Frontmatter, string, sequence, nil, cons}
use exokephalos.Id.{generate_with_rng, is_valid}
use exokephalos.Markdown.{Unicode, canonical_note_path}
use exokephalos.Server.Patch.{JsonValue, JsonPatch, PatchError}

-- `CapturedPage`
pub record CapturedPage : Type 0 where
  pub url : Text
  pub title : Text
  pub body : Text
  pub author : Option Text
  pub site : Option Text
  pub published : Option Text
  pub image : Option Text
  pub excerpt : Option Text

-- What the clock and `rand` give to a handler: the day, the draws of the identifier, the time as
-- `timestamp::format` prints it, and the milliseconds of the wall clock.
pub record Moment : Type 0 where
  pub day : ℤ
  pub draws : List ℕ
  pub created : Result Text Text
  pub wall : Result Text ℕ

-- The encoders and decoders of the bodies, the messages of errors, and the capture of a page.
pub record ItemCodecs (Patch : Type 0) : Type 0 where
  pub error_json : Text → Text
  pub id_json : NoteId → Text
  pub note_json : Note → Result Text Text
  pub item_json : Frontmatter → Text → Result Text Text
  pub read_url : Text → Result Text Text
  pub read_typed_item : Text → Result Text (Frontmatter × Text)
  pub read_patch_item : Text → Result Text (Option Frontmatter × Option Text)
  pub read_patch : Text → Result Text Patch
  pub headers_yaml : BTreeMap Text Text → Result Text Text
  pub from_slice : Text → Result Text JsonValue
  pub value_yaml : JsonValue → Result Text Text
  pub is_utf8 : Text → Bool
  pub from_utf8_lossy : Text → Text
  pub json_patch : JsonPatch Patch
  pub capture : Text → Result Text CapturedPage
  pub patch_message : PatchError → Text
  pub central_message : CentralError → Text

abbrev pub is_name_byte : ℕ → Bool
is_name_byte c =
    leb b'0' c && leb c b'9'
    || leb b'a' c && leb c b'z'
    || leb b'A' c && leb c b'Z'
    || c == b'.'
    || c == b'_'
    || c == b'-'

-- The names of webhooks and of types.
unfoldable pub is_name : Text → Bool
is_name name = not (is_empty name) && leb (length name) 64 && all is_name_byte name

abbrev pub is_item_id : Text → Bool
is_item_id id = not (is_empty id) && not (any (λ c. c == b'/') id) && is_valid id

abbrev pub generated_id : Moment → NoteId
generated_id moment = generate_with_rng moment.day moment.draws

abbrev pub insert_optional : Text → Option Text → Frontmatter → Frontmatter
insert_optional key none frontmatter = frontmatter
insert_optional key (some value) frontmatter =
    let kept = trim value in
    if is_empty kept then frontmatter else insert key (string kept) frontmatter

abbrev pub note_at : Unicode → NoteId → Frontmatter → Text → Note
note_at unicode id frontmatter body = record {
  path = canonical_note_path unicode id frontmatter;
  id = id;
  frontmatter = frontmatter;
  body = body;
}

abbrev pub page_fields : CapturedPage → Text → NoteId → Frontmatter
page_fields page time id = insert (text "created") (string time) (
    insert (text "id") (string id) (
      insert (text "source") (string (text "url")) (
        insert (text "tags") (sequence nil) (
          insert (text "title") (string page.title) (
            insert (text "type") (string (text "note"))
              (insert (text "url") (string page.url) []))))))

unfoldable pub captured_note : Unicode → CapturedPage → Moment → Result Text Note
captured_note unicode page moment = elim moment.created [
  | err e ↦ err e
  | ok time ↦
      let id = generated_id moment in
      ok (
        note_at unicode id
          (insert_optional (text "excerpt") page.excerpt (
            insert_optional (text "image") page.image (
              insert_optional (text "published") page.published (
                insert_optional (text "site") page.site
                  (insert_optional (text "author") page.author (page_fields page time id))))))
          page.body)
]

abbrev pub webhook_fields : Text → Text → NoteId → Frontmatter
webhook_fields source time id = insert (text "created") (string time) (
    insert (text "id") (string id) (
      insert (text "source") (string source) (
        insert (text "tags") (sequence (cons (string (text "source:" ++ source)) nil)) (
          insert (text "title") (string (text "Webhook: " ++ source))
            (insert (text "type") (string (text "webhook")) [])))))
