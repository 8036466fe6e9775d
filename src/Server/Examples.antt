-- ===== src/Server/Examples.antt =====
-- A small server, tests, and instances of what is proved of server.rs and llm.rs.
use exokephalos.Prelude.{
  ℕ, ◌≡◌, ◌≤◌, ◌<◌, ◌↔◌, refl, ◌⊎◌, true, false, none, some, List, [], ◌∷◌, ◌++◌, length, replicate,
  if◌then◌else◌,
}
use exokephalos.Prelude.Int.{pos}
use exokephalos.Prelude.Order.{same, compare_lists}
use exokephalos.Prelude.Result.{ok, err}
use exokephalos.Prelude.Text.{Text, text, text_ord}
use exokephalos.ApiKeys.{KeyCodec}
use exokephalos.Auth.{TokenReader, oidc, rs256}
use exokephalos.Markdown.Examples.{ascii}
use exokephalos.Records.Examples.{sample, Store, store_of}
use exokephalos.Server.{Server, Site, handle}
use exokephalos.Server.Body.{content_of, read_body_limited_iff}
use exokephalos.Server.Checks.{Access, Guards, api_keys_create}
use exokephalos.Server.Fence.{markdown_fence, markdown_fence_lem, separator}
use exokephalos.Server.Guard.{Guarded, handle-Guarded}
use exokephalos.Server.Http.{
  Incoming, Request, post_method, chunk, trailers, is_above, max_api_body_size, read_body_limited,
}
use exokephalos.Server.Notes.{Moment, ItemCodecs}
use exokephalos.Server.Patch.{
  JsonValue, JsonPatch, null, json_string, array, element, end_of_array, object, apply_item_patch,
  document_of,
}
use exokephalos.Server.Route.{route_of}
use exokephalos.Server.Segments.{values_of, apply_item_patch_lem}
use exokephalos.Server.Creation.{Created, api_keys_create-Created}

abbrev same_text : Text → Text
same_text s = s

abbrev two_frames : Incoming
two_frames = record {
  upper = some 3;
  frames = chunk (text "ab") ∷ trailers ∷ chunk (text "c") ∷ [];
}

read_body_limited_iff_example : (read_body_limited same_text two_frames ≡ ok (text "abc")) ↔ (
    (is_above two_frames.upper ≡ false)
    × (content_of two_frames.frames ≡ some (text "abc"))
    × (length (text "abc") ≤ max_api_body_size))
read_body_limited_iff_example = read_body_limited_iff same_text two_frames (text "abc")

markdown_fence_lem_example :
    (k : ℕ) × (3 ≤ k)
    × (markdown_fence (text "yaml") (text "a```b")
        ≡ replicate k b'`'
          ++ text "yaml"
          ++ 10 ∷ (text "a```b" ++ separator (text "a```b") ++ replicate k b'`' ++ 10 ∷ []))
    × ((a b : Text) (n : ℕ) → text "a```b" ≡ a ++ replicate n b'`' ++ b → n < k)
markdown_fence_lem_example = markdown_fence_lem (text "yaml") (text "a```b")

-- A patch is the body that it sets.
abbrev toy_patch : JsonPatch (List Text)
toy_patch = record {
  to_value = λ f. null;
  from_value = λ v. ok [];
  patch = λ document p. ok (
      exokephalos.Server.Patch.object (
        exokephalos.Server.Patch.member (text "frontmatter") null (
          exokephalos.Server.Patch.member (text "body") (array (values_of p))
            exokephalos.Server.Patch.end_of_object)));
}

apply_item_patch_lem_example :
    apply_item_patch toy_patch [] (text "old") (text "a" ∷ [] ∷ text "b" ∷ [])
    ≡ ok (some [], some (text "a" ++ 10 ∷ text "b"))
unfolding compare_lists
apply_item_patch_lem_example =
    apply_item_patch_lem toy_patch [] (text "old") (text "a" ∷ [] ∷ text "b" ∷ [])
      (object (
        exokephalos.Server.Patch.member (text "frontmatter") null (
          exokephalos.Server.Patch.member (text "body")
            (array (values_of (text "a" ∷ [] ∷ text "b" ∷ [])))
            exokephalos.Server.Patch.end_of_object)))
      null [] (text "a" ∷ [] ∷ text "b" ∷ []) refl refl refl refl

abbrev toy_keys : KeyCodec
toy_keys = record {
  to_vec_pretty = λ keys. ok [];
  from_slice = λ bytes. ok [];
  sha256 = λ token. [];
}

-- The issuer has one key; the token of Ann may read.
abbrev toy_reader : TokenReader Text Text
toy_reader = record {
  decode_header = λ token. ok (record { alg = rs256; kid = some (text "k") });
  find = λ kid keys. some keys;
  decode = λ token jwk alg issuer audience.
      ok (record { sub = text "ann"; scope = text "xo:read"; permissions = [] });
  fetch = λ uri. err (text "offline");
}

abbrev guards : Guards Text Text
guards = record {
  reader = toy_reader;
  key_codec = toy_keys;
  auth = oidc (record { issuer = text "i"; audience = text "a"; jwks_uri = text "u" });
  json = record {
    error_json = same_text;
    metadata_json = λ keys. ok [];
    created_json = λ key. ok key.token;
    read_create_key = λ bytes. ok (text "ci", text "xo:read" ∷ []);
  };
  auth_message = λ e. text "denied";
  key_message = λ e. text "no key";
  random = 1 ∷ [];
  now = pos 1;
  save_fault = none;
}

abbrev posted : Text → Request
posted path = record {
  method = post_method;
  path = path;
  header = λ name.
      if same name (text "authorization")
      then some (text "Bearer tok")
      else if same name (text "content-type")
      then some (text "application/json")
      else none;
  header_bytes = λ name. none;
  headers = [];
  body = two_frames;
}

abbrev access : Access Text
access = record { keys = text "old"; api_keys = record { keys = []; file = none } }

api_keys_create-Created_example :
    ((api_keys_create guards (posted (text "/api/api-keys")) access).1.api_keys ≡ access.api_keys)
    ⊎ Created guards
        (posted (text "/api/api-keys"))
        access
        (api_keys_create guards (posted (text "/api/api-keys")) access).1
api_keys_create-Created_example =
    api_keys_create-Created guards (posted (text "/api/api-keys")) access

abbrev codecs : ItemCodecs (List Text)
codecs = record {
  error_json = same_text;
  id_json = same_text;
  note_json = λ note. ok note.body;
  item_json = λ frontmatter body. ok body;
  read_url = λ bytes. ok bytes;
  read_typed_item = λ bytes. ok ([], bytes);
  read_patch_item = λ bytes. ok (none, some bytes);
  read_patch = λ bytes. ok (bytes ∷ []);
  headers_yaml = λ headers. ok [];
  from_slice = λ bytes. err [];
  value_yaml = λ value. ok [];
  is_utf8 = λ bytes. true;
  from_utf8_lossy = same_text;
  json_patch = toy_patch;
  capture = λ url. err (text "offline");
  patch_message = λ e. text "no patch";
  central_message = λ e. text "failed";
}

abbrev moment : Moment
moment = record { day = pos 5; draws = 1 ∷ 2 ∷ 3 ∷ 4 ∷ []; created = ok (text "now"); wall = ok 7 }

abbrev site : Site
site = record {
  document = text "Base URL: {{BASE_URL}}";
  embedded = [];
  config_json = ok [];
  disabled_json = ok [];
  accept_key = same_text;
}

abbrev server : Server Store Text
server = record {
  central = record {
    workspace_id = text "workspace-1";
    replica = [];
    clock = record { physical_ms = 0; logical = 0; actor_id = text "device-a" };
    clients = [];
    notifications = [];
  };
  access = access;
  sockets = 0;
}

handle-Guarded_example :
    Guarded
      (store_of sample)
      sample
      ascii
      codecs
      moment
      guards
      site
      (posted (text "/api/items"))
      (route_of post_method (text "/api/items"))
      server
      (handle
        (store_of sample)
        sample
        ascii
        codecs
        moment
        guards
        site
        (posted (text "/api/items"))
        server).1
handle-Guarded_example =
    handle-Guarded (store_of sample) sample ascii codecs moment guards site
      (posted (text "/api/items")) server
