-- ===== src/Server/Patch.antt =====
-- `apply_item_patch` of crates/xo-syncd/src/server.rs: a JSON Patch of an item. The crates
-- `serde_json` and `json_patch` are parameters.
use exokephalos.Prelude.{
  Bool, not, ◌&&◌, Option, none, some, [], ◌∷◌, ◌++◌, is_empty, if◌then◌else◌,
}
use exokephalos.Prelude.Order.{same}
use exokephalos.Prelude.Result.{Result, ok, err, ok_or, map_err, ◌>>=◌}
use exokephalos.Prelude.Text.{Text, text, text_ord}
use exokephalos.Domain.{Frontmatter}

-- `serde_json::Value`
mutual
  pub data JsonValue : Type 0 where
    null : JsonValue
    boolean : Bool → JsonValue
    number json_string : Text → JsonValue
    array : JsonValues → JsonValue
    object : JsonFields → JsonValue

  pub data JsonValues : Type 0 where
    end_of_array : JsonValues
    element : JsonValue → JsonValues → JsonValues

  pub data JsonFields : Type 0 where
    end_of_object : JsonFields
    member : Text → JsonValue → JsonFields → JsonFields

pub record JsonPatch (Patch : Type 0) : Type 0 where
  pub to_value : Frontmatter → JsonValue
  pub from_value : JsonValue → Result Text Frontmatter
  pub patch : JsonValue → Patch → Result Text JsonValue

abbrev pub field_of : Text → JsonFields → Option JsonValue
field_of key end_of_object = none
field_of key (member k v fields) = if same k key then some v else field_of key fields

-- `document.get(key)`
abbrev pub get_field : Text → JsonValue → Option JsonValue
get_field key (object fields) = field_of key fields
get_field key null = none
get_field key (boolean b) = none
get_field key (number n) = none
get_field key (json_string s) = none
get_field key (array values) = none

abbrev pub as_array : Option JsonValue → Option JsonValues
as_array none = none
as_array (some (array values)) = some values
as_array (some null) = none
as_array (some (boolean b)) = none
as_array (some (number n)) = none
as_array (some (json_string s)) = none
as_array (some (object fields)) = none

abbrev pub as_str : JsonValue → Option Text
as_str (json_string s) = some s
as_str null = none
as_str (boolean b) = none
as_str (number n) = none
as_str (array values) = none
as_str (object fields) = none

pub data PatchError : Type 0 where
  not_applied invalid_frontmatter : Text → PatchError
  removed_frontmatter body_not_array body_not_strings : PatchError

-- One segment added to the body.
abbrev pub push_segment : Text → Text → Text
push_segment body segment =
    if not (is_empty body) && not (is_empty segment) then body ++ 10 ∷ segment else body ++ segment

unfoldable pub join_segments : Text → JsonValues → Result PatchError Text
join_segments body end_of_array = ok body
join_segments body (element value values) = elim (as_str value) [
  | none ↦ err body_not_strings
  | some segment ↦ join_segments (push_segment body segment) values
]

abbrev pub document_of : JsonValue → Text → JsonValue
document_of frontmatter body = object (
    member (text "body") (array (element (json_string body) end_of_array))
      (member (text "frontmatter") frontmatter end_of_object))

module _ {Patch : Type 0} (json : JsonPatch Patch) where
  unfoldable pub read_document : JsonValue → Result PatchError (Option Frontmatter × Option Text)
  read_document document = do
    value ← ok_or removed_frontmatter (get_field (text "frontmatter") document)
    frontmatter ← map_err invalid_frontmatter (json.from_value value)
    segments ← ok_or body_not_array (as_array (get_field (text "body") document))
    body ← join_segments [] segments
    ok (some frontmatter, some body)

  unfoldable pub apply_item_patch :
      Frontmatter → Text → Patch → Result PatchError (Option Frontmatter × Option Text)
  apply_item_patch frontmatter body patch = do
    document ← map_err not_applied (json.patch (document_of (json.to_value frontmatter) body) patch)
    read_document document
