-- ===== src/Records/Keys.antt =====
-- The keys of records.rs and its errors.
use exokephalos.Prelude.{
  not, ◌&&◌, ◌||◌, Option, none, some, List, [], ◌∷◌, ◌++◌, is_empty, if◌then◌else◌,
}
use exokephalos.Prelude.Order.{same}
use exokephalos.Prelude.Paths.{split_at}
use exokephalos.Prelude.Result.{Result, ensure}
use exokephalos.Prelude.Text.{Text, text, text_ord}
use exokephalos.Domain.{
  ActorId, NoteId, RevisionId, AssetId, DomainError, ConfigRevision, Tombstone,
}
use exokephalos.Id
use exokephalos.Resolution.{RevisionGraphError}

pub data RecordError : Type 0 where
  domain : DomainError → RecordError
  graph : RevisionGraphError → RecordError
  transport : Text → RecordError
  invalid_key : Text → RecordError
  encoding : Text → RecordError
  decoding : Text → RecordError
  missing_revision : RevisionId → RecordError
  key_mismatch : Text → RecordError
  author_mismatch : Text → RecordError
  missing_blob : AssetId → RecordError
  blob_mismatch : AssetId → RecordError
  missing_content : Text → RecordError
  content_mismatch : Text → RecordError

abbrev pub note_prefix : Text
note_prefix = text "note/"

abbrev pub asset_prefix : Text
asset_prefix = text "asset/"

abbrev pub asset_blob_prefix : Text
asset_blob_prefix = text "asset-blob/"

abbrev pub config_prefix : Text
config_prefix = text "config/"

abbrev pub config_blob_prefix : Text
config_blob_prefix = text "config-blob/"

abbrev pub tombstone_prefix : Text
tombstone_prefix = text "tombstone/"

abbrev pub revision_key : NoteId → RevisionId → Text
revision_key note_id revision_id = note_prefix ++ note_id ++ text "/revision/" ++ revision_id

abbrev pub head_key : NoteId → ActorId → Text
head_key note_id author_id = note_prefix ++ note_id ++ text "/head/" ++ author_id

abbrev pub asset_key : AssetId → Text
asset_key asset_id = asset_prefix ++ asset_id

abbrev pub asset_blob_key : AssetId → Text
asset_blob_key asset_id = asset_blob_prefix ++ asset_id

abbrev pub config_key : ConfigRevision → RevisionId → Text
config_key r revision_id = config_prefix ++ r.path ++ text "/" ++ revision_id

abbrev pub config_blob_key : RevisionId → Text
config_blob_key revision_id = config_blob_prefix ++ revision_id

abbrev pub tombstone_key : Tombstone → Text
tombstone_key r = tombstone_prefix ++ r.target_id ++ text "/" ++ r.author_id

unfoldable pub verify_author : Text → ActorId → ActorId → Result RecordError (Unit {0})
verify_author key claimed stored_author = ensure (same claimed stored_author) (author_mismatch key)

-- The four parts of a note's key, the third of them `revision` or `head`.
abbrev pub note_id_of_parts : List Text → Option NoteId
note_id_of_parts (p ∷ note_id ∷ kind ∷ id ∷ []) =
    if same p (text "note")
      && (Id.is_valid note_id
          && ((same kind (text "revision") || same kind (text "head")) && not (is_empty id)))
    then some note_id
    else none
note_id_of_parts parts = none

unfoldable pub note_id_from_key : Text → Option NoteId
note_id_from_key key = note_id_of_parts (split_at b'/' key)
