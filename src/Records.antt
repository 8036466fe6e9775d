-- ===== src/Records.antt =====
-- crates/xo-core/src/records.rs: the typed records of a workspace, over the workspace as an
-- interface. A key is taken to be UTF-8, and `display` is the text of an error.
pub mod Keys
pub mod Assets
pub mod Commit
pub mod Configs
pub mod Decode
pub mod Examples
pub mod Isolation
pub mod Listing
pub mod Snapshot
use exokephalos.Prelude.{
  ℕ, Bool, true, false, not, ◌&&◌, ◌||◌, Option, none, some, List, [], ◌∷◌, ◌++◌, map, is_empty,
  length, ◌==◌, if◌then◌else◌,
}
use Prim.Native.Nat.{Ordering}
use exokephalos.Prelude.Effect.{
  Effect, return, fail, lift, gets, modify, for_each, continue, ◌>>=◌, ◌>>◌,
}
use exokephalos.Prelude.Map.{BTreeMap, get, insert, values}
use exokephalos.Prelude.Order.{same, then_with, is_gt}
use exokephalos.Prelude.Paths.{split_at}
use exokephalos.Prelude.Result.{Result, ok, err, ensure, map_err, ok_or}
use exokephalos.Prelude.Set.{BTreeSet}
use exokephalos.Prelude.Sort.{sort_by}
use exokephalos.Prelude.Text.{Text, text, text_ord}
use exokephalos.Domain.{
  ActorId, NoteId, RevisionId, AssetId, Note, NoteRevision, Head, AssetRecord, ConfigRevision,
  Tombstone, current_schema, validate_revision, validate_asset, validate_config, validate_head,
  validate_tombstone, canonical_bytes, revision_id, config_id,
}
use exokephalos.Hlc.{Hlc, compare_hlc}
use exokephalos.Records.Decode.{NoteRecords, no_records, decode_record, resolve_group}
use exokephalos.Records.Keys.{
  RecordError, domain, transport, encoding, decoding, missing_revision, key_mismatch,
  author_mismatch, missing_blob, blob_mismatch, missing_content, content_mismatch, note_prefix,
  asset_prefix, config_prefix, tombstone_prefix, revision_key, head_key, asset_key, asset_blob_key,
  config_key, config_blob_key, tombstone_key, verify_author, note_id_from_key,
}
use exokephalos.Resolution.{ResolvedNote}
use exokephalos.Workspace.{Workspace, AuthoredValue, Codec}

pub record ProjectedAsset : Type 0 where
  pub asset : AssetRecord
  pub bytes : Text

pub record ProjectedConfig : Type 0 where
  pub revision_id : RevisionId
  pub config : ConfigRevision
  pub bytes : Text

-- `?` on a result of the workspace.
abbrev pub via : {W A : Type 0} → Effect W Text A → Effect W RecordError A
via m s = let (r, t) = m s in (map_err transport r, t)

-- The note that a revision shows.
abbrev pub note_of : NoteRevision → Note
note_of r = record {
  id = r.note_id;
  frontmatter = r.frontmatter;
  body = r.body;
  path = r.materialized_path;
}

module _ {W : Type 0} (workspace : Workspace W) (codec : Codec) where
  abbrev pub actor_id : ActorId
  actor_id = workspace.record_actor_id

  unfoldable pub ensure_local_author : ActorId → Effect W RecordError (Unit {0})
  ensure_local_author author = lift (verify_author (text "local write") author actor_id)

  unfoldable pub put_revision : NoteRevision → Effect W RecordError RevisionId
  put_revision revision = do
    ensure_local_author revision.author_id
    id ← lift (map_err domain (revision_id codec.encoding revision))
    bytes ← lift (map_err domain (canonical_bytes codec.encoding revision))
    h ← via (workspace.put_record (revision_key revision.note_id id) bytes)
    return id

  unfoldable pub set_head : Head → Effect W RecordError (Unit {0})
  set_head head = do
    lift (map_err domain (validate_head head))
    lift (
        ensure (same head.author_id actor_id)
          (author_mismatch (head_key head.note_id head.author_id)))
    found ← via (workspace.get_record (revision_key head.note_id head.revision_id))
    lift (ok_or (missing_revision head.revision_id) found)
    bytes ← lift (map_err encoding (codec.write_head head))
    h ← via (workspace.put_record (head_key head.note_id head.author_id) bytes)
    return tt

  unfoldable pub commit_revision : NoteRevision → Effect W RecordError RevisionId
  commit_revision revision = do
    id ← put_revision revision
    set_head
        (record { note_id = revision.note_id; author_id = revision.author_id; revision_id = id })
    return id

  -- `decode_record(...)?` of all the entries of one note.
  unfoldable pub decode_all :
      NoteId → List AuthoredValue → NoteRecords → Result RecordError NoteRecords
  decode_all note_id [] group = ok group
  decode_all note_id (entry ∷ entries) group =
      elim (decode_record codec entry.key entry.value entry.author note_id group) [
        | ok group' ↦ decode_all note_id entries group'
        | err e ↦ err e
      ]

  unfoldable pub load_group : NoteId → Effect W RecordError NoteRecords
  load_group note_id = do
    entries ← via (workspace.list_authored_records (note_prefix ++ note_id ++ text "/"))
    lift (decode_all note_id entries no_records)

  unfoldable pub load_note : NoteId → Effect W RecordError (Option ResolvedNote)
  load_note note_id = do group ← load_group note_id; lift (resolve_group codec group)

  abbrev pub compare_history : RevisionId × NoteRevision → RevisionId × NoteRevision → Ordering
  compare_history a b = then_with (compare_hlc a.1.hlc b.1.hlc) (text_ord.order a.0 b.0)

  unfoldable pub revision_history : NoteId → Effect W RecordError (List (RevisionId × NoteRevision))
  revision_history note_id = do
    group ← load_group note_id
    return (sort_by compare_history group.revisions)

  unfoldable pub get_revision : NoteId → RevisionId → Effect W RecordError (Option NoteRevision)
  get_revision note_id id = do
    found ← via (workspace.get_authored_record (revision_key note_id id))
    elim found [
      | none ↦ return none
      | some entry ↦ do
        revision ← lift (map_err decoding (codec.read_revision entry.value))
        lift (map_err domain (validate_revision revision))
        lift (ensure (same revision.note_id note_id) (key_mismatch (revision_key note_id id)))
        own_id ← lift (map_err domain (revision_id codec.encoding revision))
        lift (ensure (same own_id id) (key_mismatch (revision_key note_id id)))
        lift (verify_author (revision_key note_id id) revision.author_id entry.author)
        return (some revision)
    ]

  -- The blob is stored before the record is checked.
  unfoldable pub put_asset : AssetId → Text → Text → Text → Effect W RecordError AssetRecord
  put_asset id mime materialized_path bytes = do
    blob_hash ← via (workspace.put_blob_record (asset_blob_key id) bytes)
    let asset : AssetRecord = record {
      schema = current_schema;
      id = id;
      blob_hash = blob_hash;
      mime = mime;
      size = length bytes;
      materialized_path = materialized_path;
    }
    lift (map_err domain (validate_asset asset))
    encoded ← lift (map_err encoding (codec.write_asset asset))
    h ← via (workspace.put_record (asset_key id) encoded)
    return asset

  abbrev pub check_blob :
      AssetId → AssetRecord → Option Text → Result RecordError (Option ProjectedAsset)
  check_blob id asset none = err (missing_blob id)
  check_blob id asset (some bytes) =
      if length bytes == asset.size && same (codec.encoding.hash bytes) asset.blob_hash
      then ok (some (record { asset = asset; bytes = bytes }))
      else err (blob_mismatch id)

  unfoldable pub get_asset : AssetId → Effect W RecordError (Option ProjectedAsset)
  get_asset id = do
    found ← via (workspace.get_record (asset_key id))
    elim found [
      | none ↦ return none
      | some value ↦ do
        asset ← lift (map_err decoding (codec.read_asset value))
        lift (map_err domain (validate_asset asset))
        lift (ensure (same asset.id id) (key_mismatch (asset_key id)))
        blob ← via (workspace.get_record (asset_blob_key id))
        lift (check_blob id asset blob)
    ]
