-- ===== src/Records/Decode.antt =====
-- `decode_record` and `resolve_group` of records.rs: what is taken from one stored record of a note,
-- and from all of them.
use exokephalos.Prelude.{◌&&◌, Option, none, some, List, [], ◌∷◌, ◌++◌, if◌then◌else◌}
use exokephalos.Prelude.Map.{BTreeMap, get, insert}
use exokephalos.Prelude.Order.{same}
use exokephalos.Prelude.Paths.{split_at}
use exokephalos.Prelude.Result.{Result, ok, err, ensure, map_err, ◌>>=◌, ◌>>◌}
use exokephalos.Prelude.Text.{Text, text, text_ord}
use exokephalos.Domain.{
  ActorId, NoteId, RevisionId, NoteRevision, Head, validate_revision, validate_head, revision_id,
}
use exokephalos.Id
use exokephalos.Records.Keys.{
  RecordError, domain, graph, invalid_key, decoding, missing_revision, key_mismatch, verify_author,
}
use exokephalos.Resolution.{ResolvedNote, validate_revision_graph, resolve_heads}
use exokephalos.Workspace.{Codec}

pub record NoteRecords : Type 0 where
  pub revisions : BTreeMap RevisionId NoteRevision
  pub heads : List Head

abbrev pub no_records : NoteRecords
no_records = record { revisions = []; heads = [] }

module _ (codec : Codec) where
  unfoldable pub decode_revision :
      Text → Text → ActorId → NoteId → Text → NoteRecords → Result RecordError NoteRecords
  decode_revision key value stored_author note_id part group = do
    revision ← map_err decoding (codec.read_revision value)
    map_err domain (validate_revision revision)
    id ← map_err domain (revision_id codec.encoding revision)
    ensure (same revision.note_id note_id && same id part) (key_mismatch key)
    verify_author key revision.author_id stored_author
    ok (record group { revisions = insert id revision group.revisions })

  unfoldable pub decode_head :
      Text → Text → ActorId → NoteId → Text → NoteRecords → Result RecordError NoteRecords
  decode_head key value stored_author note_id part group = do
    head ← map_err decoding (codec.read_head value)
    map_err domain (validate_head head)
    ensure (same head.note_id note_id && same head.author_id part) (key_mismatch key)
    verify_author key head.author_id stored_author
    ok (record group { heads = group.heads ++ head ∷ [] })

  abbrev pub decode_kind :
      Text → Text → ActorId → NoteId → Text → Text → NoteRecords → Result RecordError NoteRecords
  decode_kind key value stored_author note_id kind part group =
      if same kind (text "revision")
      then decode_revision key value stored_author note_id part group
      else if same kind (text "head")
      then decode_head key value stored_author note_id part group
      else err (invalid_key key)

  abbrev pub decode_parts :
      List Text → Text → Text → ActorId → NoteId → NoteRecords → Result RecordError NoteRecords
  decode_parts (p ∷ note_id ∷ kind ∷ part ∷ []) key value stored_author expected group = do
    ensure (same p (text "note") && Id.is_valid note_id) (invalid_key key)
    ensure (same expected note_id) (key_mismatch key)
    decode_kind key value stored_author note_id kind part group
  decode_parts parts key value stored_author expected group = err (invalid_key key)

  -- All callers expect a note. The group is as it was where an error is returned.
  unfoldable pub decode_record :
      Text → Text → ActorId → NoteId → NoteRecords → Result RecordError NoteRecords
  decode_record key value stored_author expected group =
      decode_parts (split_at b'/' key) key value stored_author expected group

  -- The first head whose revision is not in the group.
  abbrev pub check_heads :
      BTreeMap RevisionId NoteRevision → List Head → Result RecordError (Unit {0})
  check_heads revisions [] = ok tt
  check_heads revisions (head ∷ heads) = elim (get head.revision_id revisions) [
    | none ↦ err (missing_revision head.revision_id)
    | some r ↦ check_heads revisions heads
  ]

  unfoldable pub resolve_group : NoteRecords → Result RecordError (Option ResolvedNote)
  resolve_group group = do
    map_err graph (validate_revision_graph codec.encoding group.revisions)
    check_heads group.revisions group.heads
    ok (resolve_heads group.revisions group.heads)
