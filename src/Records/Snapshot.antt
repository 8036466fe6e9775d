-- ===== src/Records/Snapshot.antt =====
-- `deleted_notes` and `snapshot` of records.rs: all notes of a workspace at once.
use Prim.Native.Nat.{Ordering}
use exokephalos.Prelude.{Option, none, some, List, [], ◌∷◌, ◌++◌}
use exokephalos.Prelude.Effect.{Effect, return, lift, ◌>>=◌}
use exokephalos.Prelude.Map.{BTreeMap, get, insert, values}
use exokephalos.Prelude.Result.{Result, ok, err}
use exokephalos.Prelude.Sort.{sort_by}
use exokephalos.Prelude.Text.{Text, text, text_ord}
use exokephalos.Domain.{NoteId, Note, NoteRevision, Tombstone}
use exokephalos.Projection.Disk.{Diagnostic}
use exokephalos.Records.Decode.{NoteRecords, no_records, decode_record, resolve_group}
use exokephalos.Records.Keys.{RecordError, note_prefix, asset_prefix, note_id_from_key}
use exokephalos.Records.Listing.{list_assets, list_configs, list_tombstones}
use exokephalos.Records.{ProjectedAsset, ProjectedConfig, via, note_of}
use exokephalos.Resolution.{ResolvedNote}
use exokephalos.Workspace.{Workspace, AuthoredValue, Codec}

-- `WorkspaceSnapshot`
pub record Snapshot : Type 0 where
  pub notes : List Note
  pub resolved : List ResolvedNote
  pub assets : List ProjectedAsset
  pub configs : List ProjectedConfig
  pub tombstones : List Tombstone
  pub diagnostics : List Diagnostic

abbrev pub Groups : Type 0
Groups = BTreeMap NoteId NoteRecords

-- `groups.entry(id).or_default()`
abbrev pub group_of : Option NoteRecords → NoteRecords
group_of none = no_records
group_of (some group) = group

abbrev pub record_diagnostic : Text → Text → Diagnostic
record_diagnostic path message = record {
  path = path;
  code = text "invalid-record";
  message = message;
}

module _ (codec : Codec) where
  -- The first loop of `deleted_notes`: a key of no note is passed over, a bad record is an error.
  unfoldable pub gather_all : List AuthoredValue → Groups → Result RecordError Groups
  gather_all [] groups = ok groups
  gather_all (entry ∷ entries) groups = elim (note_id_from_key entry.key) [
    | none ↦ gather_all entries groups
    | some id ↦
        elim (decode_record codec entry.key entry.value entry.author id
          (group_of (get id groups))) [
            | err e ↦ err e
            | ok group ↦ gather_all entries (insert id group groups)
          ]
  ]

  abbrev pub deleted_note : NoteRecords → ResolvedNote → List Note → List Note
  deleted_note group resolved notes = elim resolved.visible [
    | some r ↦ notes
    | none ↦ elim (get resolved.winning_revision group.revisions) [
      | none ↦ notes
      | some r ↦ note_of r ∷ notes
    ]
  ]

  -- The second loop.
  unfoldable pub select_deleted : List NoteRecords → Result RecordError (List Note)
  select_deleted [] = ok []
  select_deleted (group ∷ groups) = elim (resolve_group codec group) [
    | err e ↦ err e
    | ok none ↦ select_deleted groups
    | ok (some resolved) ↦ elim (select_deleted groups) [
      | err e ↦ err e
      | ok notes ↦ ok (deleted_note group resolved notes)
    ]
  ]

  abbrev pub compare_ids : Note → Note → Ordering
  compare_ids a b = text_ord.order a.id b.id

  abbrev pub compare_paths : Note → Note → Ordering
  compare_paths a b = text_ord.order a.path b.path

  module _ (display : RecordError → Text) where
    -- The first loop of `snapshot`: a bad record leaves a diagnostic.
    unfoldable pub gather : List AuthoredValue → Groups → List Diagnostic → Groups × List Diagnostic
    gather [] groups diagnostics = (groups, diagnostics)
    gather (entry ∷ entries) groups diagnostics = elim (note_id_from_key entry.key) [
      | none ↦ gather entries groups (
          diagnostics
          ++ record_diagnostic entry.key
              (text "record key must be note/{note_id}/{revision|head}/{id}")
            ∷ [])
      | some id ↦
          let group = group_of (get id groups) in
          elim (decode_record codec entry.key entry.value entry.author id group) [
            | err e ↦
                gather entries (insert id group groups)
                  (diagnostics ++ record_diagnostic entry.key (display e) ∷ [])
            | ok group' ↦ gather entries (insert id group' groups) diagnostics
          ]
    ]

    abbrev pub shown : Option NoteRevision → List Note → List Note
    shown none notes = notes
    shown (some r) notes = notes ++ note_of r ∷ []

    -- One turn of the second loop.
    unfoldable pub add_group : NoteId → NoteRecords → Snapshot → Snapshot
    add_group id group s = elim (resolve_group codec group) [
      | ok none ↦ s
      | ok (some r) ↦ record s { notes = shown r.visible s.notes; resolved = s.resolved ++ r ∷ [] }
      | err e ↦ record s {
        diagnostics = s.diagnostics ++ record_diagnostic (note_prefix ++ id) (display e) ∷ [];
      }
    ]

    unfoldable pub add_groups : Groups → Snapshot → Snapshot
    add_groups [] s = s
    add_groups ((id, group) ∷ groups) s = add_groups groups (add_group id group s)

    abbrev pub add_assets : Result RecordError (List ProjectedAsset) → Snapshot → Snapshot
    add_assets (ok assets) s = record s { assets = assets }
    add_assets (err e) s = record s {
      diagnostics = s.diagnostics ++ record_diagnostic asset_prefix (display e) ∷ [];
    }

    abbrev pub resolve_entries : List AuthoredValue → Snapshot
    resolve_entries entries =
        let (groups, diagnostics) = gather entries [] [] in
        let s = add_groups groups (record {
          notes = [];
          resolved = [];
          assets = [];
          configs = [];
          tombstones = [];
          diagnostics = diagnostics;
        }) in
        record s { notes = sort_by compare_paths s.notes }

module _ {W : Type 0} (workspace : Workspace W) (codec : Codec) where
  unfoldable pub deleted_notes : Effect W RecordError (List Note)
  deleted_notes = do
    entries ← via (workspace.list_authored_records note_prefix)
    groups ← lift (gather_all codec entries [])
    notes ← lift (select_deleted codec (values groups))
    return (sort_by (compare_ids codec) notes)

  -- `match self.list_assets().await`, which is no `?`.
  abbrev pub try_assets : Effect W RecordError (Result RecordError (List ProjectedAsset))
  try_assets s = let (r, t) = list_assets workspace codec s in (ok r, t)

  unfoldable pub snapshot : (RecordError → Text) → Effect W RecordError Snapshot
  snapshot display = do
    entries ← via (workspace.list_authored_records note_prefix)
    assets ← try_assets
    configs ← list_configs workspace codec
    tombstones ← list_tombstones workspace codec
    return (record (add_assets codec display assets (resolve_entries codec display entries)) {
      configs = configs;
      tombstones = tombstones;
    })
