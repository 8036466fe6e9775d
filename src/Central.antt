-- ===== src/Central.antt =====
-- crates/xo-syncd/src/central.rs: the server's workspace, with the clients that are connected and
-- the operations on items. The locks are taken in turn, so an operation runs as a whole; the wall
-- clock is an argument.
pub mod Hex
pub mod Identity
pub mod Reopening
pub mod Restart
pub mod Items
pub mod Presence
pub mod Session
mod Examples
use exokephalos.Prelude.{
  ℕ, ◌+◌, ◌-◌, Bool, true, false, not, ◌&&◌, Option, none, some, List, [], ◌∷◌, ◌++◌, ◌==◌,
  if◌then◌else◌,
}
use exokephalos.Prelude.Effect.{Effect, return, fail, lift, gets, modify, ◌>>=◌, ◌>>◌}
use exokephalos.Prelude.Map.{BTreeMap, get, insert, remove, keys}
use exokephalos.Prelude.Order.{same}
use exokephalos.Prelude.Result.{Result, ok, err, map_err}
use exokephalos.Prelude.Set.{BTreeSet}
use exokephalos.Prelude.Text.{Text, text, text_ord}
use exokephalos.Domain.{
  NoteId, RevisionId, Note, NoteRevision, Conflict, Frontmatter, FrontmatterValue, string,
  current_schema,
}
use exokephalos.Hlc.{Hlc, HlcClock, next}
use exokephalos.Markdown.{Unicode, canonical_note_path}
use exokephalos.Records.Keys.{RecordError}
use exokephalos.Records.{commit_revision, load_note}
use exokephalos.Resolution.{ResolvedNote}
use exokephalos.Resolution.Supersede.{predecessors_of}
use exokephalos.Workspace.{Workspace, Codec}

pub data WorkspaceNotification : Type 0 where
  document_changed presence_changed : WorkspaceNotification

-- `CentralWorkspace`; the notifications are those that were sent, the last one at the end.
pub record CentralWorkspace (W : Type 0) : Type 0 where
  pub workspace_id : Text
  pub replica : W
  pub clock : HlcClock
  pub clients : BTreeMap Text ℕ
  pub notifications : List WorkspaceNotification

-- What `anyhow` carries here.
pub data CentralError : Type 0 where
  record_error : RecordError → CentralError
  wall_clock : Text → CentralError
  id_mismatch : CentralError

abbrev pub revision_note : NoteRevision → Note
revision_note revision = record {
  id = revision.note_id;
  frontmatter = revision.frontmatter;
  body = revision.body;
  path = revision.materialized_path;
}

abbrev pub count_of : Option ℕ → ℕ
count_of none = 0
count_of (some n) = n

-- `count.saturating_sub(1)`, and the entry goes at 0.
abbrev pub fewer : Text → Option ℕ → BTreeMap Text ℕ → BTreeMap Text ℕ
fewer client_id none clients = clients
fewer client_id (some n) clients =
    if n - 1 == 0 then remove client_id clients else insert client_id (n - 1) clients

abbrev pub visible_of : Option ResolvedNote → Option NoteRevision
visible_of none = none
visible_of (some resolved) = resolved.visible

abbrev pub note_or_none : Option NoteRevision → Option Note
note_or_none none = none
note_or_none (some revision) = some (revision_note revision)

abbrev pub unwrap_or : {A : Type 0} → A → Option A → A
unwrap_or a none = a
unwrap_or a (some b) = b

abbrev pub is_id_of : NoteId → Option FrontmatterValue → Bool
is_id_of note_id none = true
is_id_of note_id (some (string s)) = same s note_id
is_id_of note_id (some other) = false

abbrev pub patched : NoteId → Option Frontmatter → Option Text → NoteRevision → Note
patched note_id frontmatter body existing = record {
  id = note_id;
  frontmatter = unwrap_or existing.frontmatter frontmatter;
  body = unwrap_or existing.body body;
  path = existing.materialized_path;
}

module _ {W : Type 0} where
  abbrev pub notify :
      {E : Type 0} → WorkspaceNotification → Effect (CentralWorkspace W) E (Unit {0})
  notify n = modify (λ s. record s { notifications = s.notifications ++ n ∷ [] })

  -- A call of the repository, which changes the replica.
  abbrev pub on_replica :
      {A : Type 0} → Effect W RecordError A → Effect (CentralWorkspace W) CentralError A
  on_replica m s = let (r, t) = m s.replica in (map_err record_error r, record s { replica = t })

  -- `self.clock.lock().await.next(now)`
  abbrev pub next_hlc : ℕ → Effect (CentralWorkspace W) CentralError Hlc
  next_hlc now s = let (c, hlc) = next s.clock now in (ok hlc, record s { clock = c })

  unfoldable pub client_ids : CentralWorkspace W → List Text
  client_ids s = keys s.clients

  unfoldable pub add_client : Text → CentralWorkspace W → CentralWorkspace W
  add_client client_id s = record s {
    clients = insert client_id (count_of (get client_id s.clients) + 1) s.clients;
    notifications = s.notifications ++ presence_changed ∷ [];
  }

  unfoldable pub remove_client : Text → CentralWorkspace W → CentralWorkspace W
  remove_client client_id s = record s {
    clients = fewer client_id (get client_id s.clients) s.clients;
    notifications = s.notifications ++ presence_changed ∷ [];
  }

module _ {W : Type 0} (workspace : Workspace W) (codec : Codec) (unicode : Unicode)
    (now : Result Text ℕ) where
  abbrev pub revision_of : Note → Hlc → BTreeSet RevisionId → Bool → NoteRevision
  revision_of note hlc predecessors deleted = record {
    schema = current_schema;
    note_id = note.id;
    frontmatter = note.frontmatter;
    body = note.body;
    materialized_path = canonical_note_path unicode note.id note.frontmatter;
    hlc = hlc;
    author_id = workspace.record_actor_id;
    predecessors = predecessors;
    deleted = deleted;
  }

  -- The timestamp, the revision and the notification, which `create_item` and `commit_item` share.
  unfoldable pub commit_note :
      Note → BTreeSet RevisionId → Bool → Effect (CentralWorkspace W) CentralError (Unit {0})
  commit_note note predecessors deleted = do
    ms ← lift (map_err wall_clock now)
    hlc ← next_hlc ms
    id ← on_replica (commit_revision workspace codec (revision_of note hlc predecessors deleted))
    notify document_changed

  unfoldable pub create_item : Note → Effect (CentralWorkspace W) CentralError Bool
  create_item note = do
    found ← on_replica (load_note workspace codec note.id)
    elim found [ some resolved ↦ return false | none ↦ do commit_note note [] false; return true ]

  unfoldable pub item : NoteId → Effect (CentralWorkspace W) CentralError (Option Note)
  item note_id = do
    found ← on_replica (load_note workspace codec note_id)
    return (note_or_none (visible_of found))

  unfoldable pub commit_item :
      Note
      → Bool
      → RevisionId
      → Option Conflict
      → Effect (CentralWorkspace W) CentralError (Unit {0})
  commit_item note deleted winner conflict =
      commit_note note (predecessors_of winner conflict) deleted

  unfoldable pub patch_item :
      NoteId
      → Option Frontmatter
      → Option Text
      → Effect (CentralWorkspace W) CentralError (Option Note)
  patch_item note_id frontmatter body = do
    found ← on_replica (load_note workspace codec note_id)
    elim found [
      | none ↦ return none
      | some resolved ↦ elim resolved.visible [
        | none ↦ return none
        | some existing ↦ do
          let note : Note = patched note_id frontmatter body existing
          lift (
              if is_id_of note_id (get (text "id") note.frontmatter)
              then ok tt
              else err id_mismatch)
          commit_item note false resolved.winning_revision resolved.conflict
          return (some note)
      ]
    ]

  unfoldable pub delete_item : NoteId → Effect (CentralWorkspace W) CentralError Bool
  delete_item note_id = do
    found ← on_replica (load_note workspace codec note_id)
    elim found [
      | none ↦ return false
      | some resolved ↦ elim resolved.visible [
        | none ↦ return false
        | some revision ↦ do
          commit_item (revision_note revision) true resolved.winning_revision resolved.conflict
          return true
      ]
    ]
