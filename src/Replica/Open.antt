-- ===== src/Replica/Open.antt =====
-- `create`, `load` and `open_or_create` of automerge_store.rs and `open` of central_replica.rs: how a
-- replica comes back from its file. Automerge is the parameter; making the directory is left out.
use exokephalos.Prelude.{ℕ, Bool, false, Option, none, some, List, [], ◌==◌, if◌then◌else◌}
use exokephalos.Prelude.Effect.{Effect}
use exokephalos.Prelude.Order.{same}
use exokephalos.Prelude.Result.{Result, ok, err, map_err, ensure, ok_or, ◌>>=◌, ◌>>◌}
use exokephalos.Prelude.Text.{Text, text, text_ord}
use exokephalos.Replica.{
  Value, str, uint, Automerge, StoreError, automerge, missing_workspace_id, invalid_metadata,
  Replica, DiskFaults, flush,
}

abbrev pub workspace_id_key : Text
workspace_id_key = text "$xo.workspace-id"

abbrev pub schema_key : Text
schema_key = text "$xo.schema"

abbrev pub record_schema : ℕ
record_schema = 1

-- `AutoCommit::new().with_actor`, `AutoCommit::load` and `set_actor`.
pub record AutomergeFiles (D : Type 0) : Type 0 where
  pub new_with_actor : List ℕ → D
  pub load_document : Text → Result Text D
  pub set_actor : List ℕ → D → D

-- Why opening fails: reading the file, loading it, creating the document, another workspace's
-- document, and writing it back.
pub data OpenError : Type 0 where
  unreadable unflushed mismatched : Text → OpenError
  unloadable uncreated : StoreError → OpenError

abbrev pub as_string : Option Value → Option Text
as_string (some (str s)) = some s
as_string v = none

abbrev pub has_schema : Option Value → Bool
has_schema (some (uint n)) = n == record_schema
has_schema v = false

module _ {D : Type 0} (doc : Automerge D) (files : AutomergeFiles D) where
  -- `AutomergeRecordStore::create`
  unfoldable pub create : Text → List ℕ → Result StoreError D
  create workspace_id actor = do
    named ←
        map_err automerge (doc.put workspace_id_key (str workspace_id) (files.new_with_actor actor))
    document ← map_err automerge (doc.put schema_key (uint record_schema) named)
    ok (doc.commit document)

  -- `AutomergeRecordStore::load`: the document with the identifier of its workspace.
  unfoldable pub load : Text → List ℕ → Result StoreError (D × Text)
  load content actor = do
    loaded ← map_err automerge (files.load_document content)
    let document = files.set_actor actor loaded
    found ← map_err automerge (doc.get workspace_id_key document)
    workspace_id ← ok_or missing_workspace_id (as_string found)
    schema ← map_err automerge (doc.get schema_key document)
    ensure (has_schema schema) invalid_metadata
    ok (document, workspace_id)

  abbrev pub load_or_create :
      Option Text → Text → List ℕ → Option Text → Result OpenError (D × Text)
  load_or_create (some e) workspace_id actor file = err (unreadable e)
  load_or_create none workspace_id actor (some content) = map_err unloadable (load content actor)
  load_or_create none workspace_id actor none = do
    document ← map_err uncreated (create workspace_id actor)
    ok (document, workspace_id)

  abbrev pub opened :
      Result Text (Unit {0}) × Replica D → Result OpenError (Replica D) × Option Text
  opened (ok u, s) = (ok s, s.saved)
  opened (err e, s) = (err (unflushed e), s.saved)

  abbrev pub check_and_flush :
      DiskFaults
      → Text
      → Option Text
      → Result OpenError (D × Text)
      → Result OpenError (Replica D) × Option Text
  check_and_flush faults workspace_id file (err e) = (err e, file)
  check_and_flush faults workspace_id file (ok (document, found)) =
      let s : Replica D = record {
        document = document;
        saved = file;
        events = [];
        connected_clients = [];
      } in
      if same found workspace_id
      then opened (flush doc (λ e. []) faults s)
      else (err (mismatched found), file)

  -- `PersistentAutomergeStore::open_or_create` and `CentralReplica::open`, on the file
  -- `document.automerge`.
  unfoldable pub open_or_create :
      Option Text → DiskFaults → Text → List ℕ → Effect (Option Text) OpenError (Replica D)
  open_or_create read_fault faults workspace_id actor file =
      check_and_flush faults workspace_id file (load_or_create read_fault workspace_id actor file)
