-- ===== src/Replica.antt =====
-- crates/xo-core/src/automerge_store.rs and crates/xo-core/src/central_replica.rs: the records of a
-- workspace in one Automerge document, which every change writes to disk as a whole. The document is
-- a parameter, and so are the failures of writing, `faults`.
pub mod Store
pub mod Listing
pub mod Open
pub mod Reopen
pub mod Examples
use exokephalos.Prelude.{
  ℕ, Bool, true, false, not, ◌&&◌, Option, none, some, List, [], ◌∷◌, ◌++◌, map, if◌then◌else◌,
}
use exokephalos.Prelude.Effect.{
  Effect, return, fail, lift, gets, modify, for_each, continue, ◌>>=◌, ◌>>◌,
}
use exokephalos.Prelude.Map.{BTreeMap, insert}
use exokephalos.Prelude.Order.{same}
use exokephalos.Prelude.Result.{Result, ok, err, map_err}
use exokephalos.Prelude.Sort.{sort_by}
use exokephalos.Prelude.Text.{Text, text, text_ord, starts_with}
use exokephalos.Domain.{ActorId}
use exokephalos.Workspace.{Workspace, AuthoredValue, Codec, record_author}
use exokephalos.Workspace.Laws.{or_else, authored}

-- The scalars that a document may hold under a key, and objects.
pub data Value : Type 0 where
  bytes : Text → Value
  str : Text → Value
  uint : ℕ → Value
  object : Value

-- `AutoCommit`, at the root of its tree.
pub record Automerge (D : Type 0) : Type 0 where
  pub put : Text → Value → D → Result Text D
  pub commit : D → D
  pub get : Text → D → Result Text (Option Value)
  pub keys : D → List Text
  pub save : D → Text

-- `AutomergeStoreError`
pub data StoreError : Type 0 where
  automerge : Text → StoreError
  missing_workspace_id : StoreError
  invalid_record_value : Text → StoreError
  invalid_metadata : StoreError

pub data ReplicaEvent : Type 0 where
  content_changed status_changed : ReplicaEvent

-- `AutomergeRecordStore`, `PersistentAutomergeStore` and `CentralReplica` as one state: the document
-- in memory, the bytes on disk, the events that were sent and the clients.
pub record Replica (D : Type 0) : Type 0 where
  pub document : D
  pub saved : Option Text
  pub events : List ReplicaEvent
  pub connected_clients : List Text

abbrev pub as_bytes : Text → Option Value → Result StoreError (Option Text)
as_bytes key none = ok none
as_bytes key (some (bytes b)) = ok (some b)
as_bytes key (some v) = err (invalid_record_value key)

-- With which message writing the new file and renaming it fails, and with which syncing the
-- directory afterwards, if they do.
pub record DiskFaults : Type 0 where
  pub writing : Option Text
  pub syncing : Option Text

abbrev pub done_or_failed : Option Text → Result Text (Unit {0})
done_or_failed none = ok tt
done_or_failed (some e) = err e

-- `Vec::dedup`: of equal neighbours, the first.
unfoldable pub dedup_from : Text → List Text → List Text
dedup_from x [] = []
dedup_from x (y ∷ ys) = let rest = dedup_from y ys in if same x y then rest else y ∷ rest

abbrev pub dedup : List Text → List Text
dedup [] = []
dedup (x ∷ xs) = x ∷ dedup_from x xs

module _ {D : Type 0} (automerge_doc : Automerge D) where
  -- `AutomergeRecordStore::put`
  unfoldable pub store_put : Text → Text → Effect (Replica D) StoreError (Unit {0})
  store_put key value s = elim (automerge_doc.put key (bytes value) s.document) [
    | err e ↦ (err (automerge e), s)
    | ok d ↦ (ok tt, record s { document = automerge_doc.commit d })
  ]

  -- `AutomergeRecordStore::get`
  unfoldable pub store_get : Text → D → Result StoreError (Option Text)
  store_get key d = elim (automerge_doc.get key d) [
    | err e ↦ err (automerge e)
    | ok value ↦ as_bytes key value
  ]

  abbrev pub is_scanned : Text → Text → Bool
  is_scanned prefix key = not (starts_with (text "$xo.") key) && starts_with prefix key

  abbrev pub found : Text → Result StoreError (Option Text) → Result StoreError Text
  found key (ok (some value)) = ok value
  found key (ok none) = err (invalid_record_value key)
  found key (err e) = err e

  abbrev pub add_found :
      Text
      → Result StoreError Text
      → Result StoreError (BTreeMap Text Text)
      → Result StoreError (BTreeMap Text Text)
  add_found key (err e) rest = err e
  add_found key (ok value) (err e) = err e
  add_found key (ok value) (ok m) = ok (insert key value m)

  unfoldable pub scan_keys : Text → D → List Text → Result StoreError (BTreeMap Text Text)
  scan_keys prefix d [] = ok []
  scan_keys prefix d (key ∷ keys) =
      let rest = scan_keys prefix d keys in
      if is_scanned prefix key then add_found key (found key (store_get key d)) rest else rest

  -- `AutomergeRecordStore::scan`
  unfoldable pub scan : Text → D → Result StoreError (BTreeMap Text Text)
  scan prefix d = scan_keys prefix d (automerge_doc.keys d)

  module _ (display : StoreError → Text) (faults : DiskFaults) where
    -- `PersistentAutomergeStore::flush` and `atomic_write`: until the rename the file is as it was.
    unfoldable pub flush : Effect (Replica D) Text (Unit {0})
    flush s = elim faults.writing [
      | some e ↦ (err e, s)
      | none ↦
          (done_or_failed faults.syncing, record s { saved = some (automerge_doc.save s.document) })
    ]

    abbrev pub display_error :
        {A : Type 0} → Effect (Replica D) StoreError A → Effect (Replica D) Text A
    display_error m s = let (r, t) = m s in (map_err display r, t)

    -- `PersistentAutomergeStore::put`
    unfoldable pub persistent_put : Text → Text → Effect (Replica D) Text (Unit {0})
    persistent_put key value = do display_error (store_put key value); flush

    module _ (hash : Text → Text) (actor : ActorId) (codec : Codec) where
      unfoldable pub put_record : Text → Text → Effect (Replica D) Text Text
      put_record key value = do
        persistent_put key value
        modify (λ s. record s { events = s.events ++ content_changed ∷ [] })
        return (hash value)

      unfoldable pub get_record : Text → Effect (Replica D) Text (Option Text)
      get_record key s = (map_err display (store_get key s.document), s)

      unfoldable pub get_authored_record : Text → Effect (Replica D) Text (Option AuthoredValue)
      get_authored_record key = do value ← get_record key; return (authored actor codec key value)

      unfoldable pub list_authored_records : Text → Effect (Replica D) Text (List AuthoredValue)
      list_authored_records prefix = do
        entries ← (λ s. (map_err display (scan prefix s.document), s))
        return (
            map
              (λ e. record {
                key = e.0;
                value = e.1;
                author = or_else actor (record_author codec e.0 e.1);
              })
              entries)

      unfoldable pub list_records : Text → Effect (Replica D) Text (List (Text × Text))
      list_records prefix = do
        entries ← list_authored_records prefix
        return (map (λ e. (e.key, e.value)) entries)

      -- `impl RecordWorkspace for CentralReplica`
      abbrev pub replica_workspace : Workspace (Replica D)
      replica_workspace = record {
        record_actor_id = actor;
        put_record = put_record;
        put_blob_record = put_record;
        get_record = get_record;
        get_authored_record = get_authored_record;
        list_records = list_records;
        list_authored_records = list_authored_records;
      }

  abbrev pub same_texts : List Text → List Text → Bool
  same_texts [] [] = true
  same_texts (x ∷ xs) (y ∷ ys) = same x y && same_texts xs ys
  same_texts xs ys = false

  unfoldable pub set_connected_clients : List Text → Effect (Replica D) Text (Unit {0})
  set_connected_clients clients s =
      let sorted = dedup (sort_by text_ord.order clients) in
      if same_texts s.connected_clients sorted then (ok tt, s) else (
        ok tt,
        record s { connected_clients = sorted; events = s.events ++ status_changed ∷ [] },
      )
