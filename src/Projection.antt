-- ===== src/Projection.antt =====
-- crates/xo-core/src/projection.rs: writing the resolved records into a tree of files. `blake3` is
-- the parameter `hash`; the operations of the file system fail where `faults` says so. A file is
-- known by the names on its way from the root of the file system. The state files are held as the
-- maps that they encode.
pub mod Disk
pub mod Edits
pub mod Examples
pub mod Expected
pub mod Frame
pub mod Manifest
pub mod Outcome
pub mod Preserve
pub mod Reading
use exokephalos.Prelude.{
  ℕ, Bool, true, false, not, ◌&&◌, ◌||◌, Option, none, some, List, [], ◌∷◌, ◌++◌, map, is_empty,
  ◌==◌, if◌then◌else◌, last?,
}
use exokephalos.Prelude.Effect.{
  Effect, return, fail, lift, gets, modify, for_each, continue, ◌>>=◌, ◌>>◌,
}
use exokephalos.Prelude.Map.{BTreeMap, get, insert, remove, values}
use exokephalos.Prelude.Order.{same, contains}
use exokephalos.Prelude.Result.{Result, ok, err}
use exokephalos.Prelude.Set
use exokephalos.Prelude.Set.{BTreeSet}
use exokephalos.Prelude.Text.{Text, text, text_ord}
use exokephalos.Domain.{is_invalid_path}
use exokephalos.Projection.Expected.{
  record_write, record_deletion, forget_write, hash_at, file_hash,
}
use exokephalos.Projection.Disk.{
  Step, Location, location_ord, location, join, path_key, Operation, reading, writing, removing,
  making_directory, saving_expected, loading_manifest, saving_manifest, Diagnostic, ProjectionError,
  io, invalid_path, MaterializedEntry, DesiredFile, Report, State, Faults, at_fault, deleted_hash,
}

abbrev pub diagnose : Text → Text → Text → Step (Unit {0})
diagnose path code message = modify (λ s. record s {
  report = record s.report {
    diagnostics =
        s.report.diagnostics ++ record { path = path; code = code; message = message } ∷ [];
  };
})

abbrev pub forget_entry : Text → Step (Unit {0})
forget_entry id = modify (λ s. record s { manifest = remove id s.manifest })

unfoldable pub safe_join : Text → Text → Result ProjectionError Text
safe_join root relative =
    if is_invalid_path relative then err (invalid_path relative) else ok (join root relative)

abbrev pub is_obsolete : Option DesiredFile → MaterializedEntry → Bool
is_obsolete none entry = true
is_obsolete (some file) entry = not (same file.path entry.path)

abbrev pub obsolete :
    BTreeMap Text DesiredFile → BTreeMap Text MaterializedEntry → BTreeMap Text MaterializedEntry
obsolete desired [] = []
obsolete desired ((id, entry) ∷ rest) =
    let others = obsolete desired rest in
    if is_obsolete (get id desired) entry then (id, entry) ∷ others else others

-- The last materialized version of this record lay at this path, and is what is on disk.
abbrev pub is_unedited : Option MaterializedEntry → Text → Option Text → Bool
is_unedited none path actual = false
is_unedited (some entry) path none = false
is_unedited (some entry) path (some actual) = same entry.path path && same actual entry.hash

abbrev pub is_hash : Option Text → Text → Bool
is_hash none h = false
is_hash (some actual) h = same actual h

abbrev pub is_missing : Option Text → Bool
is_missing none = true
is_missing (some actual) = false

module _ (faults : Faults) (hash : Text → Text) where
  -- `NamedTempFile::new_in`, `write_all`, `sync_all` and `persist`: all of it or nothing.
  unfoldable pub write_content : Text → Text → Step (Unit {0})
  write_content destination bytes = do
    at_fault faults writing destination
    modify (λ s. record s { files = insert (location destination) bytes s.files })

  unfoldable pub remove_file : Text → Step (Unit {0})
  remove_file path = do
    at_fault faults removing path
    modify (λ s. record s { files = remove (location path) s.files })

  -- `if let Err(error) = m { expected_writes.remove(path)?; return Err(error); }`
  unfoldable pub or_forget : Text → Step (Unit {0}) → Step (Unit {0})
  or_forget path m s =
      let (r, s') = m s in
      elim r [ ok u ↦ (ok tt, s') | err e ↦ (do forget_write faults path; fail e) s' ]

  -- One obsolete entry of `remove_obsolete`, by the hash of what is on disk.
  unfoldable pub drop_obsolete : Text → Text → MaterializedEntry → Option Text → Step (Unit {0})
  drop_obsolete id path entry none = forget_entry id
  drop_obsolete id path entry (some h) =
      if same h entry.hash
      then (do
        record_deletion faults path
        or_forget path (remove_file path)
        forget_entry id
        modify (λ s. record s {
          report = record s.report { removed = s.report.removed ++ path ∷ [] };
        }))
      else diagnose entry.path (text "local-edit-preserved")
          (text "obsolete projection differs from its last materialized hash")

  unfoldable pub remove_one : Text → Text × MaterializedEntry → Step (Unit {0})
  remove_one root (id, entry) = do
    path ← lift (safe_join root entry.path)
    h ← file_hash faults hash path
    drop_obsolete id path entry h

  unfoldable pub remove_obsolete : Text → BTreeMap Text DesiredFile → Step (Unit {0})
  remove_obsolete root desired s = for_each (obsolete desired s.manifest) (remove_one root) s

  unfoldable pub write_desired : Text → DesiredFile → Text → Step (Unit {0})
  write_desired destination file desired_hash = do
    record_write faults destination desired_hash
    lift (if is_empty (location destination) then err (invalid_path file.path) else ok tt)
    at_fault faults making_directory destination
    or_forget destination (write_content destination file.bytes)
    modify (λ s. record s {
      report = record s.report { materialized = s.report.materialized ++ destination ∷ [] };
    })

  unfoldable pub materialize_at :
      Text → DesiredFile → Option Text → Option MaterializedEntry → Step (Unit {0})
  materialize_at destination file actual prior =
      let desired_hash = hash file.bytes in
      if is_missing actual || (is_hash actual desired_hash || is_unedited prior file.path actual)
      then (do
        (if is_hash actual desired_hash
            then return tt
            else write_desired destination file desired_hash)
        modify (λ s. record s {
          manifest = insert file.id (record { path = file.path; hash = desired_hash }) s.manifest;
        }))
      else diagnose file.path (text "local-edit-preserved")
          (text "file differs from the last materialized version")

  unfoldable pub materialize_desired : Text → DesiredFile → Step (Unit {0})
  materialize_desired root file = do
    destination ← lift (safe_join root file.path)
    actual ← file_hash faults hash destination
    prior ← gets (λ s. get file.id s.manifest)
    materialize_at destination file actual prior

abbrev pub is_present : Option DesiredFile → Bool
is_present none = false
is_present (some f) = true

-- A record whose identity or path is taken is left out with a diagnostic.
unfoldable pub unique_desired :
    List DesiredFile → BTreeMap Text DesiredFile → BTreeSet Text → Step (BTreeMap Text DesiredFile)
unique_desired [] result paths s = (ok result, s)
unique_desired (file ∷ rest) result paths s =
    elim (is_present (get file.id result) || contains paths file.path) [
      | true ↦
          unique_desired rest result paths
            (diagnose file.path (text "projection-path-conflict")
              (text "multiple records resolve to this identity or path") s).1
      | false ↦ unique_desired rest (insert file.id file result) (Set.insert file.path paths) s
    ]

module _ (faults : Faults) (hash : Text → Text) where
  -- The manifest is loaded, worked on, and saved only if all went well; the report starts empty.
  unfoldable pub reconcile_files : Text → List DesiredFile → Step Report
  reconcile_files root desired = do
    modify (λ s. record s { report = record { materialized = []; removed = []; diagnostics = [] } })
    unique ← unique_desired desired [] []
    at_fault faults loading_manifest []
    modify (λ s. record s { manifest = s.saved_manifest })
    remove_obsolete faults hash root unique
    for_each (values unique) (materialize_desired faults hash root)
    at_fault faults saving_manifest []
    modify (λ s. record s { saved_manifest = s.manifest })
    gets (λ s. s.report)
