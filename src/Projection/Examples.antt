-- ===== src/Projection/Examples.antt =====
-- A small tree of files, and the theorems on the projection at it.
use exokephalos.Prelude.{◌≡◌, ◌⊎◌, refl, true, none, some, [], ◌∷◌, arith}
use exokephalos.Prelude.Effect.{◌>>=◌, for_each}
use exokephalos.Prelude.Map.{get, insert, remove}
use exokephalos.Prelude.Order.{compare_lists}
use exokephalos.Prelude.Paths.{components}
use exokephalos.Prelude.Result.{ok}
use exokephalos.Prelude.Set
use exokephalos.Prelude.Text.{Text, text, text_ord}
use exokephalos.Domain.{is_invalid_path}
use exokephalos.Projection.Disk.{
  Location, location_ord, location, join, State, Faults, MaterializedEntry, DesiredFile,
}
use exokephalos.Projection.Expected.{
  hash_at, record_write, record_deletion, forget_write, persist, file_hash,
}
use exokephalos.Projection.Edits.{local_edit_survives}
use exokephalos.Projection.Outcome.{MayWrite, materialize_desired_lem}
use exokephalos.Projection.{
  reconcile_files, materialize_desired, write_desired, safe_join, remove_obsolete, remove_one,
  drop_obsolete, or_forget, remove_file, write_content, materialize_at, unique_desired,
}

abbrev no_faults : Faults
no_faults operation path = none

abbrev content_hash : Text → Text
content_hash bytes = b'#' ∷ bytes

abbrev root : Text
root = text "/w"

abbrev desired_a : DesiredFile
desired_a = record { id = text "a"; path = text "a.md"; bytes = text "new" }

abbrev desired_b : DesiredFile
desired_b = record { id = text "b"; path = text "b.md"; bytes = text "other" }

abbrev entry_a : MaterializedEntry
entry_a = record { path = text "a.md"; hash = content_hash (text "old") }

abbrev place_a : Location
place_a = text "a.md" ∷ text "w" ∷ []

abbrev place_b : Location
place_b = text "b.md" ∷ text "w" ∷ []

-- `a.md` was written as "old" and has been edited since.
abbrev edited : State
edited = record {
  files = (place_a, text "mine") ∷ [];
  expected = [];
  saved_expected = [];
  durable = true;
  manifest = [];
  saved_manifest = (text "a", entry_a) ∷ [];
  report = record { materialized = []; removed = []; diagnostics = [] };
}

-- The same before the edit.
abbrev unedited : State
unedited = record edited { files = (place_a, text "old") ∷ []; manifest = (text "a", entry_a) ∷ [] }

reconciling_writes_the_other :
    get place_b
      (reconcile_files no_faults content_hash root (desired_a ∷ desired_b ∷ []) edited).1.files
    ≡ some (text "other")
unfolding reconcile_files unique_desired remove_obsolete remove_one drop_obsolete or_forget
    remove_file write_content materialize_at materialize_desired write_desired safe_join persist
    record_write record_deletion forget_write file_hash ◌>>=◌ for_each get insert remove
    compare_lists Set.insert is_invalid_path components location join
reconciling_writes_the_other = refl

local_edit_survives_example :
    get place_a
      (reconcile_files no_faults content_hash root (desired_a ∷ desired_b ∷ []) edited).1.files
    ≡ some (text "mine")
unfolding get compare_lists
local_edit_survives_example =
    local_edit_survives no_faults content_hash root (desired_a ∷ desired_b ∷ []) edited place_a
      (text "mine") refl (λ e i at_a. ground (arith, i))

materialize_desired_lem_example :
    ((materialize_desired no_faults content_hash root desired_a unedited).0 ≡ ok tt)
    × ((MayWrite no_faults content_hash (join root (text "a.md")) desired_a unedited
          × (hash_at content_hash
                (join root (text "a.md"))
                (materialize_desired no_faults content_hash root desired_a unedited).1
              ≡ some (content_hash (text "new")))
          × (get
                (text "a")
                (materialize_desired no_faults content_hash root desired_a unedited).1.manifest
              ≡ some (record { path = text "a.md"; hash = content_hash (text "new") })))
        ⊎ ((¬ MayWrite no_faults content_hash (join root (text "a.md")) desired_a unedited)
            × ((materialize_desired no_faults content_hash root desired_a unedited).1.files
                ≡ (place_a, text "old") ∷ [])
            × ((materialize_desired no_faults content_hash root desired_a unedited).1.manifest
                ≡ (text "a", entry_a) ∷ [])))
unfolding is_invalid_path location join components compare_lists
materialize_desired_lem_example =
    materialize_desired_lem no_faults content_hash root desired_a unedited (λ operation path. refl)
      refl refl
