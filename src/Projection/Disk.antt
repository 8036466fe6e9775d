-- ===== src/Projection/Disk.antt =====
-- The state that the projection works on, and what its operations may fail with.
use exokephalos.Prelude.{
  ℕ, Bool, false, Option, none, some, List, [], ◌∷◌, ◌++◌, map, last?, ◌==◌, if◌then◌else◌,
}
use exokephalos.Prelude.Effect.{Effect}
use exokephalos.Prelude.Map.{BTreeMap}
use exokephalos.Prelude.Order.{Ord, list_ord}
use exokephalos.Prelude.Paths.{components, follow}
use exokephalos.Prelude.Result.{Result, ok, err}
use exokephalos.Prelude.Text.{Text, text, text_ord}

-- The names on the way to a file, innermost first.
abbrev pub Location : Type 0
Location = List Text

instance abbrev pub location_ord : Ord Location
location_ord = list_ord

unfoldable pub location : Text → Location
location path = follow [] (components path)

abbrev ends_in_slash : Option ℕ → Bool
ends_in_slash none = false
ends_in_slash (some c) = c == b'/'

-- `Path::join` with a relative path.
unfoldable pub join : Text → Text → Text
join root relative =
    if ends_in_slash (last? root) then root ++ relative else root ++ (b'/' ∷ relative)

-- `path.to_string_lossy().replace('\\', "/")`
abbrev pub path_key : Text → Text
path_key path = map (λ c. if c == b'\\' then b'/' else c) path

abbrev pub deleted_hash : Text
deleted_hash = text "deleted"

pub data Operation : Type 0 where
  reading writing removing making_directory saving_expected loading_manifest saving_manifest :
      Operation

pub record Diagnostic : Type 0 where
  pub path : Text
  pub code : Text
  pub message : Text

pub data ProjectionError : Type 0 where
  io : Text → ProjectionError
  invalid_path : Text → ProjectionError
  invalid_note : Text → Text → ProjectionError
  invalid_asset : Text → Text → ProjectionError
  markdown : Text → ProjectionError
  persist_error : Text → ProjectionError
  expected_write_state : Text → ProjectionError
  poisoned : ProjectionError

pub record MaterializedEntry : Type 0 where
  pub path : Text
  pub hash : Text

pub record DesiredFile : Type 0 where
  pub id : Text
  pub path : Text
  pub bytes : Text

-- `MaterializationReport`
pub record Report : Type 0 where
  pub materialized : List Text
  pub removed : List Text
  pub diagnostics : List Diagnostic

pub record State : Type 0 where
  pub files : BTreeMap Location Text
  pub expected : BTreeMap Text Text
  pub saved_expected : BTreeMap Text Text
  pub durable : Bool
  pub manifest : BTreeMap Text MaterializedEntry
  pub saved_manifest : BTreeMap Text MaterializedEntry
  pub report : Report

-- The error with which an operation on a path fails, if it does.
abbrev pub Faults : Type 0
Faults = Operation → Text → Option ProjectionError

abbrev failure : Option ProjectionError → Result ProjectionError (Unit {0})
failure none = ok tt
failure (some e) = err e

abbrev pub Step : Type 0 → Type 0
Step A = Effect State ProjectionError A

abbrev pub at_fault : Faults → Operation → Text → Step (Unit {0})
at_fault faults operation path s = (failure (faults operation path), s)
