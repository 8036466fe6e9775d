-- ===== src/Domain.antt =====
-- crates/xo-core/src/domain.rs: the replicated records, their validation and the life of a note as
-- a chain of revisions. Identifiers are texts; an `f64` is its bit pattern; the encoder `ciborium`
-- and the hash `blake3` are a parameter, `Encoding`.
mod Types
pub mod Relative
pub mod Valid
pub mod Chain
pub mod Examples
pub use Types.*
use exokephalos.Prelude.{
  ℕ, ◌/◌, ◌%◌, ◌^◌, Bool, true, false, not, ◌&&◌, ◌||◌, Option, none, some, List, [], ◌∷◌, any,
  is_empty, ◌==◌, if◌then◌else◌,
}
use exokephalos.Prelude.Int.{ℤ}
use exokephalos.Prelude.Map.{BTreeMap, values}
use exokephalos.Prelude.Order.{same}
use exokephalos.Prelude.Paths.{Component, components, first_is, is_absolute, leaves_tree}
use exokephalos.Prelude.Result.{Result, ok, err, ◌>>=◌, ◌>>◌, ensure, map_err, try_for_each}
use exokephalos.Prelude.Set.{BTreeSet, collect}
use exokephalos.Prelude.Text.{Text, text, text_ord}
use exokephalos.Hlc.{Hlc}
use exokephalos.Id

-- `f64::is_finite`: not all of the eleven exponent bits are set.
unfoldable pub is_finite : ℕ → Bool
is_finite bits = not ((bits / 2 ^ 52) % 2 ^ 11 == 2047)

unfoldable mutual
  unfolding is_finite

  pub validate_value : FrontmatterValue → Result DomainError (Unit {0})
  validate_value null = ok tt
  validate_value (bool b) = ok tt
  validate_value (integer n) = ok tt
  validate_value (float bits) = ensure (is_finite bits) non_finite_number
  validate_value (string s) = ok tt
  validate_value (sequence values) = validate_values values
  validate_value (mapping fields) = validate_fields fields

  pub validate_values : Values → Result DomainError (Unit {0})
  validate_values nil = ok tt
  validate_values (cons v vs) = validate_value v >> validate_values vs

  pub validate_fields : Fields → Result DomainError (Unit {0})
  validate_fields end = ok tt
  validate_fields (field k v fs) = validate_value v >> validate_fields fs

unfoldable pub validate_schema : ℕ → Result DomainError (Unit {0})
validate_schema schema = ensure (schema == current_schema) (unsupported_schema schema)

-- The test that `validate_relative_path` and `safe_join` share.
unfoldable pub is_invalid_path : Text → Bool
is_invalid_path path =
    is_empty path
    || (is_absolute path
        || (any leaves_tree (components path) || first_is (text ".xo") (components path)))

unfoldable pub validate_relative_path : Text → Result DomainError (Unit {0})
validate_relative_path path = ensure (not (is_invalid_path path)) (invalid_path path)

unfoldable pub validate_revision : NoteRevision → Result DomainError (Unit {0})
validate_revision r = do
  validate_schema r.schema
  ensure (Id.is_valid r.note_id) (invalid_note_id r.note_id)
  ensure (not (is_empty r.author_id)) (empty_field (text "author_id"))
  ensure (same r.author_id r.hlc.actor_id) author_mismatch
  validate_relative_path r.materialized_path
  ensure (not (first_is (text "assets") (components r.materialized_path)))
      (invalid_path r.materialized_path)
  try_for_each validate_value (values r.frontmatter)

unfoldable pub validate_asset : AssetRecord → Result DomainError (Unit {0})
validate_asset r = do
  validate_schema r.schema
  ensure (not (is_empty r.id)) (empty_field (text "asset_id"))
  ensure (not (is_empty r.blob_hash)) (empty_field (text "blob_hash"))
  ensure (not (is_empty r.mime)) (empty_field (text "mime"))
  validate_relative_path r.materialized_path
  ensure (first_is (text "assets") (components r.materialized_path))
      (invalid_asset_path r.materialized_path)

unfoldable pub validate_config : ConfigRevision → Result DomainError (Unit {0})
validate_config r = do
  validate_schema r.schema
  validate_relative_path r.path
  ensure (not (is_empty r.blob_hash)) (empty_field (text "blob_hash"))
  ensure (same r.author_id r.hlc.actor_id) author_mismatch

unfoldable pub validate_head : Head → Result DomainError (Unit {0})
validate_head h = do
  ensure (Id.is_valid h.note_id) (invalid_note_id h.note_id)
  ensure (not (is_empty h.author_id)) (empty_field (text "author_id"))
  ensure (not (is_empty h.revision_id)) (empty_field (text "revision_id"))

unfoldable pub validate_tombstone : Tombstone → Result DomainError (Unit {0})
validate_tombstone t = do
  validate_schema t.schema
  ensure (not (is_empty t.target_id)) (empty_field (text "target_id"))
  ensure (same t.author_id t.hlc.actor_id) author_mismatch

-- `ciborium::into_writer` of a record, which may fail with a message, and the hexadecimal text of
-- the `blake3` hash of bytes.
pub record Encoding : Type 0 where
  pub revision_bytes : NoteRevision → Result Text Text
  pub config_bytes : ConfigRevision → Result Text Text
  pub hash : Text → Text

module _ (e : Encoding) where
  unfoldable pub canonical_bytes : NoteRevision → Result DomainError Text
  canonical_bytes r = do validate_revision r; map_err serialization (e.revision_bytes r)

  unfoldable pub revision_id : NoteRevision → Result DomainError RevisionId
  revision_id r = do bytes ← canonical_bytes r; ok (e.hash bytes)

  unfoldable pub config_canonical_bytes : ConfigRevision → Result DomainError Text
  config_canonical_bytes r = do validate_config r; map_err serialization (e.config_bytes r)

  unfoldable pub config_id : ConfigRevision → Result DomainError RevisionId
  config_id r = do bytes ← config_canonical_bytes r; ok (e.hash bytes)

  unfoldable pub revise :
      NoteRevision
      → Frontmatter
      → Text
      → Text
      → Hlc
      → ActorId
      → Bool
      → Result DomainError NoteRevision
  revise r frontmatter body materialized_path hlc author_id deleted = do
    predecessor ← revision_id r
    let revision : NoteRevision = record {
      schema = current_schema;
      note_id = r.note_id;
      frontmatter = frontmatter;
      body = body;
      materialized_path = materialized_path;
      hlc = hlc;
      author_id = author_id;
      predecessors = collect (predecessor ∷ []);
      deleted = deleted;
    }
    validate_revision revision
    ok revision

  unfoldable pub delete : NoteRevision → Hlc → ActorId → Result DomainError NoteRevision
  delete r hlc author_id = revise r r.frontmatter r.body r.materialized_path hlc author_id true

  unfoldable pub restore : NoteRevision → Hlc → ActorId → Result DomainError NoteRevision
  restore r hlc author_id = revise r r.frontmatter r.body r.materialized_path hlc author_id false

  unfoldable pub rename : NoteRevision → Text → Hlc → ActorId → Result DomainError NoteRevision
  rename r path hlc author_id = revise r r.frontmatter r.body path hlc author_id r.deleted
