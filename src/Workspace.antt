-- ===== src/Workspace.antt =====
-- crates/xo-core/src/record_workspace.rs: the store of records that the typed repository stands on,
-- as an interface, and who wrote a record.
pub mod Laws
use exokephalos.Prelude.{ℕ, Bool, true, false, ◌||◌, Option, none, some, List, [], ◌∷◌}
use exokephalos.Prelude.Effect.{Effect}
use exokephalos.Prelude.Result.{Result, ok, err}
use exokephalos.Prelude.Text.{Text, text, starts_with}
use exokephalos.Domain.{
  ActorId, NoteRevision, Head, AssetRecord, ConfigRevision, Tombstone, Encoding,
}

-- `AuthoredWorkspaceValue`
pub record AuthoredValue : Type 0 where
  pub key : Text
  pub value : Text
  pub author : Text

-- `RecordWorkspace`; the failure of an operation is its message.
pub record Workspace (W : Type 0) : Type 0 where
  pub record_actor_id : ActorId
  pub put_record : Text → Text → Effect W Text Text
  pub put_blob_record : Text → Text → Effect W Text Text
  pub get_record : Text → Effect W Text (Option Text)
  pub get_authored_record : Text → Effect W Text (Option AuthoredValue)
  pub list_records : Text → Effect W Text (List (Text × Text))
  pub list_authored_records : Text → Effect W Text (List AuthoredValue)

-- `ciborium` at the record types; `encoding` has the writers of revisions and configurations.
pub record Codec : Type 0 where
  pub encoding : Encoding
  pub write_head : Head → Result Text Text
  pub write_asset : AssetRecord → Result Text Text
  pub write_tombstone : Tombstone → Result Text Text
  pub read_revision : Text → Result Text NoteRevision
  pub read_head : Text → Result Text Head
  pub read_asset : Text → Result Text AssetRecord
  pub read_config : Text → Result Text ConfigRevision
  pub read_tombstone : Text → Result Text Tombstone

-- `str::contains` with a text.
unfoldable pub contains_text : Text → Text → Bool
contains_text pattern [] = starts_with pattern []
contains_text pattern (c ∷ s) = starts_with pattern (c ∷ s) || contains_text pattern s

abbrev author_of : {A : Type 0} → (A → ActorId) → Result Text A → Option ActorId
author_of f (ok a) = some (f a)
author_of f (err e) = none

module _ (codec : Codec) where
  abbrev other_author : Text → Text → Option ActorId
  other_author key value = elim (starts_with (text "config/") key) [
    | true ↦ author_of (λ r. r.author_id) (codec.read_config value)
    | false ↦ elim (starts_with (text "tombstone/") key) [
      | true ↦ author_of (λ r. r.author_id) (codec.read_tombstone value)
      | false ↦ none
    ]
  ]

  unfoldable pub record_author : Text → Text → Option ActorId
  record_author key value = elim (contains_text (text "/revision/") key) [
    | true ↦ author_of (λ r. r.author_id) (codec.read_revision value)
    | false ↦ elim (contains_text (text "/head/") key) [
      | true ↦ author_of (λ r. r.author_id) (codec.read_head value)
      | false ↦ other_author key value
    ]
  ]
