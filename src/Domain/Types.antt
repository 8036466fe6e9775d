-- ===== src/Domain/Types.antt =====
-- The types of domain.rs: identifiers, frontmatter and the replicated records.
use exokephalos.Prelude.{ℕ, Bool}
use exokephalos.Prelude.Int.{ℤ}
use exokephalos.Prelude.Map.{BTreeMap}
use exokephalos.Prelude.Set.{BTreeSet}
use exokephalos.Prelude.Text.{Text}
use exokephalos.Hlc.{Hlc}

-- `WorkspaceId`, `ActorId`, `NoteId`, `RevisionId`, `AssetId`
abbrev pub ActorId : Type 0
ActorId = Text

abbrev pub NoteId : Type 0
NoteId = Text

abbrev pub RevisionId : Type 0
RevisionId = Text

abbrev pub AssetId : Type 0
AssetId = Text

abbrev pub current_schema : ℕ
current_schema = 1

mutual
  pub data FrontmatterValue : Type 0 where
    null : FrontmatterValue
    bool : Bool → FrontmatterValue
    integer : ℤ → FrontmatterValue
    float : ℕ → FrontmatterValue
    string : Text → FrontmatterValue
    sequence : Values → FrontmatterValue
    mapping : Fields → FrontmatterValue

  pub data Values : Type 0 where
    nil : Values
    cons : FrontmatterValue → Values → Values

  pub data Fields : Type 0 where
    end : Fields
    field : Text → FrontmatterValue → Fields → Fields

abbrev pub Frontmatter : Type 0
Frontmatter = BTreeMap Text FrontmatterValue

pub data DomainError : Type 0 where
  unsupported_schema : ℕ → DomainError
  empty_field : Text → DomainError
  invalid_note_id : Text → DomainError
  invalid_path : Text → DomainError
  invalid_asset_path : Text → DomainError
  non_finite_number : DomainError
  author_mismatch : DomainError
  serialization : Text → DomainError

pub record Note : Type 0 where
  pub id : NoteId
  pub frontmatter : Frontmatter
  pub body : Text
  pub path : Text

pub record NoteRevision : Type 0 where
  pub schema : ℕ
  pub note_id : NoteId
  pub frontmatter : Frontmatter
  pub body : Text
  pub materialized_path : Text
  pub hlc : Hlc
  pub author_id : ActorId
  pub predecessors : BTreeSet RevisionId
  pub deleted : Bool

pub record Head : Type 0 where
  pub note_id : NoteId
  pub author_id : ActorId
  pub revision_id : RevisionId

pub record Conflict : Type 0 where
  pub note_id : NoteId
  pub winning_revision : RevisionId
  pub concurrent_revisions : BTreeSet RevisionId

pub record AssetRecord : Type 0 where
  pub schema : ℕ
  pub id : AssetId
  pub blob_hash : Text
  pub mime : Text
  pub size : ℕ
  pub materialized_path : Text

pub record ConfigRevision : Type 0 where
  pub schema : ℕ
  pub path : Text
  pub blob_hash : Text
  pub size : ℕ
  pub hlc : Hlc
  pub author_id : ActorId
  pub predecessors : BTreeSet RevisionId

pub record Tombstone : Type 0 where
  pub schema : ℕ
  pub target_id : Text
  pub author_id : ActorId
  pub revision_id : RevisionId
  pub hlc : Hlc
