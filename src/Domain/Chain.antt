-- ===== src/Domain/Chain.antt =====
-- The revisions that `revise`, `delete`, `restore` and `rename` of domain.rs make.
use exokephalos.Prelude.{◌≡◌, refl, ◌∙◌, inl, inr, Bool, true, false, [], ◌∷◌, arith, subst}
use exokephalos.Prelude.Result.{ok, Result-cases}
use exokephalos.Prelude.Set.{collect, insert, extend}
use exokephalos.Prelude.Text.{Text, text_ord}
use exokephalos.Hlc.{Hlc}
use exokephalos.Domain.{
  ActorId, RevisionId, Frontmatter, NoteRevision, Encoding, current_schema, validate_revision,
  revision_id, revise, delete, restore, rename,
}
use exokephalos.Domain.Valid.{IsValid, validate_revision_iff}

-- `r'` follows `r` in the history of one note, with the content given.
pub record Follows (e : Encoding) (r : NoteRevision) (r' : NoteRevision) : Type 0 where
  pub parent : RevisionId
  pub parent_id : revision_id e r ≡ ok parent
  pub link : r'.predecessors ≡ parent ∷ []
  pub same_note : r'.note_id ≡ r.note_id
  pub valid : IsValid r'

-- What a new revision holds.
pub record Holds (r : NoteRevision) (frontmatter : Frontmatter) (body path : Text) (hlc : Hlc)
    (author : ActorId) (deleted : Bool) : Type 0 where
  pub frontmatter_eq : r.frontmatter ≡ frontmatter
  pub body_eq : r.body ≡ body
  pub path_eq : r.materialized_path ≡ path
  pub hlc_eq : r.hlc ≡ hlc
  pub author_eq : r.author_id ≡ author
  pub deleted_eq : r.deleted ≡ deleted

module _ (e : Encoding) (r r' : NoteRevision) where
  -- A revision that `revise` returns is valid, holds what was given, and has the revised one, whose
  -- identifier is its content's, for its only predecessor.
  pub revise_lem :
      (frontmatter : Frontmatter) (body path : Text) (hlc : Hlc) (author : ActorId) (deleted : Bool)
      → revise e r frontmatter body path hlc author deleted ≡ ok r'
      → Follows e r r' × Holds r' frontmatter body path hlc author deleted
  unfolding revise insert extend
  revise_lem frontmatter body path hlc author deleted h = elim (Result-cases (revision_id e r)) [
    | inr (d, f) ↦ absurd (ground arith)
    | inl (p, f) ↦ elim (Result-cases (validate_revision (next p))) [
      | inr (d, g) ↦ absurd (ground arith)
      | inl (u, g) ↦
          let same : next p ≡ r' = ground arith in
          subst (λ s. Follows e r s × Holds s frontmatter body path hlc author deleted) same
            (
              record {
                parent = p;
                parent_id = f;
                link = refl;
                same_note = refl;
                valid = (validate_revision_iff (next p)).0 g;
              },
              record {
                frontmatter_eq = refl;
                body_eq = refl;
                path_eq = refl;
                hlc_eq = refl;
                author_eq = refl;
                deleted_eq = refl;
              },
            )
    ]
  ]
    where
      next : RevisionId → NoteRevision
      next p = record {
        schema = current_schema;
        note_id = r.note_id;
        frontmatter = frontmatter;
        body = body;
        materialized_path = path;
        hlc = hlc;
        author_id = author;
        predecessors = collect (p ∷ []);
        deleted = deleted;
      }

-- A note that is deleted and restored has its content again, and the restored revision follows the
-- deletion, which follows the original.
pub restore-delete :
    (e : Encoding) (r deletion restored : NoteRevision) (t u : Hlc) (a b : ActorId)
    → delete e r t a ≡ ok deletion
    → restore e deletion u b ≡ ok restored
    → Follows e r deletion
      × Follows e deletion restored
      × (deletion.deleted ≡ true)
      × Holds restored r.frontmatter r.body r.materialized_path u b false
unfolding delete restore
restore-delete e r deletion restored t u a b h k =
    let (f, x) = revise_lem e r deletion r.frontmatter r.body r.materialized_path t a true h in
    let (g, y) =
      revise_lem e deletion restored deletion.frontmatter deletion.body deletion.materialized_path u
        b false k in
    (
      f,
      g,
      x.deleted_eq,
      record {
        frontmatter_eq = y.frontmatter_eq ∙ x.frontmatter_eq;
        body_eq = y.body_eq ∙ x.body_eq;
        path_eq = y.path_eq ∙ x.path_eq;
        hlc_eq = y.hlc_eq;
        author_eq = y.author_eq;
        deleted_eq = y.deleted_eq;
      },
    )

-- A rename changes the path alone, keeps a deleted note deleted, and follows the original.
pub rename_lem :
    (e : Encoding) (r renamed : NoteRevision) (path : Text) (t : Hlc) (a : ActorId)
    → rename e r path t a ≡ ok renamed
    → Follows e r renamed × Holds renamed r.frontmatter r.body path t a r.deleted
unfolding rename
rename_lem e r renamed path t a h = revise_lem e r renamed r.frontmatter r.body path t a r.deleted h
