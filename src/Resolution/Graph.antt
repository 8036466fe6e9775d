-- ===== src/Resolution/Graph.antt =====
-- What `validate_revision_graph` accepts, and what it answers otherwise.
use exokephalos.Prelude.{◌≡◌, refl, ◌↔◌, inl, inr, true, some, List, [], ◌∷◌, arith, Option-cases}
use exokephalos.Prelude.Map.{get}
use exokephalos.Prelude.Order.{same_iff}
use exokephalos.Prelude.Result.{Result, ok, err}
use exokephalos.Prelude.Text.{text_ord}
use exokephalos.Domain.{RevisionId, NoteRevision, DomainError, Encoding, revision_id}
use exokephalos.Resolution.{
  Revisions, is_identity, validate_predecessors, validate_entries, validate_revision_graph,
}

-- Every predecessor of `r` is stored and belongs to the same note.
abbrev pub HasPredecessors : Revisions → NoteRevision → List RevisionId → Type 0
HasPredecessors revisions r [] = Unit
HasPredecessors revisions r (p ∷ ps) =
    ((q : NoteRevision) × (get p revisions ≡ some q) × (q.note_id ≡ r.note_id))
    × HasPredecessors revisions r ps

abbrev pub IsWellLinked : Encoding → Revisions → Revisions → Type 0
IsWellLinked e revisions [] = Unit
IsWellLinked e revisions ((i, r) ∷ rest) =
    (revision_id e r ≡ ok i)
    × HasPredecessors revisions r r.predecessors
    × IsWellLinked e revisions rest

is_identity_iff :
    (o : Result DomainError RevisionId) (i : RevisionId) → (is_identity o i ≡ true) ↔ (o ≡ ok i)
is_identity_iff (ok j) i = ground (arith, same_iff j i)
is_identity_iff (err d) i = (λ h. cc, λ h. cc)

predecessors_iff :
    (revisions : Revisions) (i : RevisionId) (r : NoteRevision) (ps : List RevisionId)
    → (validate_predecessors revisions i r ps ≡ ok tt) ↔ HasPredecessors revisions r ps
unfolding validate_predecessors
predecessors_iff revisions i r [] = (λ h. tt, λ h. refl)
predecessors_iff revisions i r (p ∷ ps) = elim (Option-cases (get p revisions)) [
  | inl e ↦ (λ h. absurd (ground arith), λ h. absurd (ground arith))
  | inr (q, e) ↦ (
    λ h. (
      (q, e, ground (arith, same_iff q.note_id r.note_id)),
      (predecessors_iff revisions i r ps).0 (ground arith),
    ),
    λ h.
        let (q', e', s) = h.0 in
        ground (arith, same_iff q.note_id r.note_id, (predecessors_iff revisions i r ps).1 h.1),
  )
]

entries_iff :
    (e : Encoding) (revisions entries : Revisions)
    → (validate_entries e revisions entries ≡ ok tt) ↔ IsWellLinked e revisions entries
unfolding validate_entries
entries_iff e revisions [] = (λ h. tt, λ h. refl)
entries_iff e revisions ((i, r) ∷ rest) = (
  λ h. (
    (is_identity_iff (revision_id e r) i).0 (ground arith),
    (predecessors_iff revisions i r r.predecessors).0 (ground arith),
    (entries_iff e revisions rest).0 (ground arith),
  ),
  λ (a, b, c). ground (
    arith,
    (is_identity_iff (revision_id e r) i).1 a,
    (predecessors_iff revisions i r r.predecessors).1 b,
    (entries_iff e revisions rest).1 c,
  ),
)

-- A graph is accepted exactly if each revision is stored under the identifier of its content, and
-- each of its predecessors is stored and belongs to the same note.
pub validate_revision_graph_iff :
    (e : Encoding) (revisions : Revisions)
    → (validate_revision_graph e revisions ≡ ok tt) ↔ IsWellLinked e revisions revisions
unfolding validate_revision_graph
validate_revision_graph_iff e revisions = entries_iff e revisions revisions
